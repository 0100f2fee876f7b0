-- ===== src/Client/Setup.antt =====
-- pkg/buildkit/client.go: the worker, the controller and the client of BuildKit.
use buildg.Prelude.{Bool, List, [], ◌∷◌, Option, none, some, if◌then◌else◌, ◌==◌}
use buildg.Text.{Text, codes, text_eq}
use buildg.Errors.{Error, no_root_dir, unknown_snapshotter, Result, ok, err, ◌>>=◌}
use buildg.Container.Paths.{join}

-- the fields of config.Config that are read
pub record Config : Type 0 where
  pub root : Text
  pub snapshotter : Text
  pub rootless : Bool
  pub net_mode : Text
  pub cni_config_path : Text
  pub cni_binary_path : Text

pub data Snapshotter : Type 0 where
  native overlayfs : Snapshotter

pub record NetOpt : Type 0 where
  pub mode : Text
  pub cni_root : Text
  pub cni_config : Text
  pub cni_binary : Text

-- BuildKit's constructors.
pub record BuildKit : Type 1 where
  pub WorkerOpt : Type 0
  pub Worker : Type 0
  pub Hosts : Type 0
  pub Workers : Type 0
  pub Manager : Type 0
  pub CacheStore : Type 0
  pub History : Type 0
  pub Frontend : Type 0
  pub Controller : Type 0
  pub Client : Type 0
  pub overlay_supported : Text → Option Error
  pub new_worker_opt : Text → Snapshotter → Bool → NetOpt → Result WorkerOpt
  pub registry_hosts : Hosts
  pub base_worker : WorkerOpt → Hosts → Result Worker
  pub add_worker : Worker → Result Workers
  pub new_manager : Result Manager
  pub new_store : Text → Result CacheStore
  pub open_history : Text → Result History
  pub gateway_frontend : Workers → Result Frontend
  pub new_controller :
      Manager → Workers → Frontend → Hosts → CacheStore → History → Worker → Result Controller
  pub dial : Controller → Result Client

abbrev pub auto_name : Option Error → Text
auto_name none = codes "overlayfs"
auto_name (some e) = codes "native"

unfoldable pub choose_snapshotter : Option Error → Text → Result Snapshotter
choose_snapshotter supported given =
    let name = if given == codes "auto" then auto_name supported else given in
    if name == codes "native"
    then ok native
    else if name == codes "overlayfs"
    then ok overlayfs
    else err (unknown_snapshotter name)

module _ (B : BuildKit) where
  open B use {
    Worker, Hosts, Frontend, Controller, Client, overlay_supported, new_worker_opt, registry_hosts,
    base_worker, add_worker, new_manager, new_store, open_history, gateway_frontend, new_controller,
    dial,
  }

  abbrev pub worker_with : Config → Result (Worker × Hosts)
  worker_with cfg = do
    sn ← choose_snapshotter (overlay_supported cfg.root) cfg.snapshotter
    opt ← new_worker_opt cfg.root sn cfg.rootless (record {
      mode = cfg.net_mode;
      cni_root = cfg.root;
      cni_config = cfg.cni_config_path;
      cni_binary = cfg.cni_binary_path;
    })
    w ← base_worker opt registry_hosts
    ok (w, registry_hosts)

  unfoldable pub new_worker : Config → Result (Worker × Hosts)
  unfolding choose_snapshotter
  new_worker cfg = if cfg.root == [] then err no_root_dir else worker_with cfg

  -- the wrappers of a debug controller
  pub record Debugging : Type 0 where
    pub debug_worker : Worker → Worker
    pub frontend_with_debug : Frontend → Frontend

  abbrev pub worker_of : Option Debugging → Worker → Worker
  worker_of none w = w
  worker_of (some d) w = d.debug_worker w

  abbrev pub frontend_of : Option Debugging → Frontend → Frontend
  frontend_of none f = f
  frontend_of (some d) f = d.frontend_with_debug f

  abbrev pub controller_with : Config → Option Debugging → Result Controller
  controller_with cfg debugging = do
    (base, hosts) ← new_worker cfg
    let w = worker_of debugging base
    workers ← add_worker w
    sessions ← new_manager
    store ← new_store (join cfg.root (codes "cache.db"))
    history ← open_history (join cfg.root (codes "history.db"))
    f ← gateway_frontend workers
    new_controller sessions workers (frontend_of debugging f) hosts store history w

  -- An error stops the server that was started. The list holds the controllers that serve.
  abbrev pub connected : Controller → Result Client → Result Client × List Controller
  connected c (err e) = (err e, [])
  connected c (ok cl) = (ok cl, c ∷ [])

  abbrev pub served : Result Controller → Result Client × List Controller
  served (err e) = (err e, [])
  served (ok c) = connected c (dial c)

  unfoldable pub new_client : Config → Option Debugging → Result Client × List Controller
  unfolding new_worker
  new_client cfg debugging =
      if cfg.root == [] then (err no_root_dir, []) else served (controller_with cfg debugging)
