-- ===== src/Container.antt =====
-- pkg/buildkit/exec.go: a container on the state of an operation.
pub mod Paths
pub mod Cleanups
use buildg.Prelude.{
  ℕ, Bool, true, false, not, ◌&&◌, List, [], ◌∷◌, ◌++◌, Option, none, some, map, if◌then◌else◌,
  ◌==◌,
}
use buildg.Text.{Text, codes, text_eq}
use buildg.Errors.{Error, no_rootfs_mount, wrapped, described, Result, ok, err}
use buildg.Types.{Mount, ExecOp, OpKind, exec_op, other_op, RegisteredStatus}
use buildg.Controller.Sources.{◌>>=◌}
use buildg.Container.Paths.{join}

-- gwclient.Mount; `ref` is set for the debugger image alone.
pub record ContainerMount : Type 0 where
  pub selector : Text
  pub dest : Text
  pub result_id : Text
  pub readonly : ℕ
  pub mount_type : ℕ
  pub cache_opt : ℕ
  pub secret_opt : ℕ
  pub ssh_opt : ℕ
  pub ref : Option ℕ

-- `stdio` stands for the three streams, `watches` says that WatchSignal is set.
pub record ContainerConfig : Type 0 where
  pub info : RegisteredStatus
  pub args : List Text
  pub tty : Bool
  pub stdio : ℕ
  pub image : Option ℕ
  pub mountroot : Text
  pub input_mount : Bool
  pub env : List Text
  pub cwd : Text
  pub watches : Bool
  pub no_set_raw : Bool

pub record NewContainerRequest : Type 0 where
  pub mounts : List ContainerMount
  pub net_mode : ℕ
  pub platform : ℕ
  pub constraints : ℕ

pub record StartRequest : Type 0 where
  pub args : List Text
  pub env : List Text
  pub user : Text
  pub cwd : Text
  pub tty : Bool
  pub stdio : ℕ
  pub security_mode : ℕ

-- what the operation decides of a container
pub record Setup : Type 0 where
  pub mounts : List ContainerMount
  pub net_mode : ℕ
  pub security_mode : ℕ
  pub env : List Text
  pub user : Text
  pub cwd : Text

-- What is done outside, in order.
pub data Effect : Type 0 where
  create : NewContainerRequest → Effect
  release : Effect
  start : StartRequest → Effect
  set_raw reset : Effect
  watch cancel_watch : Effect

-- BuildKit's constants and what the gateway and the console answer: `failures` of one call each.
pub record Gateway : Type 0 where
  pub net_none : ℕ
  pub sandbox : ℕ
  pub bind : ℕ
  pub unset : ℕ
  pub new_container : NewContainerRequest → Option Error
  pub start_process : StartRequest → Result ℕ
  pub raw_failure : Option Error

abbrev pub default_path : Text
default_path = codes "PATH=/usr/local/sbin:/usr/local/bin:/usr/sbin:/usr/bin:/sbin:/bin"

abbrev pub or_cwd : Text → Text → Text
or_cwd wanted cwd = if wanted == [] then cwd else wanted

abbrev pub mounted : Mount → Text → ContainerMount
mounted m id = record {
  selector = m.selector;
  dest = m.dest;
  result_id = id;
  readonly = m.readonly;
  mount_type = m.mount_type;
  cache_opt = m.cache_opt;
  secret_opt = m.secret_opt;
  ssh_opt = m.ssh_opt;
  ref = none;
}

-- The loop over the mounts of a RUN instruction; an index past the ids is a panic, `none`.
unfoldable pub mounts_of : List Mount → List Text → Option (List ContainerMount)
mounts_of [] ids = some []
mounts_of (m ∷ ms) [] = none
mounts_of (m ∷ ms) (id ∷ ids) = do rest ← mounts_of ms ids; some (mounted m id ∷ rest)

module _ (G : Gateway) where
  abbrev pub root_mount : Text → Option ℕ → ContainerMount
  root_mount id image = record {
    selector = [];
    dest = codes "/";
    result_id = id;
    readonly = G.unset;
    mount_type = G.bind;
    cache_opt = G.unset;
    secret_opt = G.unset;
    ssh_opt = G.unset;
    ref = image;
  }

  abbrev pub exec_setup : ExecOp → ContainerConfig → List ContainerMount → Setup
  exec_setup e cfg mounts = record {
    mounts = mounts;
    net_mode = e.network;
    security_mode = e.security;
    env = e.meta.env ++ cfg.env;
    user = e.meta.user;
    cwd = or_cwd cfg.cwd e.meta.cwd;
  }

  abbrev pub setup_of : OpKind → List Text → ContainerConfig → Option (Result Setup)
  setup_of (exec_op e) ids cfg = do
    mounts ← mounts_of e.mounts ids
    some (ok (exec_setup e cfg mounts))
  setup_of other_op (id ∷ []) cfg = some (
      ok (record {
        mounts = root_mount id none ∷ [];
        net_mode = G.net_none;
        security_mode = G.sandbox;
        env = default_path ∷ cfg.env;
        user = [];
        cwd = or_cwd cfg.cwd (codes "/");
      }))
  setup_of other_op ids cfg = some (err no_rootfs_mount)

  abbrev pub with_image : Option ℕ → Text → List ContainerMount → List ContainerMount
  with_image none root ms = ms
  with_image (some i) root ms =
      root_mount [] (some i)
      ∷ map {B = ContainerMount} (λ (m : ContainerMount). record m { dest = join root m.dest }) ms

  abbrev pub container_request : ContainerConfig → Setup → NewContainerRequest
  container_request cfg s = record {
    mounts = with_image cfg.image cfg.mountroot s.mounts;
    net_mode = s.net_mode;
    platform = cfg.info.op.platform;
    constraints = cfg.info.op.constraints;
  }

  abbrev pub start_request : ContainerConfig → Setup → StartRequest
  start_request cfg s = record {
    args = cfg.args;
    env = s.env;
    user = s.user;
    cwd = s.cwd;
    tty = cfg.tty;
    stdio = cfg.stdio;
    security_mode = s.security_mode;
  }

  -- The process with the cleanups that undo what was done, in the order in which they run, or an error; and what was
  -- done so far.
  abbrev pub Outcome : Type 0
  Outcome = Result (ℕ × List Effect) × List Effect

  abbrev pub watch_signal : Bool → ℕ → List Effect → List Effect → Outcome
  watch_signal false proc cleanups done = (ok (proc, cleanups), done)
  watch_signal true proc cleanups done = (ok (proc, cancel_watch ∷ cleanups), done ++ watch ∷ [])

  -- An error runs the cleanups.
  abbrev pub fail : Error → List Effect → List Effect → Outcome
  fail e cleanups done = (err e, done ++ cleanups)

  abbrev pub raw : ContainerConfig → ℕ → Option Error → List Effect → List Effect → Outcome
  raw cfg proc (some e) cleanups done =
      fail (described (codes "failed to configure terminal") e) cleanups done
  raw cfg proc none cleanups done =
      watch_signal cfg.watches proc (reset ∷ cleanups) (done ++ set_raw ∷ [])

  abbrev pub started_process :
      ContainerConfig → Result ℕ → List Effect → List Effect → StartRequest → Outcome
  started_process cfg (err e) cleanups done req =
      fail (wrapped (codes "failed to start container") e) cleanups done
  started_process cfg (ok proc) cleanups done req =
      if cfg.tty && not cfg.no_set_raw
      then raw cfg proc G.raw_failure cleanups (done ++ start req ∷ [])
      else watch_signal cfg.watches proc cleanups (done ++ start req ∷ [])

  abbrev pub created : ContainerConfig → Setup → Option Error → Outcome
  created cfg s (some e) = (err (described (codes "failed to create debug container") e), [])
  created cfg s none =
      started_process cfg (G.start_process (start_request cfg s)) (release ∷ [])
        (create (container_request cfg s) ∷ []) (start_request cfg s)

  abbrev pub run_setup : ContainerConfig → Result Setup → Outcome
  run_setup cfg (err e) = (err e, [])
  run_setup cfg (ok s) = created cfg s (G.new_container (container_request cfg s))

  unfoldable pub exec_container : ContainerConfig → Option Outcome
  exec_container cfg = do
    setup ←
        setup_of cfg.info.op.kind
          (if cfg.input_mount then cfg.info.input_ids else cfg.info.mount_ids) cfg
    some (run_setup cfg setup)
