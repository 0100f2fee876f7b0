-- ===== src/Main/Actions.antt =====
-- main.go: the actions of the commands, from their options to their end.
pub mod Exclusive
pub mod Debug
use buildg.Prelude.{ℕ, Bool, true, false, List, [], Option, none, some, ◌==◌, if◌then◌else◌}
use buildg.Int.{ℤ}
use buildg.Text.{Text, codes, text_eq}
use buildg.Errors.{Error, root_not_specified, Result, ok, err}
use buildg.Breakpoints.{Breakpoints, on_fail, new_breakpoints, add}
use buildg.Client.Setup.{Config, BuildKit, new_client}
use buildg.Client.Usage.{UsageInfo, Row, prune_cache, du_cache}
use buildg.Dap.Debugger.{BuildTools}
use buildg.Dap.Io.Attach.{Terminal, Attached, attach_container_io}
use buildg.Main.Os.{Io, ◌>>=◌, give, Os}
use buildg.Main.Roots.{
  default_serve_root_dir, default_dap_root_dir, Root, directory, cleanup_all, parse_root,
  debug_root, exclusive_root, release_root,
}
use buildg.Main.Options.{BuildOptions, parse_build}
use buildg.Main.Flags.{
  Context, first, GlobalOptions, global_options, DebugOptions, build_flags, debug_options,
  prune_all, set_tty_raw,
}

-- an error, and the lines that are written
abbrev pub Written : Type 0
Written = Option Error × List Row

-- What Prune and DiskUsage of BuildKit's client do: what Prune sends before it returns, and what DiskUsage returns.
pub record Usage (C W : Type 0) : Type 0 where
  pub prune : C → Bool → W → (List UsageInfo × Option Error) × W
  pub disk_usage : C → W → Result (List UsageInfo) × W

abbrev pub with_client : {C W : Type 0} → Result C → (C → W → W) → W → W
with_client (err e) f w = w
with_client (ok c) f w = f c w

module _ (B : BuildKit) {W : Type 0} (U : Usage B.Client W) where
  -- buildkit.Prune
  abbrev pub run_prune : Bool → Config → W → Written × W
  run_prune all cfg w =
      let client = (new_client B cfg none).0 in
      (
        prune_cache client all (λ c a. (U.prune c a w).0),
        with_client client (λ c v. (U.prune c all v).1) w,
      )

  -- buildkit.Du
  abbrev pub run_du : Config → W → Written × W
  run_du cfg w =
      let client = (new_client B cfg none).0 in
      (
        du_cache client (λ c. (U.disk_usage c w).0),
        with_client client (λ c v. (U.disk_usage c v).1) w,
      )

-- what debugAction gives to Debug
pub record DebugSetup (Options : Type 0) : Type 0 where
  pub cfg : Config
  pub options : Options
  pub breakpoints : Breakpoints
  pub debug_image : Text
  pub stop_on_entry : Bool
  pub cleanup_all : Bool
  pub startup_timeout : ℤ
  pub log_file : Text

module _ (O : Os) (getenv : Text → Text) (rootless : Bool) where
  open O use {World}

  abbrev pub config_of : GlobalOptions → Config
  config_of g = record {
    root = [];
    snapshotter = g.snapshotter;
    rootless = rootless;
    net_mode = g.net_mode;
    cni_config_path = g.cni_config_path;
    cni_binary_path = g.cni_binary_path;
  }

  unfoldable pub parse_global_worker_config : GlobalOptions → Io World (Config × Text)
  unfolding parse_root
  parse_global_worker_config g = do
    root_dir ← parse_root O getenv rootless g.root
    give (config_of g, root_dir)

  module _ (run : Config → World → Written × World) where
    -- the deferred unlock
    abbrev pub released : Root → Written × World → Written × World
    released r (out, w) = (out, release_root O r w)

    abbrev pub run_in : Config → Result Root × World → Written × World
    run_in cfg (err e, w) = ((some e, []), w)
    run_in cfg (ok r, w) = released r (run (record cfg { root = directory r }) w)

    abbrev pub run_configured : (Text → Text) → Result (Config × Text) × World → Written × World
    run_configured dir_of (err e, w) = ((some e, []), w)
    run_configured dir_of (ok (cfg, root_dir), w) =
        run_in cfg (exclusive_root O (dir_of root_dir) w)

    -- the common body of the actions of prune and du
    unfoldable pub exclusive_action : (Text → Text) → GlobalOptions → World → Written × World
    unfolding parse_global_worker_config release_root
    exclusive_action dir_of g w = run_configured dir_of (parse_global_worker_config g w)

  module _ (B : BuildKit) (U : Usage B.Client World) where
    abbrev pub prune_action : Context → World → Written × World
    prune_action c =
        exclusive_action (run_prune B U (prune_all c)) default_serve_root_dir (global_options c)

    abbrev pub du_action : Context → World → Written × World
    du_action c = exclusive_action (run_du B U) default_serve_root_dir (global_options c)

    abbrev pub dap_prune_action : Context → World → Written × World
    dap_prune_action c =
        exclusive_action (run_prune B U (prune_all c)) (λ d. (default_dap_root_dir d).1)
          (global_options c)

    abbrev pub dap_du_action : Context → World → Written × World
    dap_du_action c =
        exclusive_action (run_du B U) (λ d. (default_dap_root_dir d).1) (global_options c)

abbrev pub dap_attach_container_action : Terminal → Context → Attached
dap_attach_container_action T c =
    if first c.args == []
    then (some root_not_specified, [])
    else attach_container_io T (first c.args) (set_tty_raw c)
