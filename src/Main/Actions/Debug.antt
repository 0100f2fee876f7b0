-- ===== src/Main/Actions/Debug.antt =====
-- main.go: the actions that run a build, debug and dap serve.
pub mod Given
use buildg.Prelude.{Bool, true, List, Option, none, some, ◌==◌, [], if◌then◌else◌}
use buildg.Int.{ℤ}
use buildg.Text.{Text, codes, text_eq}
use buildg.Errors.{Error, Result, ok, err}
use buildg.Breakpoints.{Breakpoints, on_fail, new_breakpoints, add}
use buildg.Client.Setup.{Config}
use buildg.Dap.Debugger.{BuildTools}
use buildg.Main.Os.{Io, Os}
use buildg.Main.Roots.{
  default_dap_root_dir, Root, directory, cleanup_all, debug_root, dap_serve_root, release_root,
}
use buildg.Main.Options.{BuildOptions, parse_build}
use buildg.Main.Flags.{Context, global_options, DebugOptions, build_flags, debug_options}
use buildg.Main.Actions.{DebugSetup, parse_global_worker_config}

-- os.CreateTemp, os.Create and os.Remove of a log
pub record Logs (W : Type 0) : Type 0 where
  pub create_temp : Text → Text → Io W Text
  pub create : Text → W → W
  pub remove : Text → W → W

module _ (O : Os) (getenv : Text → Text) (rootless : Bool) (L : Logs O.World) (T : BuildTools)
    (CacheImport : Type 0) (parse_cache : List Text → Result (List CacheImport)) where
  open O use {World}

  -- buildkit.Debug
  module _
      (debug : DebugSetup (BuildOptions T CacheImport parse_cache)
        → World
        → Option Error × World) where
    abbrev pub debug_setup :
        Config
        → Root
        → BuildOptions T CacheImport parse_cache
        → DebugOptions
        → Text
        → Breakpoints
        → DebugSetup (BuildOptions T CacheImport parse_cache)
    debug_setup cfg r options d log_file bp = record {
      cfg = record cfg { root = directory r };
      options = options;
      breakpoints = bp;
      debug_image = d.image;
      stop_on_entry = true;
      cleanup_all = cleanup_all r;
      startup_timeout = d.startup_timeout;
      log_file = log_file;
    }

    -- the deferred removal of the log
    abbrev pub log_removed : Text → Option Error × World → Option Error × World
    log_removed name (e, w) = (e, L.remove name w)

    abbrev pub debug_with :
        (Breakpoints → DebugSetup (BuildOptions T CacheImport parse_cache))
        → Result Text × Breakpoints
        → World
        → Option Error × World
    debug_with setup (err e, bp) w = (some e, w)
    debug_with setup (ok key, bp) w = debug (setup bp) w

    abbrev pub with_log :
        Config
        → Root
        → BuildOptions T CacheImport parse_cache
        → DebugOptions
        → Result Text × World
        → Option Error × World
    with_log cfg r options d (err e, w) = (some e, w)
    with_log cfg r options d (ok name, w) = log_removed name (
        debug_with (debug_setup cfg r options d name)
          (add (codes "on-fail") on_fail new_breakpoints) w)

    -- the deferred release of the directory
    abbrev pub root_released : Root → Option Error × World → Option Error × World
    root_released r (e, w) = (e, release_root O r w)

    abbrev pub debug_in :
        Config
        → BuildOptions T CacheImport parse_cache
        → DebugOptions
        → Result Root × World
        → Option Error × World
    debug_in cfg options d (err e, w) = (some e, w)
    debug_in cfg options d (ok r, w) =
        root_released r
          (with_log cfg r options d (L.create_temp (directory r) (codes "buildg-log") w))

    abbrev pub debug_configured :
        BuildOptions T CacheImport parse_cache
        → DebugOptions
        → Result (Config × Text) × World
        → Option Error × World
    debug_configured options d (err e, w) = (some e, w)
    debug_configured options d (ok (cfg, root_dir), w) =
        debug_in cfg options d (debug_root O d.cache_reuse root_dir w)

    abbrev pub debug_parsed :
        Result (BuildOptions T CacheImport parse_cache) → Context → World → Option Error × World
    debug_parsed (err e) c w = (some e, w)
    debug_parsed (ok options) c w =
        debug_configured options (debug_options c)
          (parse_global_worker_config O getenv rootless (global_options c) w)

    unfoldable pub debug_action : Context → World → Option Error × World
    unfolding parse_global_worker_config release_root debug_root
    debug_action c w = debug_parsed (parse_build T CacheImport parse_cache (build_flags c)) c w

  -- dap.NewServer and Serve, with what its cleanup function releases. An error of Serve is only logged.
  module _ (serve : Config → Root → World → Option Error × World) where
    abbrev pub serve_in : Config → Result Root × World → Option Error × World
    serve_in cfg (err e, w) = (some e, w)
    serve_in cfg (ok r, w) = serve (record cfg { root = directory r }) r w

    abbrev pub serve_configured : Result (Config × Text) × World → Option Error × World
    serve_configured (err e, w) = (some e, w)
    serve_configured (ok (cfg, root_dir), w) = serve_in cfg (dap_serve_root O root_dir w)

    abbrev pub with_log_file : Text → World → World
    with_log_file name w = if name == [] then w else L.create name w

    unfoldable pub dap_serve_action : Context → World → Option Error × World
    unfolding parse_global_worker_config dap_serve_root
    dap_serve_action c w = serve_configured (
        parse_global_worker_config O getenv rootless (global_options c)
          (with_log_file (c.get_string (codes "log-file")) w))
