-- ===== src/Main/Actions/Debug/Given.antt =====
-- What debug gives to Debug.
use buildg.Prelude.{
  ◌≡◌, refl, sym, ap, ◌∙◌, subst, inl, Bool, true, false, List, [], ◌∷◌, Option, some, In,
  if◌then◌else◌,
}
use buildg.Int.{pos}
use buildg.Text.{Text, codes, text_eq}
use buildg.Dict.{insert, lookup}
use buildg.Errors.{Error, Result, ok, err}
use buildg.Breakpoints.{Breakpoints, on_fail, new_breakpoints, add}
use buildg.Client.Setup.{Config}
use buildg.Dap.Debugger.{BuildTools}
use buildg.Main.Os.{Io, and_then, give, Flock, acquired, would_block, flock_failed, Os, IsOs}
use buildg.Main.Roots.{
  default_serve_root_dir, Root, shared, temporary, directory, lock_file, locked, try_lock,
  temporary_root, debug_root, dap_serve_root, default_dap_root_dir,
}
use buildg.Main.Options.{BuildOptions}
use buildg.Main.Flags.{Context, DebugOptions, debug_options}
use buildg.Main.Actions.{DebugSetup}
use buildg.Main.Actions.Debug.{
  Logs, debug_setup, log_removed, with_log, root_released, debug_in, debug_configured, debug_parsed,
  debug_action, serve_in, serve_configured, dap_serve_action,
}

abbrev on_fail_added : Breakpoints
on_fail_added = (add (codes "on-fail") on_fail new_breakpoints).1

module _ (O : Os) (is_os : IsOs O) where
  open O use {World, mkdir_all, create, flock, mkdir_temp, held, temps}

  -- A lock keeps the directory, or it is new.
  abbrev pub IsOwn : Result Root × World → Type 0
  IsOwn (err e, w) = Unit
  IsOwn (ok (shared d), w) = In (lock_file d) (held w)
  IsOwn (ok (temporary t), w) = In t (temps w)

  temporary-IsOwn :
      (dir : Text) (w : World) (m : Result Text × World)
      → m ≡ mkdir_temp dir (codes "buildg") w
      → IsOwn (and_then m (λ t. give (temporary t)))
  temporary-IsOwn dir w (err e, w') h = tt
  temporary-IsOwn dir w (ok t, w') h =
      let made = is_os.mkdir_temp_ok dir (codes "buildg") t w (sym (ap (λ m. m.0) h)) in
      let new_temps : temps w' ≡ t ∷ temps w = ap (λ m. temps m.1) h ∙ made.1 in
      subst (λ l. In t l) (sym new_temps) (inl refl)

  module _ (dir : Text) (other : Io World Root) (owns : (w : World) → IsOwn (other w)) where
    flock-IsOwn :
        (w : World) (f : Flock × World)
        → f ≡ flock (lock_file dir) w
        → IsOwn (and_then (locked O f) (λ ok. if ok then give (shared dir) else other))
    flock-IsOwn w (acquired, w') e =
        let won = is_os.flock_acquired (lock_file dir) w (sym (ap (λ m. m.0) e)) in
        let new_held : held w' ≡ lock_file dir ∷ held w = ap (λ m. held m.1) e ∙ won.1 in
        subst (λ l. In (lock_file dir) l) (sym new_held) (inl refl)
    flock-IsOwn w (would_block, w') e = owns w'
    flock-IsOwn w (flock_failed x, w') e = tt

    create-IsOwn :
        (m : Result Unit × World)
        → IsOwn (
            and_then
              (and_then m (λ u v. locked O (flock (lock_file dir) v)))
              (λ ok. if ok then give (shared dir) else other))
    create-IsOwn (err e, w) = tt
    create-IsOwn (ok u, w) = flock-IsOwn w (flock (lock_file dir) w) refl

    mkdir-IsOwn :
        (m : Result Unit × World)
        → IsOwn (
            and_then m
              (λ u v. and_then (try_lock O dir v) (λ ok. if ok then give (shared dir) else other)))
    unfolding try_lock
    mkdir-IsOwn (err e, w) = tt
    mkdir-IsOwn (ok u, w) = create-IsOwn (create (lock_file dir) w)

  debug_root-IsOwn :
      (cache_reuse : Bool) (root_dir : Text) (w : World)
      → IsOwn (debug_root O cache_reuse root_dir w)
  unfolding debug_root try_lock
  debug_root-IsOwn true root_dir w =
      let dir = default_serve_root_dir root_dir in
      mkdir-IsOwn dir (temporary_root O root_dir) (λ v. temporary-IsOwn root_dir v _ refl)
        (mkdir_all dir w)
  debug_root-IsOwn false root_dir w = temporary-IsOwn root_dir w _ refl

  dap_serve_root-IsOwn : (root_dir : Text) (w : World) → IsOwn (dap_serve_root O root_dir w)
  unfolding dap_serve_root try_lock
  dap_serve_root-IsOwn root_dir w =
      let (dap_root_dir, dir) = default_dap_root_dir root_dir in
      mkdir-IsOwn dir (temporary_root O dap_root_dir) (λ v. temporary-IsOwn dap_root_dir v _ refl)
        (mkdir_all dir w)

  module _ (getenv : Text → Text) (rootless : Bool) (L : Logs World) (T : BuildTools)
      (CacheImport : Type 0) (parse_cache : List Text → Result (List CacheImport)) where
    abbrev pub Setup : Type 0
    Setup = DebugSetup (BuildOptions T CacheImport parse_cache)

    -- The directory is kept by a lock, or it is a temporary one that Debug is to clean; the only breakpoint is that on
    -- failures, and the build stops on entry.
    pub record IsGiven (s : Setup) (w : World) : Type 0 where
      pub kept : s.cleanup_all ≡ false → In (lock_file s.cfg.root) (held w)
      pub temporary : s.cleanup_all ≡ true → In s.cfg.root (temps w)
      pub only_on_fail : s.breakpoints ≡ record {
        breakpoints = some ((codes "on-fail", on_fail) ∷ []);
        breakpoint_index = pos 0;
      }
      pub stops : s.stop_on_entry ≡ true

    module _ (debug debug' : Setup → World → Option Error × World)
        (agrees : (s : Setup) (w : World) → IsGiven s w → debug s w ≡ debug' s w)
        (quiet : (dir name : Text) (w : World)
          → (held (L.create_temp dir name w).1 ≡ held w)
            × (temps (L.create_temp dir name w).1 ≡ temps w)) where
      setup-IsGiven :
          (cfg : Config) (r : Root) (options : BuildOptions T CacheImport parse_cache)
          (d : DebugOptions) (name : Text) (w : World)
          → IsOwn (ok r, w)
          → IsGiven
              (debug_setup O getenv rootless L T CacheImport parse_cache debug cfg r options d name
                on_fail_added)
              w
      unfolding add insert lookup
      setup-IsGiven cfg (shared dir) options d name w own = record {
        kept = λ e. own;
        temporary = λ e. absurd (cc e);
        only_on_fail = refl;
        stops = refl;
      }
      setup-IsGiven cfg (temporary t) options d name w own = record {
        kept = λ e. absurd (cc e);
        temporary = λ e. own;
        only_on_fail = refl;
        stops = refl;
      }

      IsOwn-same :
          (r : Root) (w w' : World)
          → (held w' ≡ held w) × (temps w' ≡ temps w)
          → IsOwn (ok r, w)
          → IsOwn (ok r, w')
      IsOwn-same (shared d) w w' (h, t) own = subst (λ l. In (lock_file d) l) (sym h) own
      IsOwn-same (temporary x) w w' (h, t) own = subst (λ l. In x l) (sym t) own

      with_log-agrees :
          (cfg : Config) (r : Root) (options : BuildOptions T CacheImport parse_cache)
          (d : DebugOptions) (w : World) (m : Result Text × World)
          → (held m.1 ≡ held w) × (temps m.1 ≡ temps w)
          → IsOwn (ok r, w)
          → with_log O getenv rootless L T CacheImport parse_cache debug cfg r options d m
            ≡ with_log O getenv rootless L T CacheImport parse_cache debug' cfg r options d m
      unfolding add insert lookup
      with_log-agrees cfg r options d w (err e, w') s own = refl
      with_log-agrees cfg r options d w (ok name, w') s own =
          ap (log_removed O getenv rootless L T CacheImport parse_cache debug name)
            (agrees _ w' (setup-IsGiven cfg r options d name w' (IsOwn-same r w w' s own)))

      debug_in-agrees :
          (cfg : Config) (options : BuildOptions T CacheImport parse_cache) (d : DebugOptions)
          (x : Result Root × World)
          → IsOwn x
          → debug_in O getenv rootless L T CacheImport parse_cache debug cfg options d x
            ≡ debug_in O getenv rootless L T CacheImport parse_cache debug' cfg options d x
      debug_in-agrees cfg options d (err e, w) own = refl
      debug_in-agrees cfg options d (ok r, w) own =
          ap (root_released O getenv rootless L T CacheImport parse_cache debug r)
            (with_log-agrees cfg r options d w _ (quiet (directory r) (codes "buildg-log") w) own)

      debug_configured-agrees :
          (options : BuildOptions T CacheImport parse_cache) (d : DebugOptions)
          (x : Result (Config × Text) × World)
          → debug_configured O getenv rootless L T CacheImport parse_cache debug options d x
            ≡ debug_configured O getenv rootless L T CacheImport parse_cache debug' options d x
      debug_configured-agrees options d (err e, w) = refl
      debug_configured-agrees options d (ok (cfg, root_dir), w) =
          debug_in-agrees cfg options d _ (debug_root-IsOwn d.cache_reuse root_dir w)

      debug_parsed-agrees :
          (r : Result (BuildOptions T CacheImport parse_cache)) (c : Context) (w : World)
          → debug_parsed O getenv rootless L T CacheImport parse_cache debug r c w
            ≡ debug_parsed O getenv rootless L T CacheImport parse_cache debug' r c w
      debug_parsed-agrees (err e) c w = refl
      debug_parsed-agrees (ok options) c w = debug_configured-agrees options (debug_options c) _

    -- What serve gets: its directory is the one that is released for it, which a lock keeps or which is temporary.
    abbrev pub IsServed : Config → Root → World → Type 0
    IsServed cfg r w = (cfg.root ≡ directory r) × IsOwn (ok r, w)

    module _ (serve serve' : Config → Root → World → Option Error × World)
        (agrees : (cfg : Config) (r : Root) (w : World)
          → IsServed cfg r w
          → serve cfg r w ≡ serve' cfg r w) where
      serve_in-agrees :
          (cfg : Config) (x : Result Root × World)
          → IsOwn x
          → serve_in O getenv rootless L T CacheImport parse_cache serve cfg x
            ≡ serve_in O getenv rootless L T CacheImport parse_cache serve' cfg x
      serve_in-agrees cfg (err e, w) own = refl
      serve_in-agrees cfg (ok r, w) own = agrees (record cfg { root = directory r }) r w (refl, own)

      serve_configured-agrees :
          (x : Result (Config × Text) × World)
          → serve_configured O getenv rootless L T CacheImport parse_cache serve x
            ≡ serve_configured O getenv rootless L T CacheImport parse_cache serve' x
      serve_configured-agrees (err e, w) = refl
      serve_configured-agrees (ok (cfg, root_dir), w) =
          serve_in-agrees cfg _ (dap_serve_root-IsOwn root_dir w)

    -- debug calls Debug at most with a directory that a lock keeps or that is temporary, of which only the second kind is to
    -- be cleaned, with the breakpoint on failures alone, and to stop on entry; and dap serve calls the server at most with a
    -- directory that a lock keeps or that is temporary, the one that its cleanup function releases. How both behave at any
    -- other call changes nothing. Here the making of the log file changes no lock and no temporary directory.
    pub actions-given :
        (debug debug' : Setup → World → Option Error × World)
        (serve serve' : Config → Root → World → Option Error × World)
        → ((s : Setup) (w : World) → IsGiven s w → debug s w ≡ debug' s w)
        → ((cfg : Config) (r : Root) (w : World)
            → IsServed cfg r w
            → serve cfg r w ≡ serve' cfg r w)
        → ((dir name : Text) (w : World)
            → (held (L.create_temp dir name w).1 ≡ held w)
              × (temps (L.create_temp dir name w).1 ≡ temps w))
        → (c : Context) (w : World)
        → (debug_action O getenv rootless L T CacheImport parse_cache debug c w
            ≡ debug_action O getenv rootless L T CacheImport parse_cache debug' c w)
          × (dap_serve_action O getenv rootless L T CacheImport parse_cache serve c w
              ≡ dap_serve_action O getenv rootless L T CacheImport parse_cache serve' c w)
    unfolding debug_action dap_serve_action
    actions-given debug debug' serve serve' agrees serves quiet c w = (
      debug_parsed-agrees debug debug' agrees quiet _ c w,
      serve_configured-agrees serve serve' serves _,
    )
