-- ===== src/Main/Options/Editors.antt =====
-- The command line and an editor ask for the same build.
use buildg.Prelude.{◌≡◌, refl, sym, false, List, [], ◌∷◌, ◌==◌}
use buildg.Text.{Text, codes, text_eq}
use buildg.Dict.{Dict, insert}
use buildg.Errors.{Result, ok, err, ◌>>=◌}
use buildg.Dap.Strings.{split_path}
use buildg.Dap.Messages.{LaunchConfig}
use buildg.Dap.Debugger.{BuildTools, SolveOpt, options, with_ssh, with_secrets, parse_solve_opt}
use buildg.Main.Options.{Flags, contains, BuildOptions, add_agent, add_secrets, parse_build}

module _ (T : BuildTools) (CacheImport : Type 0)
    (parse_cache : List Text → Result (List CacheImport)) where
  open T use {Attachable, Export}

  -- The command line that names the program and its directory, with the other options of the editor.
  abbrev pub flags_of : LaunchConfig → Flags
  flags_of cfg = record {
    context = (split_path cfg.program).0;
    file = cfg.program;
    target = cfg.target;
    build_args = cfg.build_args;
    ssh = cfg.ssh;
    secrets = cfg.secrets;
    cache_from = [];
  }

  abbrev pub without_cache : SolveOpt T → BuildOptions T CacheImport parse_cache
  without_cache o = record {
    exports = o.exports;
    local_dirs = o.local_dirs;
    frontend_attrs = o.frontend_attrs;
    session = o.session;
    cache_imports = [];
  }

  abbrev pub map_ok : {A B : Type 0} → (A → B) → Result A → Result B
  map_ok f (ok a) = ok (f a)
  map_ok f (err e) = err e

  add_agent-with_ssh :
      (ss : List Text) (l : List Attachable)
      → add_agent T CacheImport parse_cache ss l ≡ with_ssh T ss l
  add_agent-with_ssh [] l = refl
  add_agent-with_ssh (s ∷ ss) l = refl

  add_secrets-with_secrets :
      (ss : List Text) (l : List Attachable)
      → add_secrets T CacheImport parse_cache ss l ≡ with_secrets T ss l
  add_secrets-with_secrets [] l = refl
  add_secrets-with_secrets (s ∷ ss) l = refl

  abbrev cli_record :
      Dict Text Text
      → Dict Text Text
      → List Export
      → List Attachable
      → BuildOptions T CacheImport parse_cache
  cli_record dirs attrs exports session = record {
    exports = exports;
    local_dirs = dirs;
    frontend_attrs = attrs;
    session = session;
    cache_imports = [];
  }

  abbrev editor_record :
      Dict Text Text → Dict Text Text → List Export → List Attachable → SolveOpt T
  editor_record dirs attrs exports session = record {
    exports = exports;
    local_dirs = dirs;
    frontend_attrs = attrs;
    session = session;
  }

  session-same :
      (dirs attrs : Dict Text Text) (exports : List Export) (r r' : Result (List Attachable))
      → r ≡ r'
      → (r >>= λ s. ok (cli_record dirs attrs exports s))
        ≡ map_ok without_cache (r' >>= λ s. ok (editor_record dirs attrs exports s))
  session-same dirs attrs exports (err e) r' q = rw (sym q) refl
  session-same dirs attrs exports (ok s) r' q = rw (sym q) refl

  chain-same :
      (dirs : Dict Text Text) (po : Result (Dict Text Text)) (pe : Result (List Export))
      (ag : Result (List Attachable)) (se se' : List Attachable → Result (List Attachable))
      → ((l : List Attachable) → se l ≡ se' l)
      → (po >>= λ attrs.
          pe >>= λ exports. ag >>= λ l. se l >>= λ s. ok (cli_record dirs attrs exports s))
        ≡ map_ok without_cache (
            po >>= λ attrs.
            pe >>= λ exports. ag >>= λ l. se' l >>= λ s. ok (editor_record dirs attrs exports s))
  chain-same dirs (err e) pe ag se se' h = refl
  chain-same dirs (ok attrs) (err e) ag se se' h = refl
  chain-same dirs (ok attrs) (ok exports) (err e) se se' h = refl
  chain-same dirs (ok attrs) (ok exports) (ok l) se se' h =
      session-same dirs attrs exports (se l) (se' l) (h l)

  -- For a program in a directory that is neither empty nor "-" and has no "://", and that is not "-" itself, the command
  -- line that names the directory and the program, with the other options of the editor and no --cache-from, gives
  -- the same options of the build as the editor's launch, or the same error.
  pub parse_build-editor :
      (cfg : LaunchConfig)
      → (cfg.program == []) ≡ false
      → (cfg.program == codes "-") ≡ false
      → ((split_path cfg.program).0 == []) ≡ false
      → ((split_path cfg.program).0 == codes "-") ≡ false
      → contains (codes "://") (split_path cfg.program).0 ≡ false
      → parse_build T CacheImport parse_cache (flags_of cfg)
        ≡ map_ok without_cache (parse_solve_opt T cfg)
  unfolding parse_build parse_solve_opt options insert
  parse_build-editor cfg a b c d e =
      let (dir, file) = split_path cfg.program in
      rw (a, b, c, d, e, add_agent-with_ssh cfg.ssh (T.docker_auth ∷ []))
        (chain-same ((codes "context", dir) ∷ (codes "dockerfile", dir) ∷ [])
          (T.parse_opt (options T file cfg)) (T.parse_output (codes "type=image" ∷ []))
          (with_ssh T cfg.ssh (T.docker_auth ∷ []))
          (add_secrets T CacheImport parse_cache cfg.secrets) (with_secrets T cfg.secrets)
          (add_secrets-with_secrets cfg.secrets))
