-- ===== src/Main/Options.antt =====
-- main.go: the options of a build, from the command line.
pub mod Editors
use buildg.Prelude.{Bool, true, false, ◌||◌, List, [], ◌∷◌, ◌++◌, map, if◌then◌else◌, ◌==◌}
use buildg.Text.{Text, codes, text_eq}
use buildg.Dict.{Dict, insert}
use buildg.Errors.{no_context, unsupported_context, dockerfile_from_stdin, Result, ok, err, ◌>>=◌}
use buildg.Dap.Strings.{split_path}
use buildg.Dap.Debugger.{BuildTools}

-- the first argument and the flags of the command debug that are read
pub record Flags : Type 0 where
  pub context : Text
  pub file : Text
  pub target : Text
  pub build_args : List Text
  pub ssh : List Text
  pub secrets : List Text
  pub cache_from : List Text

-- strings.HasPrefix and strings.Contains
unfoldable pub has_prefix : Text → Text → Bool
has_prefix [] s = true
has_prefix (c ∷ p) [] = false
has_prefix (c ∷ p) (d ∷ s) = let rest = has_prefix p s in if c ∷ [] == d ∷ [] then rest else false

unfoldable pub contains : Text → Text → Bool
unfolding has_prefix
contains p [] = has_prefix p []
contains p (c ∷ s) = has_prefix p (c ∷ s) || contains p s

abbrev pub cache_option : Text → Text
cache_option opt = if contains (codes "type=") opt then opt else codes "type=registry,ref=" ++ opt

-- `filename=` with the name in the directory of the file, which is the one of the Dockerfile unless it is empty
abbrev pub file_options : Text → List Text
file_options file = if file == [] then [] else (codes "filename=" ++ (split_path file).1) ∷ []

abbrev pub local_dirs_of : Text → Text → Dict Text Text
local_dirs_of context file =
    let dirs = (codes "context", context) ∷ (codes "dockerfile", context) ∷ [] in
    if (split_path file).0 == [] then dirs else insert (codes "dockerfile") (split_path file).0 dirs

abbrev pub option_strings : Flags → List Text
option_strings f =
    file_options f.file
    ++ ((if f.target == [] then [] else (codes "target=" ++ f.target) ∷ [])
        ++ map (λ ba. codes "build-arg:" ++ ba) f.build_args)

module _ (T : BuildTools) (CacheImport : Type 0)
    (parse_cache : List Text → Result (List CacheImport)) where
  open T use {
    Attachable, Export, parse_opt, parse_output, docker_auth, parse_ssh, ssh_provider, parse_secret,
  }

  pub record BuildOptions : Type 0 where
    pub exports : List Export
    pub local_dirs : Dict Text Text
    pub frontend_attrs : Dict Text Text
    pub session : List Attachable
    pub cache_imports : List CacheImport

  abbrev pub add_agent : List Text → List Attachable → Result (List Attachable)
  add_agent [] attachable = ok attachable
  add_agent (s ∷ ss) attachable = do
    configs ← parse_ssh (s ∷ ss)
    sp ← ssh_provider configs
    ok (attachable ++ sp ∷ [])

  abbrev pub add_secrets : List Text → List Attachable → Result (List Attachable)
  add_secrets [] attachable = ok attachable
  add_secrets (s ∷ ss) attachable = do
    provider ← parse_secret (s ∷ ss)
    ok (attachable ++ provider ∷ [])

  abbrev pub cache_imports_of : List Text → Result (List CacheImport)
  cache_imports_of [] = ok []
  cache_imports_of (c ∷ cs) = parse_cache (map cache_option (c ∷ cs))

  abbrev pub build_options : Flags → Result BuildOptions
  build_options f = do
    frontend_attrs ← parse_opt (option_strings f)
    exports ← parse_output (codes "type=image" ∷ [])
    attachable ← add_agent f.ssh (docker_auth ∷ [])
    session ← add_secrets f.secrets attachable
    cache_imports ← cache_imports_of f.cache_from
    ok (record {
      exports = exports;
      local_dirs = local_dirs_of f.context f.file;
      frontend_attrs = frontend_attrs;
      session = session;
      cache_imports = cache_imports;
    })

  -- parseSolveOpt
  unfoldable pub parse_build : Flags → Result BuildOptions
  unfolding contains
  parse_build f =
      if f.context == []
      then err no_context
      else if f.context == codes "-" || contains (codes "://") f.context
      then err (unsupported_context f.context)
      else if f.file == codes "-"
      then err dockerfile_from_stdin
      else build_options f
