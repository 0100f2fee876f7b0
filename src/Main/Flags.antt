-- ===== src/Main/Flags.antt =====
-- main.go: the flags that each command declares, and the options that its action reads of them.
pub mod Declared
use buildg.Prelude.{Bool, true, false, List, [], ◌∷◌, ◌++◌}
use buildg.Int.{ℤ, pos}
use buildg.Text.{Text, codes}
use buildg.Main.Options.{Flags}

-- the types of urfave/cli, with their defaults
pub data Kind : Type 0 where
  bool bool_t string_slice : Kind
  string : Text → Kind
  int duration : ℤ → Kind

pub record Flag : Type 0 where
  pub names : List Text
  pub kind : Kind
  pub env_var : Text

-- cli.Context, which gives each option by its name
pub record Context : Type 0 where
  pub args : List Text
  pub get_bool : Text → Bool
  pub get_string : Text → Text
  pub get_string_slice : Text → List Text
  pub get_int : Text → ℤ
  pub get_duration : Text → ℤ
  pub get_global_string : Text → Text

-- clicontext.Args().First()
abbrev pub first : List Text → Text
first [] = []
first (a ∷ rest) = a

abbrev pub flag : List Text → Kind → Flag
flag names kind = record { names = names; kind = kind; env_var = [] }

abbrev pub one : Text → List Text
one name = name ∷ []

abbrev pub global_flags : List Flag
global_flags =
    flag (one (codes "debug")) bool
    ∷ flag (one (codes "root")) string_slice
    ∷ flag (one (codes "oci-worker-snapshotter")) (string (codes "auto"))
    ∷ flag (one (codes "oci-worker-net")) (string (codes "auto"))
    ∷ flag (one (codes "oci-cni-config-path")) (string (codes "/etc/buildkit/cni.json"))
    ∷ flag (one (codes "oci-cni-binary-path")) (string (codes "/opt/cni/bin"))
    ∷ record {
      names = one (codes "rootlesskit-args");
      kind = string [];
      env_var = codes "BUILDG_ROOTLESSKIT_ARGS";
    }
    ∷ []

abbrev pub debug_flags : List Flag
debug_flags =
    flag (codes "file" ∷ codes "f" ∷ []) (string [])
    ∷ flag (one (codes "target")) (string [])
    ∷ flag (one (codes "build-arg")) string_slice
    ∷ flag (one (codes "image")) (string [])
    ∷ flag (one (codes "secret")) string_slice
    ∷ flag (one (codes "ssh")) string_slice
    ∷ flag (one (codes "cache-from")) string_slice
    ∷ flag (one (codes "cache-reuse")) bool_t
    ∷ flag (one (codes "startup-timeout")) (duration (pos 3000000000))
    ∷ []

abbrev pub prune_flags : List Flag
prune_flags = flag (one (codes "all")) bool ∷ []

abbrev pub dap_prune_flags : List Flag
dap_prune_flags = flag (one (codes "all")) bool ∷ []

abbrev pub dap_attach_container_flags : List Flag
dap_attach_container_flags = flag (one (codes "set-tty-raw")) bool ∷ []

abbrev pub dap_serve_flags : List Flag
dap_serve_flags = flag (one (codes "log-file")) (string []) ∷ []

-- what debugAction reads
pub record DebugOptions : Type 0 where
  pub build : Flags
  pub cache_reuse : Bool
  pub image : Text
  pub startup_timeout : ℤ

abbrev pub build_flags : Context → Flags
build_flags c = record {
  context = first c.args;
  file = c.get_string (codes "file");
  target = c.get_string (codes "target");
  build_args = c.get_string_slice (codes "build-arg");
  ssh = c.get_string_slice (codes "ssh");
  secrets = c.get_string_slice (codes "secret");
  cache_from = c.get_string_slice (codes "cache-from");
}

abbrev pub debug_options : Context → DebugOptions
debug_options c = record {
  build = build_flags c;
  cache_reuse = c.get_bool (codes "cache-reuse");
  image = c.get_string (codes "image");
  startup_timeout = c.get_duration (codes "startup-timeout");
}

abbrev pub prune_all : Context → Bool
prune_all c = c.get_bool (codes "all")

abbrev pub set_tty_raw : Context → Bool
set_tty_raw c = c.get_bool (codes "set-tty-raw")

abbrev pub log_file_option : Context → Text
log_file_option c = c.get_string (codes "log-file")

-- what parseGlobalWorkerConfig reads; `root` is a string here.
pub record GlobalOptions : Type 0 where
  pub net_mode : Text
  pub cni_config_path : Text
  pub cni_binary_path : Text
  pub snapshotter : Text
  pub root : Text

abbrev pub global_options : Context → GlobalOptions
global_options c = record {
  net_mode = c.get_global_string (codes "oci-worker-net");
  cni_config_path = c.get_global_string (codes "oci-cni-config-path");
  cni_binary_path = c.get_global_string (codes "oci-cni-binary-path");
  snapshotter = c.get_global_string (codes "oci-worker-snapshotter");
  root = c.get_global_string (codes "root");
}

-- the commands that have an action of their own, but for version
pub data Action : Type 0 where
  debug prune du dap_serve dap_attach_container dap_prune dap_du : Action

abbrev pub flags_of : Action → List Flag
flags_of debug = debug_flags
flags_of prune = prune_flags
flags_of du = []
flags_of dap_serve = dap_serve_flags
flags_of dap_attach_container = dap_attach_container_flags
flags_of dap_prune = dap_prune_flags
flags_of dap_du = []

pub data Options : Type 0 where
  of_debug : DebugOptions → GlobalOptions → Options
  of_prune : Bool → GlobalOptions → Options
  of_du : GlobalOptions → Options
  of_serve : Text → GlobalOptions → Options
  of_attach : Text → Bool → Options

abbrev pub read_options : Action → Context → Options
read_options debug c = of_debug (debug_options c) (global_options c)
read_options prune c = of_prune (prune_all c) (global_options c)
read_options du c = of_du (global_options c)
read_options dap_serve c = of_serve (log_file_option c) (global_options c)
read_options dap_attach_container c = of_attach (first c.args) (set_tty_raw c)
read_options dap_prune c = of_prune (prune_all c) (global_options c)
read_options dap_du c = of_du (global_options c)
