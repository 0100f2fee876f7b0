-- ===== src/Testutil.antt =====
-- pkg/testutil/debugshell.go and dap.go: the options of the helpers of the tests, and the commands that they start.
pub mod Closing
pub mod Environ
pub mod Reading
pub mod Shells
use buildg.Prelude.{Bool, true, false, List, [], ◌∷◌, ◌++◌, Option, none, some, if◌then◌else◌, ◌==◌}
use buildg.Text.{Text, codes, text_eq}
use buildg.Errors.{Result, ok, err, ◌>>=◌}

-- what the options of NewDebugShell change
pub record Options : Type 0 where
  pub opts : List Text
  pub env : List Text
  pub root_dir : Text

unfoldable pub with_options : List Text → Options → Options
with_options opts o = record o { opts = o.opts ++ opts }

unfoldable pub with_env : List Text → Options → Options
with_env env o = record o { env = env }

unfoldable pub with_root_dir : Text → Options → Options
with_root_dir root_dir o = record o { root_dir = root_dir }

-- what the options of BuildgCmd and of NewDAPServer change
pub record CmdOptions : Type 0 where
  pub env : List Text
  pub global_opts : List Text

unfoldable pub with_global_options : List Text → CmdOptions → CmdOptions
with_global_options opts o = record o { global_opts = o.global_opts ++ opts }

unfoldable pub with_cmd_env : List Text → CmdOptions → CmdOptions
with_cmd_env env o = record o { env = env }

-- The options are applied in their order.
unfoldable pub apply_all {ℓ} : {O : Type ℓ} → List (O → O) → O → O
apply_all [] o = o
apply_all (f ∷ fs) o = apply_all fs (f o)

abbrev pub no_options : Options
no_options = record { opts = []; env = []; root_dir = [] }

abbrev pub no_cmd_options : CmdOptions
no_cmd_options = record { env = []; global_opts = [] }

-- The process of the test: its environment, exec.LookPath, and os.MkdirTemp by directory and pattern.
pub record Host : Type 0 where
  pub environ : List Text
  pub getenv : Text → Text
  pub look_path : Text → Result Text
  pub mkdir_temp : Text → Text → Result Text

-- exec.Cmd
pub record Cmd : Type 0 where
  pub path : Text
  pub args : List Text
  pub env : List Text

-- The command of NewDebugShell, its root directory, which is removed at the end when it is temporary, and its prompt.
pub record Started : Type 0 where
  pub cmd : Cmd
  pub root_dir : Text
  pub is_temporary : Bool
  pub prompt : Text

abbrev pub prompt_entry : Text → Text
prompt_entry prompt = codes "BUILDG_PS1" ++ (codes "=" ++ prompt)

module _ (H : Host) where
  -- t.Fatal ends the test: an error.
  unfoldable pub get_buildg_binary : Result Text
  get_buildg_binary =
      let c = H.getenv (codes "TEST_BUILDG_PATH") in
      H.look_path (if c == [] then codes "buildg" else c)

  abbrev pub command : List Text → CmdOptions → Result Text → Result Cmd
  command args o (err e) = err e
  command args o (ok path) = ok (record {
    path = path;
    args = (o.global_opts ++ codes "--debug" ∷ []) ++ args;
    env = H.environ ++ o.env;
  })

  unfoldable pub buildg_cmd : List Text → List (CmdOptions → CmdOptions) → Result Cmd
  unfolding apply_all get_buildg_binary
  buildg_cmd args opts = command args (apply_all opts no_cmd_options) get_buildg_binary

  -- The root directory, and whether it is a temporary one.
  unfoldable pub root_of : Options → Result (Text × Bool)
  root_of o =
      if o.root_dir == []
      then temporary
          (H.mkdir_temp (H.getenv (codes "TEST_BUILDG_TMP_DIR")) (codes "buildg-test-tmproot"))
      else ok (o.root_dir, false)
    where
      temporary : Result Text → Result (Text × Bool)
      temporary (err e) = err e
      temporary (ok dir) = ok (dir, true)

  abbrev pub with_prompt : Text → Text × Bool → Cmd → Started
  with_prompt prompt (dir, t) cmd = record {
    cmd = record cmd { env = cmd.env ++ prompt_entry prompt ∷ [] };
    root_dir = dir;
    is_temporary = t;
    prompt = prompt;
  }

  -- `prompt` is identity.NewID().
  unfoldable pub debug_shell_cmd : Text → Text → List (Options → Options) → Result Started
  unfolding apply_all buildg_cmd root_of with_global_options with_cmd_env
  debug_shell_cmd prompt build_ctx opts = do
    let o = apply_all opts no_options
    root ← root_of o
    cmd ←
        buildg_cmd ((codes "debug" ∷ o.opts) ++ build_ctx ∷ [])
          (with_cmd_env o.env ∷ with_global_options ((codes "--root=" ++ root.0) ∷ []) ∷ [])
    ok (with_prompt prompt root cmd)

  -- NewDAPServer
  unfoldable pub dap_server_cmd : List (CmdOptions → CmdOptions) → Result Cmd
  unfolding apply_all get_buildg_binary
  dap_server_cmd opts =
      command (codes "dap" ∷ codes "serve" ∷ []) (apply_all opts no_cmd_options) get_buildg_binary
