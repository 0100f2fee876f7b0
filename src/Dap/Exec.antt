-- ===== src/Dap/Exec.antt =====
-- pkg/dap/dap.go: the command exec of an evaluation. The client is to attach to the container once it has the response.
pub mod Cleaned
use buildg.Prelude.{
  ℕ, Bool, true, false, not, ◌&&◌, ◌||◌, List, [], ◌∷◌, ◌++◌, Option, none, some, map,
  if◌then◌else◌,
}
use buildg.Text.{Text, codes}
use buildg.Errors.{Error, flags_not_together, Result, ok, err}
use buildg.Types.{OpKind, exec_op, other_op, RegisteredStatus}
use buildg.Handler.{Handler}
use buildg.Container.{Gateway, ContainerConfig, Effect, exec_container}
use buildg.Container.Paths.{clean}
use buildg.Dap.Strings.{split_path}
use buildg.Dap.Io.{OpenFifo, ServeStep, Served, serve_container_io}
use buildg.Shell.Exec.{ExecFlags, or_shell}

-- What the process asks of its host: a temporary directory, the FIFOs in it, and its own path.
pub record Host : Type 0 where
  pub mkdir_temp : Result Text
  pub open_fifo : OpenFifo
  pub executable : Result Text
  pub gateway : Gateway
  pub streams : Bool → ℕ

-- What is done, in order.
pub data Step : Type 0 where
  make_root remove_root : Text → Step
  serve_io io_done : Served → Step
  serve_failed : List ServeStep → Step
  experimental : Step
  container : Effect → Step

-- A command that fails has run its cleanups. One that starts a container leaves them to the goroutine that waits for it,
-- and has the client run these arguments in this directory.
pub data Run : Type 0 where
  fails : Error → List Step → Run
  starts : List Text → Text → List Step → List Step → Run

abbrev pub dir_of : Text → Text
dir_of path = clean (split_path path).0

abbrev pub bool_text : Bool → Text
bool_text b = if b then codes "true" else codes "false"

abbrev pub attach_args : Text → Bool → Text → List Text
attach_args self tty root =
    self
    ∷ codes "dap"
    ∷ codes "_dap_attach_container"
    ∷ (codes "--set-tty-raw=" ++ bool_text tty)
    ∷ root
    ∷ []

abbrev pub experimental_note : OpKind → List Step
experimental_note (exec_op e) = []
experimental_note other_op = experimental ∷ []

abbrev pub exec_cfg : (Bool → ℕ) → ExecFlags → RegisteredStatus → Handler → ContainerConfig
exec_cfg streams f info h = record {
  info = info;
  args = or_shell f.args;
  tty = f.tty;
  stdio = streams f.stdin;
  image = if f.image then h.image else none;
  mountroot = f.mountroot;
  input_mount = f.init_state;
  env = f.env;
  cwd = f.workdir;
  watches = true;
  no_set_raw = true;
}

module _ (H : Host) (f : ExecFlags) (info : RegisteredStatus) (h : Handler) (program : Text) where
  open H use {mkdir_temp, open_fifo, executable, gateway, streams}

  abbrev pub cleanups_of : Text → Served → List Step
  cleanups_of root io = io_done io ∷ remove_root root ∷ []

  abbrev pub ran :
      Text
      → Text
      → Served
      → List Step
      → Option (Result (ℕ × List Effect) × List Effect)
      → Option Run
  ran root self io done none = none
  ran root self io done (some (err e, effects)) =
      some (fails e (done ++ (map container effects ++ cleanups_of root io)))
  ran root self io done (some (ok (proc, cleanups), effects)) = some (
      starts (attach_args self f.tty root) (dir_of program) (done ++ map container effects)
        (map container cleanups ++ cleanups_of root io))

  abbrev pub with_executable : Text → Served → Result Text → Option Run
  with_executable root io (err e) =
      some (fails e (make_root root ∷ serve_io io ∷ cleanups_of root io))
  with_executable root io (ok self) =
      ran root self io (make_root root ∷ serve_io io ∷ experimental_note info.op.kind)
        (exec_container gateway (exec_cfg streams f info h))

  abbrev pub with_io : Text → Result Served × List ServeStep → Option Run
  with_io root (err e, steps) =
      some (fails e (make_root root ∷ serve_failed steps ∷ remove_root root ∷ []))
  with_io root (ok io, steps) = with_executable root io executable

  abbrev pub with_root : Result Text → Option Run
  with_root (err e) = some (fails e [])
  with_root (ok root) = with_io root (serve_container_io open_fifo root)

  unfoldable pub exec_in_container : Option Run
  exec_in_container =
      if f.stdin && not f.tty || not f.stdin && f.tty
      then some (fails flags_not_together [])
      else with_root mkdir_temp
