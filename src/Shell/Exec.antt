-- ===== src/Shell/Exec.antt =====
-- exec.go: the command exec of the shell.
pub mod Restored
use buildg.Prelude.{
  ℕ, Bool, true, false, not, ◌&&◌, ◌||◌, List, [], ◌∷◌, ◌++◌, Option, none, some, map,
  if◌then◌else◌, ◌==◌,
}
use buildg.Text.{Text, codes, text_eq}
use buildg.Errors.{Error, flags_not_together, wrapped, Result, ok, err}
use buildg.Types.{RegisteredStatus}
use buildg.Handler.{Handler}
use buildg.Container.{Gateway, ContainerConfig, Effect, exec_container}

-- the arguments and the flags
pub record ExecFlags : Type 0 where
  pub args : List Text
  pub image : Bool
  pub mountroot : Text
  pub init_state : Bool
  pub tty : Bool
  pub stdin : Bool
  pub env : List Text
  pub workdir : Text

-- Which case of the select comes first once the process runs.
pub data Waited : Type 0 where
  finished : Waited
  canceled_first failed_first : Error → Waited

-- The gateway, the number that stands for the streams with or without a standard input, and the wait for a process.
pub record Terminal : Type 0 where
  pub gateway : Gateway
  pub streams : Bool → ℕ
  pub wait : ℕ → Waited

-- What exec does, in order.
pub data ExecStep : Type 0 where
  use_stdin done_stdin disable_signals enable_signals : ExecStep
  container : Effect → ExecStep

abbrev pub or_shell : List Text → List Text
or_shell [] = codes "/bin/sh" ∷ []
or_shell (a ∷ rest) = if a == [] then codes "/bin/sh" ∷ [] else a ∷ rest

abbrev pub exec_config : (Bool → ℕ) → ExecFlags → RegisteredStatus → Handler → ContainerConfig
exec_config streams f info h = record {
  info = info;
  args = or_shell f.args;
  tty = f.tty;
  stdio = streams f.stdin;
  image = if f.image then h.image else none;
  mountroot = f.mountroot;
  input_mount = f.init_state;
  env = f.env;
  cwd = f.workdir;
  watches = true;
  no_set_raw = false;
}

abbrev pub wait_error : Waited → Option Error
wait_error finished = none
wait_error (canceled_first e) = some e
wait_error (failed_first e) = some (wrapped (codes "process execution failed") e)

abbrev pub run_process :
    (ℕ → Waited) → Result (ℕ × List Effect) × List Effect → Option Error × List Effect
run_process wait (err e, done) = (some e, done)
run_process wait (ok (proc, cleanups), done) = (wait_error (wait proc), done ++ cleanups)

-- the deferred calls, the last one first
abbrev pub around : Option Error × List Effect → Option Error × List ExecStep
around (e, steps) =
    (e, use_stdin ∷ disable_signals ∷ (map container steps ++ enable_signals ∷ done_stdin ∷ []))

abbrev pub exec_with :
    (ℕ → Waited)
    → Option (Result (ℕ × List Effect) × List Effect)
    → Option (Option Error × List ExecStep)
exec_with wait none = none
exec_with wait (some o) = some (around (run_process wait o))

unfoldable pub exec_command :
    Terminal → ExecFlags → RegisteredStatus → Handler → Option (Option Error × List ExecStep)
exec_command T f info h =
    if f.stdin && not f.tty || not f.stdin && f.tty
    then some (some flags_not_together, [])
    else exec_with T.wait (exec_container T.gateway (exec_config T.streams f info h))
