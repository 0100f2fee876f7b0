-- ===== src/Shell/Interrupts.antt =====
-- main.go and exec.go: the signals that the process gets. The handler of main.go cancels the build, and while exec runs a
-- container, its watcher passes them on to the process in it.
pub mod Passed
use buildg.Prelude.{
  ℕ, ◌%◌, ◌^◌, Bool, true, false, List, [], ◌∷◌, ◌++◌, Option, none, some, if◌then◌else◌,
}
use buildg.Errors.{Error, Result, ok, err}
use buildg.Container.{watch, cancel_watch}
use buildg.Shell.Exec.{ExecStep, disable_signals, enable_signals, container}

pub data Signal : Type 0 where
  winch interrupt terminate : Signal

-- what is done to a process
pub data ProcessStep : Type 0 where
  resize : ℕ → ℕ → ℕ → ProcessStep
  signal : ℕ → Signal → ProcessStep

-- `enabled` is that of signalHandler, `canceled` says that its handler has run; `watched` is the process of watchSignal;
-- `killed` says that a signal has ended the process.
pub record Interrupts : Type 0 where
  pub enabled : Bool
  pub canceled : Bool
  pub watched : Option ℕ
  pub killed : Bool
  pub passed : List ProcessStep

-- a step of exec, or a signal when its goroutines take it
pub data Moment : Type 0 where
  step : ExecStep → Moment
  caught : Signal → Moment

-- uint32(w)
abbrev pub uint32 : ℕ → ℕ
uint32 n = n % 2 ^ 32

-- The body of watchSignal's loop, with the console and its size.
abbrev pub pass_signal : Option (Result (ℕ × ℕ)) → ℕ → Signal → List ProcessStep
pass_signal none p winch = []
pass_signal (some (err e)) p winch = []
pass_signal (some (ok (width, height))) p winch = resize p (uint32 width) (uint32 height) ∷ []
pass_signal con p interrupt = signal p interrupt ∷ []
pass_signal con p terminate = signal p terminate ∷ []

abbrev pub pass_on : Option (Result (ℕ × ℕ)) → Option ℕ → Signal → List ProcessStep
pass_on con none s = []
pass_on con (some p) s = pass_signal con p s

-- signalHandler takes interrupts alone, for which it is notified while the process runs.
abbrev pub cancels : Bool → Signal → Bool → Bool
cancels true interrupt canceled = true
cancels enabled s canceled = canceled

-- SIGTERM ends a process that has not asked for it, as only watchSignal does; without it, a change of the size is ignored.
abbrev pub kills : Option ℕ → Signal → Bool
kills none terminate = true
kills watched s = false

module _ (con : Option (Result (ℕ × ℕ))) (proc : ℕ) where
  -- watchSignal starts with a signal of its own, for the size; the end of its goroutine is one step with its cancellation.
  abbrev pub exec_moment : ExecStep → Interrupts → Interrupts
  exec_moment disable_signals i = record i { enabled = false }
  exec_moment enable_signals i = record i { enabled = true }
  exec_moment (container watch) i = record i {
    watched = some proc;
    passed = i.passed ++ pass_signal con proc winch;
  }
  exec_moment (container cancel_watch) i = record i { watched = none }
  exec_moment _ i = i

  abbrev pub live_moment : Moment → Interrupts → Interrupts
  live_moment (step s) i = exec_moment s i
  live_moment (caught s) i = record i {
    canceled = cancels i.enabled s i.canceled;
    killed = kills i.watched s;
    passed = i.passed ++ pass_on con i.watched s;
  }

  -- Nothing happens once the process has ended.
  abbrev pub moment : Moment → Interrupts → Interrupts
  moment m i = if i.killed then i else live_moment m i

  unfoldable pub moments : List Moment → Interrupts → Interrupts
  moments [] i = i
  moments (m ∷ ms) i = moments ms (moment m i)
