-- ===== src/Session.antt =====
-- The parts of a session of the shell, put together as main.go and handler.go do: Debug builds, the controller's loop takes
-- the events of a build, and the handler asks the shell at a break, while the writer of the progress keeps what the
-- build writes.
pub mod Leaves
pub mod Image
use buildg.Prelude.{ℕ, Bool, true, false, List, [], ◌∷◌, Option, none, some, map}
use buildg.Int.{pos}
use buildg.Text.{Text, codes}
use buildg.Errors.{Error, message, Result}
use buildg.Breakpoints.{Breakpoints, on_fail}
use buildg.Handler.{Handler, BreakContext, BreakpointHandler}
use buildg.Controller.Sources.{Source}
use buildg.Controller.Pauses.{Pauses}
use buildg.Controller.Loop.{Event, State, End, waiting, returned, panicked, controller_handle}
use buildg.Client.Debug.{Attempt, waited, of_handler, of_build, Builds}
use buildg.Shell.Commands.{Progress, Console}
use buildg.Shell.Breaks.{CommandHandler, break_handler}
use buildg.Main.Progress.{File, ProgressWriter, disable, enable, buffered}

-- A panic ends the process. Here it is the mark `crashed` with this error.
abbrev pub crash : Error
crash = message (codes "panic")

-- The handler of a build. Without a table of breakpoints it has the one on failures.
unfoldable pub new_handler : Option Breakpoints → Bool → Bool → Handler
new_handler none stop_on_entry disable_breakpoints = record {
  breakpoints = record {
    breakpoints = some ((codes "on-fail", on_fail) ∷ []);
    breakpoint_index = pos 0;
  };
  break_each_vertex = false;
  entried = false;
  stop_on_entry = stop_on_entry;
  disable_breakpoints = disable_breakpoints;
  image = none;
}
new_handler (some b) stop_on_entry disable_breakpoints = record {
  breakpoints = b;
  break_each_vertex = false;
  entried = false;
  stop_on_entry = stop_on_entry;
  disable_breakpoints = disable_breakpoints;
  image = none;
}

pub record Shell (T L : File) : Type 0 where
  pub commands : CommandHandler
  pub progress : ProgressWriter T L
  pub crashed : Bool

-- What is kept from one build to the next; `handling` is the controller's mark that its loop runs.
pub record SessionState (T L : File) : Type 0 where
  pub breakpoints : Breakpoints
  pub shell : Shell T L
  pub pauses : Pauses
  pub handling : Bool

-- What BuildKit sends during a build, how the build ends when no handler fails, and the debugger image of its handler.
pub record Plan (T L : File) : Type 0 where
  pub events : SessionState T L → List Event
  pub result : SessionState T L → Option Error
  pub prune_error : Option Error
  pub image : Option ℕ

-- how a build ends, by the end of the loop and the result of BuildKit
abbrev pub attempt_of : End → Option Error → Attempt
attempt_of (returned e) r = waited (some (of_handler e))
attempt_of panicked r = waited (some (of_handler crash))
attempt_of waiting none = waited none
attempt_of waiting (some e) = waited (some (of_build e))

module _ {T L : File} (K : Console) (read_log : Option L.Disk → Result Text)
    (deref : ℕ → Source) where
  abbrev pub progress_of : ProgressWriter T L → Progress
  progress_of w = record { buffered = buffered w; log = read_log w.log_file }

  abbrev pub left :
      ProgressWriter T L
      → Handler
      → Shell T L
      → Option (Option Error × Handler × CommandHandler)
      → Option Error × Handler × Shell T L
  left p h w none = (some crash, h, record w { progress = enable p; crashed = true })
  left p h w (some (e, h', ch)) = (e, h', record w { commands = ch; progress = enable p })

  -- The breakpoint handler of debugAction.
  unfoldable pub shell_handler : BreakpointHandler (Shell T L)
  shell_handler ctx h w =
      let p = disable w.progress in left p h w (break_handler K ctx (progress_of p) h w.commands)

  abbrev pub built :
      Plan T L → SessionState T L → Bool × End × State (Shell T L) → Attempt × SessionState T L
  built plan s (handling, e, st) = (
    attempt_of e (plan.result s),
    record {
      breakpoints = st.handler.breakpoints;
      shell = st.world;
      pauses = st.pauses;
      handling = handling;
    },
  )

  -- A build of the command debug: it stops on entry.
  unfoldable pub debug_build : Plan T L → SessionState T L → Attempt × SessionState T L
  unfolding new_handler shell_handler
  debug_build plan s = built plan s (
      controller_handle (shell_handler) deref s.handling false (plan.events s) (record {
        handler = record (new_handler (some s.breakpoints) true false) { image = plan.image };
        world = s.shell;
        pauses = s.pauses;
      }))

  abbrev pub session_builds : Builds (Plan T L) (SessionState T L)
  session_builds = record {
    build = debug_build;
    prune_all = λ plan s. (plan.prune_error, s);
    done = λ plan s. s;
  }
