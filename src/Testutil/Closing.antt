-- ===== src/Testutil/Closing.antt =====
-- pkg/testutil: how the helpers of the tests end what they started.
use buildg.Prelude.{Bool, true, List, [], ◌∷◌, Option, none, some, if◌then◌else◌}
use buildg.Text.{Text}
use buildg.Errors.{Error, Result, ok, err}
use buildg.Testutil.{Started}
use buildg.Testutil.Reading.{Done, output, fatal}

-- what Close of a shell does after its command exit
pub data CloseStep : Type 0 where
  killed : CloseStep
  waited : CloseStep
  pruned : Text → CloseStep  -- by the root directory
  removed : Text → CloseStep

-- the errors of the shell, of the command prune, and of the removal of a temporary root directory
pub record CloseErrors : Type 0 where
  pub wait_error : Option Error
  pub prune_error : Option Error
  pub remove_error : Option Error

abbrev pub later_error : Option Error → Option Error → Option Error
later_error e none = e
later_error e (some x) = some x

abbrev pub cleanup_error : Bool → CloseErrors → Option Error
cleanup_error temporary w = if temporary then w.remove_error else none

abbrev pub cleanup_steps : Started → List CloseStep
cleanup_steps st = if st.is_temporary then removed st.root_dir ∷ [] else []

-- How Close ends: the test fails in the command exit, or it returns an error or none.
pub data Closed : Type 0 where
  failed_test : Error → Closed
  closed : Option Error → List CloseStep → Closed

-- DebugShell.Close, after what Do of "exit" gives; none while that waits.
unfoldable pub close : Started → CloseErrors → Option Done → Option Closed
close st w none = none
close st w (some (fatal e)) = some (failed_test e)
close st w (some (output t)) = some (
    closed (later_error (later_error w.wait_error w.prune_error) (cleanup_error st.is_temporary w))
      (killed ∷ waited ∷ pruned st.root_dir ∷ cleanup_steps st))

-- DAPServer
pub record DapServer : Type 0 where
  pub is_closed : Bool  -- closeOnce
  pub has_exited : Bool
  pub ends_in_time : Bool
  pub wait_error : Option Error

pub data DapStep : Type 0 where
  disconnects closes_conn kills : DapStep

abbrev pub closed_server : DapServer → DapServer
closed_server s = record s { is_closed = true }

-- DAPServer.Close asks for a disconnect, and kills a server that does not end within three seconds.
unfoldable pub close_server : DapServer → (Option Error × List DapStep) × DapServer
close_server s =
    if s.is_closed
    then ((none, []), s)
    else (if s.has_exited
        then ((none, []), closed_server s)
        else (if s.ends_in_time
            then ((none, disconnects ∷ closes_conn ∷ []), closed_server s)
            else ((s.wait_error, disconnects ∷ closes_conn ∷ kills ∷ []), closed_server s)))

-- NewTempContext, by os.MkdirTemp and the error of writing the Dockerfile: the context, or an error that ends the test,
-- and the directories that were removed.
unfoldable pub new_temp_context : Result Text → (Text → Option Error) → Result Text × List Text
new_temp_context (err e) write = (err e, [])
new_temp_context (ok dir) write = written (write dir)
  where
    written : Option Error → Result Text × List Text
    written none = (ok dir, [])
    written (some e) = (err e, dir ∷ [])
