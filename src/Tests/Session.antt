-- ===== src/Tests/Session.antt =====
-- A session that is left at its first break.
use buildg.Prelude.{◌+◌, ◌≡◌, ℕ, refl, false, [], ◌∷◌, Option, none, some}
use buildg.Text.{Text, codes, text_eq}
use buildg.Dict.{Dict, lookup, HasUniqueKeys}
use buildg.Errors.{Result, ok}
use buildg.Types.{Location}
use buildg.Breakpoints.{new_breakpoints}
use buildg.Controller.Sources.{get_location}
use buildg.Controller.Pauses.{no_pauses}
use buildg.Client.Debug.{answered, debug_session}
use buildg.Shell.Breaks.{line}
use buildg.Main.Progress.{new_progress_writer}
use buildg.Session.{SessionState, Plan, session_builds}
use buildg.Session.Image.{ImageSolver, or_made, set_image_option, not_debugged}
use buildg.Session.Image.Unpaused.{AfterImage, build_with_image_lem}
use buildg.Controller.Worker.{resolve_op, plain}
use buildg.Session.Leaves.{IsLeft, debug_session-leaves}
use buildg.Tests.Breakpoints.{file}
use buildg.Tests.Controller.{source, event}
use buildg.Tests.Client.{config}
use buildg.Tests.Commands.{console, reading}
use buildg.Tests.Main.{text_file}

abbrev plan : Plan text_file text_file
plan = record { events = λ s. event ∷ []; result = λ s. none; prune_error = none; image = none }

abbrev read_log : Option Text → Result Text
read_log d = ok []

abbrev begins : SessionState text_file text_file
begins = record {
  breakpoints = new_breakpoints;
  shell = record {
    commands = reading (line (codes "q") ∷ line (codes "c") ∷ []);
    progress = record (new_progress_writer [] []) { buf = codes "#1 DONE" };
    crashed = false;
  };
  pauses = no_pauses;
  handling = false;
}

abbrev first_location : Location
first_location = record { source = file; ranges = [] }

debug_session-leaves_example :
    (s' : SessionState text_file text_file) × (debug_session
        (session_builds console read_log source)
        1
        config
        (ok plan)
        answered
        begins
      ≡ some (none, s'))
    × IsLeft console read_log source begins s'
unfolding get_location lookup
debug_session-leaves_example =
    debug_session-leaves console read_log source config plan begins event [] first_location [] 0
      refl refl refl refl (codes "q", [], refl, refl, refl) refl

abbrev solver : ImageSolver
solver = record { marshal = λ image o. ok 3; solve = λ d. ok (d + 4) }

build_with_image_lem_example :
    ((description : Option (Dict Text Text)) (op : ℕ)
      → HasUniqueKeys (or_made description)
      → resolve_op (set_image_option not_debugged description) (ok op) ≡ ok (plain op))
    × AfterImage console read_log source solver (codes "alpine") plan begins
build_with_image_lem_example =
    build_with_image_lem console read_log source solver (codes "alpine") plan begins refl
