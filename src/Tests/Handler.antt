-- ===== src/Tests/Handler.antt =====
-- pkg/buildkit/handler.go: a session that stops on entry, and an event that hits nothing.
use buildg.Prelude.{◌⊎◌, ◌≡◌, true, false, [], ◌∷◌, none, ℕ, ◌+◌}
use buildg.Text.{codes, text_eq}
use buildg.Types.{Location}
use buildg.Breakpoints.{new_breakpoints}
use buildg.Handler.{BreakpointHandler, Handler, handle}
use buildg.Handler.Pauses.{Breaks, Paused, handle_lem}
use buildg.Tests.Breakpoints.{status}

abbrev pub fresh_handler : Handler
fresh_handler = record {
  breakpoints = new_breakpoints;
  break_each_vertex = false;
  entried = false;
  stop_on_entry = true;
  disable_breakpoints = false;
  image = none;
}

abbrev first_location : Location
first_location = record {
  source = record { address = 1; filename = codes "Dockerfile"; bytes = [] };
  ranges = [];
}

-- counts the pauses
abbrev pub counting : BreakpointHandler ℕ
counting ctx h n = (none, h, n + 1)

abbrev entered : Handler
entered = record fresh_handler { entried = true }

handle_lem_example :
    (Breaks status (first_location ∷ []) entered
      × Paused counting status first_location [] entered 0)
    ⊎ ((¬ Breaks status (first_location ∷ []) entered)
        × (handle counting status (first_location ∷ []) entered 0 ≡ (none, entered, 0)))
handle_lem_example = handle_lem counting status first_location [] entered 0
