-- ===== src/Controller/Loop.antt =====
-- The loop of debugController.handle over the events that it receives.
use buildg.Prelude.{ℕ, Bool, true, false, List, [], ◌∷◌, Option, none, some, if◌then◌else◌}
use buildg.Text.{Text}
use buildg.Errors.{Error, handler_exists, canceled, Result, ok, err}
use buildg.Types.{Location, RegisteredStatus}
use buildg.Handler.{Handler, BreakpointHandler}
use buildg.Handler as handler
use buildg.Controller.Sources.{Source, Sources, get_location}
use buildg.Controller.Pauses.{Pauses, continue_id}

-- A message of `eventCh`, with the sources as they are when it is handled.
pub record Event : Type 0 where
  pub msg : RegisteredStatus
  pub sources : Sources

pub record State (W : Type 0) : Type 0 where
  pub handler : Handler
  pub world : W
  pub pauses : Pauses

-- How the loop ends on a list of events: it waits for the next one, it has returned an error, or it panicked.
pub data End : Type 0 where
  waiting : End
  returned : Error → End
  panicked : End

abbrev pub idle : Bool → End
idle ctx_done = if ctx_done then returned canceled else waiting

module _ {W : Type 0} (cb : BreakpointHandler W) (deref : ℕ → Source) where
  -- What is done with a message before continueID; an error is returned.
  abbrev pub located_message :
      RegisteredStatus → Result (List Location) → Handler → W → Option Error × Handler × W
  located_message msg (err e) h w = (none, h, w)
  located_message msg (ok locs) h w = handler.handle cb msg locs h w

  abbrev pub handle_found :
      RegisteredStatus
      → Option (Result (List Location))
      → Handler
      → W
      → Option (Option Error × Handler × W)
  handle_found msg none h w = none
  handle_found msg (some found) h w = some (located_message msg found h w)

  abbrev pub next_state : Handler → W → Option Pauses → Option (Option Error × State W)
  next_state h w none = none
  next_state h w (some p) = some (none, record { handler = h; world = w; pauses = p })

  abbrev pub finish_round :
      Text → Pauses → Option (Option Error × Handler × W) → Option (Option Error × State W)
  finish_round id p none = none
  finish_round id p (some (some e, h, w)) =
      some (some e, record { handler = h; world = w; pauses = p })
  finish_round id p (some (none, h, w)) = next_state h w (continue_id id p)

  -- One round: the message, then continueID of its id. The result is the error to return, if any; `none` is a panic.
  unfoldable pub round : Event → State W → Option (Option Error × State W)
  round ev s =
      finish_round ev.msg.debug_id s.pauses
        (handle_found ev.msg (get_location deref ev.msg.vertex ev.sources) s.handler s.world)

  abbrev pub go_on :
      State W → Option (Option Error × State W) → (State W → End × State W) → End × State W
  go_on s none rest = (panicked, s)
  go_on s (some (some e, s')) rest = (returned e, s')
  go_on s (some (none, s')) rest = rest s'

  -- The context may be cancelled after these events.
  unfoldable pub loop : Bool → List Event → State W → End × State W
  loop ctx_done [] s = (idle ctx_done, s)
  loop ctx_done (ev ∷ evs) s = go_on s (round ev s) (λ s'. loop ctx_done evs s')

  -- `handleStarted` is set while the loop runs, and reset when it returns.
  abbrev pub started_after : End × State W → Bool × End × State W
  started_after (waiting, s) = (true, waiting, s)
  started_after (e, s) = (false, e, s)

  unfoldable pub controller_handle : Bool → Bool → List Event → State W → Bool × End × State W
  unfolding loop
  controller_handle started ctx_done evs s =
      let run = started_after (loop ctx_done evs s) in
      if started then (started, returned handler_exists, s) else run
