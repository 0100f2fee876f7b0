-- ===== src/Dap/Stops.antt =====
-- pkg/dap/debugger.go and dap.go: the channels between the build, the requests and the client at a break, as steps.
pub mod Told
use buildg.Prelude.{ℕ, suc, ◌≡◌, Bool, true, false, List, [], ◌∷◌, ◌++◌}
use buildg.Int.{ℤ}

-- Where breakHandler is: outside, at its send on stoppedCh, after it, or at its wait on mesCh. A send on a closed channel
-- is a panic.
pub data Stage : Type 0 where
  building told waiting panicked : Stage
  stopping : List ℤ → Stage

-- `told` are the stops that the client was told of, `pending` the requests that wait at mesCh, `accepted` all that were
-- to be sent on it, and `passed` the breaks that are over.
pub record Stops : Type 0 where
  pub stage : Stage
  pub told_ids : List (List ℤ)
  pub has_context : Bool
  pub pending : ℕ
  pub accepted : ℕ
  pub passed : ℕ
  pub is_canceled : Bool

abbrev pub new_stops : Stops
new_stops = record {
  stage = building;
  told_ids = [];
  has_context = false;
  pending = 0;
  accepted = 0;
  passed = 0;
  is_canceled = false;
}

-- d.stoppedCh <- bpIDs
abbrev pub send_stop : Bool → List ℤ → Stops → Stops
send_stop true ids s = record s { stage = panicked }
send_stop false ids s = record s { stage = stopping ids }

-- The goroutine of onLaunchRequest sends a StoppedEvent.
abbrev pub receive_stop : List ℤ → Stops → Stops
receive_stop ids s = record s { stage = told; told_ids = s.told_ids ++ ids ∷ [] }

-- d.bCtx = &bCtx
abbrev pub set_context : Stops → Stops
set_context s = record s { stage = waiting; has_context = true }

-- doContinue and doNext; without a context they only log
abbrev pub request : Bool → Stops → Stops
request true s = record s { pending = suc s.pending; accepted = suc s.accepted }
request false s = s

-- <-d.mesCh
abbrev pub resume : ℕ → Stops → Stops
resume n s = record s { stage = building; pending = n; passed = suc s.passed }

abbrev pub after_close : Stage → Stage
after_close (stopping ids) = panicked
after_close g = g

-- close(d.stoppedCh), which also ends a send that waits
abbrev pub cancel : Stops → Stops
cancel s = record s { stage = after_close s.stage; is_canceled = true }

pub data Step : Stops → Stops → Type 0 where
  breaks : (s : Stops) (ids : List ℤ) → s.stage ≡ building → Step s (send_stop s.is_canceled ids s)
  receives : (s : Stops) (ids : List ℤ) → s.stage ≡ stopping ids → Step s (receive_stop ids s)
  sets : (s : Stops) → s.stage ≡ told → Step s (set_context s)
  requests : (s : Stops) → Step s (request s.has_context s)
  resumes : (s : Stops) (n : ℕ) → s.stage ≡ waiting → s.pending ≡ suc n → Step s (resume n s)
  cancels : (s : Stops) → s.is_canceled ≡ false → Step s (cancel s)

pub data Reaches : Stops → Stops → Type 0 where
  starts : (s : Stops) → Reaches s s
  goes : (k l m : Stops) → Reaches k l → Step l m → Reaches k m
