-- ===== src/Dap/Stops/Told.antt =====
-- What holds of the breaks of a session.
use buildg.Prelude.{
  ℕ, suc, ◌≢◌, ◌⊎◌, inl, inr, Bool-cases, ◌+◌, ◌≡◌, refl, ap, ◌∙◌, Bool, true, false, List, [], ◌∷◌,
  arith, length, length-append,
}
use buildg.Int.{ℤ}
use buildg.Dap.Stops.{
  Stage, building, told, waiting, panicked, stopping, Stops, new_stops, send_stop, receive_stop,
  set_context, request, resume, after_close, cancel, Step, breaks, receives, sets, requests,
  resumes, cancels, Reaches, starts, goes,
}

-- a break that the client was told of and that is not over
abbrev pub at_break : Stage → ℕ
at_break told = 1
at_break waiting = 1
at_break g = 0

record IsSound (s : Stops) : Type 0 where
  over : s.passed + s.pending ≡ s.accepted
  events : length s.told_ids ≡ s.passed + at_break s.stage
  safe : s.stage ≡ panicked → s.is_canceled ≡ true
  open_sends : (ids : List ℤ) → s.stage ≡ stopping ids → s.is_canceled ≡ false

new_stops-IsSound : IsSound new_stops
new_stops-IsSound = record {
  over = refl;
  events = refl;
  safe = λ e. absurd (cc e);
  open_sends = λ ids e. refl;
}

send_stop-IsSound :
    (b : Bool) (ids : List ℤ) (s : Stops)
    → s.is_canceled ≡ b
    → s.stage ≡ building
    → IsSound s
    → IsSound (send_stop b ids s)
send_stop-IsSound true ids s c e i = record {
  over = i.over;
  events = i.events ∙ ap (λ g. s.passed + at_break g) e;
  safe = λ _. c;
  open_sends = λ js q. cc q;
}
send_stop-IsSound false ids s c e i = record {
  over = i.over;
  events = i.events ∙ ap (λ g. s.passed + at_break g) e;
  safe = λ q. cc q;
  open_sends = λ js q. c;
}

receive_stop-IsSound :
    (ids : List ℤ) (s : Stops) → s.stage ≡ stopping ids → IsSound s → IsSound (receive_stop ids s)
receive_stop-IsSound ids s e i =
    let before : length s.told_ids ≡ s.passed + 0 = i.events ∙ ap (λ g. s.passed + at_break g) e in
    record {
      over = i.over;
      events = omega (arith, before, length-append s.told_ids (ids ∷ []));
      safe = λ q. cc q;
      open_sends = λ js q. cc q;
    }

set_context-IsSound : (s : Stops) → s.stage ≡ told → IsSound s → IsSound (set_context s)
set_context-IsSound s e i = record {
  over = i.over;
  events = i.events ∙ ap (λ g. s.passed + at_break g) e;
  safe = λ q. cc q;
  open_sends = λ js q. cc q;
}

request-IsSound : (b : Bool) (s : Stops) → IsSound s → IsSound (request b s)
request-IsSound false s i = i
request-IsSound true s i =
    let o = i.over in
    record { over = omega (arith, o); events = i.events; safe = i.safe; open_sends = i.open_sends }

resume-IsSound :
    (n : ℕ) (s : Stops) → s.stage ≡ waiting → s.pending ≡ suc n → IsSound s → IsSound (resume n s)
resume-IsSound n s e p i =
    let before : length s.told_ids ≡ s.passed + 1 = i.events ∙ ap (λ g. s.passed + at_break g) e in
    let o = i.over in
    record {
      over = omega (arith, o, p);
      events = omega (arith, before);
      safe = λ q. cc q;
      open_sends = λ js q. cc q;
    }

closed_break : (g : Stage) → at_break g ≡ at_break (after_close g)
closed_break building = refl
closed_break told = refl
closed_break waiting = refl
closed_break panicked = refl
closed_break (stopping ids) = refl

no_send : (g : Stage) (ids : List ℤ) → after_close g ≢ stopping ids
no_send building ids q = cc q
no_send told ids q = cc q
no_send waiting ids q = cc q
no_send panicked ids q = cc q
no_send (stopping js) ids q = cc q

cancel-IsSound : (s : Stops) → IsSound s → IsSound (cancel s)
cancel-IsSound s i = record {
  over = i.over;
  events = i.events ∙ ap (λ n. s.passed + n) (closed_break s.stage);
  safe = λ q. refl;
  open_sends = λ js q. absurd (no_send s.stage js q);
}

Step-IsSound : (s t : Stops) → Step s t → IsSound s → IsSound t
Step-IsSound s _ (breaks _ ids e) i = send_stop-IsSound s.is_canceled ids s refl e i
Step-IsSound s _ (receives _ ids e) i = receive_stop-IsSound ids s e i
Step-IsSound s _ (sets _ e) i = set_context-IsSound s e i
Step-IsSound s _ (requests _) i = request-IsSound s.has_context s i
Step-IsSound s _ (resumes _ n e p) i = resume-IsSound n s e p i
Step-IsSound s _ (cancels _ c) i = cancel-IsSound s i

Reaches-IsSound : (k l : Stops) → IsSound k → Reaches k l → IsSound l
Reaches-IsSound k _ i (starts _) = i
Reaches-IsSound k _ i (goes _ l m r s) = Step-IsSound l m s (Reaches-IsSound k l i r)

-- In every state that any steps reach: a break is over for each request that was accepted and waits no longer; the
-- client was told once of each break that is over and of the one that is not, and of no other; and breakHandler
-- has not panicked unless the session was canceled.
pub Reaches-told :
    (s : Stops)
    → Reaches new_stops s
    → (s.passed + s.pending ≡ s.accepted)
      × (length s.told_ids ≡ s.passed + at_break s.stage)
      × ((s.is_canceled ≡ true) ⊎ (s.stage ≢ panicked))
Reaches-told s r =
    let i = Reaches-IsSound new_stops s new_stops-IsSound r in
    (
      i.over,
      i.events,
      elim (Bool-cases s.is_canceled) [
        | inl c ↦ inl c
        | inr n ↦ inr (λ e. let c = i.safe e in cc (c, n))
      ],
    )
