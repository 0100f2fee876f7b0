-- ===== src/Controller/Resume.antt =====
-- Which operations the loop lets go on.
use buildg.Prelude.{
  ℕ, ◌≡◌, refl, ap, sym, subst, ◌⊎◌, inl, inr, Bool, true, false, List, [], ◌∷◌, ◌++◌, Option, none,
  some, arith, if◌then◌else◌, ◌==◌,
}
use buildg.Text.{Text, text_eq}
use buildg.Dict.{lookup}
use buildg.Errors.{Error, Result, ok, err}
use buildg.Types.{Location}
use buildg.Handler.{Handler, BreakpointHandler, handle}
use buildg.Controller.Sources.{Source, get_location}
use buildg.Controller.Pauses.{Pauses, continue_id, IsSound, continue_id_lem}
use buildg.Controller.Loop.{
  Event, State, End, idle, returned, located_message, finish_round, round, loop,
}

-- some event has this id
abbrev pub is_id_of : Text → List Event → Bool
is_id_of j [] = false
is_id_of j (ev ∷ evs) = if ev.msg.debug_id == j then true else is_id_of j evs

module _ {W : Type 0} (cb : BreakpointHandler W) (deref : ℕ → Source) where
  -- The search for the locations of the event does not panic: its sources index their own infos.
  abbrev pub IsIndexed : Event → Type 0
  IsIndexed ev =
      (found : Result (List Location)) × (get_location deref ev.msg.vertex ev.sources ≡ some found)

  -- Nothing waits any more under the ids of these events; all else waits as before.
  abbrev pub Resumed : List Event → Pauses → Pauses → Type 0
  Resumed evs p p' =
      (j : Text) → lookup j p'.pause ≡ (if is_id_of j evs then none else lookup j p.pause)

  -- The event has locations, and the handler returns an error for it.
  abbrev pub Fails : Event → State W → Error → State W → Type 0
  Fails ev s e s' =
      (locs : List Location) × (get_location deref ev.msg.vertex ev.sources ≡ some (ok locs))
      × (handle cb ev.msg locs s.handler s.world ≡ (some e, s'.handler, s'.world))

  -- The event has no location, or the handler returns none for it.
  abbrev pub Succeeds : Event → State W → State W → Type 0
  Succeeds ev s s' =
      ((x : Error) × (get_location deref ev.msg.vertex ev.sources ≡ some (err x))
        × (s'.handler ≡ s.handler)
        × (s'.world ≡ s.world))
      ⊎ ((locs : List Location) × (get_location deref ev.msg.vertex ev.sources ≡ some (ok locs))
          × (handle cb ev.msg locs s.handler s.world ≡ (none, s'.handler, s'.world)))

  -- The events are handled without an error, each from the state that the one before it has left, and only their operations
  -- are resumed.
  abbrev pub Handled : List Event → State W → State W → Type 0
  Handled [] s t = s ≡ t
  Handled (ev ∷ evs) s t =
      (s' : State W) × Succeeds ev s s' × Resumed (ev ∷ []) s.pauses s'.pauses × Handled evs s' t

  abbrev Stops : Event → State W → Type 0
  Stops ev s =
      (e : Error) × (s' : State W) × (round cb deref ev s ≡ some (some e, s'))
      × (s'.pauses ≡ s.pauses)
      × Fails ev s e s'

  abbrev GoesOn : Event → State W → Type 0
  GoesOn ev s =
      (s' : State W) × (round cb deref ev s ≡ some (none, s'))
      × IsSound s'.pauses
      × Resumed (ev ∷ []) s.pauses s'.pauses
      × Succeeds ev s s'

  finish-cases :
      (id : Text) (p : Pauses) (m : Option Error × Handler × W) (p' : Pauses)
      → continue_id id p ≡ some p'
      → ((e : Error) × (s' : State W) × (finish_round cb deref id p (some m) ≡ some (some e, s'))
          × (s'.pauses ≡ p)
          × (m ≡ (some e, s'.handler, s'.world)))
        ⊎ ((s' : State W) × (finish_round cb deref id p (some m) ≡ some (none, s'))
            × (s'.pauses ≡ p')
            × (m ≡ (none, s'.handler, s'.world)))
  finish-cases id p (some e, h, w) p' c =
      inl (e, record { handler = h; world = w; pauses = p }, refl, refl, refl)
  finish-cases id p (none, h, w) p' c =
      inr (record { handler = h; world = w; pauses = p' }, rw c refl, refl, refl)

  -- what the message does, by what its search has found
  failed :
      (ev : Event) (s s' : State W) (found : Result (List Location)) (e : Error)
      → get_location deref ev.msg.vertex ev.sources ≡ some found
      → located_message cb deref ev.msg found s.handler s.world ≡ (some e, s'.handler, s'.world)
      → Fails ev s e s'
  failed ev s s' (ok locs) e g q = (locs, g, q)
  failed ev s s' (err x) e g q = absurd (cc (ap (λ m. m.0) q))

  succeeded :
      (ev : Event) (s s' : State W) (found : Result (List Location))
      → get_location deref ev.msg.vertex ev.sources ≡ some found
      → located_message cb deref ev.msg found s.handler s.world ≡ (none, s'.handler, s'.world)
      → Succeeds ev s s'
  succeeded ev s s' (ok locs) g q = inr (locs, g, q)
  succeeded ev s s' (err x) g q = inl (x, g, sym (ap (λ m. m.1) q), sym (ap (λ m. m.2) q))

  round-cases :
      (ev : Event) (s : State W) → IsIndexed ev → IsSound s.pauses → Stops ev s ⊎ GoesOn ev s
  unfolding round
  round-cases ev s (found, e) sound =
      let (p', c, sound', at, _) = continue_id_lem s.pauses sound ev.msg.debug_id in
      elim (finish-cases ev.msg.debug_id s.pauses
        (located_message cb deref ev.msg found s.handler s.world) p' c) [
          | inl (er, s', r, q, m) ↦ inl (er, s', rw e r, q, failed ev s s' found er e m)
          | inr (s', r, q, m) ↦ inr (
            s',
            rw e r,
            rw q sound',
            λ j. rw q (ground (arith, at j)),
            succeeded ev s s' found e m,
          )
        ]

  abbrev pub Outcome : Bool → List Event → State W → End × State W → Type 0
  Outcome d evs s r =
      IsSound r.1.pauses
      × (((r.0 ≡ idle d) × Handled evs s r.1 × Resumed evs s.pauses r.1.pauses)
          ⊎ ((e : Error) × (done : List Event) × (ev : Event) × (rest : List Event) × (s' : State W)
              × (evs ≡ done ++ ev ∷ rest)
              × (r.0 ≡ returned e)
              × Handled done s s'
              × Fails ev s' e r.1
              × (r.1.pauses ≡ s'.pauses)
              × Resumed done s.pauses r.1.pauses))

  abbrev AllIndexed : List Event → Type 0
  AllIndexed [] = Unit
  AllIndexed (ev ∷ evs) = IsIndexed ev × AllIndexed evs

  Resumed-trans :
      (ev : Event) (evs : List Event) (p q r : Pauses)
      → Resumed (ev ∷ []) p q
      → Resumed evs q r
      → Resumed (ev ∷ evs) p r
  Resumed-trans ev evs p q r a b j = ground (arith, a j, b j)

  extended :
      (ev : Event) (d : Bool) (evs : List Event) (s s' : State W) (r : End × State W)
      → Resumed (ev ∷ []) s.pauses s'.pauses
      → Succeeds ev s s'
      → Outcome d evs s' r
      → Outcome d (ev ∷ evs) s r
  extended ev d evs s s' r a u (sound, inl (w, h, b)) =
      (sound, inl (w, (s', u, a, h), Resumed-trans ev evs s.pauses s'.pauses r.1.pauses a b))
  extended ev d evs s s' r a u (sound, inr (e, done, ev', rest, t, q, w, h, f, p, b)) = (
    sound,
    inr (
      e,
      ev ∷ done,
      ev',
      rest,
      t,
      ap (λ l. ev ∷ l) q,
      w,
      (s', u, a, h),
      f,
      p,
      Resumed-trans ev done s.pauses s'.pauses r.1.pauses a b,
    ),
  )

  -- When nothing indexes past its source's infos and the waiting operations have open channels of their own, the
  -- loop does not panic and keeps the channels so. Either it has handled all events without an error, each from the state
  -- that the one before it has left; then it waits for the next one, or returns the context's error if that is cancelled,
  -- nothing waits any more under the ids of the events, and every other id waits as before. Or the handler has returned an
  -- error for an event with a location; then the loop returns this error, with the state that the handler has left, it has
  -- not resumed that event, and the rest holds of the events before it. An event without a location only goes on.
  pub loop_lem :
      (d : Bool) (evs : List Event) (s : State W)
      → IsSound s.pauses
      → AllIndexed evs
      → Outcome d evs s (loop cb deref d evs s)
  unfolding loop
  loop_lem d [] s sound _ = (sound, inl (refl, refl, λ j. refl))
  loop_lem d (ev ∷ evs) s sound (i, is) = elim (round-cases ev s i sound) [
    | inl (e, s', r, q, f) ↦ rw r (
      subst IsSound (sym q) sound,
      inr (e, [], ev, evs, s, refl, refl, refl, f, q, λ j. ap (λ p. lookup j p.pause) q),
    )
    | inr (s', r, sound', a, u) ↦
        rw r (extended ev d evs s s' (loop cb deref d evs s') a u (loop_lem d evs s' sound' is))
  ]
