-- ===== src/Client/Pipe/Joined.antt =====
-- Both ends of a connection.
use buildg.Prelude.{
  ℕ, ◌+◌, ◌≤◌, ◌<◌, ◌≡◌, refl, sym, ap, ◌∙◌, subst, ◌⊎◌, inl, inr, Bool, true, false, List, [], ◌∷◌,
  ◌++◌, In, arith, In-append_right, AreDistinct, AreDistinct-snoc, AreDistinct-without, In-without,
  In-snoc, length, length-append,
}
use buildg.Client.Pipe.{
  PipeListener, new_pipe_listener, start_dial, start_accept, hand_over, end_dial, Step, dials,
  accepts, meets, dial_ends, accept_ends, closes, Reaches, starts, goes,
}

-- The ends that were returned are of the same pipes, and no pipe is handed over twice or still to be handed over then.
record IsJoined (l : PipeListener) : Type 0 where
  same : l.dialled ≡ l.accepted
  distinct : AreDistinct (l.accepted)
  waiting : AreDistinct (l.dialling)
  apart : (p : ℕ) → In p l.dialling → ¬ In p l.accepted
  made : (p : ℕ) → (In p l.dialling ⊎ In p l.accepted) → p < l.next_pipe

start_dial-IsJoined : (b : Bool) (l : PipeListener) → IsJoined l → IsJoined (start_dial b l)
start_dial-IsJoined true l j = record {
  same = j.same;
  distinct = j.distinct;
  waiting = j.waiting;
  apart = j.apart;
  made = j.made;
}
start_dial-IsJoined false l j = record {
  same = j.same;
  distinct = j.distinct;
  waiting =
      AreDistinct-snoc l.dialling l.next_pipe j.waiting
        (λ i. absurd (omega (arith, j.made l.next_pipe (inl i))));
  apart = λ p i a. elim (In-snoc p l.next_pipe l.dialling i) [
    | inl o ↦ j.apart p o a
    | inr e ↦ absurd (omega (arith, e, j.made p (inr a)))
  ];
  made = λ p i. elim i [
    | inl d ↦ elim (In-snoc p l.next_pipe l.dialling d) [
      | inl o ↦ omega (arith, j.made p (inl o))
      | inr e ↦ omega (arith, e)
    ]
    | inr a ↦ omega (arith, j.made p (inr a))
  ];
}

start_accept-IsJoined : (b : Bool) (l : PipeListener) → IsJoined l → IsJoined (start_accept b l)
start_accept-IsJoined true l j = record {
  same = j.same;
  distinct = j.distinct;
  waiting = j.waiting;
  apart = j.apart;
  made = j.made;
}
start_accept-IsJoined false l j = record {
  same = j.same;
  distinct = j.distinct;
  waiting = j.waiting;
  apart = j.apart;
  made = j.made;
}

module _ (l : PipeListener) (before after : List ℕ) (pipe : ℕ)
    (e : l.dialling ≡ before ++ pipe ∷ after) (j : IsJoined l) where
  was_dialling : (p : ℕ) → In p (before ++ after) → In p l.dialling
  was_dialling p i = subst (λ q. In p q) (sym e) (In-without p before pipe after i)

  pipe_dialling : In pipe l.dialling
  pipe_dialling =
      subst (λ q. In pipe q) (sym e) (In-append_right pipe before (pipe ∷ after) (inl refl))

  without : AreDistinct (before ++ after) × ¬ (In pipe (before ++ after))
  without = AreDistinct-without before pipe after (subst (λ q. AreDistinct q) e j.waiting)

  hand_over-IsJoined : (n : ℕ) → IsJoined (hand_over pipe (before ++ after) n l)
  hand_over-IsJoined n = record {
    same = ap (λ q. q ++ pipe ∷ []) j.same;
    distinct = AreDistinct-snoc l.accepted pipe j.distinct (j.apart pipe pipe_dialling);
    waiting = without.0;
    apart = λ p i a. elim (In-snoc p pipe l.accepted a) [
      | inl o ↦ j.apart p (was_dialling p i) o
      | inr c ↦ without.1 (subst (λ q. In q (before ++ after)) (sym c) i)
    ];
    made = λ p i. elim i [
      | inl d ↦ j.made p (inl (was_dialling p d))
      | inr a ↦ elim (In-snoc p pipe l.accepted a) [
        | inl o ↦ j.made p (inr o)
        | inr c ↦ j.made p (inl (subst (λ q. In q l.dialling) c pipe_dialling))
      ]
    ];
  }

  end_dial-IsJoined : IsJoined (end_dial (before ++ after) l)
  end_dial-IsJoined = record {
    same = j.same;
    distinct = j.distinct;
    waiting = without.0;
    apart = λ p i a. j.apart p (was_dialling p i) a;
    made = λ p i. elim i [ inl d ↦ j.made p (inl (was_dialling p d)) | inr a ↦ j.made p (inr a) ];
  }

Step-IsJoined : (l l' : PipeListener) → Step l l' → IsJoined l → IsJoined l'
Step-IsJoined _ _ (dials l) j = start_dial-IsJoined l.closed l j
Step-IsJoined _ _ (accepts l) j = start_accept-IsJoined l.closed l j
Step-IsJoined _ _ (meets l before after pipe n e a) j = hand_over-IsJoined l before after pipe e j n
Step-IsJoined _ _ (dial_ends l before after pipe c e) j = end_dial-IsJoined l before after pipe e j
Step-IsJoined _ _ (accept_ends l n c a) j = record {
  same = j.same;
  distinct = j.distinct;
  waiting = j.waiting;
  apart = j.apart;
  made = j.made;
}
Step-IsJoined _ _ (closes l) j = record {
  same = j.same;
  distinct = j.distinct;
  waiting = j.waiting;
  apart = j.apart;
  made = j.made;
}

Reaches-IsJoined : (k l : PipeListener) → IsJoined k → Reaches k l → IsJoined l
Reaches-IsJoined k _ j (starts _) = j
Reaches-IsJoined k _ j (goes _ l l' r s) = Step-IsJoined l l' s (Reaches-IsJoined k l j r)

-- the connections that are or can be handed over
abbrev pub connections : PipeListener → ℕ
connections l = length l.accepted + length l.dialling

dial_closed :
    (b : Bool) (l : PipeListener) → b ≡ true → connections (start_dial b l) ≤ connections l
dial_closed true l c = omega arith
dial_closed false l c = absurd (cc c)

start_dial_closed : (b : Bool) (l : PipeListener) → (start_dial b l).closed ≡ l.closed
start_dial_closed true l = refl
start_dial_closed false l = refl

start_accept_same :
    (b : Bool) (l : PipeListener)
    → ((start_accept b l).closed ≡ l.closed) × (connections (start_accept b l) ≤ connections l)
start_accept_same true l = (refl, omega arith)
start_accept_same false l = (refl, omega arith)

length-without :
    (before : List ℕ) (pipe : ℕ) (after : List ℕ)
    → length (before ++ pipe ∷ after) ≡ length (before ++ after) + 1
length-without before pipe after =
    omega (arith, length-append before (pipe ∷ after), length-append before after)

Step-closed :
    (l l' : PipeListener)
    → Step l l'
    → l.closed ≡ true
    → (l'.closed ≡ true) × (connections l' ≤ connections l)
Step-closed _ _ (dials l) c = (start_dial_closed l.closed l ∙ c, dial_closed l.closed l c)
Step-closed _ _ (accepts l) c = let (s, n) = start_accept_same l.closed l in (s ∙ c, n)
Step-closed _ _ (meets l before after pipe n e a) c = (
  c,
  omega
      (arith, ap length e, length-without before pipe after, length-append l.accepted (pipe ∷ [])),
)
Step-closed _ _ (dial_ends l before after pipe d e) c =
    (c, omega (arith, ap length e, length-without before pipe after))
Step-closed _ _ (accept_ends l n d a) c = (c, omega arith)
Step-closed _ _ (closes l) c = (refl, omega arith)

Reaches-closed :
    (k l : PipeListener)
    → k.closed ≡ true
    → Reaches k l
    → (l.closed ≡ true) × (connections l ≤ connections k)
Reaches-closed k _ c (starts _) = (c, omega arith)
Reaches-closed k _ c (goes _ l l' r s) =
    let (d, m) = Reaches-closed k l c r in
    let (e, n) = Step-closed l l' s d in (e, omega (arith, m, n))

closed-cases :
    (b : Bool) (k l : PipeListener)
    → k.closed ≡ b
    → Reaches k l
    → (b ≡ false) ⊎ ((l.closed ≡ true) × (connections l ≤ connections k))
closed-cases false k l e r = inl refl
closed-cases true k l e r = inr (Reaches-closed k l e r)

-- In every state that any steps reach, the calls of dial and of Accept have returned the two ends of the same pipes, in the same
-- order, and of each pipe once. From a closed state on it stays closed, and only calls of dial that wait already can still
-- get a connection.
pub Reaches-joined :
    (k l : PipeListener)
    → Reaches new_pipe_listener k
    → Reaches k l
    → (l.dialled ≡ l.accepted)
      × AreDistinct l.accepted
      × ((k.closed ≡ false) ⊎ ((l.closed ≡ true) × (connections l ≤ connections k)))
Reaches-joined k l q r =
    let none_yet : IsJoined new_pipe_listener = record {
      same = refl;
      distinct = tt;
      waiting = tt;
      apart = λ p i a. i;
      made = λ p i. elim i [ inl d ↦ absurd d | inr a ↦ absurd a ];
    } in
    let j = Reaches-IsJoined k l (Reaches-IsJoined new_pipe_listener k none_yet q) r in
    (j.same, j.distinct, closed-cases k.closed k l refl r)
