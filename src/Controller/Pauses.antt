-- ===== src/Controller/Pauses.antt =====
-- The operations that wait: each has a channel that is closed to let it go on. To close a channel twice
-- is a panic, `none`.
use buildg.Prelude.{
  ℕ, ◌+◌, ◌<◌, ◌≡◌, refl, Bool, true, false, ◌||◌, List, [], ◌∷◌, Option, none, some, arith,
  if◌then◌else◌, ◌==◌, nat_eq, Option-cases, inl, inr,
}
use buildg.Text.{Text, text_eq, text_beq_iff}
use buildg.Dict.{Dict, lookup, insert, delete, lookup-insert, lookup-delete}
use buildg.Controller.Sources.{◌>>=◌}

abbrev pub is_member : ℕ → List ℕ → Bool
is_member c [] = false
is_member c (d ∷ ds) = if c == d then true else is_member c ds

-- Channels are numbered in the order in which they are made.
pub record Pauses : Type 0 where
  pub pause : Dict Text ℕ
  pub next_channel : ℕ
  pub closed : List ℕ

abbrev pub no_pauses : Pauses
no_pauses = record { pause = []; next_channel = 0; closed = [] }

-- The channel is returned to the operation, which waits on it.
unfoldable pub wait : Text → Pauses → ℕ × Pauses
wait id p = (
  p.next_channel,
  record p { pause = insert id p.next_channel p.pause; next_channel = p.next_channel + 1 },
)

unfoldable pub close : ℕ → Pauses → Option Pauses
close c p = if is_member c p.closed then none else some (record p { closed = c ∷ p.closed })

abbrev pub release : Text → Option ℕ → Pauses → Option Pauses
release id none p = some p
release id (some c) p = do p' ← close c p; some (record p' { pause = delete id p'.pause })

unfoldable pub continue_id : Text → Pauses → Option Pauses
unfolding close
continue_id id p = release id (lookup id p.pause) p

-- Waiting operations have open channels of their own.
pub record IsSound (p : Pauses) : Type 0 where
  pub made : (id : Text) (c : ℕ) → lookup id p.pause ≡ some c → c < p.next_channel
  pub is_open : (id : Text) (c : ℕ) → lookup id p.pause ≡ some c → is_member c p.closed ≡ false
  pub apart : (i j : Text) (c : ℕ) → lookup i p.pause ≡ some c → lookup j p.pause ≡ some c → i ≡ j
  pub past : (c : ℕ) → is_member c p.closed ≡ true → c < p.next_channel

pub no_pauses-IsSound : IsSound no_pauses
unfolding lookup
no_pauses-IsSound = record {
  made = λ id c e. cc e;
  is_open = λ id c e. refl;
  apart = λ i j c e. cc e;
  past = λ c e. cc e;
}

module _ {p : Pauses} (s : IsSound p) (id : Text) where
  look :
      (j : Text)
      → lookup j (wait id p).1.pause ≡ (if id == j then some p.next_channel else lookup j p.pause)
  unfolding wait
  look j = lookup-insert id j p.next_channel p.pause

  pub wait-IsSound : IsSound (wait id p).1
  wait-IsSound = record {
    made = λ j c e. unfold wait in ground (arith, look j, s.made j c);
    is_open = λ j c e. unfold wait in ground (arith, look j, s.is_open j c, s.past p.next_channel);
    apart = λ i j c e f.
        unfold wait in
        ground (
          arith,
          look i,
          look j,
          s.apart i j c,
          s.made i c,
          s.made j c,
          text_beq_iff id i,
          text_beq_iff id j,
        );
    past = λ c e. unfold wait in omega (arith, s.past c e);
  }

-- what an operation's channel is closed by
abbrev pub is_closed : ℕ → Pauses → Bool
is_closed c p = is_member c p.closed

abbrev is_at : Option ℕ → ℕ → Bool
is_at none c = false
is_at (some d) c = c == d

module _ (p : Pauses) (s : IsSound p) (id : Text) where
  abbrev Continued : Type 0
  Continued =
      (p' : Pauses) × (continue_id id p ≡ some p')
      × IsSound p'
      × ((j : Text) → lookup j p'.pause ≡ (if id == j then none else lookup j p.pause))
      × ((c : ℕ) → is_closed c p' ≡ (is_closed c p || is_at (lookup id p.pause) c))

  nobody_waits : lookup id p.pause ≡ none → Continued
  unfolding continue_id
  nobody_waits e =
      (p, rw e refl, s, λ j. ground (arith, text_beq_iff id j), λ c. rw e (ground arith))

  somebody_waits : (c : ℕ) → lookup id p.pause ≡ some c → Continued
  unfolding continue_id close
  somebody_waits c e =
      let is_open = s.is_open id c e in
      (
        record { pause = delete id p.pause; next_channel = p.next_channel; closed = c ∷ p.closed },
        rw (e, is_open) refl,
        record {
          made = λ j d f. ground (arith, lookup-delete id j p.pause, s.made j d);
          is_open = λ j d f.
              ground (
                arith,
                lookup-delete id j p.pause,
                s.is_open j d,
                s.apart id j c,
                text_beq_iff id j,
              );
          apart = λ i j d f g.
              ground (arith, lookup-delete id i p.pause, lookup-delete id j p.pause, s.apart i j d);
          past = λ d f. ground (arith, s.past d, s.made id c e);
        },
        λ j. lookup-delete id j p.pause,
        λ d. rw e (ground arith),
      )

  -- From waiting operations with open channels of their own, continueID does not panic and keeps them so.
  -- Afterwards nothing waits under this id, every other id waits as before, and of the channels exactly that of
  -- this id, if it waited, is closed in addition.
  pub continue_id_lem :
      (p' : Pauses) × (continue_id id p ≡ some p')
      × IsSound p'
      × ((j : Text) → lookup j p'.pause ≡ (if id == j then none else lookup j p.pause))
      × ((c : ℕ) → is_closed c p' ≡ (is_closed c p || is_at (lookup id p.pause) c))
  continue_id_lem = elim (Option-cases (lookup id p.pause)) [
    | inl e ↦ nobody_waits e
    | inr (c, e) ↦ somebody_waits c e
  ]
