-- ===== src/Controller/Active.antt =====
-- The counter of a source is the number of solves that run with it.
use buildg.Prelude.{
  ℕ, zero, suc, ◌+◌, ◌-◌, ◌^◌, ◌<◌, ◌≡◌, refl, ap, ◌∙◌, false, List, [], ◌∷◌, Option, none, some,
  arith, if◌then◌else◌, ◌==◌, nat_eq, nat_beq_iff, length, Bool-cases, inl, inr,
}
use buildg.Int.{ℤ, pos, wrap64_add_one, wrap64_sub_one, int_eq}
use buildg.Dict.{lookup, insert, delete, lookup-insert, lookup-delete}
use buildg.Controller.Sources.{
  Sources, counts, add_count, delete_count, add_location_source, delete_location_source,
}

-- A solve with this source begins, or ends.
pub data Event : Type 0 where
  begin : ℕ → Event
  finish : ℕ → Event

unfoldable pub track : List Event → Sources → Sources
track [] m = m
track (begin s ∷ es) m = track es (add_location_source s m)
track (finish s ∷ es) m = track es (delete_location_source s m)

-- How many solves with each source run after the events, `f` before them.
abbrev pub running : List Event → (ℕ → ℕ) → ℕ → ℕ
running [] f s = f s
running (begin t ∷ es) f s = running es (λ x. if t == x then f x + 1 else f x) s
running (finish t ∷ es) f s = running es (λ x. if t == x then f x - 1 else f x) s

-- Only a solve that runs ends.
abbrev pub Balanced : List Event → (ℕ → ℕ) → Type 0
Balanced [] f = Unit
Balanced (begin t ∷ es) f = Balanced es (λ x. if t == x then f x + 1 else f x)
Balanced (finish t ∷ es) f = (0 < f t) × Balanced es (λ x. if t == x then f x - 1 else f x)

abbrev pub counter : ℕ → Option ℤ
counter zero = none
counter (suc n) = some (pos (suc n))

-- The map shows the counts `f`, all of them less than `k`.
abbrev Shows : ℕ → Sources → (ℕ → ℕ) → Type 0
Shows k m f = (s : ℕ) → (f s < k) × (lookup s (counts m) ≡ counter (f s))

pub lookup-add_location_source :
    (t s : ℕ) (m : Sources)
    → lookup s (counts (add_location_source t m))
      ≡ (if t == s then some (add_count (lookup t (counts m))) else lookup s (counts m))
unfolding add_location_source
lookup-add_location_source t s m = lookup-insert t s _ (counts m)

pub add_count-counter : (n : ℕ) → n + 1 < 2 ^ 63 → some (add_count (counter n)) ≡ counter (n + 1)
add_count-counter zero h = refl
add_count-counter (suc n) h =
    rw (wrap64_add_one (suc n) (omega arith))
      (let e : suc n + 1 ≡ suc (suc n) = omega arith in rw e refl)

lookup-delete_count :
    (t s n : ℕ) (m : Sources)
    → suc n < 2 ^ 63
    → lookup s (counts (delete_count t (some (pos (suc n))) m))
      ≡ (if t == s then counter n else lookup s (counts m))
lookup-delete_count t s n m h = rw (wrap64_sub_one n h) (go n)
  where
    go :
        (n : ℕ)
        → lookup s (
            counts (
              some (
                if pos n == pos 0
                then delete t (insert t (pos n) (counts m))
                else insert t (pos n) (counts m))))
          ≡ (if t == s then counter n else lookup s (counts m))
    go zero = rw (lookup-delete, lookup-insert) (ground arith)
    go (suc n) =
        let more : (pos (suc n) == pos 0) ≡ false = ground arith in
        rw (more, lookup-insert) (ground arith)

pub lookup-delete_location_source :
    (t s n : ℕ) (m : Sources)
    → suc n < 2 ^ 63
    → lookup t (counts m) ≡ some (pos (suc n))
    → lookup s (counts (delete_location_source t m))
      ≡ (if t == s then counter n else lookup s (counts m))
unfolding delete_location_source
lookup-delete_location_source t s n m h e = rw e (lookup-delete_count t s n m h)

Shows-begin :
    (t k : ℕ) (m : Sources) (f : ℕ → ℕ)
    → k + 1 < 2 ^ 63
    → Shows k m f
    → Shows (k + 1) (add_location_source t m) (λ x. if t == x then f x + 1 else f x)
Shows-begin t k m f room h s = elim (Bool-cases (t == s)) [
  | inl same ↦
      (let t-eq-s : t ≡ s = (nat_beq_iff t s).0 same in
        (
          rw same (omega (arith, (h s).0)),
          rw (lookup-add_location_source, same, t-eq-s, (h s).1)
              (add_count-counter (f s) (omega (arith, (h s).0))),
        ))
  | inr other ↦ (rw other (omega (arith, (h s).0)), rw (lookup-add_location_source, other) (h s).1)
]

Shows-finish :
    (t k n : ℕ) (m : Sources) (f : ℕ → ℕ)
    → k + 1 < 2 ^ 63
    → f t ≡ suc n
    → Shows k m f
    → Shows (k + 1) (delete_location_source t m) (λ x. if t == x then f x - 1 else f x)
Shows-finish t k n m f room e h s =
    let shown : lookup t (counts m) ≡ some (pos (suc n)) = (h t).1 ∙ rw e refl in
    let seen = lookup-delete_location_source t s n m (omega (arith, (h t).0, e)) shown in
    elim (Bool-cases (t == s)) [
      | inl same ↦
          (let down : f s - 1 ≡ n = omega (arith, ap f ((nat_beq_iff t s).0 same), e) in
            (rw same (omega (arith, (h s).0)), seen ∙ rw (same, down) refl))
      | inr other ↦ (rw other (omega (arith, (h s).0)), seen ∙ rw other (h s).1)
    ]

track-Shows :
    (es : List Event) (k : ℕ) (m : Sources) (f : ℕ → ℕ)
    → k + length es < 2 ^ 63
    → Balanced es f
    → Shows k m f
    → (s : ℕ) → lookup s (counts (track es m)) ≡ counter (running es f s)
unfolding track
track-Shows [] k m f room b h s = (h s).1
track-Shows (begin t ∷ es) k m f room b h s =
    track-Shows es (k + 1) (add_location_source t m) _ (omega arith) b
      (Shows-begin t k m f (omega arith) h) s
track-Shows (finish t ∷ es) k m f room b h s =
    track-Shows es (k + 1) (delete_location_source t m) _ (omega arith) b.1
      (Shows-finish t k (f t - 1) m f (omega arith) (omega (arith, b.0)) h) s

-- After fewer than 2^63 - 1 beginnings and ends of solves, of which each end follows a beginning of its own, the
-- map holds a source exactly while some solve with it runs, and its counter is the number of those.
pub track-running :
    (es : List Event)
    → length es + 1 < 2 ^ 63
    → Balanced es (λ _. 0)
    → (s : ℕ) → lookup s (counts (track es none)) ≡ counter (running es (λ _. 0) s)
track-running es room b s =
    track-Shows es 1 none (λ _. 0) (omega arith) b (λ t. (omega arith, unfold lookup in refl)) s
