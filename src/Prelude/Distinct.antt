-- ===== src/Prelude/Distinct.antt =====
-- Lists in which no member stands twice.
use mathlib.Core.Path.{◌≡◌, sym}
use mathlib.Core.List.{List, [], ◌∷◌, ◌++◌}
use mathlib.Core.Logic.{◌⊎◌, inl, inr}
use buildg.Prelude.Lists.{In, In-append_left, In-append_right, In-append-cases}

-- No member twice.
abbrev pub AreDistinct : {A : Type 0} → List A → Type 0
AreDistinct [] = Unit
AreDistinct (x ∷ xs) = (¬ In x xs) × AreDistinct xs

pub AreDistinct-snoc :
    {A : Type 0} (xs : List A) (y : A) → AreDistinct xs → ¬ In y xs → AreDistinct (xs ++ y ∷ [])
AreDistinct-snoc [] y d n = (λ i. i, tt)
AreDistinct-snoc (x ∷ xs) y d n = (
  λ i. elim (In-append-cases x xs (y ∷ []) i) [
    | inl j ↦ d.0 j
    | inr (inl e) ↦ n (inl (sym e))
    | inr (inr z) ↦ z
  ],
  AreDistinct-snoc xs y d.1 (λ i. n (inr i)),
)

pub AreDistinct-without :
    {A : Type 0} (xs : List A) (y : A) (ys : List A)
    → AreDistinct (xs ++ y ∷ ys)
    → AreDistinct (xs ++ ys) × ¬ (In y (xs ++ ys))
AreDistinct-without [] y ys d = (d.1, d.0)
AreDistinct-without (x ∷ xs) y ys d =
    let (e, n) = AreDistinct-without xs y ys d.1 in
    (
      (
        λ i. d.0 (elim (In-append-cases x xs ys i) [
          | inl j ↦ In-append_left x xs (y ∷ ys) j
          | inr j ↦ In-append_right x xs (y ∷ ys) (inr j)
        ]),
        e,
      ),
      λ i. elim i [ inl c ↦ d.0 (In-append_right x xs (y ∷ ys) (inl (sym c))) | inr j ↦ n j ],
    )

pub In-without :
    {A : Type 0} (p : A) (xs : List A) (y : A) (ys : List A) → In p (xs ++ ys) → In p (xs ++ y ∷ ys)
In-without p xs y ys i = elim (In-append-cases p xs ys i) [
  | inl j ↦ In-append_left p xs (y ∷ ys) j
  | inr j ↦ In-append_right p xs (y ∷ ys) (inr j)
]

pub In-snoc : {A : Type 0} (p y : A) (xs : List A) → In p (xs ++ y ∷ []) → In p xs ⊎ (y ≡ p)
In-snoc p y xs i = elim (In-append-cases p xs (y ∷ []) i) [
  | inl j ↦ inl j
  | inr (inl e) ↦ inr e
  | inr (inr z) ↦ absurd z
]
