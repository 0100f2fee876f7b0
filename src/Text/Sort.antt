-- ===== src/Text/Sort.antt =====
-- sort.Strings: the result is ordered, keeps the members, and does not depend on the order given.
use mathlib.Core.List.{Permᴰ}
use buildg.Prelude.{
  ◌≡◌, refl, ◌∙◌, true, ◌⊎◌, inl, inr, List, [], ◌∷◌, arith, if◌then◌else◌, Bool-cases, All, In,
}
use buildg.Text.{Text, text_le, text_le_total, text_le_antisymm, text_le_trans}

unfoldable pub insert_sorted : Text → List Text → List Text
insert_sorted x [] = x ∷ []
insert_sorted x (y ∷ ys) = if text_le x y then x ∷ y ∷ ys else y ∷ insert_sorted x ys

unfoldable pub sort_strings : List Text → List Text
unfolding insert_sorted
sort_strings [] = []
sort_strings (x ∷ xs) = insert_sorted x (sort_strings xs)

insert_sorted_comm :
    (x y : Text) (zs : List Text)
    → insert_sorted x (insert_sorted y zs) ≡ insert_sorted y (insert_sorted x zs)
unfolding insert_sorted
insert_sorted_comm x y [] = ground (arith, text_le_total x y, text_le_antisymm x y)
insert_sorted_comm x y (z ∷ zs) = ground (
  arith,
  text_le_total x y,
  text_le_antisymm x y,
  text_le_trans x y z,
  text_le_trans y x z,
  insert_sorted_comm x y zs,
)

-- The order in which the strings are given does not matter.
pub sort_strings-perm : {xs ys : List Text} → Permᴰ xs ys → sort_strings xs ≡ sort_strings ys
unfolding sort_strings
sort_strings-perm Permᴰ.nil = refl
sort_strings-perm (Permᴰ.cons p h) = cc (p, sort_strings-perm h)
sort_strings-perm (Permᴰ.swap {a} {b} {a'} {b'} {l} p q) =
    insert_sorted_comm a b (sort_strings l) ∙ λ i.
    insert_sorted (q i) (insert_sorted (p i) (sort_strings l))
sort_strings-perm (Permᴰ.trans h k) = sort_strings-perm h ∙ sort_strings-perm k

-- Each string is at most those behind it.
abbrev pub IsSorted : List Text → Type 0
IsSorted [] = Unit
IsSorted (x ∷ xs) = All (λ y. text_le x y ≡ true) xs × IsSorted xs

All-insert_sorted :
    (x y : Text) (ys : List Text)
    → text_le x y ≡ true
    → All (λ z. text_le x z ≡ true) ys
    → All (λ z. text_le x z ≡ true) (insert_sorted y ys)
unfolding insert_sorted
All-insert_sorted x y [] h a = (h, tt)
All-insert_sorted x y (z ∷ zs) h a = elim (Bool-cases (text_le y z)) [
  | inl before ↦ rw before (h, a)
  | inr after ↦ rw after (a.0, All-insert_sorted x y zs h a.1)
]

All-le_trans :
    (x y : Text) (zs : List Text)
    → text_le x y ≡ true
    → All (λ z. text_le y z ≡ true) zs
    → All (λ z. text_le x z ≡ true) zs
All-le_trans x y [] h a = tt
All-le_trans x y (z ∷ zs) h a = (text_le_trans x y z h a.0, All-le_trans x y zs h a.1)

insert_sorted-IsSorted : (x : Text) (ys : List Text) → IsSorted ys → IsSorted (insert_sorted x ys)
unfolding insert_sorted
insert_sorted-IsSorted x [] h = (tt, tt)
insert_sorted-IsSorted x (y ∷ ys) h = elim (Bool-cases (text_le x y)) [
  | inl before ↦ rw before ((before, All-le_trans x y ys before h.0), h)
  | inr after ↦ rw after (
    All-insert_sorted y x ys (ground (arith, text_le_total x y)) h.0,
    insert_sorted-IsSorted x ys h.1,
  )
]

pub sort_strings-IsSorted : (xs : List Text) → IsSorted (sort_strings xs)
unfolding sort_strings
sort_strings-IsSorted [] = tt
sort_strings-IsSorted (x ∷ xs) = insert_sorted-IsSorted x _ (sort_strings-IsSorted xs)

insert_sorted-In : (x y : Text) (ys : List Text) → (x ≡ y) ⊎ In y ys → In y (insert_sorted x ys)
unfolding insert_sorted
insert_sorted-In x y [] h = h
insert_sorted-In x y (z ∷ zs) h = elim (Bool-cases (text_le x z)) [
  | inl before ↦ rw before h
  | inr after ↦ rw after (go (λ k. insert_sorted-In x y zs k) h)
]
  where
    go :
        ((x ≡ y) ⊎ In y zs → In y (insert_sorted x zs))
        → (x ≡ y) ⊎ In y (z ∷ zs)
        → In y (z ∷ insert_sorted x zs)
    go rec (inl e) = inr (rec (inl e))
    go rec (inr (inl e)) = inl e
    go rec (inr (inr m)) = inr (rec (inr m))

pub In-sort_strings : (y : Text) (xs : List Text) → In y xs → In y (sort_strings xs)
unfolding sort_strings
In-sort_strings y [] m = m
In-sort_strings y (x ∷ xs) (inl e) = insert_sorted-In x y _ (inl e)
In-sort_strings y (x ∷ xs) (inr m) = insert_sorted-In x y _ (inr (In-sort_strings y xs m))

In-insert_sorted : (x y : Text) (ys : List Text) → In y (insert_sorted x ys) → (x ≡ y) ⊎ In y ys
unfolding insert_sorted
In-insert_sorted x y [] h = h
In-insert_sorted x y (z ∷ zs) h = elim (Bool-cases (text_le x z)) [
  | inl before ↦ rw before at h
  | inr after ↦ go (λ k. In-insert_sorted x y zs k) (rw after at h)
]
  where
    go :
        (In y (insert_sorted x zs) → (x ≡ y) ⊎ In y zs)
        → In y (z ∷ insert_sorted x zs)
        → (x ≡ y) ⊎ In y (z ∷ zs)
    go rec (inl e) = inr (inl e)
    go rec (inr m) = elim (rec m) [ inl e ↦ inl e | inr k ↦ inr (inr k) ]

pub In-of-sort_strings : (y : Text) (xs : List Text) → In y (sort_strings xs) → In y xs
unfolding sort_strings
In-of-sort_strings y [] m = m
In-of-sort_strings y (x ∷ xs) m = elim (In-insert_sorted x y _ m) [
  | inl e ↦ inl e
  | inr k ↦ inr (In-of-sort_strings y xs k)
]
