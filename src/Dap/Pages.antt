-- ===== src/Dap/Pages.antt =====
-- Which variables are shown.
use buildg.Prelude.{
  Option, none, some, ℕ, zero, suc, ◌≤◌, ◌≡◌, refl, ap, ◌∙◌, List, [], ◌∷◌, ◌++◌, arith, ◌==◌,
  nat_eq, nat_beq_iff, length, take, drop, ◌⊎◌, inl, inr, Bool-cases, In,
}
use buildg.Int.{ℤ, pos, negsuc, pos_part}
use buildg.Text.{Text}
use buildg.Dap.Messages.{Variable}
use buildg.Dap.Strings.{equals, split_equals}
use buildg.Dap.Requests.{page, from_start, up_to, variable_of}

drop_all : (n : ℕ) (vs : List Variable) → length vs ≤ n → drop n vs ≡ []
drop_all zero [] h = refl
drop_all zero (v ∷ vs) h = absurd (omega (arith, h))
drop_all (suc n) [] h = refl
drop_all (suc n) (v ∷ vs) h = drop_all n vs (omega (arith, h))

take_all : (n : ℕ) (vs : List Variable) → length vs ≤ n → take n vs ≡ vs
take_all zero [] h = refl
take_all zero (v ∷ vs) h = absurd (omega (arith, h))
take_all (suc n) [] h = refl
take_all (suc n) (v ∷ vs) h = ap (λ t. v ∷ t) (take_all n vs (omega (arith, h)))

-- A count that is not positive is no limit.
abbrev pub limited : ℤ → List Variable → List Variable
limited (pos (suc n)) vs = take (suc n) vs
limited _ vs = vs

from_start-drop : (start : ℤ) (vs : List Variable) → from_start start vs ≡ drop (pos_part start) vs
from_start-drop (pos zero) vs = refl
from_start-drop (pos (suc n)) vs = ground (arith, drop_all (suc n) vs)
from_start-drop (negsuc n) vs = ground arith

up_to-limited : (count : ℤ) (vs : List Variable) → up_to count vs ≡ limited count vs
up_to-limited (pos zero) vs = refl
up_to-limited (pos (suc n)) vs = ground (arith, take_all (suc n) vs)
up_to-limited (negsuc n) vs = ground arith

-- The page of the variables is what follows the first `start` of them, up to `count`, for all integers and
-- all lists.
page_lem :
    (start count : ℤ) (vs : List Variable)
    → page start count vs ≡ limited count (drop (pos_part start) vs)
unfolding page
page_lem start count vs =
    ap (up_to count) (from_start-drop start vs) ∙ up_to-limited count (drop (pos_part start) vs)

-- "=" does not stand in the text
abbrev pub NoEquals : Text → Type 0
NoEquals s = ¬ In equals s

-- the parts that a text is cut into
split_equals_lem :
    (e : Text)
    → NoEquals (split_equals e).0
      × (((v : Text) × ((split_equals e).1 ≡ some v) × (e ≡ (split_equals e).0 ++ equals ∷ v))
          ⊎ (((split_equals e).1 ≡ none) × (e ≡ (split_equals e).0)))
unfolding split_equals
split_equals_lem [] = (λ h. absurd h, inr (refl, refl))
split_equals_lem (c ∷ cs) =
    let (none_before, parts) = split_equals_lem cs in
    elim (Bool-cases (c == equals)) [
      | inl same ↦
          rw same
            (λ h. absurd h, inl (cs, refl, ap (λ (d : ℕ). d ∷ cs) ((nat_beq_iff c equals).0 same)))
      | inr other ↦ rw other (
        λ h. elim h [ inl e ↦ cc (other, (nat_beq_iff c equals).1 e) | inr m ↦ none_before m ],
        elim parts [
          | inl (v, e, q) ↦ inl (v, e, ap (λ (t : Text). c ∷ t) q)
          | inr (e, q) ↦ inr (e, ap (λ (t : Text). c ∷ t) q)
        ],
      )
    ]

-- A variable of the environment is cut at its first "=": its name has none, and the text is the name, "=" and the value,
-- or the name alone, with an empty value.
variable_of-split_equals :
    (e : Text)
    → let v = variable_of (split_equals e) in
      NoEquals v.name × ((e ≡ v.name ++ equals ∷ v.value) ⊎ ((e ≡ v.name) × (v.value ≡ [])))
variable_of-split_equals e = go (split_equals e) (split_equals_lem e)
  where
    go :
        (p : Text × Option Text)
        → NoEquals p.0
          × (((v : Text) × (p.1 ≡ some v) × (e ≡ p.0 ++ equals ∷ v)) ⊎ ((p.1 ≡ none) × (e ≡ p.0)))
        → NoEquals (variable_of p).name
          × ((e ≡ (variable_of p).name ++ equals ∷ (variable_of p).value)
              ⊎ ((e ≡ (variable_of p).name) × ((variable_of p).value ≡ [])))
    go (k, none) (n, inl (v, q, w)) = cc q
    go (k, none) (n, inr (q, w)) = (n, inr (w, refl))
    go (k, some u) (n, inl (v, q, w)) = (n, inl (cc (q, w)))
    go (k, some u) (n, inr (q, w)) = cc q
