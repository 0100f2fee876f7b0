-- ===== src/Decimal.antt =====
-- The decimal numbers of Go's standard library: fmt.Sprintf("%d", n) and
-- strconv.ParseInt(s, 10, 64), by which breakpoint keys are written and read.
use buildg.Prelude.{
  ℕ, zero, suc, ◌+◌, ◌-◌, ◌*◌, ◌/◌, ◌%◌, ◌^◌, ◌≤◌, ◌<◌, ◌≡◌, ◌≢◌, refl, ap, ◌&&◌, [], ◌∷◌, Option,
  none, some, arith, ltb, leb, if◌then◌else◌, ◌==◌, nat_eq, Bool-cases, inl, inr,
}
use buildg.Int.{ℤ, pos, negsuc, IsInt64}
use buildg.Text.{Text, codes}

-- The digits of `n` before `out`; the fuel is a bound on `n`.
emit : ℕ → ℕ → Text → Text
emit zero n out = out
emit (suc fuel) n out =
    let rest = emit fuel (n / 10) ((b'0' + n % 10) ∷ out) in
    if ltb n 10 then (b'0' + n) ∷ out else rest

unfoldable pub format_int : ℤ → Text
unfolding emit
format_int (pos n) = emit (suc n) n []
format_int (negsuc n) = b'-' ∷ emit (suc (suc n)) (suc n) []

-- The value of a row of digits behind `n`.
scan : Text → ℕ → Option ℕ
scan [] n = some n
scan (c ∷ s) n = if leb b'0' c && leb c b'9' then scan s (n * 10 + (c - b'0')) else none

abbrev scan1 : Text → Option ℕ
scan1 [] = none
scan1 (c ∷ s) = scan (c ∷ s) 0

-- the range check of ParseInt, for each sign
abbrev positive : Option ℕ → Option ℤ
positive none = none
positive (some n) = if ltb n (2 ^ 63) then some (pos n) else none

abbrev negative : Option ℕ → Option ℤ
negative none = none
negative (some zero) = some (pos 0)
negative (some (suc n)) = if ltb n (2 ^ 63) then some (negsuc n) else none

unfoldable pub parse_int : Text → Option ℤ
unfolding scan
parse_int [] = none
parse_int (c ∷ s) =
    if c == b'-'
    then negative (scan1 s)
    else if c == b'+'
    then positive (scan1 s)
    else positive (scan1 (c ∷ s))

scan-emit : (f n : ℕ) (out : Text) → n < f → scan (emit f n out) 0 ≡ scan out n
unfolding scan emit
scan-emit zero n out h = absurd (omega arith)
scan-emit (suc f) n out h = ground (arith, scan-emit f (n / 10) ((b'0' + n % 10) ∷ out))

-- the first byte of a printed number is a digit
abbrev StartsWithDigit : Text → Type 0
StartsWithDigit [] = ⊥
StartsWithDigit (c ∷ s) = (b'0' ≤ c) × (c ≤ b'9')

emit-StartsWithDigit : (f n : ℕ) (out : Text) → n < f → StartsWithDigit (emit f n out)
unfolding emit
emit-StartsWithDigit zero n out h = absurd (omega arith)
emit-StartsWithDigit (suc f) n out h = elim (Bool-cases (ltb n 10)) [
  | inl small ↦ rw small (ground arith)
  | inr large ↦ rw large (emit-StartsWithDigit f (n / 10) _ (ground arith))
]

parse_int_digits : (s : Text) → StartsWithDigit s → parse_int s ≡ positive (scan s 0)
unfolding parse_int
parse_int_digits [] h = absurd h
parse_int_digits (c ∷ s) h = ground arith

parse_int_minus : (s : Text) → StartsWithDigit s → parse_int (b'-' ∷ s) ≡ negative (scan s 0)
unfolding parse_int
parse_int_minus [] h = absurd h
parse_int_minus (c ∷ s) h = refl

-- What is printed is read back, for every value of int64.
pub parse_int-format_int : (z : ℤ) → IsInt64 z → parse_int (format_int z) ≡ some z
unfolding format_int
parse_int-format_int (pos n) h =
    rw
      (
        parse_int_digits _ (emit-StartsWithDigit (suc n) n [] (omega arith)),
        scan-emit (suc n) n [] (omega arith),
      )
      (unfold scan in ground arith)
parse_int-format_int (negsuc n) h =
    rw
      (
        parse_int_minus _ (emit-StartsWithDigit (suc (suc n)) (suc n) [] (omega arith)),
        scan-emit (suc (suc n)) (suc n) [] (omega arith),
      )
      (unfold scan in ground arith)

pub format_int-ne-nil : (z : ℤ) → IsInt64 z → format_int z ≢ []
unfolding parse_int
format_int-ne-nil z h e = cc (parse_int-format_int z h, ap parse_int e)

-- Different numbers have different keys.
pub format_int_injective : (a b : ℤ) → IsInt64 a → IsInt64 b → format_int a ≡ format_int b → a ≡ b
format_int_injective a b ha hb e =
    cc (parse_int-format_int a ha, parse_int-format_int b hb, ap parse_int e)

print_round : (format_int (pos 207) ≡ codes "207") × (format_int (negsuc 11) ≡ codes "-12")
unfolding format_int
print_round = (refl, refl)

parse_cases :
    (parse_int (codes "+7") ≡ some (pos 7))
    × (parse_int (codes "on-fail") ≡ none)
    × (parse_int (codes "9223372036854775808") ≡ none)
    × (parse_int (codes "-9223372036854775808") ≡ some (negsuc (2 ^ 63 - 1)))
unfolding parse_int
parse_cases = (refl, refl, refl, refl)
