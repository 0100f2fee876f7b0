-- ===== src/Dap/LineStops/Keys.antt =====
-- The keys of line breakpoints, and the numbers that are reported of them.
use buildg.Prelude.{
  ℕ, zero, suc, ◌+◌, ◌^◌, ◌<◌, ◌≡◌, ◌≢◌, ◌↔◌, refl, ap, sym, ◌∙◌, inl, inr, true, false, Bool-cases,
  List, [], ◌∷◌, Option, none, some, arith, ◌==◌, length, get_elem?, In,
}
use buildg.Int.{ℤ, pos}
use buildg.Text.{Text, codes, text_eq, text_beq_iff}
use buildg.Dict.{lookup}
use buildg.Decimal.{format_int, parse_int, format_int_injective}
use buildg.Types.{Location, RegisteredStatus}
use buildg.Breakpoints.{Breakpoint, line, is_target}
use buildg.Handler.{BreakpointInfo}
use buildg.Handler.Hits.{hit_of}
use buildg.Dap.Debugger.{id_step, breakpoint_ids}
use buildg.Dap.Lines.{table}

-- A number is reported exactly when some key is its print or parses to it.
pub breakpoint_ids-In :
    (z : ℤ) (ks : List Text)
    → In z (breakpoint_ids ks) ↔ ((key : Text) × In key ks × (parse_int key ≡ some z))
unfolding breakpoint_ids
breakpoint_ids-In z [] = (λ m. absurd m, λ (key, m, e). absurd m)
breakpoint_ids-In z (k ∷ ks) =
    let (to, from) = breakpoint_ids-In z ks in step (parse_int k) refl to from
  where
    step :
        (o : Option ℤ)
        → parse_int k ≡ o
        → (In z (breakpoint_ids ks) → (key : Text) × In key ks × (parse_int key ≡ some z))
        → ((key : Text) × In key ks × (parse_int key ≡ some z) → In z (breakpoint_ids ks))
        → In z (id_step o (breakpoint_ids ks))
          ↔ ((key : Text) × In key (k ∷ ks) × (parse_int key ≡ some z))
    step none e to from = (
      λ m. (let (key, i, p) = to m in (key, inr i, p)),
      λ (key, i, p). elim i [
        | inl same ↦ absurd (cc (ap parse_int same))
        | inr j ↦ from (key, j, p)
      ],
    )
    step (some n) e to from = (
      λ m. elim m [
        | inl same ↦ (k, inl refl, e ∙ ap some same)
        | inr j ↦ (let (key, i, p) = to j in (key, inr i, p))
      ],
      λ (key, i, p). elim i [
        | inl same ↦ inl (cc (ap parse_int same))
        | inr j ↦ inr (from (key, j, p))
      ],
    )

pub length-lt : (k : ℕ) (l : ℤ) (ls : List ℤ) → get_elem? ls k ≡ some l → k < length ls
length-lt k l [] e = absurd (cc e)
length-lt zero l (x ∷ ls) e = omega arith
length-lt (suc k) l (x ∷ ls) e = omega (arith, length-lt k l ls e)

pub no_number : (z : ℤ) → parse_int (codes "on-fail") ≢ some z
unfolding parse_int
no_number z e = cc e

pub yes_of_hit :
    (info : RegisteredStatus) (locs : List Location) (bp : Breakpoint) (v : BreakpointInfo)
    → hit_of info locs (some bp) ≡ some v
    → (is_target bp info locs).yes ≡ true
yes_of_hit info locs bp v e = elim (Bool-cases (is_target bp info locs).yes) [
  | inl y ↦ y
  | inr n ↦ absurd (cc (rw n at e))
]

module _ (src : Text) where
  pub lookup-table-some :
      (key : Text) (bp : Breakpoint) (n : ℕ) (ls : List ℤ)
      → lookup key (table src n ls) ≡ some bp
      → (k : ℕ) × (l : ℤ) × (get_elem? ls k ≡ some l)
        × (key ≡ format_int (pos (n + k)))
        × (bp ≡ line src l)
  unfolding table lookup
  lookup-table-some key bp n [] e = absurd (cc e)
  lookup-table-some key bp n (l ∷ ls) e = elim (Bool-cases (format_int (pos n) == key)) [
    | inl same ↦ (
      zero,
      l,
      refl,
      sym ((text_beq_iff (format_int (pos n)) key).0 same)
          ∙ ap (λ m. format_int (pos m)) (omega arith),
      cc (rw same at e),
    )
    | inr other ↦
        (let (k, m, g, q, b) = lookup-table-some key bp (suc n) ls (rw other at e) in
          (suc k, m, g, q ∙ ap (λ i. format_int (pos i)) (omega arith), b))
  ]

  pub lookup-table_at :
      (n k : ℕ) (l : ℤ) (ls : List ℤ)
      → n + length ls < 2 ^ 63
      → get_elem? ls k ≡ some l
      → lookup (format_int (pos (n + k))) (table src n ls) ≡ some (line src l)
  unfolding table lookup
  lookup-table_at n k l [] room e = absurd (cc e)
  lookup-table_at n zero l (x ∷ ls) room e =
      let same =
        (text_beq_iff (format_int (pos n)) (format_int (pos (n + 0)))).1
          (ap (λ i. format_int (pos i)) (omega arith)) in
      rw same (cc e)
  lookup-table_at n (suc k) l (x ∷ ls) room e =
      let at_suc : suc n + k ≡ n + suc k = omega arith in
      let other : (format_int (pos n) == format_int (pos (n + suc k))) ≡ false = ground (
        arith,
        text_beq_iff (format_int (pos n)) (format_int (pos (n + suc k))),
        format_int_injective (pos n) (pos (n + suc k)) (omega (arith, length-lt k l ls e))
            (omega (arith, length-lt k l ls e)),
      ) in
      rw other (
        ap (λ i. lookup (format_int (pos i)) (table src (suc n) ls)) (sym at_suc)
        ∙ lookup-table_at (suc n) k l ls (omega arith) e)
