-- ===== src/Dap/Lines.antt =====
-- The breakpoints that a client sets by their lines.
use buildg.Prelude.{
  true, inl, inr, Bool-cases, subst, ℕ, suc, ◌+◌, ◌^◌, ◌<◌, ◌≡◌, ◌≢◌, refl, ap, sym, ◌∙◌, List, [],
  ◌∷◌, ◌++◌, Option, none, some, arith, if◌then◌else◌, ◌==◌, length, append_assoc, append-nil,
}
use buildg.Int.{ℤ, pos}
use buildg.Text.{Text, codes, text_eq, text_beq_iff}
use buildg.Dict.{Dict, lookup}
use buildg.Decimal.{format_int, parse_int, parse_int-format_int, format_int_injective}
use buildg.Errors.{Result, ok}
use buildg.Breakpoints.{Breakpoint, on_fail, line, Breakpoints, add, get, clear_all}
use buildg.Breakpoints.Table.{get-add, add-eq-ok_iff, get-clear_all}
use buildg.Breakpoints.Fresh.{WellFormed, clear_all-WellFormed, add_auto-ok, add_auto-WellFormed}
use buildg.Breakpoints.Sessions.{add_named-WellFormed}
use buildg.Dap.Messages.{DapBreakpoint}
use buildg.Dap.Requests.{added, add_lines, set_lines}

abbrev pub or_old : Option Breakpoint → Option Breakpoint → Option Breakpoint
or_old none old = old
or_old (some bp) old = some bp

module _ (src : Text) where
  -- line breakpoints on these lines, under the numbers from n on
  unfoldable pub table : ℕ → List ℤ → Dict Text Breakpoint
  table n [] = []
  table n (l ∷ ls) = (format_int (pos n), line src l) ∷ table (suc n) ls

  -- verified breakpoints at these lines, with the ids from n on
  unfoldable pub numbered : ℕ → List ℤ → List DapBreakpoint
  numbered n [] = []
  numbered n (l ∷ ls) =
      record { id = pos n; source = src; line = l; verified = true } ∷ numbered (suc n) ls

  lookup-table-none :
      (k n : ℕ) (ls : List ℤ)
      → k < n
      → n + length ls < 2 ^ 63
      → lookup (format_int (pos k)) (table n ls) ≡ none
  unfolding table lookup
  lookup-table-none k n [] h room = refl
  lookup-table-none k n (l ∷ ls) h room = ground (
    arith,
    lookup-table-none k (suc n) ls (omega arith) (omega arith),
    text_beq_iff (format_int (pos n)) (format_int (pos k)),
    format_int_injective (pos n) (pos k) (omega arith) (omega arith),
  )

  added-ok :
      (n : ℕ) (l : ℤ) (x : Result Text × Breakpoints) (acc : List DapBreakpoint)
      → n < 2 ^ 63
      → x.0 ≡ ok (format_int (pos n))
      → added src l x acc
        ≡ (x.1, acc ++ record { id = pos n; source = src; line = l; verified = true } ∷ [])
  added-ok n l (r, b) acc h e = rw e (rw (parse_int-format_int (pos n) h) refl)

  merge_step :
      (n : ℕ) (l : ℤ) (ls : List ℤ) (j : Text) (old : Option Breakpoint)
      → n + length ls + 1 < 2 ^ 63
      → or_old
          (lookup j (table (suc n) ls))
          (if format_int (pos n) == j then some (line src l) else old)
        ≡ or_old (lookup j (table n (l ∷ ls))) old
  unfolding table lookup
  merge_step n l ls j old room = elim (Bool-cases (format_int (pos n) == j)) [
    | inl same ↦
        (let absent : lookup j (table (suc n) ls) ≡ none =
            subst (λ x. lookup x (table (suc n) ls) ≡ none)
              ((text_beq_iff (format_int (pos n)) j).0 same)
              (lookup-table-none n (suc n) ls (omega arith) (omega arith)) in
          rw (same, absent) refl)
    | inr other ↦ rw other refl
  ]

  add_lines_lem :
      (ls : List ℤ) (n : ℕ) (b : Breakpoints) (acc : List DapBreakpoint)
      → WellFormed n b
      → n + length ls + 1 < 2 ^ 63
      → ((add_lines src ls (b, acc)).1 ≡ acc ++ numbered n ls)
        × ((j : Text)
            → get j (add_lines src ls (b, acc)).0 ≡ or_old (lookup j (table n ls)) (get j b))
  unfolding add_lines numbered
  add_lines_lem [] n b acc w room = (sym (append-nil acc), λ j. unfold lookup table in refl)
  add_lines_lem (l ∷ ls) n b acc w room =
      let bp = line src l in
      let e = add_auto-ok bp w (omega arith) in
      let (listed, got) =
        add_lines_lem ls (suc n) (add [] bp b).1
          (acc ++ record { id = pos n; source = src; line = l; verified = true } ∷ [])
          (add_auto-WellFormed bp w (omega arith)) (omega arith) in
      subst
        (λ st.
          ((add_lines src ls st).1 ≡ acc ++ numbered n (l ∷ ls))
          × ((j : Text)
              → get j (add_lines src ls st).0 ≡ or_old (lookup j (table n (l ∷ ls))) (get j b)))
        (sym (added-ok n l (add [] bp b) acc (omega arith) e))
        (
          listed
              ∙ append_assoc acc
                  (record { id = pos n; source = src; line = l; verified = true } ∷ [])
                  (numbered (suc n) ls),
          λ j.
              got j
              ∙ rw (get-add [] j bp b (format_int (pos n)) e)
                  (merge_step n l ls j (get j b) (omega arith)),
        )

  abbrev key_on_fail : Text
  key_on_fail = codes "on-fail"

  -- For fewer than 2^63 - 1 lines the handler of SetBreakpoints reports a verified breakpoint for each line, in
  -- their order, with the ids from 0 on. Whatever the table held before, Get of the print of an id then gives
  -- the line breakpoint of that id, Get of "on-fail" the breakpoint on failures, and no other key is in use.
  pub set_lines_lem :
      (ls : List ℤ) (b : Breakpoints)
      → length ls + 1 < 2 ^ 63
      → ((set_lines src ls b).1 ≡ numbered 0 ls)
        × ((j : Text)
            → get j (set_lines src ls b).0
              ≡ or_old
                  (lookup j (table 0 ls))
                  (if codes "on-fail" == j then some on_fail else none))
  unfolding set_lines
  set_lines_lem ls b room =
      let named : key_on_fail ≢ [] = λ e. cc e in
      let b' = (add key_on_fail on_fail (clear_all b)).1 in
      let added_on_fail : (add key_on_fail on_fail (clear_all b)).0 ≡ ok key_on_fail =
        (add-eq-ok_iff key_on_fail on_fail (clear_all b) named).1 (get-clear_all key_on_fail b) in
      let no_number : parse_int key_on_fail ≡ none = unfold parse_int in refl in
      let (listed, got) =
        add_lines_lem ls 0 b' []
          (add_named-WellFormed key_on_fail on_fail named no_number (clear_all-WellFormed b))
          (omega arith) in
      (
        listed,
        λ j.
            got j
            ∙ ap (λ (old : Option Breakpoint). or_old (lookup j (table 0 ls)) old)
                (get-add key_on_fail j on_fail (clear_all b) key_on_fail added_on_fail
                  ∙ rw (get-clear_all j b) refl),
      )
