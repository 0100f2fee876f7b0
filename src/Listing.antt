-- ===== src/Listing.antt =====
-- list.go: the lines of the source that the list command prints.
use buildg.Prelude.{
  ℕ, ◌≡◌, Bool, true, false, not, ◌&&◌, ◌||◌, List, [], ◌∷◌, ◌++◌, Option, none, some, map,
  if◌then◌else◌, ◌==◌, nat_eq, arith,
}
use buildg.Int.{ℤ, pos, ◌+ℤ◌, ◌-ℤ◌, wrap64, leb_ℤ, int_eq}
use buildg.Text.{Text, text_eq}
use buildg.Dict.{Dict, lookup, insert}
use buildg.Types.{Range, SourceInfo, Location}
use buildg.Breakpoints.{Breakpoints, is_marked, for_each}

-- One line of output: the name of the file, the mark between two blocks, or a line of the source with its
-- number, whether a breakpoint marks it and whether the build is at it.
pub data Output : Type 0 where
  filename : Text → Output
  gap : Output
  source_line : Bool → Bool → ℤ → Text → Output

abbrev pub default_list_range : ℤ
default_list_range = pos 3

-- the lines before and after, from the flags range, B and A
unfoldable pub window : ℤ → ℤ → ℤ → ℤ × ℤ
window range b a =
    (if b == default_list_range then range else b, if a == default_list_range then range else a)

abbrev pub ranges_so_far : Option (SourceInfo × List Range) → List Range
ranges_so_far none = []
ranges_so_far (some (src, ranges)) = ranges

-- The ranges by source, which is compared by its address.
unfoldable pub group :
    List Location → Dict ℕ (SourceInfo × List Range) → Dict ℕ (SourceInfo × List Range)
group [] sources = sources
group (l ∷ ls) sources = group ls (
    insert l.source.address (l.source, ranges_so_far (lookup l.source.address sources) ++ l.ranges)
      sources)

abbrev cons_first : ℕ → List Text → List Text
cons_first c [] = (c ∷ []) ∷ []
cons_first c (s ∷ ss) = (c ∷ s) ∷ ss

unfoldable split_lines : Text → List Text
split_lines [] = []
split_lines (c ∷ cs) = let rest = split_lines cs in if c == 10 then [] ∷ rest else cons_first c rest

unfoldable drop_cr : Text → Text
drop_cr [] = []
drop_cr (c ∷ cs) = let rest = drop_cr cs in if c == 13 && cs == [] then [] else c ∷ rest

-- bufio.ScanLines, with no limit on the length of a line
unfoldable pub scan_lines : Text → List Text
unfolding split_lines drop_cr
scan_lines s = map drop_cr (split_lines s)

module _ (before after : ℤ) (all : Bool) (i : ℤ) where
  abbrev pub is_near : Range → Bool
  is_near r =
      all || leb_ℤ (wrap64 (r.start_line -ℤ before)) i && leb_ℤ i (wrap64 (r.end_line +ℤ after))

  abbrev pub is_inside : Range → Bool
  is_inside r = leb_ℤ r.start_line i && leb_ℤ i r.end_line

  -- The loop over the ranges, which stops at one that the line is inside: `do_print` and `target`.
  unfoldable pub check_line : List Range → Bool × Bool → Bool × Bool
  check_line [] st = st
  check_line (r ∷ rs) (do_print, target) =
      let rest = check_line rs (true, target) in
      let skipped = check_line rs (do_print, target) in
      if is_near r then (if is_inside r then (true, true) else rest) else skipped

  -- some range is near the line; some such range has the line inside
  abbrev pub any_near : List Range → Bool
  any_near [] = false
  any_near (r ∷ rs) = is_near r || any_near rs

  abbrev pub any_inside : List Range → Bool
  any_inside [] = false
  any_inside (r ∷ rs) = is_near r && is_inside r || any_inside rs

  check_line_from :
      (rs : List Range) (d t : Bool) → check_line rs (d, t) ≡ (d || any_near rs, t || any_inside rs)
  unfolding check_line
  check_line_from [] d t = ground arith
  check_line_from (r ∷ rs) d t = ground (arith, check_line_from rs true t, check_line_from rs d t)

  -- The loop that stops early finds a line to print exactly when it is near some range, and at the build's place exactly
  -- when some range that it is near has it inside.
  pub check_line_lem :
      (rs : List Range) → check_line rs (false, false) ≡ (any_near rs, any_inside rs)
  check_line_lem rs = check_line_from rs false false

abbrev marks : SourceInfo → ℤ → Breakpoints → Bool
marks src i b =
    for_each (λ key bp marked. if is_marked bp src i then (true, false) else (marked, true)) b false

-- `lastLinePrinted`, `firstPrint` and what was printed
abbrev Printing : Type 0
Printing = Bool × Bool × List Output

abbrev print_line : Breakpoints → SourceInfo → ℤ → Text → Bool × Bool → Printing → Printing
print_line b src i text (false, target) (last, first, out) = (false, first, out)
print_line b src i text (true, target) (last, first, out) = (
  true,
  false,
  out
      ++ (if not last && not first then gap ∷ [] else [])
      ++ source_line (marks src i b) target i text ∷ [],
)

module _ (b : Breakpoints) (before after : ℤ) (all : Bool) where
  unfoldable pub print_source : SourceInfo → List Range → ℤ → List Text → Printing → Printing
  print_source src ranges i [] p = p
  print_source src ranges i (t ∷ ts) p =
      print_source src ranges (wrap64 (i +ℤ pos 1)) ts
        (print_line b src i t (check_line before after all i ranges (false, false)) p)

  abbrev print_ranges : SourceInfo → List Range → List Output
  print_ranges src [] = []
  print_ranges src (r ∷ rs) =
      filename src.filename
      ∷ (print_source src (r ∷ rs) (pos 1) (scan_lines src.bytes) (false, true, [])).2

  unfoldable pub print_all : Dict ℕ (SourceInfo × List Range) → List Output
  unfolding print_source scan_lines
  print_all [] = []
  print_all ((key, (src, ranges)) ∷ rest) = print_ranges src ranges ++ print_all rest

  unfoldable pub print_lines : List Location → List Output
  unfolding group print_all
  print_lines locs = print_all (group locs [])
