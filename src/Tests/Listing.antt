-- ===== src/Tests/Listing.antt =====
-- list.go on a Dockerfile of two lines.
use buildg.Prelude.{◌≡◌, refl, true, false, [], ◌∷◌}
use buildg.Int.{pos, wrap64, ◌-ℤ◌, ◌+ℤ◌}
use buildg.Text.{codes, text_le}
use buildg.Text.Sort.{sort_strings}
use buildg.Dict.{lookup, insert}
use buildg.Decimal.{format_int}
use buildg.Types.{Range}
use buildg.Breakpoints.{add, for_each, is_marked}
use buildg.Breakpoints.Sessions.{change_all}
use buildg.Listing.{
  filename, source_line, check_line, check_line_lem, print_lines, group, print_all,
}
use buildg.Tests.Breakpoints.{two_lines, start, dockerfile}

-- the first range lies at the start, the second one behind the end
near :
    print_lines start (pos 0) (pos 0) false two_lines
    ≡ filename dockerfile
      ∷ source_line false true (pos 1) (codes "FROM a")
      ∷ source_line false true (pos 2) (codes "RUN b")
      ∷ []
unfolding print_lines print_all group check_line add change_all lookup insert format_int for_each
    sort_strings text_le wrap64 ◌-ℤ◌ ◌+ℤ◌ is_marked
near = refl

abbrev first_range : Range
first_range = record { start_line = pos 1; end_line = pos 2 }

check_line_lem_example :
    check_line (pos 3) (pos 3) false (pos 4) (first_range ∷ []) (false, false) ≡ (true, false)
unfolding wrap64 ◌-ℤ◌ ◌+ℤ◌
check_line_lem_example = check_line_lem (pos 3) (pos 3) false (pos 4) (first_range ∷ [])
