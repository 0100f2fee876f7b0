-- ===== src/Breakpoints.antt =====
-- pkg/buildkit/breakpoint.go: the table of breakpoints and the two kinds of breakpoints.
pub mod Table
pub mod Fresh
pub mod Order
pub mod Lines
pub mod Sessions
use buildg.Prelude.{
  ◌≡◌, Bool, true, false, ◌&&◌, List, [], ◌∷◌, ◌++◌, Option, none, some, if◌then◌else◌, ◌==◌,
}
use buildg.Int.{ℤ, pos, ◌+ℤ◌, leb_ℤ, wrap64, int_eq}
use buildg.Text.{Text, text_eq}
use buildg.Text.Sort.{sort_strings}
use buildg.Dict.{Dict, lookup, insert, delete, keys}
use buildg.Decimal.{format_int}
use buildg.Errors.{Error, breakpoint_exists, Result, ok, err}
use buildg.Types.{Range, SourceInfo, Location, RegisteredStatus}

-- The two types that implement the interface Breakpoint.
pub data Breakpoint : Type 0 where
  on_fail : Breakpoint
  line : Text → ℤ → Breakpoint

-- The text that tells why a breakpoint was hit, by its parts.
pub data Description : Type 0 where
  nothing : Description
  caught_error : Option Error → Description
  reached : Text → ℤ → Description

pub record Target : Type 0 where
  pub yes : Bool
  pub description : Description
  pub hit_locations : List Location
  pub err : Option Error

module _ (src : SourceInfo) (l : ℤ) where
  -- The inner loop over the ranges of one location, over `hits` and `found`.
  unfoldable pub check_ranges : List Range → List Location × Bool → List Location × Bool
  check_ranges [] st = st
  check_ranges (r ∷ rs) (hits, found) = check_ranges rs (
      if leb_ℤ r.start_line l && leb_ℤ l r.end_line
      then (hits ++ record { source = src; ranges = r ∷ [] } ∷ [], true)
      else (hits, found))

-- The outer loop over the locations.
unfoldable pub check_locs : Text → ℤ → List Location → List Location × Bool → List Location × Bool
check_locs f l [] st = st
check_locs f l (loc ∷ locs) st =
    check_locs f l locs
      (if loc.source.filename == f then check_ranges loc.source l loc.ranges st else st)

abbrev pub line_target : Text → ℤ → List Location × Bool → Target
line_target f l (hits, true) = record {
  yes = true;
  description = reached f l;
  hit_locations = hits;
  err = none;
}
line_target f l (hits, false) = record {
  yes = false;
  description = nothing;
  hit_locations = [];
  err = none;
}

abbrev is_failed : Option Error → Bool
is_failed none = false
is_failed (some e) = true

unfoldable pub is_target : Breakpoint → RegisteredStatus → List Location → Target
unfolding check_locs check_ranges
is_target on_fail status locs = record {
  yes = is_failed status.err;
  description = caught_error status.err;
  hit_locations = locs;
  err = none;
}
is_target (line f l) status locs = line_target f l (check_locs f l locs ([], false))

unfoldable pub is_marked : Breakpoint → SourceInfo → ℤ → Bool
is_marked on_fail src l = false
is_marked (line f n) src l = src.filename == f && l == n

-- `breakpoints` is `none` for a nil map.
pub record Breakpoints : Type 0 where
  pub breakpoints : Option (Dict Text Breakpoint)
  pub breakpoint_index : ℤ

abbrev pub new_breakpoints : Breakpoints
new_breakpoints = record { breakpoints = some []; breakpoint_index = pos 0 }

-- A nil map reads as an empty one.
abbrev pub entries : Breakpoints → Dict Text Breakpoint
entries b = elim b.breakpoints [ none ↦ [] | some m ↦ m ]

abbrev put_new :
    Text → Breakpoint → Dict Text Breakpoint → ℤ → Option Breakpoint → Result Text × Breakpoints
put_new key bp m i (some _) =
    (err (breakpoint_exists key), record { breakpoints = some m; breakpoint_index = i })
put_new key bp m i none =
    (ok key, record { breakpoints = some (insert key bp m); breakpoint_index = i })

-- An empty key asks for the next number.
unfoldable pub add : Text → Breakpoint → Breakpoints → Result Text × Breakpoints
add key bp b =
    let m = entries b in
    let key' = if key == [] then format_int b.breakpoint_index else key in
    let i = if key == [] then wrap64 (b.breakpoint_index +ℤ pos 1) else b.breakpoint_index in
    put_new key' bp m i (lookup key' m)

unfoldable pub get : Text → Breakpoints → Option Breakpoint
get key b = lookup key (entries b)

abbrev delete_from : Text → Option (Dict Text Breakpoint) → Option (Dict Text Breakpoint)
delete_from key none = none
delete_from key (some m) = some (delete key m)

unfoldable pub clear : Text → Breakpoints → Breakpoints
clear key b = record b { breakpoints = delete_from key b.breakpoints }

unfoldable pub clear_all : Breakpoints → Breakpoints
clear_all b = record { breakpoints = none; breakpoint_index = pos 0 }

-- The callback returns false to stop. It runs on a key that the map holds, so the branch for an
-- absent key is not taken (Breakpoints.Order).
module _ {S : Type 0} (f : Text → Breakpoint → S → S × Bool) where
  unfoldable pub visit : Dict Text Breakpoint → List Text → S → S
  visit m [] s = s
  visit m (k ∷ ks) s = elim (lookup k m) [
    | none ↦ s
    | some bp ↦ (let (s', go) = f k bp s in elim go [ true ↦ visit m ks s' | false ↦ s' ])
  ]

  unfoldable pub for_each : Breakpoints → S → S
  unfolding visit
  for_each b s = visit (entries b) (sort_strings (keys (entries b))) s
