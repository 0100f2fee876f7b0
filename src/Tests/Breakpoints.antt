-- ===== src/Tests/Breakpoints.antt =====
-- pkg/buildkit/breakpoint.go on a small Dockerfile.
use mathlib.Core.List.{Permᴰ}
use buildg.Prelude.{
  ◌≡◌, ◌≢◌, ◌+◌, refl, true, List, [], ◌∷◌, none, some, arith, if◌then◌else◌, ◌==◌, ℕ,
}
use buildg.Text.{Text, codes, text_eq, text_le}
use buildg.Text.Sort.{sort_strings, IsSorted}
use buildg.Int.{pos}
use buildg.Dict.{Dict, lookup, insert, keys}
use buildg.Decimal.{format_int, parse_int}
use buildg.Errors.{ok, err, breakpoint_exists}
use buildg.Types.{SourceInfo, Location, RegisteredStatus, other_op}
use buildg.Breakpoints.{
  Breakpoint, on_fail, line, Breakpoints, entries, new_breakpoints, is_target, add, get, for_each,
}
use buildg.Breakpoints.Order.{visited, for_each_lem}
use buildg.Breakpoints.Sessions.{
  Change, add_next, add_named, remove, remove_all, change_all, add_next-ok,
}

abbrev pub dockerfile : Text
dockerfile = codes "Dockerfile"

abbrev pub file : SourceInfo
file = record { address = 1; filename = dockerfile; bytes = codes "FROM a\nRUN b\n" }

abbrev pub two_lines : List Location
two_lines =
    record {
      source = file;
      ranges =
          record { start_line = pos 1; end_line = pos 2 }
          ∷ record { start_line = pos 4; end_line = pos 6 }
          ∷ [];
    }
    ∷ []

abbrev pub status : RegisteredStatus
status = record {
  name = codes "RUN b";
  debug_id = codes "d1";
  input_ids = [];
  mount_ids = [];
  vertex = codes "v1";
  op = record { kind = other_op; platform = 0; constraints = 0 };
  err = none;
}

abbrev key_on_fail : Text
key_on_fail = codes "on-fail"

abbrev pub start : Breakpoints
start =
    change_all (add_named key_on_fail on_fail ∷ add_next (line dockerfile (pos 4)) ∷ [])
      new_breakpoints

keys_of_start : keys (entries start) ≡ key_on_fail ∷ codes "0" ∷ []
unfolding change_all add lookup insert format_int
keys_of_start = refl

-- the second Add of one key is refused, and an automatic key counts on all the same
again : (add key_on_fail on_fail start).0 ≡ err (breakpoint_exists key_on_fail)
unfolding change_all add lookup insert format_int
again = refl

visited_in_order : keys (visited start) ≡ codes "0" ∷ key_on_fail ∷ []
unfolding change_all add lookup insert format_int visited for_each sort_strings text_le
visited_in_order = refl

on-fail-ne-nil : key_on_fail ≢ []
on-fail-ne-nil e = cc e

named : (key_on_fail ≢ []) × (parse_int key_on_fail ≡ none)
unfolding parse_int
named = (on-fail-ne-nil, refl)

abbrev history : List Change
history =
    add_named key_on_fail on_fail
    ∷ add_next (line dockerfile (pos 4))
    ∷ remove (codes "0")
    ∷ remove_all
    ∷ add_next (line dockerfile (pos 5))
    ∷ []

add_next-ok_example :
    let b = change_all history new_breakpoints in
    (m : ℕ) × ((add [] on_fail b).0 ≡ ok (format_int (pos m)))
    × ((j : Text)
        → get j (add [] on_fail b).1 ≡ (if format_int (pos m) == j then some on_fail else get j b))
    × (get (format_int (pos m)) b ≡ none)
add_next-ok_example = add_next-ok history on_fail (named, (tt, (tt, (tt, (tt, tt))))) (omega arith)

abbrev pub second_range : Location
second_range = record {
  source = file;
  ranges = record { start_line = pos 4; end_line = pos 6 } ∷ [];
}

one_hit : (is_target (line dockerfile (pos 5)) status two_lines).hit_locations ≡ second_range ∷ []
unfolding is_target
one_hit = refl

abbrev ab : Dict Text Breakpoint
ab = (codes "a", on_fail) ∷ (codes "b", on_fail) ∷ []

abbrev ba : Dict Text Breakpoint
ba = (codes "b", on_fail) ∷ (codes "a", on_fail) ∷ []

unique :
    (lookup {V = Breakpoint} (codes "a") ((codes "b", on_fail) ∷ []) ≡ none)
    × ((lookup {V = Breakpoint} (codes "b") [] ≡ none) × Unit {0})
unfolding lookup
unique = (refl, (refl, tt))

abbrev two_keys : Breakpoints
two_keys = record { breakpoints = some ab; breakpoint_index = pos 0 }

for_each_lem_example :
    (IsSorted (keys (visited two_keys))
      × (keys (visited two_keys) ≡ sort_strings (keys ab))
      × ((j : Text) → lookup j (visited two_keys) ≡ get j two_keys))
    × (for_each (λ k bp n. (n + 1, true)) two_keys 0
        ≡ for_each
            (λ k bp n. (n + 1, true))
            (record { breakpoints = some ba; breakpoint_index = pos 0 })
            0)
for_each_lem_example =
    for_each_lem (λ k bp n. (n + 1, true)) ab ba (pos 0) 0 (Permᴰ.swap refl refl) unique
