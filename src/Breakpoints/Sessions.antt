-- ===== src/Breakpoints/Sessions.antt =====
-- Any sequence of Add, Clear and ClearAll, with the keys that the commands and the DAP server use.
use buildg.Prelude.{
  ℕ, suc, ◌+◌, ◌^◌, ◌≤◌, ◌<◌, ◌≡◌, ◌≢◌, ap, List, [], ◌∷◌, some, none, arith, if◌then◌else◌, ◌==◌,
  length, inl, inr, All, Option-cases,
}
use buildg.Text.{Text, text_eq, text_beq_iff}
use buildg.Int.{pos}
use buildg.Decimal.{format_int, parse_int, parse_int-format_int}
use buildg.Errors.{ok}
use buildg.Breakpoints.{
  Breakpoint, Breakpoints, entries, new_breakpoints, add, get, clear, clear_all,
}
use buildg.Breakpoints.Table.{get-add, add-eq-ok_iff}
use buildg.Breakpoints.Fresh.{
  WellFormed, new_breakpoints-WellFormed, clear_all-WellFormed, clear-WellFormed, add_auto-ok,
  add_auto-WellFormed, put_new_unique,
}

-- One call on the table: Add with no key, Add with a key, Clear, ClearAll.
pub data Change : Type 0 where
  add_next : Breakpoint → Change
  add_named : Text → Breakpoint → Change
  remove : Text → Change
  remove_all : Change

unfoldable pub change : Change → Breakpoints → Breakpoints
change (add_next bp) b = (add [] bp b).1
change (add_named key bp) b = (add key bp b).1
change (remove key) b = clear key b
change remove_all b = clear_all b

unfoldable pub change_all : List Change → Breakpoints → Breakpoints
unfolding change
change_all [] b = b
change_all (c ∷ cs) b = change_all cs (change c b)

-- A named key is not the print of a number; the program uses "on-fail".
abbrev pub IsNamed : Change → Type 0
IsNamed (add_named key bp) = (key ≢ []) × (parse_int key ≡ none)
IsNamed _ = Unit

key_kept :
    (key : Text) (bp : Breakpoint) (b : Breakpoints)
    → key ≢ []
    → (add key bp b).1.breakpoint_index ≡ b.breakpoint_index
unfolding add
key_kept key bp b h = ground (arith, text_beq_iff key [])

named_elsewhere :
    (key j : Text) (bp : Breakpoint) (b : Breakpoints)
    → key ≢ []
    → key ≢ j
    → get j (add key bp b).1 ≡ get j b
named_elsewhere key j bp b h ne = elim (Option-cases (get key b)) [
  | inl free ↦
      (let e : (add key bp b).0 ≡ ok key = (add-eq-ok_iff key bp b h).1 free in
        rw (get-add key j bp b key e) (ground (arith, text_beq_iff key j)))
  | inr (old, used) ↦ unfold add get in ground (arith, text_beq_iff key [])
]

pub add_named-WellFormed :
    {n : ℕ} {b : Breakpoints} (key : Text) (bp : Breakpoint)
    → key ≢ []
    → parse_int key ≡ none
    → WellFormed n b
    → WellFormed n (add key bp b).1
add_named-WellFormed {n} {b} key bp h named w = record {
  index = rw (key_kept key bp b h) w.index;
  unique = unfold add in put_new_unique _ bp (entries b) _ _ w.unique;
  fresh = λ k le small.
      rw
        (named_elsewhere key (format_int (pos k)) bp b h
          (λ e. cc (parse_int-format_int (pos k) small, ap parse_int e)))
        (w.fresh k le small);
}

change_all-WellFormed :
    (cs : List Change) (n : ℕ) (b : Breakpoints)
    → All IsNamed cs
    → n + length cs < 2 ^ 63
    → WellFormed n b
    → (m : ℕ) × (m ≤ n + length cs) × WellFormed m (change_all cs b)
unfolding change_all
change_all-WellFormed [] n b h room w = (n, omega arith, w)
change_all-WellFormed (add_next bp ∷ cs) n b h room w =
    let (m, le, w') =
      change_all-WellFormed cs (suc n) _ h.1 (omega arith)
        (add_auto-WellFormed bp w (omega arith)) in
    (m, omega arith, w')
change_all-WellFormed (add_named key bp ∷ cs) n b h room w =
    let (m, le, w') =
      change_all-WellFormed cs n _ h.1 (omega arith) (add_named-WellFormed key bp h.0.0 h.0.1 w) in
    (m, omega arith, w')
change_all-WellFormed (remove key ∷ cs) n b h room w =
    let (m, le, w') = change_all-WellFormed cs n _ h.1 (omega arith) (clear-WellFormed key w) in
    (m, omega arith, w')
change_all-WellFormed (remove_all ∷ cs) n b h room w =
    let (m, le, w') = change_all-WellFormed cs 0 _ h.1 (omega arith) (clear_all-WellFormed b) in
    (m, omega arith, w')

-- After fewer than 2^63 - 1 calls of Add, Clear and ClearAll on a new table, whose named keys are nonempty and
-- are not numbers, Add with no key succeeds: it returns the print of a number, Get of that key gives the new
-- breakpoint, and Get of every other key gives what it gave before.
pub add_next-ok :
    (cs : List Change) (bp : Breakpoint)
    → All IsNamed cs
    → length cs + 1 < 2 ^ 63
    → let b = change_all cs new_breakpoints in
      (m : ℕ) × ((add [] bp b).0 ≡ ok (format_int (pos m)))
      × ((j : Text)
          → get j (add [] bp b).1 ≡ (if format_int (pos m) == j then some bp else get j b))
      × (get (format_int (pos m)) b ≡ none)
add_next-ok cs bp h room =
    let (m, le, w) =
      change_all-WellFormed cs 0 new_breakpoints h (omega arith) new_breakpoints-WellFormed in
    let e = add_auto-ok bp w (omega arith) in
    (m, e, λ j. get-add [] j bp _ _ e, w.fresh m (omega arith) (omega arith))
