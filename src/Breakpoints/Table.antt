-- ===== src/Breakpoints/Table.antt =====
-- What Add, Get, Clear and ClearAll do to the table, as Get sees it.
use buildg.Prelude.{◌≡◌, ◌≢◌, refl, [], some, none, arith, if◌then◌else◌, ◌==◌, ◌↔◌, Option}
use buildg.Text.{Text, text_eq, text_beq_iff}
use buildg.Dict.{Dict, lookup, lookup-insert, lookup-delete}
use buildg.Int.{ℤ}
use buildg.Errors.{Error, ok, err}
use buildg.Breakpoints.{Breakpoint, Breakpoints, entries, put_new, add, get, clear, clear_all}

put_new-lookup :
    (key j : Text) (bp : Breakpoint) (m : Dict Text Breakpoint) (i : ℤ) (o : Option Breakpoint)
    (k : Text)
    → (put_new key bp m i o).0 ≡ ok k
    → lookup j (entries (put_new key bp m i o).1) ≡ (if k == j then some bp else lookup j m)
put_new-lookup key j bp m i none k h = ground (arith, lookup-insert key j bp m)
put_new-lookup key j bp m i (some _) k h = ground arith

put_new_refused :
    (key j : Text) (bp : Breakpoint) (m : Dict Text Breakpoint) (i : ℤ) (o : Option Breakpoint)
    (e : Error)
    → (put_new key bp m i o).0 ≡ err e
    → lookup j (entries (put_new key bp m i o).1) ≡ lookup j m
put_new_refused key j bp m i none e h = ground arith
put_new_refused key j bp m i (some _) e h = refl

-- When Add succeeds, Get of the key that it returned gives the new breakpoint, and Get of any other key
-- what it gave before.
pub get-add :
    (key j : Text) (bp : Breakpoint) (b : Breakpoints) (k : Text)
    → (add key bp b).0 ≡ ok k
    → get j (add key bp b).1 ≡ (if k == j then some bp else get j b)
unfolding add get
get-add key j bp b k h = put_new-lookup _ j bp (entries b) _ _ k h

-- When Add fails, Get gives for every key what it gave before.
pub get-add_refused :
    (key j : Text) (bp : Breakpoint) (b : Breakpoints) (e : Error)
    → (add key bp b).0 ≡ err e
    → get j (add key bp b).1 ≡ get j b
unfolding add get
get-add_refused key j bp b e h = put_new_refused _ j bp (entries b) _ _ e h

-- Add with a key of its own succeeds, and returns that key, exactly when the key is not in use.
pub add-eq-ok_iff :
    (key : Text) (bp : Breakpoint) (b : Breakpoints)
    → key ≢ []
    → ((add key bp b).0 ≡ ok key) ↔ (get key b ≡ none)
unfolding add get
add-eq-ok_iff key bp b h = ground (arith, text_beq_iff key [])

pub get-clear :
    (k j : Text) (b : Breakpoints) → get j (clear k b) ≡ (if k == j then none else get j b)
unfolding get clear
get-clear k j b = go b.breakpoints
  where
    go :
        (o : Option (Dict Text Breakpoint))
        → lookup j
            (entries (clear k (record { breakpoints = o; breakpoint_index = b.breakpoint_index })))
          ≡ (if k == j
              then none
              else lookup j
                  (entries (record { breakpoints = o; breakpoint_index = b.breakpoint_index })))
    go none = unfold lookup in ground arith
    go (some m) = lookup-delete k j m

pub get-clear_all : (j : Text) (b : Breakpoints) → get j (clear_all b) ≡ none
unfolding get clear_all lookup
get-clear_all j b = refl
