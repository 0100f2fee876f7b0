-- ===== src/Breakpoints/Fresh.antt =====
-- The numbers that Add gives out are never in use, as long as named keys are not numbers.
use buildg.Prelude.{ℕ, suc, ◌^◌, ◌≤◌, ◌<◌, ◌≡◌, refl, [], some, none, arith, Option}
use buildg.Text.{Text, text_eq, text_beq_iff}
use buildg.Dict.{Dict, lookup, HasUniqueKeys, insert-HasUniqueKeys, delete-HasUniqueKeys}
use buildg.Int.{ℤ, pos, wrap64_add_one}
use buildg.Decimal.{format_int, format_int_injective}
use buildg.Errors.{ok}
use buildg.Breakpoints.{
  Breakpoint, Breakpoints, entries, new_breakpoints, put_new, add, get, clear, clear_all,
}
use buildg.Breakpoints.Table.{get-add, get-clear}

-- `n` numbers were given out, keys are unique, and no later number is in use.
pub record WellFormed (n : ℕ) (b : Breakpoints) : Type 0 where
  pub index : b.breakpoint_index ≡ pos n
  pub unique : HasUniqueKeys (entries b)
  pub fresh : (k : ℕ) → n ≤ k → k < 2 ^ 63 → get (format_int (pos k)) b ≡ none

pub new_breakpoints-WellFormed : WellFormed 0 new_breakpoints
unfolding get lookup
new_breakpoints-WellFormed = record { index = refl; unique = tt; fresh = λ k _ _. refl }

pub clear_all-WellFormed : (b : Breakpoints) → WellFormed 0 (clear_all b)
unfolding clear_all get lookup
clear_all-WellFormed b = record { index = refl; unique = tt; fresh = λ k _ _. refl }

delete_from_unique :
    (k : Text) (o : Option (Dict Text Breakpoint)) (i : ℤ)
    → HasUniqueKeys (entries (record { breakpoints = o; breakpoint_index = i }))
    → HasUniqueKeys (entries (clear k (record { breakpoints = o; breakpoint_index = i })))
unfolding clear
delete_from_unique k none i h = tt
delete_from_unique k (some m) i h = delete-HasUniqueKeys k m h

pub clear-WellFormed :
    {n : ℕ} {b : Breakpoints} (k : Text) → WellFormed n b → WellFormed n (clear k b)
clear-WellFormed {n} {b} k w = record {
  index = unfold clear in w.index;
  unique = delete_from_unique k b.breakpoints b.breakpoint_index w.unique;
  fresh = λ i h l. rw get-clear (ground (arith, w.fresh i h l));
}

pub put_new_unique :
    (key : Text) (bp : Breakpoint) (m : Dict Text Breakpoint) (i : ℤ) (o : Option Breakpoint)
    → HasUniqueKeys m
    → HasUniqueKeys (entries (put_new key bp m i o).1)
put_new_unique key bp m i none h = insert-HasUniqueKeys key bp m h
put_new_unique key bp m i (some _) h = h

module _ {n : ℕ} {b : Breakpoints} (bp : Breakpoint) (w : WellFormed n b)
    (room : suc n < 2 ^ 63) where
  pub add_auto-ok : (add [] bp b).0 ≡ ok (format_int (pos n))
  unfolding add
  add_auto-ok = rw w.index (
      let free : lookup (format_int (pos n)) (entries b) ≡ none =
        unfold get in w.fresh n (omega arith) (omega arith) in
      rw free refl)

  add_auto-index : (add [] bp b).1.breakpoint_index ≡ pos (suc n)
  unfolding add
  add_auto-index = rw w.index (
      let free : lookup (format_int (pos n)) (entries b) ≡ none =
        unfold get in w.fresh n (omega arith) (omega arith) in
      rw free (wrap64_add_one n room))

  pub add_auto-WellFormed : WellFormed (suc n) (add [] bp b).1
  add_auto-WellFormed = record {
    index = add_auto-index;
    unique = unfold add in put_new_unique _ bp (entries b) _ _ w.unique;
    fresh = λ k h l. rw (get-add [] (format_int (pos k)) bp b _ add_auto-ok) (
        ground (
          arith,
          w.fresh k (omega arith) l,
          text_beq_iff (format_int (pos n)) (format_int (pos k)),
          format_int_injective (pos n) (pos k) (omega arith) l,
        ));
  }
