-- ===== src/Client/Usage/Totals.antt =====
-- The total that Prune and Du print.
use buildg.Prelude.{
  ◌≡◌, refl, ap, sym, ◌∙◌, Bool, false, not, List, [], ◌∷◌, ◌++◌, map, append_assoc, append-nil,
  none, arith,
}
use buildg.Int.{ℤ, pos, negsuc, ◌+ℤ◌, wrap64, wrap64_of_IsInt64, int_laws, IsInt64}
use buildg.Errors.{ok}
use buildg.Client.Usage.{
  UsageInfo, Row, heading, usage, total, print_usage, print_usages, disk_usage, prune_cache,
  du_cache,
}

wrap64-add : (a b : ℤ) → wrap64 (wrap64 a +ℤ b) ≡ wrap64 (a +ℤ b)
unfolding wrap64 ◌+ℤ◌
wrap64-add (pos a) (pos b) = ground arith
wrap64-add (pos a) (negsuc b) = ground arith
wrap64-add (negsuc a) (pos b) = ground arith
wrap64-add (negsuc a) (negsuc b) = ground arith

-- the sum without wrap-around
unfoldable pub exact : List UsageInfo → ℤ
exact [] = pos 0
exact (du ∷ dus) = du.size +ℤ exact dus

abbrev pub row_of : UsageInfo → Row
row_of du = usage du.id (not du.in_use) du.size

add_zero : (s : ℤ) → s +ℤ pos 0 ≡ s
add_zero s = grind int_laws

add_assoc : (a b c : ℤ) → a +ℤ b +ℤ c ≡ a +ℤ (b +ℤ c)
add_assoc a b c = grind int_laws

wrapped_sum :
    (s : ℤ) (du : UsageInfo) (dus : List UsageInfo)
    → wrap64 (wrap64 (s +ℤ du.size) +ℤ exact dus) ≡ wrap64 (s +ℤ exact (du ∷ dus))
unfolding exact
wrapped_sum s du dus =
    wrap64-add (s +ℤ du.size) (exact dus) ∙ ap wrap64 (add_assoc s du.size (exact dus))

-- `sum` is a sum s that was wrapped around.
disk_usage_lem :
    (dus : List UsageInfo) (s sum : ℤ) (rows : List Row)
    → sum ≡ wrap64 s
    → disk_usage dus sum rows ≡ (wrap64 (s +ℤ exact dus), rows ++ map row_of dus)
unfolding disk_usage exact
disk_usage_lem [] s sum rows e =
    let e' : sum ≡ wrap64 (s +ℤ pos 0) = e ∙ ap wrap64 (sym (add_zero s)) in
    rw (e', append-nil) refl
disk_usage_lem (du ∷ dus) s sum rows e =
    let next : wrap64 (sum +ℤ du.size) ≡ wrap64 (s +ℤ du.size) =
      ap (λ x. wrap64 (x +ℤ du.size)) e ∙ wrap64-add s du.size in
    disk_usage_lem dus (s +ℤ du.size) (wrap64 (sum +ℤ du.size)) (rows ++ row_of du ∷ []) next
    ∙ rw (add_assoc, append_assoc) refl

print_usages_lem :
    (dus : List UsageInfo) (s sum : ℤ) (rows : List Row)
    → sum ≡ wrap64 s
    → print_usages dus (record { first = false; sum = sum; rows = rows })
      ≡ record { first = false; sum = wrap64 (s +ℤ exact dus); rows = rows ++ map row_of dus }
unfolding print_usages print_usage exact
print_usages_lem [] s sum rows e =
    let e' : sum ≡ wrap64 (s +ℤ pos 0) = e ∙ ap wrap64 (sym (add_zero s)) in
    rw (e', append-nil) refl
print_usages_lem (du ∷ dus) s sum rows e =
    let next : wrap64 (sum +ℤ du.size) ≡ wrap64 (s +ℤ du.size) =
      ap (λ x. wrap64 (x +ℤ du.size)) e ∙ wrap64-add s du.size in
    print_usages_lem dus (s +ℤ du.size) (wrap64 (sum +ℤ du.size)) (rows ++ row_of du ∷ []) next
    ∙ rw (add_assoc, append_assoc) refl

-- The lines of a listing that names its heading.
abbrev pub listing : ℤ → List UsageInfo → List Row
listing sum dus = heading ∷ (map row_of dus ++ total sum ∷ [])

zero_add : (s : ℤ) → pos 0 +ℤ s ≡ s
zero_add s = grind int_laws

-- When the sizes add up to an int64, Du prints the heading, a line for each record and the exact sum, and Prune
-- prints the same of what it is sent, when it is sent something and does not fail, however the partial sums wrap around.
pub du_cache-exact :
    {C : Type 0} (c : C) (all : Bool) (du : UsageInfo) (dus : List UsageInfo)
    → IsInt64 (exact (du ∷ dus))
    → (du_cache (ok c) (λ c. ok (du ∷ dus)) ≡ (none, listing (exact (du ∷ dus)) (du ∷ dus)))
      × (prune_cache (ok c) all (λ c a. (du ∷ dus, none))
          ≡ (none, listing (exact (du ∷ dus)) (du ∷ dus)))
unfolding du_cache prune_cache print_usages print_usage wrap64 exact
du_cache-exact c all du dus h =
    let fits : wrap64 (du.size +ℤ exact dus) ≡ du.size +ℤ exact dus =
      wrap64_of_IsInt64 (du.size +ℤ exact dus) h in
    (
      rw
          (
            disk_usage_lem dus du.size (wrap64 (pos 0 +ℤ du.size)) (heading ∷ row_of du ∷ [])
                (ap wrap64 (zero_add du.size)),
            fits,
          )
          refl,
      rw
          (
            print_usages_lem dus du.size (wrap64 (pos 0 +ℤ du.size)) (heading ∷ row_of du ∷ [])
                (ap wrap64 (zero_add du.size)),
            fits,
          )
          refl,
    )
