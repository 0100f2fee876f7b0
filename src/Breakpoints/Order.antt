-- ===== src/Breakpoints/Order.antt =====
-- The order in which ForEach visits the breakpoints.
use mathlib.Core.List.{Permᴰ}
use buildg.Prelude.{
  ◌≡◌, refl, sym, ap, ◌∙◌, inl, inr, Bool, true, false, List, [], ◌∷◌, ◌++◌, append_assoc,
  append-nil, Option, none, some, arith, In, Option-cases,
}
use buildg.Text.{Text, text_eq, text_beq_iff}
use buildg.Text.Sort.{
  sort_strings, IsSorted, sort_strings-IsSorted, sort_strings-perm, In-sort_strings,
  In-of-sort_strings,
}
use buildg.Int.{ℤ}
use buildg.Dict.{Dict, lookup, keys, HasUniqueKeys}
use buildg.Dict.Perm.{keys-perm, lookup-perm, lookup_of_key, key_of_lookup}
use buildg.Breakpoints.{Breakpoint, Breakpoints, entries, get, visit, for_each}

-- The entries of the map at these keys.
unfoldable pub at_key : Text → Option Breakpoint → Dict Text Breakpoint → Dict Text Breakpoint
at_key k none rest = []
at_key k (some bp) rest = (k, bp) ∷ rest

unfoldable pub entries_at : Dict Text Breakpoint → List Text → Dict Text Breakpoint
unfolding at_key
entries_at m [] = []
entries_at m (k ∷ ks) = at_key k (lookup k m) (entries_at m ks)

unfoldable pub sorted_entries : Dict Text Breakpoint → Dict Text Breakpoint
sorted_entries m = entries_at m (sort_strings (keys m))

abbrev AllPresent : Dict Text Breakpoint → List Text → Type 0
AllPresent m ks = (k : Text) → In k ks → In k (keys m)

keys-entries_at :
    (m : Dict Text Breakpoint) (ks : List Text) → AllPresent m ks → keys (entries_at m ks) ≡ ks
unfolding entries_at at_key
keys-entries_at m [] h = refl
keys-entries_at m (k ∷ ks) h =
    let (v, e) = lookup_of_key k m (h k (inl refl)) in
    rw e (ap (λ (t : List Text). k ∷ t) (keys-entries_at m ks (λ j i. h j (inr i))))

module _ (k j : Text) (v : Breakpoint) (m rest : Dict Text Breakpoint)
    (found : lookup k m ≡ some v) where
  cons_none : lookup j m ≡ none → lookup j rest ≡ none → lookup j ((k, v) ∷ rest) ≡ none
  unfolding lookup
  cons_none e r = ground (arith, text_beq_iff k j)

  cons_here : k ≡ j → lookup j ((k, v) ∷ rest) ≡ lookup j m
  unfolding lookup
  cons_here e = ground (arith, text_beq_iff k j)

  cons_there : lookup j rest ≡ lookup j m → lookup j ((k, v) ∷ rest) ≡ lookup j m
  unfolding lookup
  cons_there r = ground (arith, text_beq_iff k j)

lookup-entries_at-none :
    (m : Dict Text Breakpoint) (j : Text) (ks : List Text)
    → AllPresent m ks
    → lookup j m ≡ none
    → lookup j (entries_at m ks) ≡ none
unfolding entries_at at_key
lookup-entries_at-none m j [] h e = unfold lookup in refl
lookup-entries_at-none m j (k ∷ ks) h e =
    let (v, f) = lookup_of_key k m (h k (inl refl)) in
    rw f (cons_none k j v m _ f e (lookup-entries_at-none m j ks (λ i p. h i (inr p)) e))

lookup-entries_at-some :
    (m : Dict Text Breakpoint) (j : Text) (ks : List Text)
    → AllPresent m ks
    → In j ks
    → lookup j (entries_at m ks) ≡ lookup j m
unfolding entries_at at_key
lookup-entries_at-some m j [] h i = absurd i
lookup-entries_at-some m j (k ∷ ks) h (inl same) =
    let (v, f) = lookup_of_key k m (h k (inl refl)) in rw f (cons_here k j v m _ f same)
lookup-entries_at-some m j (k ∷ ks) h (inr i) =
    let (v, f) = lookup_of_key k m (h k (inl refl)) in
    rw f (cons_there k j v m _ f (lookup-entries_at-some m j ks (λ l p. h l (inr p)) i))

sorted_present : (m : Dict Text Breakpoint) → AllPresent m (sort_strings (keys m))
sorted_present m k i = In-of-sort_strings k (keys m) i

pub lookup-sorted_entries :
    (m : Dict Text Breakpoint) (j : Text) → lookup j (sorted_entries m) ≡ lookup j m
unfolding sorted_entries
lookup-sorted_entries m j = elim (Option-cases (lookup j m)) [
  | inl e ↦ lookup-entries_at-none m j _ (sorted_present m) e ∙ sym e
  | inr (v, e) ↦
      lookup-entries_at-some m j _ (sorted_present m)
        (In-sort_strings j (keys m) (key_of_lookup j v m e))
]

-- The entries do not depend on the order of the map.
entries_at-perm :
    {m m' : Dict Text Breakpoint} (ks : List Text)
    → Permᴰ m m'
    → HasUniqueKeys m
    → entries_at m ks ≡ entries_at m' ks
unfolding entries_at at_key
entries_at-perm [] h u = refl
entries_at-perm (k ∷ ks) h u = cc ((lookup-perm k h u).0, entries_at-perm ks h u)

-- Walking a list of entries until the callback returns false.
module _ {S : Type 0} (f : Text → Breakpoint → S → S × Bool) where
  unfoldable pub walk : Dict Text Breakpoint → S → S
  walk [] s = s
  walk ((k, bp) ∷ es) s = let (s', go) = f k bp s in elim go [ true ↦ walk es s' | false ↦ s' ]

  visit-walk :
      (m : Dict Text Breakpoint) (ks : List Text) (s : S)
      → visit f m ks s ≡ walk (entries_at m ks) s
  unfolding visit walk entries_at at_key
  visit-walk m [] s = refl
  visit-walk m (k ∷ ks) s = go (lookup k m) (λ t. visit-walk m ks t)
    where
      go :
          (o : Option Breakpoint)
          → ((t : S) → visit f m ks t ≡ walk (entries_at m ks) t)
          → ◌≡◌ {A = S}
              (elim o [
                | none ↦ s
                | some bp ↦ elim (f k bp s).1 [
                  | true ↦ visit f m ks (f k bp s).0
                  | false ↦ (f k bp s).0
                ]
              ])
              (walk (at_key k o (entries_at m ks)) s)
      go none rec = refl
      go (some bp) rec = λ i. elim (f k bp s).1 [ true ↦ rec (f k bp s).0 i | false ↦ (f k bp s).0 ]

  pub for_each-walk :
      (b : Breakpoints) (s : S) → for_each f b s ≡ walk (sorted_entries (entries b)) s
  unfolding for_each sorted_entries
  for_each-walk b s = visit-walk (entries b) (sort_strings (keys (entries b))) s

  for_each-perm :
      (m m' : Dict Text Breakpoint) (i : ℤ) (s : S)
      → Permᴰ m m'
      → HasUniqueKeys m
      → for_each f (record { breakpoints = some m; breakpoint_index = i }) s
        ≡ for_each f (record { breakpoints = some m'; breakpoint_index = i }) s
  for_each-perm m m' i s h u =
      rw (for_each-walk, for_each-walk)
        (unfold sorted_entries in rw (sort_strings-perm (keys-perm h), entries_at-perm _ h u))

-- What a callback sees that never stops, in the order of the calls.
unfoldable pub visited : Breakpoints → Dict Text Breakpoint
visited b = for_each (λ k bp acc. (acc ++ (k, bp) ∷ [], true)) b []

walk-collect :
    (es acc : Dict Text Breakpoint)
    → walk (λ k bp acc. (acc ++ (k, bp) ∷ [], true)) es acc ≡ acc ++ es
unfolding walk
walk-collect [] acc = sym (append-nil acc)
walk-collect ((k, bp) ∷ es) acc =
    walk-collect es (acc ++ (k, bp) ∷ []) ∙ append_assoc acc ((k, bp) ∷ []) es

visited-sorted_entries : (b : Breakpoints) → visited b ≡ sorted_entries (entries b)
unfolding visited
visited-sorted_entries b = for_each-walk _ b [] ∙ walk-collect (sorted_entries (entries b)) []

visited_lem :
    (b : Breakpoints)
    → IsSorted (keys (visited b))
      × (keys (visited b) ≡ sort_strings (keys (entries b)))
      × ((j : Text) → lookup j (visited b) ≡ get j b)
visited_lem b = rw visited-sorted_entries (
    let e : keys (sorted_entries (entries b)) ≡ sort_strings (keys (entries b)) =
      (unfold sorted_entries in keys-entries_at (entries b) _ (sorted_present (entries b))) in
    (
      rw e (sort_strings-IsSorted (keys (entries b))),
      e,
      λ j. unfold get in lookup-sorted_entries (entries b) j,
    ))

-- For a map with unique keys: ForEach visits the keys in ascending order, and what it visits holds at each key what Get
-- gives, so it visits every breakpoint and nothing else; and with any callback it gives the same for the map in any
-- other order of its entries.
pub for_each_lem :
    {S : Type 0} (f : Text → Breakpoint → S → S × Bool) (m m' : Dict Text Breakpoint) (i : ℤ)
    (s : S)
    → Permᴰ m m'
    → HasUniqueKeys m
    → (IsSorted (keys (visited (record { breakpoints = some m; breakpoint_index = i })))
        × (keys (visited (record { breakpoints = some m; breakpoint_index = i }))
            ≡ sort_strings (keys m))
        × ((j : Text)
            → lookup j (visited (record { breakpoints = some m; breakpoint_index = i }))
              ≡ get j (record { breakpoints = some m; breakpoint_index = i })))
      × (for_each f (record { breakpoints = some m; breakpoint_index = i }) s
          ≡ for_each f (record { breakpoints = some m'; breakpoint_index = i }) s)
for_each_lem f m m' i s h u = (
  visited_lem (record { breakpoints = some m; breakpoint_index = i }),
  for_each-perm f m m' i s h u,
)
