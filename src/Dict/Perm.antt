-- ===== src/Dict/Perm.antt =====
-- Maps with the same entries in another order, and the keys of a map.
use mathlib.Core.List.{Permᴰ}
use mathlib.Core.Path.{subst}
use buildg.Prelude.{
  ◌≡◌, refl, sym, ap, ◌∙◌, inl, inr, false, [], ◌∷◌, some, arith, Eq, ◌==◌, In, Bool-cases,
}
use buildg.Dict.{Dict, lookup, keys, HasUniqueKeys}

module _ {K V : Type 0} ⦃e : Eq K⦄ where
  pub keys-perm : {m m' : Dict K V} → Permᴰ m m' → Permᴰ (keys m) (keys m')
  keys-perm Permᴰ.nil = Permᴰ.nil
  keys-perm (Permᴰ.cons p h) = Permᴰ.cons (ap (λ (x : K × V). x.0) p) (keys-perm h)
  keys-perm (Permᴰ.swap p q) = Permᴰ.swap (ap (λ (x : K × V). x.0) p) (ap (λ (x : K × V). x.0) q)
  keys-perm (Permᴰ.trans h k) = Permᴰ.trans (keys-perm h) (keys-perm k)

  lookup-cons_congr :
      (l l' : Dict K V) (k : K) (a : K × V)
      → lookup k l ≡ lookup k l'
      → lookup k (a ∷ l) ≡ lookup k (a ∷ l')
  unfolding lookup
  lookup-cons_congr l l' k a h = rw h

  -- two entries of different keys may change places
  unique_swap :
      (k : K) (a b : K × V) (l : Dict K V)
      → HasUniqueKeys (a ∷ b ∷ l)
      → (lookup k (a ∷ b ∷ l) ≡ lookup k (b ∷ a ∷ l)) × HasUniqueKeys (b ∷ a ∷ l)
  unfolding lookup
  unique_swap k a b l u =
      let apart : (b.0 == a.0) ≡ false = ground arith in
      (
        ground (arith, e.decides a.0 k, e.decides b.0 k, e.decides b.0 a.0),
        (
          ground (arith, e.decides a.0 b.0, e.decides b.0 a.0),
          (ground (arith, e.decides a.0 b.0, e.decides b.0 a.0), u.1.1),
        ),
      )

  pub lookup-perm :
      {m m' : Dict K V} (k : K)
      → Permᴰ m m'
      → HasUniqueKeys m
      → (lookup k m ≡ lookup k m') × HasUniqueKeys m'
  lookup-perm k Permᴰ.nil u = (refl, tt)
  lookup-perm k (Permᴰ.cons {a} {b} {l₁} {l₂} p h) u =
      subst (λ (x : K × V). (lookup k (a ∷ l₁) ≡ lookup k (x ∷ l₂)) × HasUniqueKeys (x ∷ l₂)) p
        (
          lookup-cons_congr _ _ k a (lookup-perm k h u.1).0,
          (sym (lookup-perm a.0 h u.1).0 ∙ u.0, (lookup-perm k h u.1).1),
        )
  lookup-perm k (Permᴰ.swap {a} {b} {a'} {b'} {l} p q) u =
      subst
        (λ (x : K × V). (lookup k (a ∷ b ∷ l) ≡ lookup k (a' ∷ x ∷ l)) × HasUniqueKeys (a' ∷ x ∷ l))
        p
        (subst
          (λ (y : K × V). (lookup k (a ∷ b ∷ l) ≡ lookup k (y ∷ a ∷ l)) × HasUniqueKeys (y ∷ a ∷ l))
          q (unique_swap k a b l u))
  lookup-perm k (Permᴰ.trans h g) u =
      let (e₁, u₁) = lookup-perm k h u in let (e₂, u₂) = lookup-perm k g u₁ in (e₁ ∙ e₂, u₂)

  pub lookup_of_key : (k : K) (m : Dict K V) → In k (keys m) → (v : V) × (lookup k m ≡ some v)
  unfolding lookup
  lookup_of_key k [] i = absurd i
  lookup_of_key k ((j, w) ∷ m) (inl same) = (w, ground (arith, e.decides j k))
  lookup_of_key k ((j, w) ∷ m) (inr i) = elim (Bool-cases (j == k)) [
    | inl hit ↦ (w, rw hit)
    | inr miss ↦ (let (v, h) = lookup_of_key k m i in (v, rw miss h))
  ]

  pub key_of_lookup : (k : K) (v : V) (m : Dict K V) → lookup k m ≡ some v → In k (keys m)
  unfolding lookup
  key_of_lookup k v [] h = absurd (ground arith)
  key_of_lookup k v ((j, w) ∷ m) h = elim (Bool-cases (j == k)) [
    | inl hit ↦ inl ((e.decides j k).0 hit)
    | inr miss ↦ inr (key_of_lookup k v m (rw miss at h))
  ]
