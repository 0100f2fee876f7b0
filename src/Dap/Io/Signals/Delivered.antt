-- ===== src/Dap/Io/Signals/Delivered.antt =====
-- A signal arrives as it was caught.
use buildg.Prelude.{
  ℕ, ◌≡◌, refl, ap, sym, ◌∙◌, ◌⊎◌, inl, inr, Bool, true, false, List, [], ◌∷◌, ◌++◌, none, some,
  append_assoc, append-nil, arith, if◌then◌else◌, ◌==◌, nat_eq, nat_beq_iff, Bool-cases,
}
use buildg.Text.{Text, text_eq, text_beq_iff}
use buildg.Dict.{Dict, lookup, insert, lookup-insert, HasUniqueKeys}
use buildg.Dap.Io.Signals.{SignalMap, names_from, sig_to_name, posted, SignalForwarder, serve_http}

-- Some name stands for this signal.
pub has_name : SignalMap → ℕ → Bool
has_name [] sig = false
has_name ((name, value) ∷ rest) sig = if value == sig then true else has_name rest sig

pub named : SignalMap → List ℕ → List ℕ
named m [] = []
named m (sig ∷ sigs) = if has_name m sig then sig ∷ named m sigs else named m sigs

pub serve_all : SignalMap → List Text → SignalForwarder → SignalForwarder
serve_all m [] s = s
serve_all m (name ∷ names) s = serve_all m names (serve_http m name s)

lookup-skips :
    (name : Text) (value : ℕ) (n : Text) (sig : ℕ) (rest : SignalMap)
    → lookup name rest ≡ none
    → lookup n rest ≡ some sig
    → lookup n ((name, value) ∷ rest) ≡ some sig
unfolding lookup
lookup-skips name value n sig rest u l = elim (Bool-cases (name == n)) [
  | inl same ↦ absurd (cc (ap (λ k. lookup k rest) ((text_beq_iff name n).0 same), u, l))
  | inr other ↦ rw other l
]

-- what sigToName holds: a name that an entry of `m` gives, or what was there
names_from-cases :
    (m : SignalMap) (names : Dict ℕ Text) (sig : ℕ)
    → HasUniqueKeys m
    → ((has_name m sig ≡ true)
        × (name : Text) × (lookup sig (names_from m names) ≡ some name)
        × (lookup name m ≡ some sig))
      ⊎ ((has_name m sig ≡ false) × (lookup sig (names_from m names) ≡ lookup sig names))
unfolding names_from has_name lookup
names_from-cases [] names sig u = inr (refl, refl)
names_from-cases ((name, value) ∷ rest) names sig u =
    elim (names_from-cases rest (insert value name names) sig u.1) [
      | inl (h, n, e, l) ↦ inl (ground (arith, h), n, e, lookup-skips name value n sig rest u.0 l)
      | inr (h, e) ↦ elim (Bool-cases (value == sig)) [
        | inl same ↦ inl (
          ground (arith, same),
          name,
          ground (arith, e, same, lookup-insert value sig name names),
          ground (arith, nat_beq_iff value sig, same, text_beq_iff name name),
        )
        | inr other ↦
            inr (
              ground (arith, other, h),
              ground (arith, e, other, lookup-insert value sig name names),
            )
      ]
    ]

lookup-sig_to_name :
    (m : SignalMap) (sig : ℕ)
    → HasUniqueKeys m
    → ((has_name m sig ≡ true)
        × (name : Text) × (lookup sig (sig_to_name m) ≡ some name)
        × (lookup name m ≡ some sig))
      ⊎ ((has_name m sig ≡ false) × (lookup sig (sig_to_name m) ≡ none))
unfolding sig_to_name lookup
lookup-sig_to_name m sig u = names_from-cases m [] sig u

pub pairs : ℕ → List ℕ → List (ℕ × ℕ)
pairs p [] = []
pairs p (sig ∷ sigs) = (p, sig) ∷ pairs p sigs

-- While a process is watched, the signals that the client gets and that have a name reach the calls for this process, each
-- as it was, in their order, whatever the order in which the client visits the map of the signals; the others are dropped.
pub serve_all-posted :
    (m : SignalMap) (sigs : List ℕ) (p : ℕ) (s : SignalForwarder)
    → HasUniqueKeys m
    → s.proc ≡ some p
    → (serve_all m (posted m sigs) s).calls ≡ s.calls ++ pairs p (named m sigs)
unfolding serve_all posted named pairs serve_http
serve_all-posted m [] p s u e = sym (append-nil s.calls)
serve_all-posted m (sig ∷ sigs) p s u e = elim (lookup-sig_to_name m sig u) [
  | inl (h, name, l, k) ↦
      rw (h, l)
        (serve_all-posted m sigs p (serve_http m name s) u e
          ∙ (rw (k, e) (append_assoc s.calls ((p, sig) ∷ []) (pairs p (named m sigs)))))
  | inr (h, l) ↦ rw (h, l) (serve_all-posted m sigs p s u e)
]
