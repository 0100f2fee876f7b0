-- ===== src/Controller/Registers.antt =====
-- The ids under which registerResultIDs makes results known.
use buildg.Prelude.{
  ℕ, zero, suc, ◌≡◌, refl, ap, sym, ◌∙◌, List, [], ◌∷◌, ◌++◌, Option, none, some, arith, length,
  replicate, set, append_assoc, ◌==◌, Bool-cases, subst, inl, inr,
}
use buildg.Text.{Text, text_eq, text_beq_iff}
use buildg.Dict.{Dict, lookup, insert, lookup-insert}
use buildg.Errors.{Result, ok}
use buildg.Controller.Results.{ResultType, register, register_result_ids}

module _ (T : ResultType) where
  open T use {Res, Ref, sys, id}

  -- a nil slot, or a result that holds a reference of a worker
  abbrev pub AllKnown : List (Option Res) → Type 0
  AllKnown [] = Unit
  AllKnown (none ∷ rs) = AllKnown rs
  AllKnown (some r ∷ rs) = ((ref : Ref) × (sys r ≡ some ref)) × AllKnown rs

  abbrev id_of_ref : Option Ref → Text
  id_of_ref none = []
  id_of_ref (some ref) = id ref

  abbrev pub id_of : Option Res → Text
  id_of none = []
  id_of (some r) = id_of_ref (sys r)

  abbrev pub ids_of : List (Option Res) → List Text
  ids_of [] = []
  ids_of (r ∷ rs) = id_of r ∷ ids_of rs

  set_last :
      (done : List Text) (v w : Text) (rest : List Text) (i : ℕ)
      → length done ≡ i
      → set (done ++ v ∷ rest) i w ≡ done ++ w ∷ rest
  set_last [] v w rest zero e = refl
  set_last [] v w rest (suc i) e = absurd (omega arith)
  set_last (d ∷ done) v w rest zero e = absurd (omega arith)
  set_last (d ∷ done) v w rest (suc i) e =
      ap (λ (t : List Text). d ∷ t) (set_last done v w rest i (omega arith))

  length-snoc : (done : List Text) (s : Text) → length (done ++ s ∷ []) ≡ suc (length done)
  length-snoc [] s = refl
  length-snoc (d ∷ done) s = ap suc (length-snoc done s)

  -- a reference with this id is known
  abbrev pub Resolves : Dict Text Ref → Text → Type 0
  Resolves refs i = (ref : Ref) × (lookup i refs ≡ some ref) × (id ref ≡ i)

  abbrev pub AllResolve : Dict Text Ref → List (Option Res) → Type 0
  AllResolve refs [] = Unit
  AllResolve refs (none ∷ rs) = AllResolve refs rs
  AllResolve refs (some r ∷ rs) = Resolves refs (id_of (some r)) × AllResolve refs rs

  abbrev Keeps : Dict Text Ref → Dict Text Ref → Type 0
  Keeps refs refs' = (i : Text) → Resolves refs i → Resolves refs' i

  Keeps-insert : (ref : Ref) (refs : Dict Text Ref) → Keeps refs (insert (id ref) ref refs)
  Keeps-insert ref refs i (r, e, q) = elim (Bool-cases (id ref == i)) [
    | inl same ↦ (ref, rw (lookup-insert, same) refl, (text_beq_iff (id ref) i).0 same)
    | inr other ↦ (r, rw (lookup-insert, other) e, q)
  ]

  Resolves-insert :
      (ref : Ref) (refs : Dict Text Ref) → Resolves (insert (id ref) ref refs) (id ref)
  Resolves-insert ref refs =
      (ref, rw (lookup-insert, (text_beq_iff (id ref) (id ref)).1 refl) refl, refl)

  abbrev Registered :
      List (Option Res) → List Text → Dict Text Ref → Result (List Text) × Dict Text Ref → Type 0
  Registered rs done refs r = (r.0 ≡ ok (done ++ ids_of rs)) × Keeps refs r.1 × AllResolve r.1 rs

  register-some :
      (r : Res) (ref : Ref) (rs : List (Option Res)) (i : ℕ) (ids : List Text)
      (refs : Dict Text Ref)
      → sys r ≡ some ref
      → register T rs (suc i) (set ids i (id ref)) (insert (id ref) ref refs)
        ≡ register T (some r ∷ rs) i ids refs
  unfolding register
  register-some r ref rs i ids refs q = rw q refl

  register-Registered :
      (rs : List (Option Res)) (i : ℕ) (done ids : List Text) (refs : Dict Text Ref)
      → length done ≡ i
      → ids ≡ done ++ replicate (length rs) []
      → AllKnown rs
      → Registered rs done refs (register T rs i ids refs)
  unfolding register
  register-Registered [] i done ids refs e f k = (ap ok f, λ i r. r, tt)
  register-Registered (none ∷ rs) i done ids refs e f k =
      let (a, b, c) =
        register-Registered rs (suc i) (done ++ [] ∷ []) ids refs (length-snoc done [] ∙ ap suc e)
          (f ∙ sym (append_assoc done ([] ∷ []) (replicate (length rs) []))) k in
      (a ∙ ap ok (append_assoc done ([] ∷ []) (ids_of rs)), b, c)
  register-Registered (some r ∷ rs) i done ids refs e f ((ref, q), k) =
      let new = id ref in
      let f' =
        ap (λ (l : List Text). set l i new) f
        ∙ set_last done [] new (replicate (length rs) []) i e
        ∙ sym (append_assoc done (new ∷ []) (replicate (length rs) [])) in
      let (a, b, c) =
        register-Registered rs (suc i) (done ++ new ∷ []) (set ids i new) (insert new ref refs)
          (length-snoc done new ∙ ap suc e) f' k in
      subst (λ x. Registered (some r ∷ rs) done refs x) (register-some r ref rs i ids refs q)
        (
          a ∙ ap ok (append_assoc done (new ∷ []) (ids_of rs) ∙ rw q refl),
          λ j known. b j (Keeps-insert ref refs j known),
          rw q (b new (Resolves-insert ref refs), c),
        )

  -- When each result is nil or holds a reference of a worker, registerResultIDs returns for each slot the id of its
  -- reference, or an empty id for nil, each id of a result gives a reference with that id, and so do
  -- all ids that did before.
  pub register_result_ids_lem :
      (rs : List (Option Res)) (refs : Dict Text Ref)
      → AllKnown rs
      → ((register_result_ids T rs refs).0 ≡ ok (ids_of rs))
        × ((i : Text) → Resolves refs i → Resolves (register_result_ids T rs refs).1 i)
        × AllResolve (register_result_ids T rs refs).1 rs
  unfolding register_result_ids
  register_result_ids_lem rs refs k =
      register-Registered rs 0 [] (replicate (length rs) []) refs refl refl k
