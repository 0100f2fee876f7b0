-- ===== src/Controller/Slots.antt =====
-- What stands in each slot of getResultMounts.
use buildg.Prelude.{
  ℕ, zero, suc, ◌+◌, ◌<◌, ◌≡◌, refl, ap, ◌∙◌, List, [], ◌∷◌, ◌++◌, Option, none, some, arith,
  length, replicate, set, get_elem?, append_assoc, length-replicate,
}
use buildg.Int.{ℤ, pos, negsuc}
use buildg.Types.{Mount, ExecOp, exec_op}
use buildg.Controller.Results.{ResultType, put_result, fill, get_result_mounts}

module _ (T : ResultType) where
  open T use {Res, clone}

  -- the element that a mount asks for, if it asks for one and there is one
  abbrev pub wanted : List Res → ℤ → Option Res
  wanted xs (negsuc n) = none
  wanted xs (pos n) = get_elem? xs n

  abbrev pub cloned_or : Option Res → Option Res → Option Res
  cloned_or none old = old
  cloned_or (some r) old = some (clone r)

  merge : List Res → (Mount → ℤ) → List Mount → List (Option Res) → List (Option Res)
  merge xs f [] slots = slots
  merge xs f (m ∷ ms) [] = []
  merge xs f (m ∷ ms) (s ∷ slots) = cloned_or (wanted xs (f m)) s ∷ merge xs f ms slots

  get_elem?-missing : (xs : List Res) (n : ℕ) → length xs < n + 1 → get_elem? xs n ≡ none
  get_elem?-missing [] n h = refl
  get_elem?-missing (x ∷ xs) zero h = absurd (omega arith)
  get_elem?-missing (x ∷ xs) (suc n) h = get_elem?-missing xs n (omega arith)

  put_wanted : List (Option Res) → ℕ → Option Res → List (Option Res)
  put_wanted slots i none = slots
  put_wanted slots i (some r) = set slots i (some (clone r))

  put_result-wanted :
      (xs : List Res) (o : ℤ) (i : ℕ) (slots : List (Option Res))
      → put_result T xs o i slots ≡ put_wanted slots i (wanted xs o)
  unfolding put_wanted
  put_result-wanted xs (negsuc n) i slots = ground arith
  put_result-wanted xs (pos n) i slots = ground (arith, get_elem?-missing xs n)

  set_middle :
      (done : List (Option Res)) (s v : Option Res) (rest : List (Option Res)) (i : ℕ)
      → length done ≡ i
      → set (done ++ s ∷ rest) i v ≡ done ++ v ∷ rest
  set_middle [] s v rest zero e = refl
  set_middle [] s v rest (suc i) e = absurd (omega arith)
  set_middle (d ∷ done) s v rest zero e = absurd (omega arith)
  set_middle (d ∷ done) s v rest (suc i) e =
      ap (λ (t : List (Option Res)). d ∷ t) (set_middle done s v rest i (omega arith))

  put_middle :
      (done : List (Option Res)) (s : Option Res) (rest : List (Option Res)) (i : ℕ)
      (o : Option Res)
      → length done ≡ i
      → put_wanted (done ++ s ∷ rest) i o ≡ done ++ cloned_or o s ∷ rest
  unfolding put_wanted
  put_middle done s rest i none e = refl
  put_middle done s rest i (some r) e = set_middle done s (some (clone r)) rest i e

  length-snoc :
      (done : List (Option Res)) (s : Option Res) → length (done ++ s ∷ []) ≡ suc (length done)
  length-snoc [] s = refl
  length-snoc (d ∷ done) s = ap suc (length-snoc done s)

  fill-merge :
      (f : Mount → ℤ) (xs : List Res) (ms : List Mount) (i : ℕ) (done rest : List (Option Res))
      → length done ≡ i
      → length rest ≡ length ms
      → fill T f xs ms i (done ++ rest) ≡ done ++ merge xs f ms rest
  unfolding fill merge
  fill-merge f xs [] i done rest e l = refl
  fill-merge f xs (m ∷ ms) i done [] e l = absurd (omega arith)
  fill-merge f xs (m ∷ ms) i done (s ∷ rest) e l =
      rw (put_result-wanted, put_middle done s rest i (wanted xs (f m)) e)
        (let new = cloned_or (wanted xs (f m)) s in
          rw
            (
              ← append_assoc done (new ∷ []) rest,
              ← append_assoc done (new ∷ []) (merge xs f ms rest),
            )
            (fill-merge f xs ms (suc i) (done ++ new ∷ []) rest (length-snoc done new ∙ ap suc e)
              (omega arith)))

  length-merge :
      (xs : List Res) (f : Mount → ℤ) (ms : List Mount) (slots : List (Option Res))
      → length slots ≡ length ms
      → length (merge xs f ms slots) ≡ length ms
  unfolding merge
  length-merge xs f [] slots e = e
  length-merge xs f (m ∷ ms) [] e = e
  length-merge xs f (m ∷ ms) (s ∷ slots) e = ap suc (length-merge xs f ms slots (omega arith))

  get_elem?-merge :
      (xs : List Res) (f : Mount → ℤ) (ms : List Mount) (slots : List (Option Res)) (k : ℕ)
      (m : Mount) (s : Option Res)
      → get_elem? ms k ≡ some m
      → get_elem? slots k ≡ some s
      → get_elem? (merge xs f ms slots) k ≡ some (cloned_or (wanted xs (f m)) s)
  unfolding merge
  get_elem?-merge xs f [] slots k m s e g = cc
  get_elem?-merge xs f (n ∷ ms) [] k m s e g = cc
  get_elem?-merge xs f (n ∷ ms) (t ∷ slots) zero m s e g = cc
  get_elem?-merge xs f (n ∷ ms) (t ∷ slots) (suc k) m s e g =
      get_elem?-merge xs f ms slots k m s e g

  get_elem?-replicate :
      (ms : List Mount) (k : ℕ) (m : Mount)
      → get_elem? ms k ≡ some m
      → get_elem? (replicate {A = Option Res} (length ms) none) k ≡ some none
  get_elem?-replicate [] k m e = cc
  get_elem?-replicate (n ∷ ms) zero m e = refl
  get_elem?-replicate (n ∷ ms) (suc k) m e = get_elem?-replicate ms k m e

  module _ (op : ExecOp) (inputs outputs : List Res) where
    blank : List (Option Res)
    blank = replicate (length op.mounts) none

    blank_at : (k : ℕ) (m : Mount) → get_elem? op.mounts k ≡ some m → get_elem? blank k ≡ some none
    unfolding blank
    blank_at k m e = get_elem?-replicate op.mounts k m e

    get_result_mounts-merge : get_result_mounts T (exec_op op) inputs outputs ≡ (
      merge inputs (λ m. m.input) op.mounts blank,
      merge outputs (λ m. m.output) op.mounts (merge inputs (λ m. m.input) op.mounts blank),
    )
    unfolding get_result_mounts blank
    get_result_mounts-merge =
        let l = length-replicate {A = Option Res} (length op.mounts) none in
        rw
          (fill-merge (λ m. m.input) inputs op.mounts 0 [] (replicate (length op.mounts) none) refl
            l)
          (rw
            (fill-merge (λ m. m.output) outputs op.mounts 0 []
              (merge inputs (λ m. m.input) op.mounts (replicate (length op.mounts) none)) refl
              (length-merge inputs (λ m. m.input) op.mounts _ l))
            refl)

    -- For a RUN instruction both lists have one slot for each mount. The slot of a mount holds, in the first list, a
    -- clone of the input that the mount names, or nil if it names none that exists; in the second list, a
    -- clone of the output that it names, or else what the first list holds.
    pub get_result_mounts-exec :
        let (ins, outs) = get_result_mounts T (exec_op op) inputs outputs in
        (length ins ≡ length op.mounts)
        × (length outs ≡ length op.mounts)
        × ((k : ℕ) (m : Mount)
            → get_elem? op.mounts k ≡ some m
            → (get_elem? ins k ≡ some (cloned_or (wanted inputs m.input) none))
              × (get_elem? outs k
                  ≡ some (
                      cloned_or
                        (wanted outputs m.output)
                        (cloned_or (wanted inputs m.input) none))))
    get_result_mounts-exec = rw get_result_mounts-merge (
        let l : length blank ≡ length op.mounts =
          unfold blank in length-replicate (length op.mounts) none in
        let n = length-merge inputs (λ m. m.input) op.mounts blank l in
        (
          n,
          length-merge outputs (λ m. m.output) op.mounts _ n,
          λ k m e.
              (let g =
                  get_elem?-merge inputs (λ x. x.input) op.mounts blank k m none e
                    (blank_at k m e) in
                (g, get_elem?-merge outputs (λ x. x.output) op.mounts _ k m _ e g)),
        ))
