-- ===== src/Controller/Results.antt =====
-- The results of an operation that a container can mount, and their registration under ids.
use buildg.Prelude.{
  ℕ, suc, Bool, ◌||◌, List, [], ◌∷◌, Option, none, some, if◌then◌else◌, length, replicate, set,
}
use buildg.Int.{ℤ, pos, ltb_ℤ, leb_ℤ}
use buildg.Text.{Text, text_eq}
use buildg.Dict.{Dict, insert}
use buildg.Errors.{unexpected_result_type, Result, ok, err}
use buildg.Types.{Mount, OpKind, exec_op, other_op}
use buildg.Controller.Sources.{at_index}

-- BuildKit's solver.Result: `clone` makes another handle of it, and `sys` is its worker
-- reference, unless it holds a value of another type.
pub record ResultType : Type 1 where
  pub Res : Type 0
  pub Ref : Type 0
  pub clone : Res → Res
  pub sys : Res → Option Ref
  pub id : Ref → Text

-- the test `len(xs) <= i`, for an index that is not negative
abbrev pub is_missing {ℓ} : {A : Type ℓ} → List A → ℤ → Bool
is_missing xs i = leb_ℤ (pos (length xs)) i

module _ (T : ResultType) where
  open T use {Res, Ref, clone, sys, id}

  -- `slots[i] = xs[o].Clone()`
  abbrev pub put_clone : List (Option Res) → ℕ → Option Res → List (Option Res)
  put_clone slots i none = slots
  put_clone slots i (some r) = set slots i (some (clone r))

  abbrev pub put_result : List Res → ℤ → ℕ → List (Option Res) → List (Option Res)
  put_result xs o i slots =
      if ltb_ℤ o (pos 0) || is_missing xs o then slots else put_clone slots i (at_index xs o)

  -- The loops over the mounts, at index `i`, for the inputs and for the outputs; a nil result is `none`.
  unfoldable pub fill :
      (Mount → ℤ) → List Res → List Mount → ℕ → List (Option Res) → List (Option Res)
  fill f xs [] i slots = slots
  fill f xs (m ∷ ms) i slots = fill f xs ms (suc i) (put_result xs (f m) i slots)

  unfoldable pub get_result_mounts :
      OpKind → List Res → List Res → List (Option Res) × List (Option Res)
  unfolding fill
  get_result_mounts (exec_op e) inputs outputs =
      let exec_inputs = fill (λ m. m.input) inputs e.mounts 0 (replicate (length e.mounts) none) in
      (exec_inputs, fill (λ m. m.output) outputs e.mounts 0 exec_inputs)
  get_result_mounts other_op inputs (o ∷ []) = ([], some o ∷ [])
  get_result_mounts other_op inputs outputs = ([], [])

  abbrev pub register_ref :
      Option Ref
      → ℕ
      → List Text
      → Dict Text Ref
      → (List Text → Dict Text Ref → Result (List Text) × Dict Text Ref)
      → Result (List Text) × Dict Text Ref
  register_ref none i ids refs rest = (err unexpected_result_type, refs)
  register_ref (some ref) i ids refs rest = rest (set ids i (id ref)) (insert (id ref) ref refs)

  -- The loop of registerResultIDs over the slots, with the ids so far and `workerRefByID`.
  unfoldable pub register :
      List (Option Res) → ℕ → List Text → Dict Text Ref → Result (List Text) × Dict Text Ref
  register [] i ids refs = (ok ids, refs)
  register (none ∷ rest) i ids refs = register rest (suc i) ids refs
  register (some r ∷ rest) i ids refs =
      register_ref (sys r) i ids refs (λ ids' refs'. register rest (suc i) ids' refs')

  unfoldable pub register_result_ids :
      List (Option Res) → Dict Text Ref → Result (List Text) × Dict Text Ref
  unfolding register
  register_result_ids results refs = register results 0 (replicate (length results) []) refs
