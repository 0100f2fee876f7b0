-- ===== src/Dap/Ready.antt =====
-- pkg/dap/dap.go: the breaks at which the command exec of an evaluation does not panic.
use buildg.Prelude.{
  ◌≡◌, refl, Bool, true, false, List, [], ◌∷◌, Option, none, some, inl, inr, Bool-cases, ◌==◌, ◌≤◌,
  length, if◌then◌else◌,
}
use buildg.Text.{Text, codes, text_eq}
use buildg.Handler.{Handler, BreakContext}
use buildg.Dap.Messages.{LaunchConfig}
use buildg.Dap.Server.{
  Outside, Parsed, shown, executes, Evaluation, evaluation_of, program_of, evaluate_parsed, silent,
  run_words,
}
use buildg.Types.{OpKind, exec_op, other_op}
use buildg.Container.{ContainerConfig}
use buildg.Container.Cleanups.{ids, HasIds}
use buildg.Dap.Exec.{Run, fails, starts, exec_cfg}
use buildg.Dap.Exec.Cleaned.{exec_in_container-IsCleaned}

abbrev pub HasIdsFor : OpKind → List Text → Type 0
HasIdsFor (exec_op e) l = length e.mounts ≤ length l
HasIdsFor other_op l = Unit

abbrev pub IsLaunched : Option LaunchConfig → Type 0
IsLaunched none = ⊥
IsLaunched (some cfg) = Unit

-- At a break, a build was launched, and a RUN instruction has the ids of the inputs and outputs of its mounts.
abbrev pub IsReady : Option LaunchConfig → Option (BreakContext × Handler) → Type 0
IsReady l none = Unit
IsReady l (some (ctx, h)) =
    HasIdsFor ctx.info.op.kind ctx.info.input_ids
    × HasIdsFor ctx.info.op.kind ctx.info.mount_ids
    × IsLaunched l

module _ (O : Outside) where
  evaluation_of-some :
      (l : Option LaunchConfig) (x : Run)
      → IsLaunched l
      → (e : Evaluation) × (evaluation_of O l x ≡ some e)
  evaluation_of-some l (fails e done) k = (_, refl)
  evaluation_of-some none (starts args cwd done cleanups) k = absurd k
  evaluation_of-some (some cfg) (starts args cwd done cleanups) k = (_, refl)

  ids_for :
      (b : Bool) (k : OpKind) (ins mounts : List Text)
      → HasIdsFor k ins
      → HasIdsFor k mounts
      → HasIdsFor k (if b then ins else mounts)
  ids_for true k ins mounts a b = a
  ids_for false k ins mounts a b = b

  has_ids :
      (cfg : ContainerConfig) (k : OpKind) (l : List Text)
      → HasIdsFor k l
      → HasIds O.host.gateway cfg k l
  has_ids cfg (exec_op e) l h = h
  has_ids cfg other_op l h = h

  evaluate_parsed-some :
      (p : Parsed) (ctx : BreakContext) (h : Handler) (l : Option LaunchConfig)
      → IsReady l (some (ctx, h))
      → (e : Evaluation) × (evaluate_parsed O p ctx h l ≡ some e)
  evaluate_parsed-some (shown out x) ctx h l k = (_, refl)
  evaluate_parsed-some (executes f) ctx h l (a, b, c) =
      let cfg = exec_cfg O.host.streams f ctx.info h in
      let (x, q, _) = exec_in_container-IsCleaned O.host f ctx.info h (program_of O l) (
        has_ids cfg ctx.info.op.kind (ids O.host.gateway cfg)
          (ids_for f.init_state ctx.info.op.kind ctx.info.input_ids ctx.info.mount_ids a b)) in
      let (e, w) = evaluation_of-some l x c in (e, rw q w)

  pub run_words-some :
      (ws : Option (List Text)) (ctx : BreakContext) (h : Handler) (l : Option LaunchConfig)
      → IsReady l (some (ctx, h))
      → (e : Evaluation) × (run_words O ws ctx h l ≡ some e)
  run_words-some none ctx h l k = (_, refl)
  run_words-some (some []) ctx h l k = (_, refl)
  run_words-some (some (w ∷ ws)) ctx h l k = elim (Bool-cases (w == [])) [
    | inl b ↦ rw b (silent O, refl)
    | inr b ↦ rw b (evaluate_parsed-some (O.parse_words (codes "buildg" ∷ w ∷ ws)) ctx h l k)
  ]
