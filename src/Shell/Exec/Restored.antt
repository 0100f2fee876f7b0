-- ===== src/Shell/Exec/Restored.antt =====
-- What exec has changed when it returns.
use buildg.Prelude.{
  ℕ, ◌≡◌, ◌≢◌, refl, ap, ◌∙◌, ◌⊎◌, inl, inr, Bool, true, false, not, ◌&&◌, ◌||◌, List, [], ◌∷◌,
  ◌++◌, Option, some, map, if◌then◌else◌, arith,
}
use buildg.Errors.{Error, flags_not_together, Result, ok, err}
use buildg.Types.{RegisteredStatus}
use buildg.Handler.{Handler}
use buildg.Container.{Effect, exec_container}
use buildg.Container.Cleanups.{undo_all, IsClean, ids, HasIds, exec_container-IsClean}
use buildg.Shell.Exec.{
  ExecFlags, Waited, Terminal, use_stdin, done_stdin, disable_signals, enable_signals, container,
  exec_config, wait_error, run_process, exec_with, exec_command,
}

-- Of a container, what was done was undone after it, the last first.
abbrev pub IsUndone : List Effect → Type 0
IsUndone effects = (done : List Effect) × (effects ≡ done ++ undo_all done)

-- A process that has started is waited for, and then all that was done for it is undone.
abbrev pub Ran :
    Terminal → Result (ℕ × List Effect) × List Effect → Option Error → List Effect → Type 0
Ran T (err x, done) e effects = (e ≡ some x) × (effects ≡ done)
Ran T (ok (proc, cleanups), done) e effects =
    (e ≡ wait_error (T.wait proc)) × (effects ≡ done ++ undo_all done)

run_process-IsUndone :
    (wait : ℕ → Waited) (o : Result (ℕ × List Effect) × List Effect)
    → IsClean o
    → IsUndone (run_process wait o).1
run_process-IsUndone wait (err e, done) c = c
run_process-IsUndone wait (ok (proc, cleanups), done) c = (done, ap (λ l. done ++ l) c)

run_process-Ran :
    (T : Terminal) (o : Result (ℕ × List Effect) × List Effect)
    → IsClean o
    → Ran T o (run_process T.wait o).0 (run_process T.wait o).1
run_process-Ran T (err e, done) c = (refl, refl)
run_process-Ran T (ok (proc, cleanups), done) c = (refl, ap (λ l. done ++ l) c)

flags-cases :
    {A : Type 0} (i t : Bool) (a b : A)
    → ((i ≢ t) × ((if i && not t || not i && t then a else b) ≡ a))
      ⊎ ((i ≡ t) × ((if i && not t || not i && t then a else b) ≡ b))
flags-cases true true a b = inr (refl, refl)
flags-cases true false a b = inl (λ e. ground arith, refl)
flags-cases false true a b = inl (λ e. ground arith, refl)
flags-cases false false a b = inr (refl, refl)

-- When a RUN instruction has an id for each mount, exec does not panic. With only one of the flags -i and -t it fails
-- and does nothing. Otherwise it takes the standard input and turns the handling of signals off, runs ExecContainer,
-- waits for the process if one has started, undoes all that was done for the container, the last first, turns the
-- signals on again and gives the input back, whatever error it returns.
pub exec_command-Ran :
    (T : Terminal) (f : ExecFlags) (info : RegisteredStatus) (h : Handler)
    → (let cfg = exec_config T.streams f info h in
        HasIds T.gateway cfg info.op.kind (ids T.gateway cfg))
    → ((f.stdin ≢ f.tty) × (exec_command T f info h ≡ some (some flags_not_together, [])))
      ⊎ ((f.stdin ≡ f.tty)
          × (e : Option Error) × (effects : List Effect) × (exec_command T f info h
              ≡ some (
                e,
                use_stdin
                    ∷ disable_signals
                    ∷ (map container effects ++ enable_signals ∷ done_stdin ∷ []),
              ))
          × IsUndone effects
          × ((o : Result (ℕ × List Effect) × List Effect) × (exec_container T.gateway
                  (exec_config T.streams f info h)
                ≡ some o)
              × Ran T o e effects))
unfolding exec_command
exec_command-Ran T f info h i =
    let cfg = exec_config T.streams f info h in
    let (o, e, c) = exec_container-IsClean T.gateway cfg i in
    let run = exec_with T.wait (exec_container T.gateway cfg) in
    elim (flags-cases f.stdin f.tty (some (some flags_not_together, [])) run) [
      | inl (n, q) ↦ inl (n, q)
      | inr (n, q) ↦ inr (
        n,
        (run_process T.wait o).0,
        (run_process T.wait o).1,
        q ∙ ap (exec_with T.wait) e,
        run_process-IsUndone T.wait o c,
        (o, e, run_process-Ran T o c),
      )
    ]
