-- ===== src/Container/Cleanups.antt =====
-- What is done for a container is undone.
use buildg.Prelude.{
  ℕ, ◌≤◌, ◌≡◌, refl, ap, sym, ◌∙◌, Bool, true, false, not, ◌&&◌, List, [], ◌∷◌, ◌++◌, Option, none,
  some, append_assoc, append-nil, length, arith, zero, suc, inl, inr, Bool-cases, get_elem?,
  if◌then◌else◌,
}
use buildg.Text.{Text}
use buildg.Errors.{Error, Result, ok, err}
use buildg.Types.{Mount, OpKind, exec_op, other_op}
use buildg.Container.{
  Gateway, ContainerConfig, ContainerMount, Setup, Effect, create, release, start, set_raw, reset,
  watch, cancel_watch, StartRequest, watch_signal, fail, raw, started_process, created, run_setup,
  setup_of, exec_setup, exec_container, mounts_of, mounted,
}

-- what undoes an effect
abbrev pub undo : Effect → List Effect
undo (create r) = release ∷ []
undo set_raw = reset ∷ []
undo watch = cancel_watch ∷ []
undo _ = []

-- the effects undone, the last one first
unfoldable pub undo_all : List Effect → List Effect
undo_all [] = []
undo_all (e ∷ es) = undo_all es ++ undo e

undo_all-snoc : (es : List Effect) (e : Effect) → undo_all (es ++ e ∷ []) ≡ undo e ++ undo_all es
unfolding undo_all
undo_all-snoc [] e = sym (append-nil (undo e))
undo_all-snoc (d ∷ es) e =
    ap (λ (l : List Effect). l ++ undo d) (undo_all-snoc es e)
    ∙ append_assoc (undo e) (undo_all es) (undo d)

-- A process comes with cleanups that undo all that was done; before an error all of it was undone.
abbrev pub IsClean : Result (ℕ × List Effect) × List Effect → Type 0
IsClean (ok (proc, cleanups), done) = cleanups ≡ undo_all done
IsClean (err e, done) = (acquired : List Effect) × (done ≡ acquired ++ undo_all acquired)

head_or_later :
    (k : ℕ) (m m' : Mount) (i i' : Text) (ms : List Mount) (l : List Text)
    (out : List ContainerMount)
    → get_elem? (m ∷ ms) k ≡ some m'
    → get_elem? (i ∷ l) k ≡ some i'
    → ((k' : ℕ)
        → get_elem? ms k' ≡ some m'
        → get_elem? l k' ≡ some i'
        → get_elem? out k' ≡ some (mounted m' i'))
    → get_elem? (mounted m i ∷ out) k ≡ some (mounted m' i')
head_or_later zero m m' i i' ms l out f g at = cc (f, g)
head_or_later (suc k) m m' i i' ms l out f g at = at k f g

-- When there is an id for each mount, the container is asked for one mount for each, in their order, with the fields of
-- the mount and its id.
pub mounts_of_lem :
    (ms : List Mount) (l : List Text)
    → length ms ≤ length l
    → (out : List ContainerMount) × (mounts_of ms l ≡ some out)
      × (length out ≡ length ms)
      × ((k : ℕ) (m : Mount) (i : Text)
          → get_elem? ms k ≡ some m
          → get_elem? l k ≡ some i
          → get_elem? out k ≡ some (mounted m i))
unfolding mounts_of
mounts_of_lem [] l h = ([], refl, refl, λ k m i e f. cc e)
mounts_of_lem (m ∷ ms) [] h = absurd (omega (arith, h))
mounts_of_lem (m ∷ ms) (i ∷ l) h =
    let (out, e, n, at) = mounts_of_lem ms l (omega (arith, h)) in
    (
      mounted m i ∷ out,
      rw e refl,
      ap suc n,
      λ k m' i' f g. head_or_later k m m' i i' ms l out f g (λ k' f' g'. at k' m' i' f' g'),
    )

module _ (G : Gateway) (cfg : ContainerConfig) where
  fail-IsClean :
      (e : Error) (cs done : List Effect) → cs ≡ undo_all done → IsClean (fail G e cs done)
  fail-IsClean e cs done h = (done, ap (λ (l : List Effect). done ++ l) h)

  watch_signal-IsClean :
      (b : Bool) (proc : ℕ) (cs done : List Effect)
      → cs ≡ undo_all done
      → IsClean (watch_signal G b proc cs done)
  watch_signal-IsClean false proc cs done h = h
  watch_signal-IsClean true proc cs done h =
      ap (λ (l : List Effect). cancel_watch ∷ l) h ∙ sym (undo_all-snoc done watch)

  raw-IsClean :
      (proc : ℕ) (o : Option Error) (cs done : List Effect)
      → cs ≡ undo_all done
      → IsClean (raw G cfg proc o cs done)
  raw-IsClean proc (some e) cs done h = fail-IsClean e cs done h
  raw-IsClean proc none cs done h =
      watch_signal-IsClean cfg.watches proc (reset ∷ cs) (done ++ set_raw ∷ [])
        (ap (λ (l : List Effect). reset ∷ l) h ∙ sym (undo_all-snoc done set_raw))

  started_process-IsClean :
      (r : Result ℕ) (cs done : List Effect) (req : StartRequest)
      → cs ≡ undo_all done
      → IsClean (started_process G cfg r cs done req)
  started_process-IsClean (err e) cs done req h = fail-IsClean e cs done h
  started_process-IsClean (ok proc) cs done req h =
      let h' : cs ≡ undo_all (done ++ start req ∷ []) = h ∙ sym (undo_all-snoc done (start req)) in
      elim (Bool-cases (cfg.tty && not cfg.no_set_raw)) [
        | inl b ↦ rw b (raw-IsClean proc G.raw_failure cs (done ++ start req ∷ []) h')
        | inr b ↦ rw b (watch_signal-IsClean cfg.watches proc cs (done ++ start req ∷ []) h')
      ]

  created-IsClean : (s : Setup) (o : Option Error) → IsClean (created G cfg s o)
  unfolding undo_all
  created-IsClean s (some e) = ([], refl)
  created-IsClean s none = started_process-IsClean _ (release ∷ []) _ _ refl

  run_setup-IsClean : (r : Result Setup) → IsClean (run_setup G cfg r)
  unfolding undo_all
  run_setup-IsClean (err e) = ([], refl)
  run_setup-IsClean (ok s) = created-IsClean s _

  -- the ids of the mounts that the container is asked for
  abbrev pub ids : List Text
  ids = if cfg.input_mount then cfg.info.input_ids else cfg.info.mount_ids

  -- a RUN instruction has an id for each mount
  abbrev pub HasIds : OpKind → List Text → Type 0
  HasIds (exec_op e) l = length e.mounts ≤ length l
  HasIds other_op l = Unit

  setup_of-some :
      (k : OpKind) (l : List Text) → HasIds k l → (r : Result Setup) × (setup_of G k l cfg ≡ some r)
  setup_of-some (exec_op e) l h =
      let (out, q, n, at) = mounts_of_lem e.mounts l h in (ok (exec_setup G e cfg out), rw q refl)
  setup_of-some other_op [] h = (_, refl)
  setup_of-some other_op (i ∷ []) h = (_, refl)
  setup_of-some other_op (i ∷ j ∷ l) h = (_, refl)

  -- When a RUN instruction has an id for each mount, ExecContainer does not panic. It returns a process, with cleanups
  -- that undo all that was done, the last first; or an error, and then it has undone all that it did, the
  -- last first. Other operations need no ids for this.
  pub exec_container-IsClean :
      HasIds cfg.info.op.kind ids
      → (o : Result (ℕ × List Effect) × List Effect) × (exec_container G cfg ≡ some o) × IsClean o
  unfolding exec_container
  exec_container-IsClean h =
      let (r, e) = setup_of-some cfg.info.op.kind ids h in
      (run_setup G cfg r, rw e refl, run_setup-IsClean r)
