-- ===== src/Dap/Exec/Cleaned.antt =====
-- What the command exec of an evaluation leaves.
use buildg.Prelude.{
  ℕ, ◌≡◌, refl, ap, sym, ◌∙◌, Bool, true, false, not, ◌&&◌, ◌||◌, List, [], ◌∷◌, ◌++◌, Option, none,
  some, ◌⊎◌, inl, inr, map, if◌then◌else◌, append_assoc, append-nil,
}
use buildg.Text.{Text}
use buildg.Errors.{Error, Result, ok, err}
use buildg.Types.{OpKind, exec_op, other_op, RegisteredStatus}
use buildg.Handler.{Handler}
use buildg.Container.{Effect, exec_container}
use buildg.Container.Cleanups.{undo, undo_all, IsClean, ids, HasIds, exec_container-IsClean}
use buildg.Shell.Exec.{ExecFlags}
use buildg.Dap.Io.{
  OpenFifo, open_file, close_file, Files, open_fifos_server, ServeStep, file, Served, served,
  serve_container_io,
}
use buildg.Dap.Io.Opened.{server_fifos, open_each, Opened, open_fifos-Opened}
use buildg.Dap.Exec.{
  Host, Step, make_root, remove_root, serve_io, io_done, serve_failed, container, Run, fails,
  starts, experimental_note, exec_cfg, cleanups_of, ran, with_executable, with_io, with_root,
  exec_in_container,
}

-- the files that were opened, closed, the last one first
abbrev pub close_opened : List ServeStep → List ServeStep
close_opened [] = []
close_opened (file (open_file f) ∷ ss) = close_opened ss ++ file (close_file f) ∷ []
close_opened (_ ∷ ss) = close_opened ss

-- What undoes a step, and steps, the last one first. A serveContainerIO that has failed is undone by closing what it opened.
abbrev pub undo_step : Step → List Step
undo_step (make_root root) = remove_root root ∷ []
undo_step (serve_io io) = io_done io ∷ []
undo_step (serve_failed steps) = serve_failed (close_opened steps) ∷ []
undo_step (container e) = map container (undo e)
undo_step _ = []

unfoldable pub undo_steps : List Step → List Step
undo_steps [] = []
undo_steps (s ∷ ss) = undo_steps ss ++ undo_step s

-- The opening of a FIFO failed: the temporary directory is removed, and the FIFOs that were opened before it stay open.
abbrev pub LeavesOpen : OpenFifo → List Step → Type 0
LeavesOpen open_fifo done =
    (root : Text) × (files : List ℕ) × (name : Text) × (x : Error) × (open_each open_fifo root
        server_fifos
      ≡ (files, some (name, x)))
    × (done
        ≡ make_root root
          ∷ serve_failed (map ServeStep.file (map open_file files))
          ∷ remove_root root
          ∷ [])

abbrev pub IsCleaned : OpenFifo → Run → Type 0
IsCleaned open_fifo (fails e done) =
    ((acquired : List Step) × (done ≡ acquired ++ undo_steps acquired)) ⊎ LeavesOpen open_fifo done
IsCleaned open_fifo (starts args cwd done cleanups) = cleanups ≡ undo_steps done

map-append : (es fs : List Effect) → map container (es ++ fs) ≡ map container es ++ map container fs
map-append [] fs = refl
map-append (e ∷ es) fs = ap (λ l. container e ∷ l) (map-append es fs)

undo_steps-map : (es : List Effect) → undo_steps (map container es) ≡ map container (undo_all es)
unfolding undo_steps undo_all
undo_steps-map [] = refl
undo_steps-map (e ∷ es) =
    ap (λ l. l ++ map container (undo e)) (undo_steps-map es)
    ∙ sym (map-append (undo_all es) (undo e))

undo_steps-noted :
    (root : Text) (io : Served) (k : OpKind) (ss : List Step)
    → undo_steps (make_root root ∷ serve_io io ∷ (experimental_note k ++ ss))
      ≡ undo_steps ss ++ (io_done io ∷ remove_root root ∷ [])
unfolding undo_steps
undo_steps-noted root io (exec_op e) ss =
    append_assoc (undo_steps ss) (io_done io ∷ []) (remove_root root ∷ [])
undo_steps-noted root io other_op ss =
    ap (λ l. l ++ io_done io ∷ [] ++ remove_root root ∷ []) (append-nil (undo_steps ss))
    ∙ append_assoc (undo_steps ss) (io_done io ∷ []) (remove_root root ∷ [])

-- the cleanups of a container that has done these effects
undo_steps-effects :
    (root : Text) (io : Served) (k : OpKind) (effects : List Effect)
    → undo_steps (make_root root ∷ serve_io io ∷ (experimental_note k ++ map container effects))
      ≡ map container (undo_all effects) ++ (io_done io ∷ remove_root root ∷ [])
undo_steps-effects root io k effects =
    undo_steps-noted root io k (map container effects)
    ∙ ap (λ l. l ++ (io_done io ∷ remove_root root ∷ [])) (undo_steps-map effects)

module _ (H : Host) (f : ExecFlags) (info : RegisteredStatus) (h : Handler) (program : Text) where
  abbrev IsCleanedRun : Option Run → Type 0
  IsCleanedRun o = (r : Run) × (o ≡ some r) × IsCleaned H.open_fifo r

  ran-IsCleaned :
      (root self : Text) (io : Served) (k : OpKind) (o : Result (ℕ × List Effect) × List Effect)
      → IsClean o
      → IsCleanedRun (
          ran H f info h program root self io
            (make_root root ∷ serve_io io ∷ experimental_note k)
            (some o))
  ran-IsCleaned root self io k (err e, effects) (acquired, q) = (
    _,
    refl,
    inl (
      make_root root ∷ serve_io io ∷ (experimental_note k ++ map container acquired),
      rw (q, map-append, undo_steps-effects, append_assoc)
          (ap (λ l. make_root root ∷ serve_io io ∷ l)
            (sym (
              append_assoc (experimental_note k) (map container acquired)
                (map container (undo_all acquired) ++ cleanups_of H f info h program root io)))),
    ),
  )
  ran-IsCleaned root self io k (ok (proc, cleanups), effects) c = (
    _,
    refl,
    ap (λ l. map container l ++ cleanups_of H f info h program root io) c
        ∙ sym (undo_steps-effects root io k effects),
  )

  executable-IsCleaned :
      (root : Text) (io : Served) (r : Result Text) (o : Result (ℕ × List Effect) × List Effect)
      → IsClean o
      → exec_container H.gateway (exec_cfg H.streams f info h) ≡ some o
      → IsCleanedRun (with_executable H f info h program root io r)
  unfolding undo_steps
  executable-IsCleaned root io (err e) o c q =
      (_, refl, inl (make_root root ∷ serve_io io ∷ [], refl))
  executable-IsCleaned root io (ok self) o c q = rw q (ran-IsCleaned root self io info.op.kind o c)

  io-IsCleaned :
      (root : Text) (x : List ℕ × Option (Text × Error)) (F : Files)
      (o : Result (ℕ × List Effect) × List Effect)
      → open_each H.open_fifo root server_fifos ≡ x
      → Opened x F
      → IsClean o
      → exec_container H.gateway (exec_cfg H.streams f info h) ≡ some o
      → IsCleanedRun (with_io H f info h program root (served root F))
  io-IsCleaned root (files, none) (r, steps) o q (i, p, e, _, a, _) c w =
      rw a (executable-IsCleaned root _ H.executable o c w)
  io-IsCleaned root (files, some (name, x)) (r, steps) o q (a, b) c w =
      rw (a, b) (_, refl, inr (root, files, name, x, q, refl))

  root-IsCleaned :
      (m : Result Text) (o : Result (ℕ × List Effect) × List Effect)
      → IsClean o
      → exec_container H.gateway (exec_cfg H.streams f info h) ≡ some o
      → IsCleanedRun (with_root H f info h program m)
  unfolding undo_steps serve_container_io
  root-IsCleaned (err e) o c q = (_, refl, inl ([], refl))
  root-IsCleaned (ok root) o c q =
      io-IsCleaned root _ (open_fifos_server H.open_fifo root) o refl
        (open_fifos-Opened H.open_fifo root).1 c q

  if-IsCleaned :
      (b : Bool) (x y : Option Run)
      → IsCleanedRun x
      → IsCleanedRun y
      → IsCleanedRun (if b then x else y)
  if-IsCleaned true x y a b = a
  if-IsCleaned false x y a b = b

  pub exec_in_container-IsCleaned :
      (let cfg = exec_cfg H.streams f info h in
        HasIds H.gateway cfg info.op.kind (ids H.gateway cfg))
      → (r : Run) × (exec_in_container H f info h program ≡ some r) × IsCleaned H.open_fifo r
  unfolding exec_in_container undo_steps
  exec_in_container-IsCleaned i =
      let (o, q, c) = exec_container-IsClean H.gateway (exec_cfg H.streams f info h) i in
      if-IsCleaned (f.stdin && not f.tty || not f.stdin && f.tty) _ _ (_, refl, inl ([], refl))
        (root-IsCleaned H.mkdir_temp o c q)
