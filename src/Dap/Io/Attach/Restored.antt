-- ===== src/Dap/Io/Attach/Restored.antt =====
-- What AttachContainerIO leaves.
use buildg.Prelude.{
  ℕ, ◌≡◌, refl, ap, ◌↔◌, ◌⊎◌, inl, inr, Bool, true, false, List, [], ◌∷◌, Option, none, some, map,
  take, arith, if◌then◌else◌, ◌==◌, nat_eq, Bool-cases,
}
use buildg.Text.{Text, text_eq}
use buildg.Errors.{Error, io_timeout, ok}
use buildg.Dap.Io.{FileStep, open_file, close_file, Files, open_fifos_client}
use buildg.Dap.Io.Opened.{Opened, open_each, client_fifos, open_fifos-Opened}
use buildg.Dap.Io.Attach.{
  Terminal, AttachStep, file, set_raw, reset, print_finished, Attached, with_files, after_select,
  attach_container_io,
}

abbrev remove : ℕ → List ℕ → List ℕ
remove f [] = []
remove f (g ∷ gs) = if g == f then gs else g ∷ remove f gs

-- The open files, and whether the console is raw.
abbrev pub Held : Type 0
Held = List ℕ × Bool

abbrev pub held_after : AttachStep → Held → Held
held_after (file (open_file f)) (fs, raw) = (f ∷ fs, raw)
held_after (file (close_file f)) (fs, raw) = (remove f fs, raw)
held_after set_raw (fs, raw) = (fs, true)
held_after reset (fs, raw) = (fs, false)
held_after _ h = h

abbrev pub held : List AttachStep → Held → Held
held [] h = h
held (s ∷ steps) h = held steps (held_after s h)

abbrev pub says_finished : List AttachStep → Bool
says_finished [] = false
says_finished (print_finished ∷ steps) = true
says_finished (_ ∷ steps) = says_finished steps

-- All that it opened is closed unless a FIFO could not be opened or the time was out, the console is as it was, and it says
-- that the command has finished just when it returns no error.
abbrev pub Restores : Terminal → Text → Attached → Type 0
Restores T root (e, steps) =
    ((held steps ([], false)).1 ≡ false)
    × (((held steps ([], false)).0 ≡ [])
        ⊎ (((name : Text) × (x : Error) × ((open_each T.open_fifo root client_fifos).1
                ≡ some (name, x)))
            ⊎ ((n : ℕ) × (T.late ≡ some n) × (e ≡ some io_timeout))))
    × ((e ≡ none) ↔ (says_finished steps ≡ true))

remove-three : (i o f : ℕ) → remove f (remove o (remove i (f ∷ o ∷ i ∷ []))) ≡ []
remove-three i o f = ground arith

files-held :
    (steps : List FileStep) (gs : List ℕ)
    → ((held (map file steps) (gs, false)).1 ≡ false) × (says_finished (map file steps) ≡ false)
files-held [] gs = (refl, refl)
files-held (open_file f ∷ steps) gs = files-held steps (f ∷ gs)
files-held (close_file f ∷ steps) gs = files-held steps (remove f gs)

finished_iff : (◌≡◌ {A = Option Error} none none) ↔ (◌≡◌ {A = Bool} true true)
finished_iff = (λ h. refl, λ h. refl)

failed_iff : (e : Error) (b : Bool) → b ≡ false → (some e ≡ none) ↔ (b ≡ true)
failed_iff e b f = (λ h. absurd (cc h), λ h. absurd (cc (f, h)))

module _ (T : Terminal) (root : Text) where
  abbrev RestoresAll : Attached → Type 0
  RestoresAll a = Restores T root a

  joined-Restores :
      (b : Bool) (i o f : ℕ) (raw_failure copy_failure : Option Error)
      → T.raw_failure ≡ raw_failure
      → T.copy_failure ≡ copy_failure
      → RestoresAll (with_files T b (ok (i, o, f), open_file i ∷ open_file o ∷ open_file f ∷ []))
  joined-Restores false i o f r none p q = rw q (refl, inl (remove-three i o f), finished_iff)
  joined-Restores false i o f r (some e) p q =
      rw q (refl, inl (remove-three i o f), failed_iff e false refl)
  joined-Restores true i o f none none p q =
      rw (p, q) (refl, inl (remove-three i o f), finished_iff)
  joined-Restores true i o f none (some e) p q =
      rw (p, q) (refl, inl (remove-three i o f), failed_iff e false refl)
  joined-Restores true i o f (some e) c p q =
      rw p (refl, inl (remove-three i o f), failed_iff _ false refl)

  files-Restores :
      (b : Bool) (x : List ℕ × Option (Text × Error)) (F : Files)
      → open_each T.open_fifo root client_fifos ≡ x
      → Opened x F
      → RestoresAll (with_files T b F)
  files-Restores b (fs, none) (r, steps) q (i, o, f, l, e, d) =
      rw (e, d, l) (joined-Restores b i o f T.raw_failure T.copy_failure refl refl)
  files-Restores b (fs, some (name, x)) (r, steps) q (e, d) =
      let h = files-held (map open_file fs) [] in
      rw (e, d) (h.0, inr (inl (name, x, ap (λ y. y.1) q)), failed_iff _ _ h.1)

  select-Restores :
      (b : Bool) (late : Option ℕ) → T.late ≡ late → RestoresAll (after_select T root b late)
  select-Restores b (some n) q =
      let h = files-held (take n (open_fifos_client T.open_fifo root).1) [] in
      (h.0, inr (inr (n, q, refl)), failed_iff _ _ h.1)
  select-Restores b none q = files-Restores b _ _ refl (open_fifos-Opened T.open_fifo root).0

-- However AttachContainerIO returns, the console is no longer raw if it has made it so; all FIFOs that were opened are
-- closed, unless one of them could not be opened, or it returns the error of the timeout; and it says that the command has
-- finished exactly when it returns no error.
pub attach_container_io-Restores :
    (T : Terminal) (root : Text) (set_tty_raw : Bool)
    → Restores T root (attach_container_io T root set_tty_raw)
unfolding attach_container_io
attach_container_io-Restores T root b = elim (Bool-cases (root == [])) [
  | inl e ↦ rw e (refl, inl refl, failed_iff _ false refl)
  | inr e ↦ rw e (select-Restores T root b T.late refl)
]
