-- ===== src/Session/Image/Unpaused.antt =====
-- The debugger image.
use buildg.Prelude.{
  ◌⊎◌, inl, inr, Bool-cases, ℕ, ◌≡◌, refl, ap, ◌∙◌, Bool, true, false, [], Option, none, some, ◌==◌,
}
use buildg.Text.{Text, codes, text_eq, text_beq_iff}
use buildg.Dict.{Dict, lookup-insert, HasUniqueKeys, insert-HasUniqueKeys}
use buildg.Errors.{Error, Result, ok, err}
use buildg.Client.Debug.{Attempt, waited, of_build}
use buildg.Controller.Sources.{Source}
use buildg.Controller.Loop.{controller_handle, loop, End, State}
use buildg.Controller.Worker.{resolve_op, plain}
use buildg.Controller.Reports.{resolve_op-plain_iff}
use buildg.Shell.Commands.{Console}
use buildg.Main.Progress.{File}
use buildg.Handler.{Handler}
use buildg.Session.{
  Plan, Shell, attempt_of, SessionState, built, debug_build, new_handler, shell_handler,
}
use buildg.Session.Image.{
  put_all, or_made, set_image_option, not_debugged, ImageSolver, solve_image, plan_with,
  build_with_image,
}

set_image_option-plain :
    (description : Option (Dict Text Text)) (op : ℕ)
    → HasUniqueKeys (or_made description)
    → resolve_op (set_image_option not_debugged description) (ok op) ≡ ok (plain op)
unfolding set_image_option put_all
set_image_option-plain description op u =
    (resolve_op-plain_iff _ op
        (insert-HasUniqueKeys (codes "debug") (codes "no") (or_made description) u)).1
      (lookup-insert (codes "debug") (codes "debug") (codes "no") (or_made description))

module _ {T L : File} (K : Console) (read_log : Option L.Disk → Result Text) (deref : ℕ → Source)
    (I : ImageSolver) where
  failed-waits :
      (plan : Plan T L) (s : SessionState T L) (r : Result (Option ℕ)) (e : Error)
      → r ≡ err e
      → s.handling ≡ false
      → ((debug_build K read_log deref (plan_with I r plan) s).0 ≡ waited (some (of_build e)))
        × ((debug_build K read_log deref (plan_with I r plan) s).1.handling ≡ true)
  unfolding debug_build new_handler controller_handle loop
  failed-waits plan s (ok i) e q h = absurd (cc q)
  failed-waits plan s (err x) e q h =
      let handled : Bool → Bool × End × State (Shell T L) = λ b.
        controller_handle (shell_handler K read_log deref) deref b false [] (record {
          handler = record (new_handler (some s.breakpoints) true false) { image = none };
          world = s.shell;
          pauses = s.pauses;
        }) in
      (
        ap (λ b. attempt_of (handled b).1 (some x)) h ∙ ap (λ y. waited (some (of_build y))) (cc q),
        ap (λ b. (handled b).0) h,
      )

  module _ (image : Text) (plan : Plan T L) (s : SessionState T L) where
    abbrev marshaled : Result ℕ
    marshaled = I.marshal image (set_image_option not_debugged)

    abbrev build : Attempt × SessionState T L
    build = build_with_image I K read_log deref image plan s

    -- The handler of the build that the controller's loop has run has this reference as the debugger image.
    abbrev pub IsBuilt : Option ℕ → Type 0
    IsBuilt ref =
        (h : Handler) × (h.image ≡ ref)
        × (h.breakpoints ≡ s.breakpoints)
        × (h.stop_on_entry ≡ true)
        × (build
            ≡ built K read_log deref plan s (
                controller_handle (shell_handler K read_log deref) deref s.handling false
                  (plan.events s) (record { handler = h; world = s.shell; pauses = s.pauses })))

    abbrev with_image : Option ℕ → Handler
    with_image ref = record (new_handler (some s.breakpoints) true false) { image = ref }

    abbrev pub HasFailed : Error → Type 0
    HasFailed e = (build.0 ≡ waited (some (of_build e))) × (build.1.handling ≡ true)

    -- what solving the image gives, and the build after it
    abbrev pub AfterImage : Type 0
    AfterImage =
        ((image ≡ []) × IsBuilt none)
        ⊎ (((d : ℕ) × (ref : ℕ) × (marshaled ≡ ok d) × (I.solve d ≡ ok ref) × IsBuilt (some ref))
            ⊎ ((e : Error) × ((marshaled ≡ err e)
                  ⊎ ((d : ℕ) × (marshaled ≡ ok d) × (I.solve d ≡ err e)))
                × HasFailed e))

    image_solved :
        (image == []) ≡ false
        → (d : ℕ) → marshaled ≡ ok d
        → (r : Result ℕ) → I.solve d ≡ r
        → s.handling ≡ false
        → AfterImage
    unfolding build_with_image solve_image debug_build new_handler
    image_solved n d m (ok ref) q h =
        inr (inl (d, ref, m, q, (with_image (some ref), refl, refl, refl, rw (n, m, q) refl)))
    image_solved n d m (err e) q h =
        inr (
          inr (e, inr (d, m, q), failed-waits plan s (solve_image I image) e (rw (n, m, q) refl) h))

    image_marshaled :
        (image == []) ≡ false → (r : Result ℕ) → marshaled ≡ r → s.handling ≡ false → AfterImage
    unfolding build_with_image solve_image
    image_marshaled n (ok d) q h = image_solved n d q (I.solve d) refl h
    image_marshaled n (err e) q h =
        inr (inr (e, inl q, failed-waits plan s (solve_image I image) e (rw (n, q) refl) h))

  -- Whatever the descriptions of the vertices of the debugger image, the worker resolves their operations unwrapped. When
  -- there is no name of an image, the handler with which the controller's loop runs has no debugger image; when its definition
  -- is marshaled and solved, that handler has the reference that the client gave; either way it has the breakpoints of the
  -- session and is to stop on entry. And when one of the two fails, and the controller's loop does not run, the
  -- build ends with that error before it begins, and the loop is marked as running.
  pub build_with_image_lem :
      (image : Text) (plan : Plan T L) (s : SessionState T L)
      → s.handling ≡ false
      → ((description : Option (Dict Text Text)) (op : ℕ)
          → HasUniqueKeys (or_made description)
          → resolve_op (set_image_option not_debugged description) (ok op) ≡ ok (plain op))
        × AfterImage image plan s
  unfolding build_with_image solve_image debug_build new_handler
  build_with_image_lem image plan s h = (
    set_image_option-plain,
    elim (Bool-cases (image == [])) [
      | inl e ↦
          inl (
            (text_beq_iff image []).0 e,
            (with_image image plan s none, refl, refl, refl, rw e refl),
          )
      | inr n ↦ image_marshaled image plan s n _ refl h
    ],
  )
