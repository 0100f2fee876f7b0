-- ===== src/Session/Image.antt =====
-- pkg/buildkit/handler.go: withDebug solves the debugger image before the build, with vertices that are marked not to be debugged.
pub mod Unpaused
use buildg.Prelude.{ℕ, List, [], ◌∷◌, Option, none, some, if◌then◌else◌, ◌==◌}
use buildg.Text.{Text, codes, text_eq}
use buildg.Dict.{Dict, insert}
use buildg.Errors.{Error, Result, ok, err, ◌>>=◌}
use buildg.Client.Debug.{Attempt}
use buildg.Controller.Sources.{Source}
use buildg.Shell.Commands.{Console}
use buildg.Main.Progress.{File}
use buildg.Session.{Plan, SessionState, debug_build}

-- The loop of SetImageOption over the map of withDescriptor.
unfoldable pub put_all : Dict Text Text → Dict Text Text → Dict Text Text
put_all [] description = description
put_all ((k, v) ∷ rest) description = put_all rest (insert k v description)

abbrev pub or_made : Option (Dict Text Text) → Dict Text Text
or_made none = []
or_made (some d) = d

-- withDescriptor.SetImageOption, on the description of a vertex, which may be nil
unfoldable pub set_image_option : Dict Text Text → Option (Dict Text Text) → Dict Text Text
unfolding put_all
set_image_option o description = put_all o (or_made description)

abbrev pub not_debugged : Dict Text Text
not_debugged = (codes "debug", codes "no") ∷ []

-- llb.Image with an option and Marshal, and the client's Solve, which gives a reference
pub record ImageSolver : Type 0 where
  pub marshal : Text → (Option (Dict Text Text) → Dict Text Text) → Result ℕ
  pub solve : ℕ → Result ℕ

module _ (I : ImageSolver) where
  abbrev pub solved : Text → Result (Option ℕ)
  solved image = do
    definition ← I.marshal image (set_image_option not_debugged)
    ref ← I.solve definition
    ok (some ref)

  unfoldable pub solve_image : Text → Result (Option ℕ)
  unfolding set_image_option
  solve_image image = if image == [] then ok none else solved image

  module _ {T L : File} where
    -- Without its image the build does not begin.
    abbrev pub plan_with : Result (Option ℕ) → Plan T L → Plan T L
    plan_with (err e) plan = record plan { events = λ s. []; result = λ s. some e; image = none }
    plan_with (ok image) plan = record plan { image = image }

    unfoldable pub build_with_image :
        Console
        → (Option L.Disk → Result Text)
        → (ℕ → Source)
        → Text
        → Plan T L
        → SessionState T L
        → Attempt × SessionState T L
    unfolding solve_image debug_build
    build_with_image K read_log deref image plan s =
        debug_build K read_log deref (plan_with (solve_image image) plan) s
