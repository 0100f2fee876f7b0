-- ===== src/Shell/Interrupts/Passed.antt =====
-- An interrupt while exec runs does not end the build.
use buildg.Prelude.{
  ℕ, ◌≡◌, refl, sym, ap, subst, ◌∙◌, Bool, true, false, List, [], ◌∷◌, ◌++◌, Option, none, some,
  map, if◌then◌else◌,
}
use buildg.Errors.{Error, Result}
use buildg.Container.{Effect, create, release, start, set_raw, reset, watch, cancel_watch}
use buildg.Shell.Exec.{
  ExecStep, use_stdin, done_stdin, disable_signals, enable_signals, container, around,
}
use buildg.Shell.Interrupts.{
  Signal, winch, interrupt, terminate, Interrupts, Moment, step, caught, cancels, kills,
  exec_moment, live_moment, moment, moments,
}

-- the steps of exec among the moments
abbrev pub steps_of : List Moment → List ExecStep
steps_of [] = []
steps_of (step s ∷ ms) = s ∷ steps_of ms
steps_of (caught s ∷ ms) = steps_of ms

cancels-false : (s : Signal) (b : Bool) → cancels false s b ≡ b
cancels-false winch b = refl
cancels-false interrupt b = refl
cancels-false terminate b = refl

steps_of-append : (ms ns : List Moment) → steps_of (ms ++ ns) ≡ steps_of ms ++ steps_of ns
steps_of-append [] ns = refl
steps_of-append (step s ∷ ms) ns = ap (λ l. s ∷ l) (steps_of-append ms ns)
steps_of-append (caught s ∷ ms) ns = steps_of-append ms ns

cons-injective : (s t : ExecStep) (l m : List ExecStep) → s ∷ l ≡ t ∷ m → (s ≡ t) × (l ≡ m)
cons-injective s t l m e = (cc e, cc e)

abbrev pub is_watched : Option ℕ → Bool
is_watched none = false
is_watched (some p) = true

-- Whether a process is watched after a step of exec.
abbrev pub watched_after : ExecStep → Bool → Bool
watched_after (container watch) b = true
watched_after (container cancel_watch) b = false
watched_after _ b = b

-- Some SIGTERM is taken while no process is watched.
abbrev pub has_unwatched_term : List Moment → Bool → Bool
has_unwatched_term [] b = false
has_unwatched_term (step s ∷ ms) b = has_unwatched_term ms (watched_after s b)
has_unwatched_term (caught terminate ∷ ms) false = true
has_unwatched_term (caught _ ∷ ms) b = has_unwatched_term ms b

module _ (con : Option (Result (ℕ × ℕ))) (proc : ℕ) where
  moments-append :
      (ms ns : List Moment) (i : Interrupts)
      → moments con proc (ms ++ ns) i ≡ moments con proc ns (moments con proc ms i)
  unfolding moments
  moments-append [] ns i = refl
  moments-append (m ∷ ms) ns i = moments-append ms ns (moment con proc m i)

  -- An effect leaves the handler as it is.
  effect_same :
      (e : Effect) (i : Interrupts)
      → ((exec_moment con proc (container e) i).enabled ≡ i.enabled)
        × ((exec_moment con proc (container e) i).canceled ≡ i.canceled)
  effect_same (create r) i = (refl, refl)
  effect_same release i = (refl, refl)
  effect_same (start r) i = (refl, refl)
  effect_same set_raw i = (refl, refl)
  effect_same reset i = (refl, refl)
  effect_same watch i = (refl, refl)
  effect_same cancel_watch i = (refl, refl)

  disabled_step :
      (m : Moment) (ms : List Moment) (e : List Effect) (i : Interrupts)
      → steps_of (m ∷ ms) ≡ map container e
      → i.enabled ≡ false
      → ((live_moment con proc m i).enabled ≡ false)
        × ((live_moment con proc m i).canceled ≡ i.canceled)
        × ((fs : List Effect) × (steps_of ms ≡ map container fs))
  disabled_step (caught s) ms es i e d =
      (d, ap (λ x. cancels x s i.canceled) d ∙ cancels-false s i.canceled, (es, e))
  disabled_step (step s) ms [] i e d = absurd (cc e)
  disabled_step (step s) ms (x ∷ es) i e d =
      let (h, t) = cons-injective s (container x) (steps_of ms) (map container es) e in
      let (a, b) =
        subst
          (λ y.
            ((exec_moment con proc y i).enabled ≡ i.enabled)
            × ((exec_moment con proc y i).canceled ≡ i.canceled))
          (sym h) (effect_same x i) in
      (a ∙ d, b, (es, t))

  disabled_moment :
      (m : Moment) (i : Interrupts) (j : Interrupts)
      → (j.enabled ≡ false) × (j.canceled ≡ i.canceled)
      → i.enabled ≡ false
      → (k : Bool) → i.killed ≡ k
      → let r = if k then i else j in (r.enabled ≡ false) × (r.canceled ≡ i.canceled)
  disabled_moment m i j h d true q = (d, refl)
  disabled_moment m i j h d false q = h

  disabled_same :
      (ms : List Moment) (es : List Effect) (i : Interrupts)
      → steps_of ms ≡ map container es
      → i.enabled ≡ false
      → ((moments con proc ms i).enabled ≡ false) × ((moments con proc ms i).canceled ≡ i.canceled)
  unfolding moments
  disabled_same [] es i e d = (d, refl)
  disabled_same (m ∷ ms) es i e d =
      let (a, b, (fs, t)) = disabled_step m ms es i e d in
      let (p, q) = disabled_moment m i (live_moment con proc m i) (a, b) d i.killed refl in
      let (x, y) = disabled_same ms fs (moment con proc m i) t p in (x, y ∙ q)

  -- A step of exec ends no process; a watcher stays until it is cancelled.
  step_watched :
      (s : ExecStep) (i : Interrupts)
      → ((exec_moment con proc s i).killed ≡ i.killed)
        × (is_watched (exec_moment con proc s i).watched ≡ watched_after s (is_watched i.watched))
  step_watched use_stdin i = (refl, refl)
  step_watched done_stdin i = (refl, refl)
  step_watched disable_signals i = (refl, refl)
  step_watched enable_signals i = (refl, refl)
  step_watched (container (create r)) i = (refl, refl)
  step_watched (container release) i = (refl, refl)
  step_watched (container (start r)) i = (refl, refl)
  step_watched (container set_raw) i = (refl, refl)
  step_watched (container reset) i = (refl, refl)
  step_watched (container watch) i = (refl, refl)
  step_watched (container cancel_watch) i = (refl, refl)

  killed_stays : (ms : List Moment) (i : Interrupts) → i.killed ≡ true → moments con proc ms i ≡ i
  unfolding moments
  killed_stays [] i k = refl
  killed_stays (m ∷ ms) i k =
      ap (λ x. moments con proc ms (if x then i else live_moment con proc m i)) k
      ∙ killed_stays ms i k

  moment-live :
      (m : Moment) (i : Interrupts)
      → i.killed ≡ false
      → moment con proc m i ≡ live_moment con proc m i
  moment-live m i k = ap (λ x. if x then i else live_moment con proc m i) k

  moments-live :
      (m : Moment) (ms : List Moment) (i : Interrupts)
      → i.killed ≡ false
      → moments con proc (m ∷ ms) i ≡ moments con proc ms (live_moment con proc m i)
  unfolding moments
  moments-live m ms i k = ap (moments con proc ms) (moment-live m i k)

  caught_killed :
      (s : Signal) (ms : List Moment) (w : Option ℕ) (j : Interrupts)
      → j.watched ≡ w
      → j.killed ≡ kills w s
      → (j.killed ≡ false
          → (moments con proc ms j).killed ≡ has_unwatched_term ms (is_watched j.watched))
      → (moments con proc ms j).killed ≡ has_unwatched_term (caught s ∷ ms) (is_watched w)
  caught_killed terminate ms none j e k ih = ap (λ r. r.killed) (killed_stays ms j k) ∙ k
  caught_killed terminate ms (some p) j e k ih =
      ih k ∙ ap (λ x. has_unwatched_term ms (is_watched x)) e
  caught_killed winch ms none j e k ih = ih k ∙ ap (λ x. has_unwatched_term ms (is_watched x)) e
  caught_killed winch ms (some p) j e k ih = ih k ∙ ap (λ x. has_unwatched_term ms (is_watched x)) e
  caught_killed interrupt ms none j e k ih = ih k ∙ ap (λ x. has_unwatched_term ms (is_watched x)) e
  caught_killed interrupt ms (some p) j e k ih =
      ih k ∙ ap (λ x. has_unwatched_term ms (is_watched x)) e

  moments-killed :
      (ms : List Moment) (i : Interrupts)
      → i.killed ≡ false
      → (moments con proc ms i).killed ≡ has_unwatched_term ms (is_watched i.watched)
  unfolding moments
  moments-killed [] i k = k
  moments-killed (step s ∷ ms) i k =
      let (a, b) = step_watched s i in
      ap (λ r. r.killed) (moments-live (step s) ms i k)
      ∙ moments-killed ms (exec_moment con proc s i) (a ∙ k)
      ∙ ap (has_unwatched_term ms) b
  moments-killed (caught s ∷ ms) i k =
      let j : Interrupts = live_moment con proc (caught s) i in
      ap (λ r. r.killed) (moments-live (caught s) ms i k)
      ∙ caught_killed s ms i.watched j refl refl (moments-killed ms j)

  -- the two last steps
  abbrev ending : List Moment
  ending = step enable_signals ∷ step done_stdin ∷ []

  ending_lem :
      (m : Interrupts) (k : Bool)
      → m.killed ≡ k
      → let r = moments con proc ending m in
        (r.canceled ≡ m.canceled)
        × (r.killed ≡ k)
        × (k ≡ false → (moment con proc (caught interrupt) r).canceled ≡ true)
  unfolding moments
  ending_lem m true q =
      let h = killed_stays ending m q in
      (ap (λ r. r.canceled) h, ap (λ r. r.killed) h ∙ q, λ n. absurd (cc n))
  ending_lem m false q =
      let on : Interrupts = record m { enabled = true } in
      let h =
        moments-live (step enable_signals) (step done_stdin ∷ []) m q
        ∙ moments-live (step done_stdin) [] on q in
      (
        ap (λ r. r.canceled) h,
        ap (λ r. r.killed) h ∙ q,
        λ n.
            ap (λ r. (moment con proc (caught interrupt) r).canceled) h
            ∙ ap (λ r. r.canceled) (moment-live (caught interrupt) on q),
      )

  -- Whatever signals are taken between the two steps of exec that turn the handler off and on, and whenever: they do not cancel
  -- the build. They end a process that runs just when one of them is SIGTERM and is taken while no process in the container is
  -- watched. When the process has not ended, the handler is on after exec, so that an interrupt that is taken then cancels
  -- the build.
  pub exec-interrupts :
      (o : Option Error × List Effect) (middle : List Moment) (i : Interrupts)
      → steps_of middle ≡ map container o.1
      → i.killed ≡ false
      → (let all =
            step use_stdin
            ∷ step disable_signals
            ∷ (middle ++ step enable_signals ∷ step done_stdin ∷ []) in
          let r = moments con proc all i in
          (steps_of all ≡ (around o).1)
          × (r.canceled ≡ i.canceled)
          × (r.killed ≡ has_unwatched_term middle (is_watched i.watched))
          × (r.killed ≡ false → (moment con proc (caught interrupt) r).canceled ≡ true))
  unfolding moments
  exec-interrupts o middle i e k =
      let off : Interrupts = record i { enabled = false } in
      let mid : Interrupts = moments con proc middle off in
      let (a, b) = disabled_same middle o.1 off e refl in
      let (c, d, f) = ending_lem mid mid.killed refl in
      let begin =
        moments-live (step use_stdin) (step disable_signals ∷ (middle ++ ending)) i k
        ∙ moments-live (step disable_signals) (middle ++ ending) i k
        ∙ moments-append middle ending off in
      (
        ap (λ l. use_stdin ∷ disable_signals ∷ l)
            (steps_of-append middle _ ∙ ap (λ l. l ++ enable_signals ∷ done_stdin ∷ []) e),
        ap (λ r. r.canceled) begin ∙ c ∙ b,
        ap (λ r. r.killed) begin ∙ d ∙ moments-killed middle off k,
        λ n.
            ap (λ r. (moment con proc (caught interrupt) r).canceled) begin
            ∙ f (sym d ∙ sym (ap (λ r. r.killed) begin) ∙ n),
      )
