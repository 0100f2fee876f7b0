-- ===== src/Client/Debug/Ends.antt =====
-- Debug ends with the first build that asks for no reload.
use buildg.Prelude.{
  ℕ, zero, suc, ◌<◌, ◌≡◌, refl, ◌∙◌, Bool, true, false, Option, none, some, arith, if◌then◌else◌,
}
use buildg.Errors.{Error, is_exit, is_reload, ok}
use buildg.Client.Debug.{
  Attempt, no_printer, waited, failure_error, DebugConfig, answered, Builds, debug_after, debug,
  reported, debug_session,
}

abbrev pub asks_reload : Attempt → Bool
asks_reload (no_printer e) = false
asks_reload (waited none) = false
asks_reload (waited (some f)) = is_reload (failure_error f)

abbrev pub attempt_error : Attempt → Option Error
attempt_error (no_printer e) = some e
attempt_error (waited none) = none
attempt_error (waited (some f)) = some (failure_error f)

-- The error of Debug: an exit is none.
abbrev pub IsReportOf : Option Error → Option Error → Type 0
IsReportOf none r = r ≡ none
IsReportOf (some e) r = ((is_exit e ≡ true) → r ≡ none) × ((is_exit e ≡ false) → r ≡ some e)

module _ {C W : Type 0} (b : Builds C W) (c : C) where
  -- the state after some builds
  abbrev pub after : ℕ → W → W
  after zero w = w
  after (suc n) w = after n (b.build c w).1

  debug_after-stops :
      (a : Attempt × W) (again : W → Option (Option Error × W))
      → asks_reload a.0 ≡ false
      → debug_after b a again ≡ some (attempt_error a.0, a.1)
  debug_after-stops (no_printer e, w) again h = refl
  debug_after-stops (waited none, w) again h = refl
  debug_after-stops (waited (some f), w) again h = rw h refl

  debug_after-goes_on :
      (a : Attempt × W) (again : W → Option (Option Error × W))
      → asks_reload a.0 ≡ true
      → debug_after b a again ≡ again a.1
  debug_after-goes_on (no_printer e, w) again h = ground arith
  debug_after-goes_on (waited none, w) again h = ground arith
  debug_after-goes_on (waited (some f), w) again h = rw h refl

  debug-ends :
      (n fuel : ℕ) (w : W)
      → ((m : ℕ) → m < n → asks_reload (b.build c (after m w)).0 ≡ true)
      → asks_reload (b.build c (after n w)).0 ≡ false
      → n < fuel
      → debug b fuel c w ≡ some (attempt_error (b.build c (after n w)).0, after (suc n) w)
  unfolding debug
  debug-ends n zero w r s h = absurd (omega arith)
  debug-ends zero (suc fuel) w r s h = debug_after-stops (b.build c w) (debug b fuel c) s
  debug-ends (suc n) (suc fuel) w r s h =
      debug_after-goes_on (b.build c w) (debug b fuel c) (r 0 (omega arith))
      ∙ debug-ends n fuel (b.build c w).1 (λ m k. r (suc m) (omega arith)) s (omega arith)

  reported-IsReportOf : (o : Option Error) → IsReportOf o (reported o)
  reported-IsReportOf none = refl
  reported-IsReportOf (some e) = (λ h. rw h refl, λ h. rw h refl)

  -- With a breakpoint handler and a client, when the first n builds ask for a reload and the next one does not, n + 1
  -- rounds are enough, and Debug makes n + 1 builds: it returns the error of the last one, or none if that is an exit,
  -- after it has removed the cache, if it is to, and closed the client.
  pub debug_session-ends :
      (cfg : DebugConfig) (n fuel : ℕ) (w : W)
      → cfg.has_breakpoint_handler ≡ true
      → ((m : ℕ) → m < n → asks_reload (b.build c (after m w)).0 ≡ true)
      → asks_reload (b.build c (after n w)).0 ≡ false
      → n < fuel
      → (e : Option Error) × (debug_session b fuel cfg (ok c) answered w
          ≡ some (
            e,
            b.done c
                (if cfg.cleanup_all then (b.prune_all c (after (suc n) w)).1 else after (suc n) w),
          ))
        × IsReportOf (attempt_error (b.build c (after n w)).0) e
  unfolding debug_session
  debug_session-ends cfg n fuel w h r s f = (
    reported (attempt_error (b.build c (after n w)).0),
    rw (h, debug-ends n fuel w r s f) refl,
    reported-IsReportOf (attempt_error (b.build c (after n w)).0),
  )
