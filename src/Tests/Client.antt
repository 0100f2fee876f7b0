-- ===== src/Tests/Client.antt =====
-- pkg/buildkit/client.go: a session with two reloads, and listings whose partial sums wrap around.
use buildg.Prelude.{
  ℕ, zero, suc, ◌+◌, ◌-◌, ◌^◌, ◌<◌, ◌≡◌, refl, true, false, List, [], ◌∷◌, Option, none, some,
  arith,
}
use buildg.Int.{pos, negsuc, ◌+ℤ◌}
use buildg.Text.{codes}
use buildg.Errors.{exit, reload, Error, is_reload, ok}
use buildg.Client.Debug.{
  of_handler, of_build, Attempt, waited, failure_error, DebugConfig, answered, Builds,
  debug_session,
}
use buildg.Client.Debug.Ends.{asks_reload, attempt_error, IsReportOf, after, debug_session-ends}
use buildg.Client.Usage.{UsageInfo, prune_cache, du_cache}
use buildg.Client.Usage.Totals.{exact, listing, du_cache-exact}

-- the number of builds, and then of what was done at the end
abbrev attempt_at : ℕ → Attempt
attempt_at zero = waited (some (of_handler reload))
attempt_at (suc zero) = waited (some (of_build reload))
attempt_at (suc (suc n)) = waited (some (of_handler exit))

abbrev builds : Builds ℕ ℕ
builds = record {
  build = λ c n. (attempt_at n, suc n);
  prune_all = λ c n. (none, n + 10);
  done = λ c n. n + 100;
}

abbrev pub config : DebugConfig
config = record { has_breakpoint_handler = true; cleanup_all = true; startup_timeout = pos 0 }

asked : (m : ℕ) → m < 2 → asks_reload (builds.build 0 (after builds 0 m 0)).0 ≡ true
unfolding failure_error is_reload
asked zero h = refl
asked (suc zero) h = refl
asked (suc (suc m)) h = absurd (omega arith)

not_asked : asks_reload (builds.build 0 (after builds 0 2 0)).0 ≡ false
unfolding failure_error is_reload
not_asked = refl

debug_session-ends_example :
    (e : Option Error) × (debug_session builds 3 config (ok 0) answered 0 ≡ some (e, 113))
    × IsReportOf (attempt_error (builds.build 0 (after builds 0 2 0)).0) e
debug_session-ends_example =
    debug_session-ends builds 0 config 2 3 0 refl asked not_asked (omega arith)

abbrev large : UsageInfo
large = record { id = codes "a"; size = pos (2 ^ 63 - 1); in_use = true }

abbrev small : UsageInfo
small = record { id = codes "b"; size = pos 5; in_use = false }

abbrev unknown : UsageInfo
unknown = record { id = codes "c"; size = negsuc 9; in_use = false }

du_cache-exact_example :
    let dus : List UsageInfo = large ∷ small ∷ unknown ∷ [] in
    (du_cache (ok large) (λ c. ok dus) ≡ (none, listing (exact dus) dus))
    × (prune_cache (ok large) true (λ c a. (dus, none)) ≡ (none, listing (exact dus) dus))
unfolding exact ◌+ℤ◌
du_cache-exact_example = du_cache-exact large true large (small ∷ unknown ∷ []) (omega arith)
