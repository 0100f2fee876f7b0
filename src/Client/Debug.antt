-- ===== src/Client/Debug.antt =====
-- pkg/buildkit/client.go: Debug, which builds until no build asks for a reload.
pub mod Ends
use buildg.Prelude.{
  ℕ, zero, suc, ◌+◌, ◌*◌, ◌^◌, Bool, true, false, Option, none, some, if◌then◌else◌, ◌==◌, not,
}
use buildg.Int.{ℤ, pos, int_eq}
use buildg.Text.{Text, codes}
use buildg.Errors.{
  Error, wrapped, is_exit, is_reload, nil_breakpoint_handler, startup_timeout, Result, ok, err,
}

-- The first goroutine of a build that fails.
pub data Failure : Type 0 where
  of_handler of_build of_printer : Error → Failure

-- How a build ends: without a printer for its progress, or when its goroutines have ended.
pub data Attempt : Type 0 where
  no_printer : Error → Attempt
  waited : Option Failure → Attempt

unfoldable pub failure_error : Failure → Error
failure_error (of_handler e) = wrapped (codes "handler error") e
failure_error (of_build e) = wrapped (codes "failed to build") e
failure_error (of_printer e) = e

-- the fields of DebugConfig that Debug itself reads
pub record DebugConfig : Type 0 where
  pub has_breakpoint_handler : Bool
  pub cleanup_all : Bool
  pub startup_timeout : ℤ

-- which case of the select comes first
pub data Startup : Type 0 where
  canceled_first : Error → Startup
  timed_out : Startup
  answered : Startup

abbrev default_timeout : ℤ
default_timeout = pos (3 * 10 ^ 9)

abbrev pub timeout_of : DebugConfig → ℤ
timeout_of cfg = if cfg.startup_timeout == pos 0 then default_timeout else cfg.startup_timeout

abbrev pub reported : Option Error → Option Error
reported none = none
reported (some e) = if is_exit e then none else some e

-- One build with a client, the removal of its cache and its end, on a state of the outside.
pub record Builds (C W : Type 0) : Type 0 where
  pub build : C → W → Attempt × W
  pub prune_all : C → W → Option Error × W
  pub done : C → W → W

module _ {C W : Type 0} (b : Builds C W) where
  -- The loop is the call of debug by itself. On no fuel it gives none.
  abbrev pub debug_after : Attempt × W → (W → Option (Option Error × W)) → Option (Option Error × W)
  debug_after (no_printer e, w) again = some (some e, w)
  debug_after (waited none, w) again = some (none, w)
  debug_after (waited (some f), w) again =
      if is_reload (failure_error f) then again w else some (some (failure_error f), w)

  unfoldable pub debug : ℕ → C → W → Option (Option Error × W)
  debug zero c w = none
  debug (suc fuel) c w = debug_after (b.build c w) (debug fuel c)

  abbrev pub cleaned : Bool → C → W → W
  cleaned cleanup_all c w = if cleanup_all then (b.prune_all c w).1 else w

  abbrev pub end_session : Bool → C → Option (Option Error × W) → Option (Option Error × W)
  end_session cleanup_all c none = none
  end_session cleanup_all c (some (e, w)) = some (reported e, b.done c (cleaned cleanup_all c w))

  abbrev pub started_session : ℕ → DebugConfig → Result C → Startup → W → Option (Option Error × W)
  started_session fuel cfg client (canceled_first e) w = some (some e, w)
  started_session fuel cfg client timed_out w = some (some (startup_timeout (timeout_of cfg)), w)
  started_session fuel cfg (err e) answered w = some (some e, w)
  started_session fuel cfg (ok c) answered w = end_session cfg.cleanup_all c (debug fuel c w)

  -- Debug
  unfoldable pub debug_session :
      ℕ → DebugConfig → Result C → Startup → W → Option (Option Error × W)
  unfolding debug
  debug_session fuel cfg client s w =
      if not cfg.has_breakpoint_handler
      then some (some nil_breakpoint_handler, w)
      else started_session fuel cfg client s w
