-- ===== src/Errors.antt =====
-- The errors that the program makes or passes on, one constructor for each place that makes one.
use buildg.Prelude.{Bool, true, false}
use buildg.Int.{ℤ}
use buildg.Text.{Text}

-- `message` is an error of code outside this repository, known by its text.
pub data Error : Type 0 where
  exit reload : Error  -- ErrExit and ErrReload of pkg/buildkit/client.go
  message : Text → Error
  wrapped : Text → Error → Error  -- fmt.Errorf("…: %w", err)
  described : Text → Error → Error  -- fmt.Errorf("…: %v", err)
  breakpoint_exists : Text → Error
  breakpoint_not_set : Error
  cannot_parse_breakpoint : Text → Error
  breakpoint_key_not_set : Error
  breakpoint_not_found : Text → Error
  unknown_breakpoint : Text → Error
  handler_exists : Error  -- "on going handler exists"
  location_not_found : Text → Error
  unexpected_result_type : Error
  no_rootfs_mount : Error  -- "one rootfs mount must be specified"
  flags_not_together : Error  -- flag "-i" and "-t" must be set together
  canceled : Error  -- ctx.Err()
  multi_session : Error  -- "multi session unsupported"
  no_program : Error
  no_debugger : Error
  no_context : Error
  unsupported_context : Text → Error
  dockerfile_from_stdin : Error
  no_home : Error
  no_root_dir : Error
  unknown_snapshotter : Text → Error
  listener_closed : Error
  locked_root : Error
  nil_breakpoint_handler : Error
  startup_timeout : ℤ → Error
  root_not_specified : Error  -- "root needs to be specified"
  unexpected_mode : Error  -- "unexpected runc root file mode"
  io_timeout : Error  -- "i/o timeout; check server is up and running"

-- errors.Is(err, ErrExit) and errors.Is(err, ErrReload) look through the wrapping.
unfoldable pub is_exit : Error → Bool
is_exit exit = true
is_exit (wrapped _ e) = is_exit e
is_exit _ = false

unfoldable pub is_reload : Error → Bool
is_reload reload = true
is_reload (wrapped _ e) = is_reload e
is_reload _ = false

-- A Go result (value, error).
pub data Result {ℓ} (A : Type ℓ) : Type ℓ where
  ok : A → Result A
  err : Error → Result A

-- the early return of an error
infixl 5 ◌>>=◌
abbrev pub ◌>>=◌ {ℓ κ} : {A : Type ℓ} {B : Type κ} → Result A → (A → Result B) → Result B
err e >>= f = err e
ok a >>= f = f a
