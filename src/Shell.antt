-- ===== src/Shell.antt =====
-- break.go: the commands of the shell that change the breakpoints or go on with the build.
pub mod Exec
pub mod Commands
pub mod Breaks
pub mod Stdin
pub mod Interrupts
pub mod Table
use buildg.Prelude.{
  ◌≡◌, refl, Bool, true, false, List, [], ◌∷◌, Option, none, some, if◌then◌else◌, ◌==◌,
}
use buildg.Int.{ℤ}
use buildg.Text.{Text, codes, text_eq, text_beq_iff}
use buildg.Decimal.{parse_int}
use buildg.Errors.{
  Error, breakpoint_not_set, cannot_parse_breakpoint, breakpoint_key_not_set, breakpoint_not_found,
  unknown_breakpoint, Result, ok, err,
}
use buildg.Types.{Location}
use buildg.Breakpoints.{Breakpoint, on_fail, line, Breakpoints, add, get, clear, clear_all}
use buildg.Breakpoints.Table.{get-clear}
use buildg.Handler.{Handler, set_break_each_vertex}

-- the fields of handlerContext that these commands use
pub record Session : Type 0 where
  pub handler : Handler
  pub locs : List Location
  pub continue_read : Bool
  pub target_breakpoint : Text

abbrev with_breakpoints : Session → Breakpoints → Session
with_breakpoints s b = record s { handler = record s.handler { breakpoints = b } }

abbrev added_to : Session → Result Text × Breakpoints → Option Error × Session
added_to s (ok key, b) = (none, with_breakpoints s b)
added_to s (err e, b) = (some e, with_breakpoints s b)

-- `locs[0]` of no locations is a panic, `none`.
abbrev break_at : Text → Option ℤ → List Location → Session → Option (Option Error × Session)
break_at bp none locs s = some (some (cannot_parse_breakpoint bp), s)
break_at bp (some l) [] s = none
break_at bp (some l) (loc ∷ locs) s =
    some (added_to s (add [] (line loc.source.filename l) s.handler.breakpoints))

unfoldable pub break_command : Text → Session → Option (Option Error × Session)
break_command bp s =
    if bp == []
    then some (some breakpoint_not_set, s)
    else if bp == codes "on-fail"
    then some (added_to s (add (codes "on-fail") on_fail s.handler.breakpoints))
    else break_at bp (parse_int bp) s.locs s

abbrev clear_found : Text → Option Breakpoint → Session → Option Error × Session
clear_found key none s = (some (breakpoint_not_found key), s)
clear_found key (some bp) s = (none, with_breakpoints s (clear key s.handler.breakpoints))

unfoldable pub clear_command : Text → Session → Option Error × Session
clear_command key s =
    if key == []
    then (some breakpoint_key_not_set, s)
    else clear_found key (get key s.handler.breakpoints) s

unfoldable pub clear_all_command : Session → Session
clear_all_command s = with_breakpoints s (clear_all s.handler.breakpoints)

abbrev proceed : Bool → Session → Session
proceed each s = record s { handler = set_break_each_vertex each s.handler; continue_read = false }

unfoldable pub next_command : Session → Session
next_command s = proceed true s

abbrev continue_to : Text → Option Breakpoint → Session → Option Error × Session
continue_to bp none s = (some (unknown_breakpoint bp), s)
continue_to bp (some b) s = (none, proceed false (record s { target_breakpoint = bp }))

unfoldable pub continue_command : Text → Session → Option Error × Session
continue_command bp s =
    if bp == [] then (none, proceed false s) else continue_to bp (get bp s.handler.breakpoints) s

-- For a nonempty key whose breakpoint is set, clear succeeds and takes away this breakpoint alone; a second clear of the key, and
-- a continue to it, then fail and change nothing.
clear_command-ok :
    (key : Text) (bp : Breakpoint) (s : Session)
    → (key == []) ≡ false
    → get key s.handler.breakpoints ≡ some bp
    → (s' : Session) × (clear_command key s ≡ (none, s'))
      × ((j : Text)
          → get j s'.handler.breakpoints ≡ (if key == j then none else get j s.handler.breakpoints))
      × (clear_command key s' ≡ (some (breakpoint_not_found key), s'))
      × (continue_command key s' ≡ (some (unknown_breakpoint key), s'))
unfolding clear_command continue_command
clear_command-ok key bp s n e =
    let s' = with_breakpoints s (clear key s.handler.breakpoints) in
    let gone : get key (clear key s.handler.breakpoints) ≡ none =
      rw (get-clear, (text_beq_iff key key).1 refl) refl in
    (
      s',
      rw (n, e) refl,
      λ j. get-clear key j s.handler.breakpoints,
      rw (n, gone) refl,
      rw (n, gone) refl,
    )
