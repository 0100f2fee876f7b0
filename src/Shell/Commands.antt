-- ===== src/Shell/Commands.antt =====
-- commands.go: what a line of the shell does. The commands are those of break.go, exec.go, list.go, log.go, reload.go and exit.go.
use buildg.Prelude.{Bool, true, false, List, [], ◌∷◌, ◌++◌, Option, none, some, map, if◌then◌else◌}
use buildg.Int.{ℤ, pos, pos_part, leb_ℤ}
use buildg.Text.{Text, text_eq}
use buildg.Errors.{Error, exit, reload, Result, ok, err}
use buildg.Types.{RegisteredStatus}
use buildg.Breakpoints.{Breakpoint, Breakpoints, Description, for_each}
use buildg.Listing.{Output, window, print_lines, scan_lines}
use buildg.Log.{last_lines}
use buildg.Shell.{
  Session, break_command, clear_command, clear_all_command, next_command, continue_command,
}
use buildg.Shell.Exec.{ExecFlags, Terminal, ExecStep, exec_command}

-- What is written to the standard output.
pub data Shown : Type 0 where
  hit : Text → Description → Shown
  source_lines : List Output → Shown
  prompt reloading table_heading : Shown
  table_row : Text → Breakpoint → Shown
  log_bytes log_line cli_text : Text → Shown
  failed : Error → Shown

-- The command that runs, with its arguments and flags.
pub data Command : Type 0 where
  set_break clear_key continue_key : Text → Command
  breakpoints clear_keys next reload_build exit_build : Command
  exec : ExecFlags → Command
  list : ℤ → ℤ → ℤ → Bool → Command
  log : ℤ → Bool → Bool → Command

-- What urfave/cli makes of the words: it runs a command, fails, or shows a help. It may write a text before it fails.
pub data Parsed : Type 0 where
  runs : Command → Parsed
  refuses : Text → Error → Parsed
  shows : Text → Parsed

-- what the progress writer gives: what it keeps, and the log
pub record Progress : Type 0 where
  pub buffered : Text
  pub log : Result Text

-- shlex.Split gives none for a line that it cannot parse.
pub record Console : Type 0 where
  pub split : Text → Option (List Text)
  pub parse : List Text → Parsed
  pub terminal : Terminal

-- handlerContext; `err` is what the dispatch returns.
pub record HandlerContext : Type 0 where
  pub session : Session
  pub info : RegisteredStatus
  pub progress : Progress
  pub err : Option Error
  pub shown : List Shown
  pub steps : List ExecStep

abbrev pub show : List Shown → HandlerContext → HandlerContext
show s c = record c { shown = c.shown ++ s }

-- A panic is `none`.
abbrev pub changed :
    HandlerContext → Option (Option Error × Session) → Option (Option Error × HandlerContext)
changed c none = none
changed c (some (e, s)) = some (e, record c { session = s })

abbrev pub breakpoint_rows : Breakpoints → List Shown
breakpoint_rows b = for_each (λ key bp rows. (rows ++ table_row key bp ∷ [], true)) b []

abbrev pub executed :
    HandlerContext → Option (Option Error × List ExecStep) → Option (Option Error × HandlerContext)
executed c none = none
executed c (some (e, steps)) = some (e, record c { steps = c.steps ++ steps })

unfoldable pub list_command : ℤ → ℤ → ℤ → Bool → HandlerContext → Option Error × HandlerContext
list_command range b a all c =
    let (before, after) = window range b a in
    let lines = print_lines c.session.handler.breakpoints before after all c.session.locs in
    (none, show (source_lines lines ∷ []) c)

abbrev pub log_printed :
    HandlerContext → Option (List Text) → Option (Option Error × HandlerContext)
log_printed c none = none
log_printed c (some lines) = some (none, show (map log_line lines) c)

abbrev pub log_read :
    ℤ → Bool → HandlerContext → Result Text → Option (Option Error × HandlerContext)
log_read n all c (err e) = some (some e, c)
log_read n all c (ok text) =
    if all
    then some (none, show (log_bytes text ∷ []) c)
    else if leb_ℤ n (pos 0)
    then some (none, c)
    else log_printed c (last_lines (pos_part n) (scan_lines text))

unfoldable pub log_command :
    ℤ → Bool → Bool → HandlerContext → Option (Option Error × HandlerContext)
log_command n all more c =
    if more
    then some (none, show (log_bytes c.progress.buffered ∷ []) c)
    else log_read n all c c.progress.log

abbrev pub stopped_reading : Error → HandlerContext → HandlerContext
stopped_reading e c = record c {
  session = record c.session { continue_read = false };
  err = some e;
}

unfoldable pub reload_command : HandlerContext → HandlerContext
reload_command c = stopped_reading reload (show (reloading ∷ []) c)

unfoldable pub exit_command : HandlerContext → HandlerContext
exit_command c = stopped_reading exit c

-- The action of a command.
unfoldable pub action : Terminal → Command → HandlerContext → Option (Option Error × HandlerContext)
unfolding list_command log_command reload_command exit_command
action T (set_break bp) c = changed c (break_command bp c.session)
action T (clear_key key) c = changed c (some (clear_command key c.session))
action T (continue_key bp) c = changed c (some (continue_command bp c.session))
action T breakpoints c =
    some (none, show (table_heading ∷ breakpoint_rows c.session.handler.breakpoints) c)
action T clear_keys c = changed c (some (none, clear_all_command c.session))
action T next c = changed c (some (none, next_command c.session))
action T reload_build c = some (none, reload_command c)
action T exit_build c = some (none, exit_command c)
action T (exec f) c = executed c (exec_command T f c.info c.session.handler)
action T (list range b a all) c = some (list_command range b a all c)
action T (log n all more) c = log_command n all more c
