-- ===== src/Tests/Commands.antt =====
-- commands.go and exec.go at a break, with words that are numbers of bytes.
use buildg.Prelude.{
  ℕ, ◌≡◌, ◌≢◌, refl, ◌⊎◌, true, false, List, [], ◌∷◌, ◌++◌, Option, none, some, map, arith,
  if◌then◌else◌, ◌==◌, In,
}
use buildg.Text.{Text, codes, text_eq}
use buildg.Dict.{lookup, insert}
use buildg.Decimal.{format_int}
use buildg.Errors.{Error, exit, reload, breakpoint_not_set, flags_not_together, Result, ok}
use buildg.Breakpoints.{on_fail, nothing, add, get}
use buildg.Breakpoints.Sessions.{change_all}
use buildg.Handler.{Handler, BreakContext, BreakpointInfo, set_break_each_vertex}
use buildg.Container.{Effect, exec_container}
use buildg.Shell.{break_command}
use buildg.Shell.Exec.{
  finished, Terminal, use_stdin, done_stdin, disable_signals, enable_signals, container,
  exec_config, exec_command,
}
use buildg.Shell.Exec.Restored.{IsUndone, Ran, exec_command-Ran}
use buildg.Shell.Commands.{
  set_break, continue_key, exit_build, Parsed, runs, shows, Progress, Console, prompt, failed,
  action, exit_command,
}
use buildg.Shell.Breaks.{
  Input, line, CommandHandler, dispatch, read_loop, hit_lines, lines_at, break_handler,
}
use buildg.Shell.Breaks.Errors.{input_errors, break_handler-errors}
use buildg.Shell.Breaks.Targets.{Passes, break_handler-target}
use buildg.Tests.Breakpoints.{start}
use buildg.Tests.Handler.{fresh_handler}
use buildg.Tests.Container as tests
use buildg.Tests.Dap.{flags, context}

abbrev parsed : Text → List Text → Parsed
parsed w ws =
    if w == codes "q"
    then runs exit_build
    else if w == codes "b"
    then runs (set_break [])
    else if w == codes "c"
    then runs (continue_key (codes "on-fail"))
    else shows (codes "help")

abbrev parse_words : List Text → Parsed
parse_words [] = shows []
parse_words (w ∷ ws) = parsed w ws

abbrev terminal : Terminal
terminal = record { gateway = tests.idle; streams = λ b. 0; wait = λ p. finished }

abbrev pub console : Console
console = record { split = λ t. some (t ∷ []); parse = parse_words; terminal = terminal }

abbrev progress : Progress
progress = record { buffered = []; log = ok [] }

abbrev handler : Handler
handler = record fresh_handler { breakpoints = start }

abbrev pub reading : List Input → CommandHandler
reading is = record { inputs = is; target_breakpoint = []; shown = []; steps = [] }

-- the failed break is shown, and the session goes on until the exit
abbrev exits : List Input
exits = line (codes "b") ∷ line [] ∷ line (codes "q") ∷ line (codes "c") ∷ []

abbrev left : CommandHandler
left = record {
  inputs = line (codes "c") ∷ [];
  target_breakpoint = [];
  shown =
      lines_at console context progress handler
      ∷ prompt
      ∷ failed breakpoint_not_set
      ∷ prompt
      ∷ prompt
      ∷ [];
  steps = [];
}

exits_at_q :
    break_handler console context progress handler (reading exits) ≡ some (some exit, handler, left)
unfolding break_handler dispatch action break_command exit_command read_loop hit_lines
exits_at_q = refl

break_handler-errors_example : (exit ≡ exit) ⊎ (exit ≡ reload) ⊎ In exit (input_errors exits)
break_handler-errors_example =
    break_handler-errors console context progress handler handler (reading exits) left exit
      exits_at_q

abbrev on_fail_key : Text
on_fail_key = codes "on-fail"

abbrev hit_info : BreakpointInfo
hit_info = record { description = nothing; hits = [] }

abbrev at_on_fail : BreakContext
at_on_fail = record context { hits = (on_fail_key, hit_info) ∷ [] }

abbrev continues : List Input
continues = line (codes "c") ∷ line (codes "q") ∷ []

break_handler-target_example :
    let later : List (BreakContext × Handler) = (context, handler) ∷ (context, handler) ∷ [] in
    (ch1 : CommandHandler) × (ch2 : CommandHandler) × (break_handler console context progress
        handler
        (reading continues)
      ≡ some (none, set_break_each_vertex false handler, ch1))
    × Passes console progress later ch1 ch2
    × (ch2.inputs ≡ line (codes "q") ∷ [])
    × (break_handler console at_on_fail progress handler ch2
        ≡ break_handler console at_on_fail progress handler (record ch2 { target_breakpoint = [] }))
unfolding get change_all add lookup insert format_int
break_handler-target_example =
    break_handler-target console progress on_fail_key on_fail (codes "c") (line (codes "q") ∷ [])
      context handler (reading continues) refl refl refl (codes "c", [], refl, refl, refl) refl
      ((context, handler) ∷ (context, handler) ∷ []) (refl, (refl, tt)) at_on_fail handler hit_info
      refl

-- a gateway that starts processes
abbrev pub working : Terminal
working = record terminal { gateway = record tests.idle { start_process = λ r. ok 1 } }

exec_command-Ran_example :
    ((true ≢ true)
      × (exec_command working flags tests.config.info handler ≡ some (some flags_not_together, [])))
    ⊎ ((true ≡ true)
        × (e : Option Error) × (effects : List Effect) × (exec_command working flags
              tests.config.info handler
            ≡ some (
              e,
              use_stdin
                  ∷ disable_signals
                  ∷ (map container effects ++ enable_signals ∷ done_stdin ∷ []),
            ))
        × IsUndone effects
        × ((o : Result (ℕ × List Effect) × List Effect) × (exec_container working.gateway
                (exec_config working.streams flags tests.config.info handler)
              ≡ some o)
            × Ran working o e effects))
exec_command-Ran_example = exec_command-Ran working flags tests.config.info handler (omega arith)
