-- ===== src/Dap/Server.antt =====
-- pkg/dap/dap.go: the server, which handles a request and sends messages.
use buildg.Prelude.{
  ℕ, Bool, true, false, List, [], ◌∷◌, ◌++◌, Option, none, some, if◌then◌else◌, ◌==◌, length,
}
use buildg.Int.{ℤ, pos}
use buildg.Text.{Text, codes, text_eq}
use buildg.Errors.{Error, no_program, no_debugger, Result, ok, err}
use buildg.Handler.{Handler, BreakContext}
use buildg.Controller.Sources.{◌>>=◌}
use buildg.Dap.Messages.{
  Message, initialized_with, acknowledged, breakpoints_set, stack_trace_of, scopes_of, variables_of,
  threads_of, run_in_terminal, evaluated, initialized_event, terminated_event, exited_event,
  output_event, thread_event, stopped_event, LaunchConfig, Arguments, initialize, disconnect,
  configuration_done, continue, next, stack_trace, scopes, threads, launch_request, set_breakpoints,
  variables, evaluate, unsupported, other, Request, new_response, failed_error, error_response_of,
  unsupported_response,
}
use buildg.Dap.Debugger.{
  BuildTools, SolveOpt, Debugger, new_debugger, launch, do_continue, do_next, break_handler,
}
use buildg.Dap.Exec.{Host, Step, experimental, Run, fails, starts, exec_in_container}
use buildg.Shell.Exec.{ExecFlags}
use buildg.Dap.Requests.{supports, unsupported_text, set_lines, stack_frames, variables_at}

-- `sent` is what was written to the connection; `exited` says that the process has ended. `has_cleanup` says whether
-- cleanupFunc is set, and `cleanups` has for each of its calls the number of messages that were sent before; its error
-- is only logged.
pub record Server : Type 0 where
  pub debugger : Option Debugger
  pub sent : List Message
  pub exited : Bool
  pub has_cleanup : Bool
  pub cleanups : List ℕ

-- NewServer
abbrev pub server_with : Bool → Result Debugger → Result Server
server_with has_cleanup (err e) = err e
server_with has_cleanup (ok d) = ok (record {
  debugger = some d;
  sent = [];
  exited = false;
  has_cleanup = has_cleanup;
  cleanups = [];
})

unfoldable pub new_server : Bool → Result Server
unfolding new_debugger
new_server has_cleanup = server_with has_cleanup new_debugger

abbrev pub send : Message → Server → Server
send m s = record s { sent = s.sent ++ m ∷ [] }

-- What urfave/cli does with the words of an evaluation: it writes a text itself, with an error, if any, as for help, or it
-- calls the action of exec with these flags.
pub data Parsed : Type 0 where
  shown : Text → Option Text → Parsed
  executes : ExecFlags → Parsed

-- What an evaluation has done, what it writes, the text of its error, if any, and the arguments and directory of what it has
-- the client run when the response is sent.
pub data Evaluation : Type 0 where
  evaluation : List Step → Text → Option Text → Option (List Text × Text) → Evaluation

-- Parsers, texts of errors, and the host of the process.
pub record Outside : Type 1 where
  pub tools : BuildTools
  pub unmarshal : Text → Result LaunchConfig
  pub error_text : Error → Text
  pub split_words : Text → Option (List Text)
  pub parse_words : List Text → Parsed
  pub host : Host

abbrev pub clean_up : Server → Server
clean_up s = record s {
  cleanups = if s.has_cleanup then s.cleanups ++ length s.sent ∷ [] else s.cleanups;
}

-- The cleanup comes before the client is told that the session has ended.
abbrev pub finish_messages : Bool → Server → Server
finish_messages false s = s
finish_messages true s =
    send exited_event
      (send terminated_event (clean_up (send (thread_event (codes "exited") (pos 1)) s)))

module _ (O : Outside) where
  open O use {tools, unmarshal, error_text, split_words, parse_words, host}

  abbrev pub started :
      Result (SolveOpt tools) × Debugger → Server → Result (SolveOpt tools) × Server
  started (err e, d) s = (err e, record s { debugger = some d })
  started (ok opt, d) s =
      (ok opt, send (thread_event (codes "started") (pos 1)) (record s { debugger = some d }))

  abbrev pub launch_with :
      LaunchConfig → Option Debugger → Server → Result (SolveOpt tools) × Server
  launch_with cfg none s = (err no_debugger, s)
  launch_with cfg (some d) s = started (launch tools cfg d) s

  unfoldable pub launch_debugger : LaunchConfig → Server → Result (SolveOpt tools) × Server
  launch_debugger cfg s =
      if cfg.program == [] then (err no_program, s) else launch_with cfg s.debugger s

  abbrev pub launch_failed : Request → Error → Server → Server
  launch_failed r e s =
      send
        (error_response_of r.seq r.command failed_error (codes "failed to launch: " ++ error_text e)
          true)
        s

  abbrev pub launch_response : Request → Result (SolveOpt tools) × Server → Server
  launch_response r (err e, s) = launch_failed r e s
  launch_response r (ok opt, s) = send (acknowledged (new_response r.seq r.command)) s

  abbrev pub on_launch : Request → Result LaunchConfig → Server → Server
  on_launch r (err e) s = launch_failed r e s
  on_launch r (ok cfg) s = launch_response r (launch_debugger cfg s)

  abbrev pub is_running : Option Debugger → Bool
  is_running none = false
  is_running (some d) = d.running

  -- The cancelled build finishes before the response.
  unfoldable pub on_disconnect : Request → Server → Server
  on_disconnect r s =
      let s' = finish_messages (is_running s.debugger) s in
      record (send (acknowledged (new_response r.seq r.command)) s') {
        debugger = none;
        exited = true;
      }

  -- A method of a nil debugger that reads a field is a panic, `none`.
  abbrev pub with_debugger : Server → (Debugger → Server) → Option Server
  with_debugger s f = do d ← s.debugger; some (f d)

  unfoldable pub on_set_breakpoints : Request → Text → List ℤ → Debugger → Server → Server
  on_set_breakpoints r src ls d s =
      let (b, breakpoints) = set_lines src ls d.bps in
      send (breakpoints_set (new_response r.seq r.command) breakpoints)
        (record s { debugger = some (record d { bps = b }) })

  abbrev pub after_command :
      Request → Text × Option Text × Option (List Text × Text) → Server → Server
  after_command r (out, none, none) s = send (evaluated (new_response r.seq r.command) out) s
  after_command r (out, some e, none) s =
      send (evaluated (new_response r.seq r.command) (out ++ e ++ codes "\n")) s
  after_command r (out, none, some (args, cwd)) s =
      send (run_in_terminal args cwd) (send (evaluated (new_response r.seq r.command) out) s)
  after_command r (out, some e, some (args, cwd)) s =
      send (run_in_terminal args cwd)
        (send (evaluated (new_response r.seq r.command) (out ++ e ++ codes "\n")) s)

  abbrev pub is_experimental : Step → Bool
  is_experimental experimental = true
  is_experimental _ = false

  abbrev pub send_note : Bool → Server → Server
  send_note false s = s
  send_note true s =
      send
        (output_event (codes "stdout")
          (codes "container execution on non-RUN instruction is experimental"))
        s

  unfoldable pub send_notes : List Step → Server → Server
  send_notes [] s = s
  send_notes (st ∷ steps) s = send_notes steps (send_note (is_experimental st) s)

  -- The callback after the response reads the launch config, whose absence is a panic.
  abbrev pub evaluation_of : Option LaunchConfig → Run → Option Evaluation
  evaluation_of l (fails e done) = some (evaluation done [] (some (error_text e)) none)
  evaluation_of none (starts args cwd done cleanups) = none
  evaluation_of (some cfg) (starts args cwd done cleanups) =
      some (evaluation done [] none (some (args, cwd)))

  abbrev pub program_of : Option LaunchConfig → Text
  program_of none = []
  program_of (some cfg) = cfg.program

  abbrev pub evaluate_parsed :
      Parsed → BreakContext → Handler → Option LaunchConfig → Option Evaluation
  evaluate_parsed (shown out e) ctx h l = some (evaluation [] out e none)
  evaluate_parsed (executes f) ctx h l = do
    run ← exec_in_container host f ctx.info h (program_of l)
    evaluation_of l run

  abbrev pub silent : Evaluation
  silent = evaluation [] [] none none

  -- Words that do not parse are logged and no words run nothing.
  abbrev pub run_words :
      Option (List Text) → BreakContext → Handler → Option LaunchConfig → Option Evaluation
  run_words none ctx h l = some silent
  run_words (some []) ctx h l = some silent
  run_words (some (w ∷ ws)) ctx h l =
      if w == []
      then some silent
      else evaluate_parsed (parse_words (codes "buildg" ∷ w ∷ ws)) ctx h l

  abbrev pub after_evaluation : Request → Option Evaluation → Server → Option Server
  after_evaluation r none s = none
  after_evaluation r (some (evaluation steps out e attach)) s =
      some (after_command r (out, e, attach) (send_notes steps s))

  abbrev pub evaluate_at :
      Request
      → Text
      → Option LaunchConfig
      → Option (BreakContext × Handler)
      → Server
      → Option Server
  evaluate_at r expression l none s = some (
      send (error_response_of r.seq r.command failed_error (codes "no breakpoint available") true)
        s)
  evaluate_at r expression l (some (ctx, h)) s =
      after_evaluation r (run_words (split_words expression) ctx h l) s

  abbrev pub on_evaluate : Request → Text → Text → Server → Option Server
  on_evaluate r context expression s =
      if context == codes "repl"
      then (do d ← s.debugger; evaluate_at r expression d.l_config d.b_ctx s)
      else some (
          send
            (unsupported_response r.seq r.command
              (codes "evaluating non-repl input is unsupported as of now"))
            s)

  -- continue and next are answered first
  abbrev pub on_resume : (Debugger → Debugger) → Request → Server → Option Server
  on_resume f r s =
      let s' = send (acknowledged (new_response r.seq r.command)) s in
      with_debugger s' (λ d. record s' { debugger = some (f d) })

  abbrev pub on_initialize : Request → Server → Server
  on_initialize r s =
      send initialized_event (send (initialized_with (new_response r.seq r.command) supports) s)

  abbrev pub on_configuration_done : Request → Server → Server
  on_configuration_done r s = send (acknowledged (new_response r.seq r.command)) s

  abbrev pub on_scopes : Request → Server → Server
  on_scopes r s =
      send (scopes_of (new_response r.seq r.command) ((codes "Environment Variables", pos 1) ∷ []))
        s

  abbrev pub on_threads : Request → Server → Server
  on_threads r s = send (threads_of (new_response r.seq r.command) ((pos 1, codes "build") ∷ [])) s

  unfoldable pub handle_arguments : Arguments → Request → Server → Option Server
  unfolding launch_debugger on_disconnect on_set_breakpoints
  handle_arguments initialize r s = some (on_initialize r s)
  handle_arguments (launch_request config) r s = some (on_launch r (unmarshal config) s)
  handle_arguments disconnect r s = some (on_disconnect r s)
  handle_arguments (set_breakpoints src ls) r s =
      with_debugger s (λ d. on_set_breakpoints r src ls d s)
  handle_arguments configuration_done r s = some (on_configuration_done r s)
  handle_arguments continue r s = on_resume do_continue r s
  handle_arguments next r s = on_resume do_next r s
  handle_arguments stack_trace r s = with_debugger s (λ d.
      let (frames, total) = stack_frames d.b_ctx d.l_config in
      send (stack_trace_of (new_response r.seq r.command) frames total) s)
  handle_arguments scopes r s = some (on_scopes r s)
  handle_arguments (variables start count) r s =
      with_debugger s (λ d.
        send (variables_of (new_response r.seq r.command) (variables_at d.b_ctx start count)) s)
  handle_arguments threads r s = some (on_threads r s)
  handle_arguments (evaluate context expression) r s = on_evaluate r context expression s
  handle_arguments (unsupported u) r s =
      some (send (unsupported_response r.seq r.command (unsupported_text u)) s)
  handle_arguments other r s = some s

  unfoldable pub handle : Request → Server → Option Server
  unfolding handle_arguments
  handle r s = handle_arguments r.arguments r s

  -- The goroutine that reports the stops of the debugger.
  abbrev pub reason_of : List ℤ → Text
  reason_of [] = codes "step"
  reason_of (i ∷ is) = codes "breakpoint"

  abbrev pub stopped : List ℤ × Debugger → Server → Server
  stopped (ids, d) s =
      send (stopped_event (reason_of ids) (pos 1) true ids) (record s { debugger = some d })

  -- The build calls the debugger's breakpoint handler, and the server reports the stop.
  unfoldable pub stop : BreakContext → Handler → Server → Option Server
  stop ctx h s = with_debugger s (λ d. stopped (break_handler ctx h d) s)

  -- the build of a launch ends
  unfoldable pub finish : Server → Option Server
  finish s =
      with_debugger s (λ d.
        finish_messages d.running (record s { debugger = some (record d { running = false }) }))
