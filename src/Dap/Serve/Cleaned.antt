-- ===== src/Dap/Serve/Cleaned.antt =====
-- When the cleanup function of the server is called.
pub mod Handlers
use buildg.Prelude.{
  ℕ, suc, ◌+◌, ◌≤◌, ◌≡◌, refl, sym, ap, ◌∙◌, subst, inl, inr, Bool, true, false, Bool-cases, List,
  [], ◌∷◌, ◌++◌, Option, none, some, arith, if◌then◌else◌, ◌==◌, length, length-append,
}
use buildg.Int.{ℤ, pos}
use buildg.Text.{Text, codes, text_eq}
use buildg.Errors.{Error, Result, ok, err}
use buildg.Breakpoints.{Breakpoints, add, on_fail, new_breakpoints}
use buildg.Handler.{Handler, BreakContext}
use buildg.Controller.Sources.{◌>>=◌}
use buildg.Dap.Messages.{
  LaunchConfig, Arguments, initialize, disconnect, configuration_done, continue, next, stack_trace,
  scopes, threads, launch_request, set_breakpoints, variables, evaluate, unsupported, other,
  Request, acknowledged, new_response, thread_event,
}
use buildg.Dap.Debugger.{
  BuildTools, SolveOpt, Debugger, Resumption, resume_at, do_continue, do_next, launched,
  launch_unless, launch, parse_solve_opt, break_handler, new_debugger_of,
}
use buildg.Dap.Serve.{Step, handles, stops, finishes, Reaches, starts, goes}
use buildg.Dap.Server.{
  Server, new_server, server_with, send, Outside, finish_messages, is_running, launch_debugger,
  launch_with, started, launch_response, on_launch, on_disconnect, on_set_breakpoints,
  after_command, evaluate_at, with_debugger, stopped, handle_arguments, handle, stop, finish,
}
use buildg.Dap.Serve.Cleaned.Handlers.{
  Cleaned, Sound, IsSound, ended, on_debugger, at_same, handle_arguments-IsSound,
}

module _ (O : Outside) where
  Step-IsSound : (s t : Server) → Step O s t → IsSound s → IsSound t
  unfolding handle stop finish break_handler
  Step-IsSound _ _ (handles s t r n e) h = handle_arguments-IsSound O r.arguments r s t h e
  Step-IsSound _ _ (stops s t ctx x n e) h = on_debugger O s t _ (λ d q. (h.0, at_same O s d h q)) e
  Step-IsSound _ _ (finishes s t n e) h =
      on_debugger O s t _ (λ d q. ended O d.running d s h.0 (at_same O s d h q)) e

  Reaches-IsSound : (s t : Server) → IsSound s → Reaches O s t → IsSound t
  Reaches-IsSound s _ h starts = h
  Reaches-IsSound s _ h (goes t u r st) = Step-IsSound t u st (Reaches-IsSound s t h r)

weaken : (o : Option Debugger) (c : List ℕ) → Sound o c → Cleaned o c
weaken none c h = h
weaken (some d) c h = h.0

begins :
    (x : Result Text × Breakpoints) (s : Server)
    → server_with true (new_debugger_of x) ≡ ok s
    → IsSound s
begins (err e, b) s q = absurd (cc q)
begins (ok key, b) s q =
    let fresh : Server = record {
      debugger =
          some
            (record { bps = b; l_config = none; b_ctx = none; resumptions = []; running = false });
      sent = [];
      exited = false;
      has_cleanup = true;
      cleanups = [];
    } in
    let same : fresh ≡ s = cc q in subst IsSound same (refl, (refl, tt))

-- From a new server with a cleanup function, whatever requests are handled, breaks stop the build and builds end: as long as
-- the server has its debugger, the function has been called once if a build of the session has ended, and
-- not at all if none was started or one runs; and it is called at most once when the client has disconnected.
pub Reaches-Cleaned :
    (O : Outside) (s t : Server)
    → new_server true ≡ ok s
    → Reaches O s t
    → Cleaned t.debugger t.cleanups
unfolding new_server
Reaches-Cleaned O s t e r =
    weaken t.debugger t.cleanups
      (Reaches-IsSound O s t (begins (add (codes "on-fail") on_fail new_breakpoints) s e) r).1
