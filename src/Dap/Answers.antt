-- ===== src/Dap/Answers.antt =====
-- The responses of the server.
use buildg.Prelude.{
  ◌≡◌, ◌≢◌, refl, ap, ◌∙◌, Bool, true, false, List, [], ◌∷◌, ◌++◌, Option, none, some, append-nil,
  inl, inr, Bool-cases, ◌==◌, subst,
}
use buildg.Int.{ℤ, pos}
use buildg.Text.{Text, codes, text_eq}
use buildg.Errors.{Result, ok, err}
use buildg.Handler.{Handler, BreakContext}
use buildg.Dap.Messages.{
  Response, Message, error_response, initialized_with, acknowledged, breakpoints_set,
  stack_trace_of, scopes_of, variables_of, threads_of, evaluated, initialized_event,
  terminated_event, exited_event, thread_event, output_event, run_in_terminal, LaunchConfig,
  Arguments, initialize, disconnect, configuration_done, continue, next, stack_trace, scopes,
  threads, launch_request, set_breakpoints, variables, evaluate, unsupported, other, Request,
  new_response, error_response_of, unsupported_response,
}
use buildg.Dap.Debugger.{Debugger, SolveOpt, launch}
use buildg.Dap.Server.{
  Server, send, Outside, finish_messages, launch_debugger, launch_with, started, launch_response,
  on_launch, is_running, on_disconnect, on_set_breakpoints, after_command, evaluate_at,
  with_debugger, Evaluation, evaluation, is_experimental, send_note, send_notes, run_words,
  after_evaluation, handle_arguments, handle,
}
use buildg.Controller.Sources.{◌>>=◌}
use buildg.Dap.Exec.{Step}
use buildg.Dap.Ready.{IsReady, run_words-some}

abbrev pub response_of : Message → Option Response
response_of (error_response r _ _ _ _) = some r
response_of (initialized_with r _) = some r
response_of (acknowledged r) = some r
response_of (breakpoints_set r _) = some r
response_of (stack_trace_of r _ _) = some r
response_of (scopes_of r _) = some r
response_of (variables_of r _) = some r
response_of (threads_of r _) = some r
response_of (evaluated r _) = some r
response_of _ = none

abbrev pub cons_some : Option Response → List Response → List Response
cons_some none rs = rs
cons_some (some r) rs = r ∷ rs

-- the responses among the messages
unfoldable pub responses : List Message → List Response
responses [] = []
responses (m ∷ ms) = cons_some (response_of m) (responses ms)

cons_some-append :
    (o : Option Response) (rs qs : List Response) → cons_some o (rs ++ qs) ≡ cons_some o rs ++ qs
cons_some-append none rs qs = refl
cons_some-append (some r) rs qs = refl

pub responses-snoc :
    (ms : List Message) (m : Message)
    → responses (ms ++ m ∷ []) ≡ responses ms ++ cons_some (response_of m) []
unfolding responses
responses-snoc [] m = refl
responses-snoc (n ∷ ms) m =
    ap (λ (l : List Response). cons_some (response_of n) l) (responses-snoc ms m)
    ∙ cons_some-append (response_of n) (responses ms) (cons_some (response_of m) [])

module _ (r : Request) (s : Server) where
  abbrev Silent : List Message → Type 0
  Silent ms = responses ms ≡ responses s.sent

  -- one response more, to this request
  abbrev pub Answered : List Message → Type 0
  Answered ms =
      (a : Response) × (responses ms ≡ responses s.sent ++ a ∷ [])
      × (a.request_seq ≡ r.seq)
      × (a.command ≡ r.command)

  Silent-send :
      (m : Message) (ms : List Message) → response_of m ≡ none → Silent ms → Silent (ms ++ m ∷ [])
  Silent-send m ms e h = responses-snoc ms m ∙ rw (e, h) (append-nil _)

  Answered-quiet :
      (m : Message) (ms : List Message)
      → response_of m ≡ none
      → Answered ms
      → Answered (ms ++ m ∷ [])
  Answered-quiet m ms e (a, h, p, q) = (a, responses-snoc ms m ∙ rw (e, h) (append-nil _), p, q)

  Answered-send :
      (m : Message) (a : Response) (ms : List Message)
      → response_of m ≡ some a
      → a.request_seq ≡ r.seq
      → a.command ≡ r.command
      → Silent ms
      → Answered (ms ++ m ∷ [])
  Answered-send m a ms e p q h = (a, responses-snoc ms m ∙ rw (e, h) refl, p, q)

  Answered-succeed :
      (m : Message) (ms : List Message)
      → response_of m ≡ some (new_response r.seq r.command)
      → Silent ms
      → Answered (ms ++ m ∷ [])
  Answered-succeed m ms e h =
      Answered-send m (new_response r.seq r.command) ms e (unfold new_response in refl)
        (unfold new_response in refl) h

  Answered-fail :
      (id : ℤ) (t : Text) (b : Bool) (ms : List Message)
      → Silent ms
      → Answered (ms ++ error_response_of r.seq r.command id t b ∷ [])
  unfolding error_response_of new_response
  Answered-fail id t b ms h =
      Answered-send (error_response_of r.seq r.command id t b)
        (record (new_response r.seq r.command) { success = false }) ms refl refl refl h

  finish_messages-Silent :
      (b : Bool) (s' : Server) → Silent s'.sent → Silent (finish_messages b s').sent
  finish_messages-Silent false s' h = h
  finish_messages-Silent true s' h = Silent-send exited_event _ refl (
      Silent-send terminated_event _ refl
        (Silent-send (thread_event (codes "exited") (pos 1)) s'.sent refl h))

  module _ (O : Outside) where
    started-Silent :
        (x : Result (SolveOpt O.tools) × Debugger) (s' : Server)
        → Silent s'.sent
        → Silent (started O x s').1.sent
    started-Silent (err e, d) s' h = h
    started-Silent (ok opt, d) s' h = Silent-send (thread_event (codes "started") (pos 1)) _ refl h

    launch_with-Silent :
        (cfg : LaunchConfig) (o : Option Debugger) → Silent (launch_with O cfg o s).1.sent
    launch_with-Silent cfg none = refl
    launch_with-Silent cfg (some d) = started-Silent (launch O.tools cfg d) s refl

    launch_debugger-Silent : (cfg : LaunchConfig) → Silent (launch_debugger O cfg s).1.sent
    unfolding launch_debugger
    launch_debugger-Silent cfg = elim (Bool-cases (cfg.program == [])) [
      | inl missing ↦ rw missing refl
      | inr given ↦ rw given (launch_with-Silent cfg s.debugger)
    ]

    launch_response-Answered :
        (x : Result (SolveOpt O.tools) × Server)
        → Silent x.1.sent
        → Answered (launch_response O r x).sent
    launch_response-Answered (err e, s') h = Answered-fail _ _ _ s'.sent h
    launch_response-Answered (ok opt, s') h = Answered-succeed _ s'.sent refl h

    on_launch-Answered : (c : Result LaunchConfig) → Answered (on_launch O r c s).sent
    on_launch-Answered (err e) = Answered-fail _ _ _ s.sent refl
    on_launch-Answered (ok cfg) =
        launch_response-Answered (launch_debugger O cfg s) (launch_debugger-Silent cfg)

    abbrev Handles : Option Server → Type 0
    Handles o = (s' : Server) × (o ≡ some s') × Answered s'.sent

    after_command-Answered :
        (x : Text × Option Text × Option (List Text × Text)) (s' : Server)
        → Silent s'.sent
        → Answered (after_command O r x s').sent
    after_command-Answered (out, none, none) s' h = Answered-succeed _ s'.sent refl h
    after_command-Answered (out, some e, none) s' h = Answered-succeed _ s'.sent refl h
    after_command-Answered (out, none, some (args, cwd)) s' h =
        Answered-quiet (run_in_terminal args cwd) _ refl (Answered-succeed _ s'.sent refl h)
    after_command-Answered (out, some e, some (args, cwd)) s' h =
        Answered-quiet (run_in_terminal args cwd) _ refl (Answered-succeed _ s'.sent refl h)

    send_note-Silent : (b : Bool) (s' : Server) → Silent s'.sent → Silent (send_note O b s').sent
    send_note-Silent false s' h = h
    send_note-Silent true s' h = Silent-send (output_event _ _) _ refl h

    send_notes-Silent :
        (steps : List Step) (s' : Server) → Silent s'.sent → Silent (send_notes O steps s').sent
    unfolding send_notes
    send_notes-Silent [] s' h = h
    send_notes-Silent (st ∷ steps) s' h =
        send_notes-Silent steps (send_note O (is_experimental O st) s')
          (send_note-Silent (is_experimental O st) s' h)

    evaluation-Answered :
        (o : Option Evaluation) (e : Evaluation) → o ≡ some e → Handles (after_evaluation O r o s)
    evaluation-Answered none e q = absurd (cc q)
    evaluation-Answered (some (evaluation steps out x a)) e q =
        (_, refl, after_command-Answered (out, x, a) _ (send_notes-Silent steps s refl))

    evaluate_at-Answered :
        (t : Text) (l : Option LaunchConfig) (o : Option (BreakContext × Handler))
        → IsReady l o
        → Handles (evaluate_at O r t l o s)
    evaluate_at-Answered t l none k = (_, refl, Answered-fail _ _ _ s.sent refl)
    evaluate_at-Answered t l (some (ctx, h)) k =
        let (e, q) = run_words-some O (O.split_words t) ctx h l k in
        evaluation-Answered (run_words O (O.split_words t) ctx h l) e q

    evaluate-Handles :
        (t : Text) (d : Debugger) (o : Option Debugger)
        → o ≡ some d
        → IsReady d.l_config d.b_ctx
        → Handles (do c ← o; evaluate_at O r t c.l_config c.b_ctx s)
    evaluate-Handles t d none q k = absurd (cc q)
    evaluate-Handles t d (some c) q k =
        let same : d ≡ c = cc q in
        evaluate_at-Answered t c.l_config c.b_ctx (subst (λ x. IsReady x.l_config x.b_ctx) same k)

    at_debugger :
        (t : Server) (f : Debugger → Server) (d : Debugger)
        → t.debugger ≡ some d
        → Answered (f d).sent
        → Handles (with_debugger O t f)
    at_debugger t f d e h = (f d, rw e refl, h)

    on_disconnect-Answered : Answered (on_disconnect O r s).sent
    unfolding on_disconnect
    on_disconnect-Answered =
        Answered-succeed _ _ refl (finish_messages-Silent (is_running O s.debugger) s refl)

    handle_arguments-Answered :
        (a : Arguments) (d : Debugger)
        → a ≢ other
        → s.debugger ≡ some d
        → IsReady d.l_config d.b_ctx
        → (s' : Server) × (handle_arguments O a r s ≡ some s') × Answered s'.sent
    unfolding handle_arguments
    handle_arguments-Answered initialize d n e k =
        (_, refl, Answered-quiet initialized_event _ refl (Answered-succeed _ s.sent refl refl))
    handle_arguments-Answered (launch_request c) d n e k =
        (_, refl, on_launch-Answered (O.unmarshal c))
    handle_arguments-Answered disconnect d n e k = (_, refl, on_disconnect-Answered)
    handle_arguments-Answered (set_breakpoints src ls) d n e k =
        at_debugger s _ d e (unfold on_set_breakpoints in Answered-succeed _ s.sent refl refl)
    handle_arguments-Answered configuration_done d n e k =
        (_, refl, Answered-succeed _ s.sent refl refl)
    handle_arguments-Answered continue d n e k =
        at_debugger (send (acknowledged (new_response r.seq r.command)) s) _ d e
          (Answered-succeed _ s.sent refl refl)
    handle_arguments-Answered next d n e k =
        at_debugger (send (acknowledged (new_response r.seq r.command)) s) _ d e
          (Answered-succeed _ s.sent refl refl)
    handle_arguments-Answered stack_trace d n e k =
        at_debugger s _ d e (Answered-succeed _ s.sent refl refl)
    handle_arguments-Answered scopes d n e k = (_, refl, Answered-succeed _ s.sent refl refl)
    handle_arguments-Answered (variables i c) d n e k =
        at_debugger s _ d e (Answered-succeed _ s.sent refl refl)
    handle_arguments-Answered threads d n e k = (_, refl, Answered-succeed _ s.sent refl refl)
    handle_arguments-Answered (evaluate c t) d n e k = elim (Bool-cases (c == codes "repl")) [
      | inl repl ↦ rw repl (evaluate-Handles t d s.debugger e k)
      | inr no_repl ↦
          rw no_repl (_, refl, unfold unsupported_response in Answered-fail _ _ _ s.sent refl)
    ]
    handle_arguments-Answered (unsupported u) d n e k =
        (_, refl, unfold unsupported_response in Answered-fail _ _ _ s.sent refl)
    handle_arguments-Answered other d n e k = absurd (n refl)

    -- When the server has its debugger, and a break of it the ids of its mounts, it handles each request of a known type without a panic, and answers it with
    -- exactly one response, which has the request's number and command.
    pub handle-Answered :
        (d : Debugger)
        → r.arguments ≢ other
        → s.debugger ≡ some d
        → IsReady d.l_config d.b_ctx
        → (s' : Server) × (handle O r s ≡ some s') × Answered s'.sent
    unfolding handle
    handle-Answered d n e k = handle_arguments-Answered r.arguments d n e k
