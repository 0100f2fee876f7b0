-- ===== src/Dap/Serve/Answers.antt =====
-- Every request that is handled is answered.
use buildg.Prelude.{
  ◌≡◌, ◌≢◌, Bool, true, false, subst, refl, sym, ap, ◌∙◌, List, [], ◌∷◌, ◌++◌, Option, none, some,
  map, append_assoc, append-nil, inl, inr, Bool-cases, ◌==◌, arith,
}
use buildg.Int.{ℤ}
use buildg.Text.{Text, codes, text_eq}
use buildg.Errors.{Result, ok, err}
use buildg.Handler.{Handler, BreakContext}
use buildg.Dap.Messages.{
  Response, acknowledged, LaunchConfig, Arguments, initialize, disconnect, configuration_done,
  continue, next, stack_trace, scopes, threads, launch_request, set_breakpoints, variables,
  evaluate, unsupported, other, Request, new_response,
}
use buildg.Dap.Debugger.{
  Debugger, SolveOpt, Resumption, continued, next_step, resume_at, do_continue, do_next, launched,
  launch_unless, parse_solve_opt, launch,
}
use buildg.Controller.Sources.{◌>>=◌}
use buildg.Dap.Exec.{Step}
use buildg.Dap.Server.{
  Server, send, Outside, launch_debugger, launch_with, started, launch_response, on_launch,
  on_set_breakpoints, after_command, evaluate_at, with_debugger, Evaluation, evaluation,
  is_experimental, send_note, send_notes, run_words, after_evaluation, handle_arguments, handle,
}
use buildg.Dap.Answers.{responses, Answered, handle-Answered}
use buildg.Dap.Ready.{IsReady, run_words-some}
use buildg.Dap.Serve.{handle_all}

-- the request that a response answers
abbrev pub tag : Response → ℤ × Text
tag a = (a.request_seq, a.command)

abbrev pub tags : Server → List (ℤ × Text)
tags s = map tag (responses s.sent)

abbrev pub asked : Request → ℤ × Text
asked r = (r.seq, r.command)

-- A request of a known type that does not end the process.
abbrev pub IsKnown : Request → Type 0
IsKnown r = (r.arguments ≢ other) × (r.arguments ≢ disconnect)

-- Only the last request may end the process.
abbrev pub AreKnown : List Request → Type 0
AreKnown [] = Unit
AreKnown (r ∷ []) = r.arguments ≢ other
AreKnown (r ∷ q ∷ rs) = IsKnown r × AreKnown (q ∷ rs)

map-snoc : (qs : List Response) (a : Response) → map tag (qs ++ a ∷ []) ≡ map tag qs ++ tag a ∷ []
map-snoc [] a = refl
map-snoc (b ∷ qs) a = ap (λ l. tag b ∷ l) (map-snoc qs a)

some-injective : (t u : Server) → some t ≡ some u → t ≡ u
some-injective t u e = cc e

abbrev HasDebugger : Server → Type 0
HasDebugger s = (d : Debugger) × (s.debugger ≡ some d) × IsReady d.l_config d.b_ctx

launched-Ready :
    (l : Option LaunchConfig) (cfg : LaunchConfig) (b : Option (BreakContext × Handler))
    → IsReady l b
    → IsReady (some cfg) b
launched-Ready l cfg none k = tt
launched-Ready l cfg (some (ctx, h)) (a, b, c) = (a, b, tt)

resume_at-Ready :
    (each : Bool) (x : Resumption) (b : Option (BreakContext × Handler)) (d : Debugger)
    → IsReady d.l_config d.b_ctx
    → IsReady d.l_config b
    → IsReady (resume_at each x b d).l_config (resume_at each x b d).b_ctx
resume_at-Ready each x none d k m = k
resume_at-Ready each x (some (ctx, h)) d k m = m

module _ (O : Outside) (r : Request) where
  abbrev Keeps : Option Server → Type 0
  Keeps o = (s' : Server) × (o ≡ some s') × HasDebugger s'

  -- A launch that has succeeded sets the config alone, and one that has not sets nothing.
  abbrev KeepsReady : Result (SolveOpt O.tools) × Debugger → Type 0
  KeepsReady (_, d) = IsReady d.l_config d.b_ctx

  launched-KeepsReady :
      (cfg : LaunchConfig) (d : Debugger) (x : Result (SolveOpt O.tools))
      → IsReady d.l_config d.b_ctx
      → KeepsReady (launched O.tools cfg d x)
  launched-KeepsReady cfg d (err e) k = k
  launched-KeepsReady cfg d (ok opt) k = launched-Ready d.l_config cfg d.b_ctx k

  launch_unless-KeepsReady :
      (l : Option LaunchConfig) (cfg : LaunchConfig) (d : Debugger)
      → IsReady d.l_config d.b_ctx
      → KeepsReady (launch_unless O.tools l cfg d)
  launch_unless-KeepsReady none cfg d k = launched-KeepsReady cfg d (parse_solve_opt O.tools cfg) k
  launch_unless-KeepsReady (some _) cfg d k = k

  started-HasDebugger :
      (x : Result (SolveOpt O.tools) × Debugger) (s : Server)
      → KeepsReady x
      → HasDebugger (launch_response O r (started O x s))
  started-HasDebugger (err e, d) s k = (d, refl, k)
  started-HasDebugger (ok opt, d) s k = (d, refl, k)

  launch_with-HasDebugger :
      (cfg : LaunchConfig) (o : Option Debugger) (s : Server) (d : Debugger)
      → o ≡ some d
      → IsReady d.l_config d.b_ctx
      → HasDebugger (launch_response O r (launch_with O cfg o s))
  unfolding launch
  launch_with-HasDebugger cfg none s d q k = absurd (cc q)
  launch_with-HasDebugger cfg (some c) s d q k =
      let same : d ≡ c = cc q in
      started-HasDebugger (launch O.tools cfg c) s
        (launch_unless-KeepsReady c.l_config cfg c (subst (λ x. IsReady x.l_config x.b_ctx) same k))

  at_debugger :
      (s : Server) (f : Debugger → Server) (d : Debugger)
      → s.debugger ≡ some d
      → HasDebugger (f d)
      → Keeps (with_debugger O s f)
  at_debugger s f d q h = (f d, rw q refl, h)

  launch-HasDebugger :
      (x : Result LaunchConfig) (s : Server) (d : Debugger)
      → s.debugger ≡ some d
      → IsReady d.l_config d.b_ctx
      → HasDebugger (on_launch O r x s)
  unfolding launch_debugger
  launch-HasDebugger (err e) s d q k = (d, q, k)
  launch-HasDebugger (ok cfg) s d q k = elim (Bool-cases (cfg.program == [])) [
    | inl b ↦ rw b (d, q, k)
    | inr b ↦ rw b (launch_with-HasDebugger cfg s.debugger s d q k)
  ]

  command-HasDebugger :
      (x : Text × Option Text × Option (List Text × Text)) (s : Server)
      → HasDebugger s
      → HasDebugger (after_command O r x s)
  command-HasDebugger (out, none, none) s h = h
  command-HasDebugger (out, some e, none) s h = h
  command-HasDebugger (out, none, some (args, cwd)) s h = h
  command-HasDebugger (out, some e, some (args, cwd)) s h = h

  note-HasDebugger : (b : Bool) (s : Server) → HasDebugger s → HasDebugger (send_note O b s)
  note-HasDebugger false s h = h
  note-HasDebugger true s h = h

  notes-HasDebugger :
      (steps : List Step) (s : Server) → HasDebugger s → HasDebugger (send_notes O steps s)
  unfolding send_notes
  notes-HasDebugger [] s h = h
  notes-HasDebugger (st ∷ steps) s h =
      notes-HasDebugger steps _ (note-HasDebugger (is_experimental O st) s h)

  evaluation-Keeps :
      (o : Option Evaluation) (e : Evaluation) (s : Server)
      → o ≡ some e
      → HasDebugger s
      → Keeps (after_evaluation O r o s)
  evaluation-Keeps none e s q h = absurd (cc q)
  evaluation-Keeps (some (evaluation steps out x a)) e s q h =
      (_, refl, command-HasDebugger (out, x, a) _ (notes-HasDebugger steps s h))

  evaluate_at-Keeps :
      (t : Text) (l : Option LaunchConfig) (o : Option (BreakContext × Handler)) (s : Server)
      → IsReady l o
      → HasDebugger s
      → Keeps (evaluate_at O r t l o s)
  evaluate_at-Keeps t l none s k h = (_, refl, h)
  evaluate_at-Keeps t l (some (ctx, hd)) s k h =
      let (e, q) = run_words-some O (O.split_words t) ctx hd l k in
      evaluation-Keeps (run_words O (O.split_words t) ctx hd l) e s q h

  evaluate-Keeps :
      (t : Text) (d : Debugger) (o : Option Debugger) (s : Server)
      → o ≡ some d
      → IsReady d.l_config d.b_ctx
      → HasDebugger s
      → Keeps (do c ← o; evaluate_at O r t c.l_config c.b_ctx s)
  evaluate-Keeps t d none s q k h = absurd (cc q)
  evaluate-Keeps t d (some c) s q k h =
      let same : d ≡ c = cc q in
      evaluate_at-Keeps t c.l_config c.b_ctx s (subst (λ x. IsReady x.l_config x.b_ctx) same k) h

  handle_arguments-Keeps :
      (a : Arguments) (s : Server) (d : Debugger)
      → a ≢ disconnect
      → s.debugger ≡ some d
      → IsReady d.l_config d.b_ctx
      → Keeps (handle_arguments O a r s)
  unfolding handle_arguments on_set_breakpoints do_continue do_next
  handle_arguments-Keeps initialize s d n q k = (_, refl, (d, q, k))
  handle_arguments-Keeps (launch_request c) s d n q k =
      (_, refl, launch-HasDebugger (O.unmarshal c) s d q k)
  handle_arguments-Keeps disconnect s d n q k = absurd (n refl)
  handle_arguments-Keeps (set_breakpoints src ls) s d n q k = at_debugger s _ d q (_, refl, k)
  handle_arguments-Keeps configuration_done s d n q k = (_, refl, (d, q, k))
  handle_arguments-Keeps continue s d n q k =
      at_debugger (send (acknowledged (new_response r.seq r.command)) s) _ d q
        (_, refl, resume_at-Ready false continued d.b_ctx d k k)
  handle_arguments-Keeps next s d n q k =
      at_debugger (send (acknowledged (new_response r.seq r.command)) s) _ d q
        (_, refl, resume_at-Ready true next_step d.b_ctx d k k)
  handle_arguments-Keeps stack_trace s d n q k = at_debugger s _ d q (d, q, k)
  handle_arguments-Keeps scopes s d n q k = (_, refl, (d, q, k))
  handle_arguments-Keeps (variables i c) s d n q k = at_debugger s _ d q (d, q, k)
  handle_arguments-Keeps threads s d n q k = (_, refl, (d, q, k))
  handle_arguments-Keeps (evaluate c t) s d n q k = elim (Bool-cases (c == codes "repl")) [
    | inl b ↦ rw b (evaluate-Keeps t d s.debugger s q k (d, q, k))
    | inr b ↦ rw b (_, refl, (d, q, k))
  ]
  handle_arguments-Keeps (unsupported u) s d n q k = (_, refl, (d, q, k))
  handle_arguments-Keeps other s d n q k = (_, refl, (d, q, k))

  handle-Keeps :
      (s : Server) (d : Debugger)
      → r.arguments ≢ disconnect
      → s.debugger ≡ some d
      → IsReady d.l_config d.b_ctx
      → Keeps (handle O r s)
  unfolding handle
  handle-Keeps s d n q k = handle_arguments-Keeps r.arguments s d n q k

  Answered-tags : (s t : Server) → Answered r s t.sent → tags t ≡ tags s ++ asked r ∷ []
  Answered-tags s t (a, m, n, c) =
      let tagged : tag a ≡ asked r = ground (arith, n, c) in
      ap (λ l. map tag l) m ∙ map-snoc (responses s.sent) a ∙ ap (λ x. tags s ++ x ∷ []) tagged

  handle-tags :
      (s : Server) (d : Debugger)
      → IsKnown r
      → s.debugger ≡ some d
      → IsReady d.l_config d.b_ctx
      → (s' : Server) × (handle O r s ≡ some s')
        × HasDebugger s'
        × (tags s' ≡ tags s ++ asked r ∷ [])
  handle-tags s d h q k =
      let (t, e, a) = handle-Answered r s O d h.0 q k in
      let (u, f, (d', p, m)) = handle-Keeps s d h.1 q k in
      let same : t ≡ u = some-injective t u (sym e ∙ f) in
      (t, e, (d', ap (λ v. v.debugger) same ∙ p, m), Answered-tags s t a)

-- While the server has its debugger, and, if it is at a break, a build was launched and a RUN instruction has ids for its
-- mounts, whatever requests of known types are handled one after the other, of which at most the last is disconnect: none
-- panics, also no command exec of an evaluation, and the responses that are sent in addition are one for each request, in
-- this order, with its number and command.
pub handle_all-tags :
    (O : Outside) (rs : List Request) (s : Server) (d : Debugger)
    → AreKnown rs
    → s.debugger ≡ some d
    → IsReady d.l_config d.b_ctx
    → (s' : Server) × (handle_all O rs s ≡ some s') × (tags s' ≡ tags s ++ map asked rs)
unfolding handle_all
handle_all-tags O [] s d h q k = (s, refl, sym (append-nil (tags s)))
handle_all-tags O (r ∷ []) s d h q k =
    let (t, e, a) = handle-Answered r s O d h q k in (t, rw e refl, Answered-tags O r s t a)
handle_all-tags O (r ∷ x ∷ rs) s d h q k =
    let (t, e, (d', p, l), m) = handle-tags O r s d h.0 q k in
    let (u, f, n) = handle_all-tags O (x ∷ rs) t d' h.1 p l in
    (
      u,
      rw e f,
      n
          ∙ ap (λ l. l ++ map asked (x ∷ rs)) m
          ∙ append_assoc (tags s) (asked r ∷ []) (map asked (x ∷ rs)),
    )
