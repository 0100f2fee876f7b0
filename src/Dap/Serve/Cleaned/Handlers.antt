-- ===== src/Dap/Serve/Cleaned/Handlers.antt =====
-- What the handling of a request leaves of the calls of the cleanup function.
use buildg.Prelude.{
  ℕ, ◌+◌, ◌≤◌, ◌≡◌, refl, ◌∙◌, subst, inl, inr, Bool, true, false, Bool-cases, List, [], ◌∷◌, ◌++◌,
  Option, none, some, arith, if◌then◌else◌, ◌==◌, length, length-append,
}
use buildg.Int.{pos}
use buildg.Text.{Text, codes, text_eq}
use buildg.Errors.{Result, ok, err}
use buildg.Handler.{Handler, BreakContext}
use buildg.Controller.Sources.{◌>>=◌}
use buildg.Dap.Messages.{
  LaunchConfig, Arguments, initialize, disconnect, configuration_done, continue, next, stack_trace,
  scopes, threads, launch_request, set_breakpoints, variables, evaluate, unsupported, other,
  Request, acknowledged, new_response, thread_event,
}
use buildg.Dap.Debugger.{
  SolveOpt, Debugger, Resumption, resume_at, do_continue, do_next, launched, launch_unless, launch,
  parse_solve_opt,
}
use buildg.Dap.Server.{
  Server, send, Outside, finish_messages, is_running, launch_debugger, launch_with, started,
  launch_response, on_launch, on_disconnect, on_set_breakpoints, after_command, evaluate_at,
  with_debugger, Evaluation, evaluation, is_experimental, send_note, send_notes, after_evaluation,
  handle_arguments,
}
use buildg.Dap.Exec.{Step}

-- a build that is still to end, or may still be started
abbrev pub owed : Bool → Option LaunchConfig → ℕ
owed true l = 1
owed false none = 1
owed false (some _) = 0

abbrev pub Consistent : Bool → Option LaunchConfig → Type 0
Consistent true none = ⊥
Consistent r l = Unit

-- The cleanup function is called once, and not before the build of the session has ended; at most once when the
-- server has no debugger any more.
abbrev pub Cleaned : Option Debugger → List ℕ → Type 0
Cleaned none c = length c ≤ 1
Cleaned (some d) c = length c + owed d.running d.l_config ≡ 1

abbrev pub Sound : Option Debugger → List ℕ → Type 0
Sound none c = length c ≤ 1
Sound (some d) c = (length c + owed d.running d.l_config ≡ 1) × Consistent d.running d.l_config

abbrev pub IsSound : Server → Type 0
IsSound s = (s.has_cleanup ≡ true) × Sound s.debugger s.cleanups

some-injective : (t u : Server) → some t ≡ some u → t ≡ u
some-injective t u e = cc e

IsSound_of : (t s : Server) → IsSound t → some t ≡ some s → IsSound s
IsSound_of t s h e = subst IsSound (some-injective t s e) h

resume_at-Sound :
    (each : Bool) (r : Resumption) (b : Option (BreakContext × Handler)) (d : Debugger) (c : List ℕ)
    → Sound (some d) c
    → Sound (some (resume_at each r b d)) c
resume_at-Sound each r none d c h = h
resume_at-Sound each r (some (ctx, x)) d c h = h

not_launched :
    (r : Bool) (c : List ℕ) → (length c + owed r none ≡ 1) × Consistent r none → length c + 1 ≡ 1
not_launched true c h = h.0
not_launched false c h = h.0

module _ (O : Outside) where
  launched-Sound :
      (cfg : LaunchConfig) (d : Debugger) (r : Result (SolveOpt O.tools)) (c : List ℕ)
      → Sound (some d) c
      → length c + 1 ≡ 1
      → Sound (some (launched O.tools cfg d r).1) c
  launched-Sound cfg d (err e) c h n = h
  launched-Sound cfg d (ok opt) c h n = (n, tt)

  launch_unless-Sound :
      (l : Option LaunchConfig) (cfg : LaunchConfig) (d : Debugger) (c : List ℕ)
      → (length c + owed d.running l ≡ 1) × Consistent d.running l
      → Sound (some d) c
      → Sound (some (launch_unless O.tools l cfg d).1) c
  launch_unless-Sound (some x) cfg d c k h = h
  launch_unless-Sound none cfg d c k h =
      launched-Sound cfg d (parse_solve_opt O.tools cfg) c h (not_launched d.running c k)

  started-IsSound :
      (r : Request) (x : Result (SolveOpt O.tools) × Debugger) (s : Server)
      → s.has_cleanup ≡ true
      → Sound (some x.1) s.cleanups
      → IsSound (launch_response O r (started O x s))
  started-IsSound r (err e, d) s b h = (b, h)
  started-IsSound r (ok opt, d) s b h = (b, h)

  launch_with-IsSound :
      (r : Request) (cfg : LaunchConfig) (o : Option Debugger) (s : Server)
      → Sound o s.cleanups
      → IsSound s
      → IsSound (launch_response O r (launch_with O cfg o s))
  unfolding launch
  launch_with-IsSound r cfg none s k h = h
  launch_with-IsSound r cfg (some d) s k h =
      started-IsSound r (launch O.tools cfg d) s h.0
        (launch_unless-Sound d.l_config cfg d s.cleanups k k)

  on_launch-IsSound :
      (r : Request) (x : Result LaunchConfig) (s : Server) → IsSound s → IsSound (on_launch O r x s)
  unfolding launch_debugger
  on_launch-IsSound r (err e) s h = h
  on_launch-IsSound r (ok cfg) s h = elim (Bool-cases (cfg.program == [])) [
    | inl b ↦ rw b h
    | inr b ↦ rw b (launch_with-IsSound r cfg s.debugger s h.1 h)
  ]

  called :
      (hc : Bool) (c : List ℕ) (n : ℕ)
      → hc ≡ true
      → length c + 1 ≡ 1
      → length (if hc then c ++ n ∷ [] else c) ≡ 1
  called true c n e h = omega (arith, length-append c (n ∷ []))
  called false c n e h = absurd (cc e)

  still_called :
      (l : Option LaunchConfig) (hc : Bool) (c : List ℕ) (n : ℕ)
      → Consistent true l
      → hc ≡ true
      → length c + 1 ≡ 1
      → (length (if hc then c ++ n ∷ [] else c) + owed false l ≡ 1) × Consistent false l
  still_called none hc c n k e h = absurd k
  still_called (some x) hc c n k e h = (omega (arith, called hc c n e h), tt)

  pub ended :
      (b : Bool) (d : Debugger) (s : Server)
      → s.has_cleanup ≡ true
      → (length s.cleanups + owed b d.l_config ≡ 1) × Consistent b d.l_config
      → IsSound (finish_messages b (record s { debugger = some (record d { running = false }) }))
  ended false d s e h = (e, h)
  ended true d s e h = (e, still_called d.l_config s.has_cleanup s.cleanups _ h.1 e h.0)

  disconnected :
      (b : Bool) (l : Option LaunchConfig) (s : Server)
      → s.has_cleanup ≡ true
      → length s.cleanups + owed b l ≡ 1
      → length (finish_messages b s).cleanups ≤ 1
  disconnected false l s e h = omega (arith, h)
  disconnected true l s e h = omega (
    arith,
    called s.has_cleanup s.cleanups (length (send (thread_event (codes "exited") (pos 1)) s).sent) e
        h,
  )

  kept_cleanup : (b : Bool) (s : Server) → (finish_messages b s).has_cleanup ≡ s.has_cleanup
  kept_cleanup false s = refl
  kept_cleanup true s = refl

  last_cleanup :
      (o : Option Debugger) (s : Server)
      → s.has_cleanup ≡ true
      → Sound o s.cleanups
      → length (finish_messages (is_running O o) s).cleanups ≤ 1
  last_cleanup none s e h = h
  last_cleanup (some d) s e h = disconnected d.running d.l_config s e h.0

  at_debugger :
      (o : Option Debugger) (f : Debugger → Server) (s' : Server)
      → (do d ← o; some (f d)) ≡ some s'
      → (d : Debugger) × (o ≡ some d) × (f d ≡ s')
  at_debugger none f s' e = absurd (cc e)
  at_debugger (some d) f s' e = (d, refl, cc e)

  pub on_debugger :
      (s t : Server) (f : Debugger → Server)
      → ((d : Debugger) → s.debugger ≡ some d → IsSound (f d))
      → with_debugger O s f ≡ some t
      → IsSound t
  on_debugger s t f h e = let (d, q, r) = at_debugger s.debugger f t e in subst IsSound r (h d q)

  pub at_same :
      (s : Server) (d : Debugger) → IsSound s → s.debugger ≡ some d → Sound (some d) s.cleanups
  at_same s d h q = subst (λ o. Sound o s.cleanups) q h.1

  command-IsSound :
      (r : Request) (x : Text × Option Text × Option (List Text × Text)) (s : Server)
      → IsSound s
      → IsSound (after_command O r x s)
  command-IsSound r (out, none, none) s h = h
  command-IsSound r (out, some e, none) s h = h
  command-IsSound r (out, none, some (args, cwd)) s h = h
  command-IsSound r (out, some e, some (args, cwd)) s h = h

  note-IsSound : (b : Bool) (s : Server) → IsSound s → IsSound (send_note O b s)
  note-IsSound false s h = h
  note-IsSound true s h = h

  notes-IsSound : (steps : List Step) (s : Server) → IsSound s → IsSound (send_notes O steps s)
  unfolding send_notes
  notes-IsSound [] s h = h
  notes-IsSound (st ∷ steps) s h = notes-IsSound steps _ (note-IsSound (is_experimental O st) s h)

  evaluation-IsSound :
      (r : Request) (o : Option Evaluation) (s t : Server)
      → IsSound s
      → after_evaluation O r o s ≡ some t
      → IsSound t
  evaluation-IsSound r none s t h e = absurd (cc e)
  evaluation-IsSound r (some (evaluation steps out x a)) s t h e =
      IsSound_of _ t (command-IsSound r (out, x, a) _ (notes-IsSound steps s h)) e

  evaluate_at-IsSound :
      (r : Request) (x : Text) (l : Option LaunchConfig) (o : Option (BreakContext × Handler))
      (s t : Server)
      → IsSound s
      → evaluate_at O r x l o s ≡ some t
      → IsSound t
  evaluate_at-IsSound r x l none s t h e = IsSound_of _ t h e
  evaluate_at-IsSound r x l (some (ctx, hd)) s t h e = evaluation-IsSound r _ s t h e

  evaluate-IsSound :
      (r : Request) (x : Text) (o : Option Debugger) (s t : Server)
      → IsSound s
      → (do d ← o; evaluate_at O r x d.l_config d.b_ctx s) ≡ some t
      → IsSound t
  evaluate-IsSound r x none s t h e = absurd (cc e)
  evaluate-IsSound r x (some d) s t h e = evaluate_at-IsSound r x d.l_config d.b_ctx s t h e

  pub handle_arguments-IsSound :
      (a : Arguments) (r : Request) (s t : Server)
      → IsSound s
      → handle_arguments O a r s ≡ some t
      → IsSound t
  unfolding handle_arguments on_disconnect on_set_breakpoints do_continue do_next
  handle_arguments-IsSound initialize r s t h e = IsSound_of _ t h e
  handle_arguments-IsSound (launch_request c) r s t h e =
      IsSound_of _ t (on_launch-IsSound r (O.unmarshal c) s h) e
  handle_arguments-IsSound disconnect r s t h e =
      IsSound_of _ t
        (kept_cleanup (is_running O s.debugger) s ∙ h.0, last_cleanup s.debugger s h.0 h.1) e
  handle_arguments-IsSound (set_breakpoints src ls) r s t h e =
      on_debugger s t _ (λ d q. (h.0, at_same s d h q)) e
  handle_arguments-IsSound configuration_done r s t h e = IsSound_of _ t h e
  handle_arguments-IsSound continue r s t h e =
      on_debugger (send (acknowledged (new_response r.seq r.command)) s) t _
        (λ d q. (h.0, resume_at-Sound _ _ d.b_ctx d s.cleanups (at_same s d h q))) e
  handle_arguments-IsSound next r s t h e =
      on_debugger (send (acknowledged (new_response r.seq r.command)) s) t _
        (λ d q. (h.0, resume_at-Sound _ _ d.b_ctx d s.cleanups (at_same s d h q))) e
  handle_arguments-IsSound stack_trace r s t h e = on_debugger s t _ (λ d q. h) e
  handle_arguments-IsSound scopes r s t h e = IsSound_of _ t h e
  handle_arguments-IsSound (variables i c) r s t h e = on_debugger s t _ (λ d q. h) e
  handle_arguments-IsSound threads r s t h e = IsSound_of _ t h e
  handle_arguments-IsSound (evaluate c x) r s t h e = elim (Bool-cases (c == codes "repl")) [
    | inl b ↦ evaluate-IsSound r x s.debugger s t h (rw b at e)
    | inr b ↦ IsSound_of _ t h (rw b at e)
  ]
  handle_arguments-IsSound (unsupported u) r s t h e = IsSound_of _ t h e
  handle_arguments-IsSound other r s t h e = IsSound_of _ t h e
