-- ===== src/Session/Leaves.antt =====
-- A shell that is left at the first break of a build ends the session.
use buildg.Prelude.{
  ℕ, suc, ◌≡◌, refl, ap, ◌∙◌, Bool, true, false, List, [], ◌∷◌, ◌++◌, Option, none, some, ◌==◌,
  arith, inl,
}
use buildg.Text.{Text, text_eq}
use buildg.Errors.{exit, is_exit, is_reload, Result, ok}
use buildg.Types.{Location}
use buildg.Handler.{Handler, BreakContext}
use buildg.Handler.Pauses.{Breaks, handle_breaks}
use buildg.Controller.Sources.{Source, get_location}
use buildg.Controller.Loop.{
  Event, State, returned, handle_found, finish_round, go_on, started_after, round, loop,
  controller_handle,
}
use buildg.Client.Debug.{
  waited, of_handler, failure_error, DebugConfig, answered, debug_session, debug,
}
use buildg.Shell.Commands.{Console, Progress, runs, exit_build, exit_command, action}
use buildg.Shell.Breaks.{
  Input, line, broken, canceled_reading, CommandHandler, write_shown, prompted, hit_lines, lines_at,
  dispatch, read_loop, break_handler,
}
use buildg.Main.Progress.{File, ProgressWriter, disable, enable, buffered}
use buildg.Session.{
  new_handler, Shell, SessionState, Plan, shell_handler, progress_of, built, debug_build,
  session_builds,
}

-- The first line, if there is one, is a command exit.
abbrev pub IsLeaving : Console → List Input → Type 0
IsLeaving K [] = Unit
IsLeaving K (line t ∷ is) =
    (w : Text) × (ws : List Text) × ((w == []) ≡ false)
    × (K.split t ≡ some (w ∷ ws))
    × (K.parse (w ∷ ws) ≡ runs exit_build)
IsLeaving K (i ∷ is) = ⊥

module _ (K : Console) (ctx : BreakContext) (progress : Progress) where
  read_loop-leaves :
      (is : List Input) (h : Handler) (ch : CommandHandler)
      → IsLeaving K is
      → (ch' : CommandHandler) × (read_loop K ctx progress is h ch ≡ some (some exit, h, ch'))
  unfolding read_loop dispatch action exit_command
  read_loop-leaves [] h ch l = (_, refl)
  read_loop-leaves (broken e ∷ is) h ch l = absurd l
  read_loop-leaves (canceled_reading e ∷ is) h ch l = absurd l
  read_loop-leaves (line t ∷ is) h ch (w, ws, n, s, p) =
      let first : CommandHandler = prompted K ctx progress is ch in
      (
        record first { shown = first.shown ++ ([] ++ []); steps = first.steps ++ [] },
        rw (s, n, p) refl,
      )

  break_handler-leaves :
      (h : Handler) (ch : CommandHandler)
      → IsLeaving K ch.inputs
      → ch.target_breakpoint ≡ []
      → (ch' : CommandHandler) × (break_handler K ctx progress h ch ≡ some (some exit, h, ch'))
  unfolding break_handler
  break_handler-leaves h ch l e =
      let seen : CommandHandler =
        record (write_shown (lines_at K ctx progress h ∷ [])
          (write_shown (hit_lines ctx.hits) ch)) { target_breakpoint = [] } in
      let (ch', q) = read_loop-leaves ch.inputs h seen l in (ch', rw e q)

-- The terminal gets what was kept, in one write, unless that is empty.
abbrev pub with_kept : (T : File) → Text → T.Disk → T.Disk
with_kept T [] terminal = terminal
with_kept T (c ∷ cs) terminal = (T.write_bytes (c ∷ cs) terminal).1

enable-shows :
    (T L : File) (terminal : T.Disk) (enabled : Bool) (buf : Text) (l : Option L.Disk)
    → let w : ProgressWriter T L = record {
      terminal = terminal;
      enabled = enabled;
      buf = buf;
      log_file = l;
    } in
      ((enable w).enabled ≡ true)
      × (buffered (enable w) ≡ [])
      × ((enable w).terminal ≡ with_kept T buf terminal)
unfolding enable buffered
enable-shows T L terminal enabled [] l = (refl, refl, refl)
enable-shows T L terminal enabled (c ∷ cs) l = (refl, refl, refl)

module _ {T L : File} (K : Console) (read_log : Option L.Disk → Result Text)
    (deref : ℕ → Source) where
  -- The shell of the first state is left: the terminal has got what the writer of the progress kept.
  abbrev pub IsLeft : SessionState T L → SessionState T L → Type 0
  IsLeft s s' =
      (s'.shell.progress.enabled ≡ true)
      × (buffered s'.shell.progress ≡ [])
      × (s'.shell.progress.terminal ≡ with_kept T s.shell.progress.buf s.shell.progress.terminal)
      × (s'.handling ≡ false)

  shell_handler-leaves :
      (ctx : BreakContext) (h : Handler) (w : Shell T L)
      → IsLeaving K w.commands.inputs
      → w.commands.target_breakpoint ≡ []
      → (w' : Shell T L) × (shell_handler K read_log deref ctx h w ≡ (some exit, h, w'))
        × (w'.progress ≡ enable (disable w.progress))
  unfolding shell_handler
  shell_handler-leaves ctx h w l e =
      let p : ProgressWriter T L = disable w.progress in
      let (ch', q) = break_handler-leaves K ctx (progress_of K read_log deref p) h w.commands l e in
      (record w { commands = ch'; progress = enable p }, rw q refl, refl)

  round-leaves :
      (ev : Event) (s : State (Shell T L)) (loc : Location) (locs : List Location)
      → get_location deref ev.msg.vertex ev.sources ≡ some (ok (loc ∷ locs))
      → Breaks ev.msg (loc ∷ locs) s.handler
      → IsLeaving K s.world.commands.inputs
      → s.world.commands.target_breakpoint ≡ []
      → (s' : State (Shell T L)) × (round (shell_handler K read_log deref) deref ev s
          ≡ some (some exit, s'))
        × (s'.world.progress ≡ enable (disable s.world.progress))
  unfolding round
  round-leaves ev s loc locs g b l e =
      let cb = shell_handler K read_log deref in
      let (ctx, q, c, d, a) = handle_breaks cb ev.msg loc locs s.handler s.world b in
      let entered : Handler = record s.handler { entried = true } in
      let (w', r, t) = shell_handler-leaves ctx entered s.world l e in
      (
        record { handler = entered; world = w'; pauses = s.pauses },
        ap
              (λ found.
                finish_round cb deref ev.msg.debug_id s.pauses
                  (handle_found cb deref ev.msg found s.handler s.world))
              g
            ∙ ap (λ m. finish_round cb deref ev.msg.debug_id s.pauses (some m)) (q ∙ r),
        t,
      )

  debug_build-leaves :
      (plan : Plan T L) (s : SessionState T L) (ev : Event) (evs : List Event) (loc : Location)
      (locs : List Location)
      → s.handling ≡ false
      → plan.events s ≡ ev ∷ evs
      → get_location deref ev.msg.vertex ev.sources ≡ some (ok (loc ∷ locs))
      → IsLeaving K s.shell.commands.inputs
      → s.shell.commands.target_breakpoint ≡ []
      → (s' : SessionState T L) × (debug_build K read_log deref plan s
          ≡ (waited (some (of_handler exit)), s'))
        × IsLeft s s'
  unfolding debug_build new_handler controller_handle loop disable
  debug_build-leaves plan s ev evs loc locs h v g l e =
      let start : State (Shell T L) = record {
        handler = record (new_handler (some s.breakpoints) true false) { image = plan.image };
        world = s.shell;
        pauses = s.pauses;
      } in
      let (st, r, p) = round-leaves ev start loc locs g (refl, inl (refl, refl)) l e in
      let cb = shell_handler K read_log deref in
      let ends : loop cb deref false (plan.events s) start ≡ (returned exit, st) =
        ap (λ es. loop cb deref false es start) v
        ∙ ap (λ x. go_on cb deref start x (loop cb deref false evs)) r in
      let handled : controller_handle cb deref s.handling false (plan.events s) start
          ≡ (false, returned exit, st) =
        ap (λ b. controller_handle cb deref b false (plan.events s) start) h
        ∙ ap (started_after cb deref) ends in
      let w = disable s.shell.progress in
      let shown = enable-shows T L w.terminal w.enabled w.buf w.log_file in
      (
        record {
          breakpoints = st.handler.breakpoints;
          shell = st.world;
          pauses = st.pauses;
          handling = false;
        },
        ap (built K read_log deref plan s) handled,
        (
          ap (λ x. x.enabled) p ∙ shown.0,
          ap buffered p ∙ shown.1,
          ap (λ x. x.terminal) p ∙ shown.2,
          refl,
        ),
      )

  -- When the shell has no target and its first line is exit, or its input has ended, and the first event of a build has
  -- a location, then the handler stops on entry and returns exit, the loop ends, and Debug makes this one build and
  -- returns no error; the terminal has got what the writer of the progress had kept, in one write if there was something,
  -- the writer is enabled and its buffer empty, and the loop is marked as ended.
  pub debug_session-leaves :
      (cfg : DebugConfig) (plan : Plan T L) (s : SessionState T L) (ev : Event) (evs : List Event)
      (loc : Location) (locs : List Location) (fuel : ℕ)
      → cfg.has_breakpoint_handler ≡ true
      → s.handling ≡ false
      → plan.events s ≡ ev ∷ evs
      → get_location deref ev.msg.vertex ev.sources ≡ some (ok (loc ∷ locs))
      → IsLeaving K s.shell.commands.inputs
      → s.shell.commands.target_breakpoint ≡ []
      → (s' : SessionState T L) × (debug_session
            (session_builds K read_log deref)
            (suc fuel)
            cfg
            (ok plan)
            answered
            s
          ≡ some (none, s'))
        × IsLeft s s'
  unfolding debug_session debug failure_error is_exit is_reload
  debug_session-leaves cfg plan s ev evs loc locs fuel b h v g l e =
      let (s', q, left) = debug_build-leaves plan s ev evs loc locs h v g l e in
      (s', rw (b, q) (ground arith), left)
