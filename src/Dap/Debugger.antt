-- ===== src/Dap/Debugger.antt =====
-- pkg/dap/debugger.go: the debugger of a session. A parameter stands for each function of other packages.
use buildg.Prelude.{
  Bool, true, false, List, [], ◌∷◌, ◌++◌, Option, none, some, map, if◌then◌else◌, ◌==◌,
}
use buildg.Int.{ℤ}
use buildg.Text.{Text, codes, text_eq}
use buildg.Dict.{Dict, keys}
use buildg.Decimal.{parse_int}
use buildg.Errors.{no_program, multi_session, Result, ok, err, ◌>>=◌}
use buildg.Breakpoints.{Breakpoints, on_fail, new_breakpoints, add}
use buildg.Handler.{Handler, BreakContext, set_break_each_vertex}
use buildg.Dap.Messages.{LaunchConfig}
use buildg.Dap.Strings.{split_path}

-- BuildKit's parsers of options, by what they return, and the credentials of the user.
pub record BuildTools : Type 1 where
  pub Attachable : Type 0
  pub Export : Type 0
  pub Ssh : Type 0
  pub parse_opt : List Text → Result (Dict Text Text)
  pub parse_output : List Text → Result (List Export)
  pub docker_auth : Attachable
  pub parse_ssh : List Text → Result (List Ssh)
  pub ssh_provider : List Ssh → Result Attachable
  pub parse_secret : List Text → Result Attachable

-- What is sent on `mesCh`.
pub data Resumption : Type 0 where
  continued next_step : Resumption

-- `b_ctx` holds the break context and the handler that it points to; `resumptions` what waits on `mesCh`.
-- `running` says that a launched build has not finished.
pub record Debugger : Type 0 where
  pub bps : Breakpoints
  pub l_config : Option LaunchConfig
  pub b_ctx : Option (BreakContext × Handler)
  pub resumptions : List Resumption
  pub running : Bool

abbrev pub new_debugger_of : Result Text × Breakpoints → Result Debugger
new_debugger_of (err e, b) = err e
new_debugger_of (ok key, b) =
    ok (record { bps = b; l_config = none; b_ctx = none; resumptions = []; running = false })

unfoldable pub new_debugger : Result Debugger
new_debugger = new_debugger_of (add (codes "on-fail") on_fail new_breakpoints)

module _ (T : BuildTools) where
  open T use {
    Attachable, Export, parse_opt, parse_output, docker_auth, parse_ssh, ssh_provider, parse_secret,
  }

  pub record SolveOpt : Type 0 where
    pub exports : List Export
    pub local_dirs : Dict Text Text
    pub frontend_attrs : Dict Text Text
    pub session : List Attachable

  -- `optStr`
  unfoldable pub options : Text → LaunchConfig → List Text
  options file cfg =
      (codes "filename=" ++ file) ∷ []
      ++ (if cfg.target == [] then [] else (codes "target=" ++ cfg.target) ∷ [])
      ++ map (λ ba. codes "build-arg:" ++ ba) cfg.build_args

  abbrev pub with_ssh : List Text → List Attachable → Result (List Attachable)
  with_ssh [] attachable = ok attachable
  with_ssh (s ∷ ss) attachable = do
    configs ← parse_ssh (s ∷ ss)
    sp ← ssh_provider configs
    ok (attachable ++ sp ∷ [])

  abbrev pub with_secrets : List Text → List Attachable → Result (List Attachable)
  with_secrets [] attachable = ok attachable
  with_secrets (s ∷ ss) attachable = do
    provider ← parse_secret (s ∷ ss)
    ok (attachable ++ provider ∷ [])

  abbrev pub parse_options : Text → Text → LaunchConfig → Result SolveOpt
  parse_options dir file cfg = do
    frontend_attrs ← parse_opt (options file cfg)
    exports ← parse_output (codes "type=image" ∷ [])
    attachable ← with_ssh cfg.ssh (docker_auth ∷ [])
    session ← with_secrets cfg.secrets attachable
    ok (record {
      exports = exports;
      local_dirs = (codes "context", dir) ∷ (codes "dockerfile", dir) ∷ [];
      frontend_attrs = frontend_attrs;
      session = session;
    })

  unfoldable pub parse_solve_opt : LaunchConfig → Result SolveOpt
  parse_solve_opt cfg =
      let (dir, file) = split_path cfg.program in
      if cfg.program == [] then err no_program else parse_options dir file cfg

  abbrev pub launched : LaunchConfig → Debugger → Result SolveOpt → Result SolveOpt × Debugger
  launched cfg d (err e) = (err e, d)
  launched cfg d (ok opt) = (ok opt, record d { l_config = some cfg; running = true })

  abbrev pub launch_unless :
      Option LaunchConfig → LaunchConfig → Debugger → Result SolveOpt × Debugger
  launch_unless (some _) cfg d = (err multi_session, d)
  launch_unless none cfg d = launched cfg d (parse_solve_opt cfg)

  -- `debugger.launch` up to the start of the build, with the options that the build gets.
  unfoldable pub launch : LaunchConfig → Debugger → Result SolveOpt × Debugger
  launch cfg d = launch_unless d.l_config cfg d

abbrev pub resume_at : Bool → Resumption → Option (BreakContext × Handler) → Debugger → Debugger
resume_at each r none d = d
resume_at each r (some (ctx, h)) d = record d {
  b_ctx = some (ctx, set_break_each_vertex each h);
  resumptions = d.resumptions ++ r ∷ [];
}

-- Without a break the request is only logged.
unfoldable pub do_continue : Debugger → Debugger
do_continue d = resume_at false continued d.b_ctx d

unfoldable pub do_next : Debugger → Debugger
do_next d = resume_at true next_step d.b_ctx d

abbrev pub id_step : Option ℤ → List ℤ → List ℤ
id_step none ids = ids
id_step (some i) ids = i ∷ ids

-- the ids of the hit breakpoints, without the keys that are no numbers
unfoldable pub breakpoint_ids : List Text → List ℤ
breakpoint_ids [] = []
breakpoint_ids (key ∷ rest) = id_step (parse_int key) (breakpoint_ids rest)

-- `debugger.breakHandler` up to its wait on `mesCh`, with what it sends on `stoppedCh`.
unfoldable pub break_handler : BreakContext → Handler → Debugger → List ℤ × Debugger
break_handler ctx h d = (breakpoint_ids (keys ctx.hits), record d { b_ctx = some (ctx, h) })
