-- ===== src/Shell/Breaks/Errors.antt =====
-- Which errors the shell returns at a break.
use buildg.Prelude.{
  ◌≡◌, refl, ◌⊎◌, inl, inr, Bool, true, false, List, [], ◌∷◌, Option, none, some, if◌then◌else◌,
  ◌==◌, In, subst,
}
use buildg.Int.{ℤ, pos, pos_part, leb_ℤ}
use buildg.Text.{Text, codes, text_eq}
use buildg.Dict.{keys}
use buildg.Errors.{Error, exit, reload, wrapped, Result, ok, err}
use buildg.Handler.{Handler, BreakContext}
use buildg.Listing.{scan_lines}
use buildg.Log.{last_lines}
use buildg.Shell.{Session, break_command}
use buildg.Shell.Exec.{ExecStep, Terminal, exec_command}
use buildg.Shell.Commands.{
  Command, set_break, clear_key, continue_key, breakpoints, clear_keys, next, reload_build,
  exit_build, exec, list, log, Parsed, runs, refuses, shows, Progress, Console, HandlerContext,
  changed, executed, log_printed, log_read, log_command, list_command, reload_command, exit_command,
  action,
}
use buildg.Shell.Breaks.{
  Input, line, broken, canceled_reading, CommandHandler, Dispatched, context_of, after_action,
  run_parsed, dispatch, dispatch_line, read_on, prompted, read_loop, is_among, break_handler,
}

-- the errors of reading
abbrev pub input_errors : List Input → List Error
input_errors [] = []
input_errors (line t ∷ rest) = input_errors rest
input_errors (broken e ∷ rest) = e ∷ input_errors rest
input_errors (canceled_reading e ∷ rest) =
    wrapped (codes "canceled reading line") e ∷ input_errors rest

abbrev IsAsked : Option Error → Type 0
IsAsked none = Unit
IsAsked (some e) = (e ≡ exit) ⊎ (e ≡ reload)

-- what a command leaves to return
abbrev LeavesAsked : Option (Option Error × HandlerContext) → Type 0
LeavesAsked none = Unit
LeavesAsked (some (e, c)) = IsAsked c.err

changed-LeavesAsked :
    (c : HandlerContext) (x : Option (Option Error × Session))
    → IsAsked c.err
    → LeavesAsked (changed c x)
changed-LeavesAsked c none a = tt
changed-LeavesAsked c (some (e, s)) a = a

executed-LeavesAsked :
    (c : HandlerContext) (x : Option (Option Error × List ExecStep))
    → IsAsked c.err
    → LeavesAsked (executed c x)
executed-LeavesAsked c none a = tt
executed-LeavesAsked c (some (e, s)) a = a

log_printed-LeavesAsked :
    (c : HandlerContext) (x : Option (List Text)) → IsAsked c.err → LeavesAsked (log_printed c x)
log_printed-LeavesAsked c none a = tt
log_printed-LeavesAsked c (some ls) a = a

if-LeavesAsked :
    (b : Bool) (x y : Option (Option Error × HandlerContext))
    → LeavesAsked x
    → LeavesAsked y
    → LeavesAsked (if b then x else y)
if-LeavesAsked true x y a b = a
if-LeavesAsked false x y a b = b

log_read-LeavesAsked :
    (n : ℤ) (all : Bool) (c : HandlerContext) (r : Result Text)
    → IsAsked c.err
    → LeavesAsked (log_read n all c r)
log_read-LeavesAsked n all c (err e) a = a
log_read-LeavesAsked n all c (ok t) a = if-LeavesAsked all _ _ a (
    if-LeavesAsked (leb_ℤ n (pos 0)) _ _ a
      (log_printed-LeavesAsked c (last_lines (pos_part n) (scan_lines t)) a))

action-LeavesAsked :
    (T : Terminal) (m : Command) (c : HandlerContext) → IsAsked c.err → LeavesAsked (action T m c)
unfolding action list_command log_command reload_command exit_command
action-LeavesAsked T (set_break bp) c a = changed-LeavesAsked c (break_command bp c.session) a
action-LeavesAsked T (clear_key key) c a = a
action-LeavesAsked T (continue_key bp) c a = a
action-LeavesAsked T breakpoints c a = a
action-LeavesAsked T clear_keys c a = a
action-LeavesAsked T next c a = a
action-LeavesAsked T reload_build c a = inr refl
action-LeavesAsked T exit_build c a = inl refl
action-LeavesAsked T (exec f) c a =
    executed-LeavesAsked c (exec_command T f c.info c.session.handler) a
action-LeavesAsked T (list r b z all) c a = a
action-LeavesAsked T (log n all more) c a =
    if-LeavesAsked more _ _ a (log_read-LeavesAsked n all c c.progress.log a)

abbrev GivesAsked : Dispatched → Type 0
GivesAsked none = Unit
GivesAsked (some (cont, e, h, ch)) = IsAsked e

after_action-GivesAsked :
    (ch : CommandHandler) (x : Option (Option Error × HandlerContext))
    → LeavesAsked x
    → GivesAsked (after_action ch x)
after_action-GivesAsked ch none a = tt
after_action-GivesAsked ch (some (e, c)) a = a

if-GivesAsked :
    (b : Bool) (x y : Dispatched) → GivesAsked x → GivesAsked y → GivesAsked (if b then x else y)
if-GivesAsked true x y a b = a
if-GivesAsked false x y a b = b

module _ (K : Console) (ctx : BreakContext) (progress : Progress) where
  run_parsed-GivesAsked :
      (p : Parsed) (h : Handler) (ch : CommandHandler)
      → GivesAsked (run_parsed K ctx progress p h ch)
  run_parsed-GivesAsked (runs m) h ch =
      after_action-GivesAsked ch (action K.terminal m (context_of ctx progress h))
        (action-LeavesAsked K.terminal m (context_of ctx progress h) tt)
  run_parsed-GivesAsked (refuses t e) h ch = tt
  run_parsed-GivesAsked (shows t) h ch = tt

  dispatch_line-GivesAsked :
      (o : Option (List Text)) (h : Handler) (ch : CommandHandler)
      → GivesAsked (dispatch_line K ctx progress o h ch)
  unfolding dispatch
  dispatch_line-GivesAsked none h ch = tt
  dispatch_line-GivesAsked (some []) h ch = tt
  dispatch_line-GivesAsked (some (a ∷ rest)) h ch =
      if-GivesAsked (a == []) _ _ tt (run_parsed-GivesAsked (K.parse (a ∷ rest)) h ch)

  abbrev IsNamed : List Input → Option (Option Error × Handler × CommandHandler) → Type 0
  IsNamed is none = Unit
  IsNamed is (some (none, h, ch)) = Unit
  IsNamed is (some (some e, h, ch)) = (e ≡ exit) ⊎ (e ≡ reload) ⊎ In e (input_errors is)

  IsNamed-asked :
      (is : List Input) (e : Error) (h : Handler) (ch : CommandHandler)
      → IsAsked (some e)
      → IsNamed is (some (some e, h, ch))
  IsNamed-asked is e h ch (inl x) = inl x
  IsNamed-asked is e h ch (inr x) = inr (inl x)

  read_on-IsNamed :
      (is : List Input) (d : Dispatched)
      (rest : Handler → CommandHandler → Option (Option Error × Handler × CommandHandler))
      → GivesAsked d
      → ((h : Handler) (ch : CommandHandler) → IsNamed is (rest h ch))
      → IsNamed is (read_on K ctx progress d rest)
  read_on-IsNamed is none rest a k = tt
  read_on-IsNamed is (some (cont, some e, h, ch)) rest a k = IsNamed-asked is e h ch a
  read_on-IsNamed is (some (true, none, h, ch)) rest a k = k h ch
  read_on-IsNamed is (some (false, none, h, ch)) rest a k = tt

  read_loop-IsNamed :
      (is : List Input) (h : Handler) (ch : CommandHandler)
      → IsNamed is (read_loop K ctx progress is h ch)
  unfolding read_loop
  read_loop-IsNamed [] h ch = inl refl
  read_loop-IsNamed (broken e ∷ is) h ch = inr (inr (inl refl))
  read_loop-IsNamed (canceled_reading e ∷ is) h ch = inr (inr (inl refl))
  read_loop-IsNamed (line t ∷ is) h ch =
      read_on-IsNamed is
        (dispatch_line K ctx progress (K.split t) h (prompted K ctx progress is ch)) _
        (dispatch_line-GivesAsked (K.split t) h (prompted K ctx progress is ch))
        (read_loop-IsNamed is)

  if-IsNamed :
      (is : List Input) (b : Bool) (x y : Option (Option Error × Handler × CommandHandler))
      → IsNamed is x
      → IsNamed is y
      → IsNamed is (if b then x else y)
  if-IsNamed is true x y a b = a
  if-IsNamed is false x y a b = b

  break_handler-IsNamed :
      (h : Handler) (ch : CommandHandler) → IsNamed ch.inputs (break_handler K ctx progress h ch)
  unfolding break_handler
  break_handler-IsNamed h ch =
      if-IsNamed ch.inputs (ch.target_breakpoint == []) _ _ (read_loop-IsNamed ch.inputs h _) (
        if-IsNamed ch.inputs (is_among ch.target_breakpoint (keys ctx.hits)) _ _
          (read_loop-IsNamed ch.inputs h _) tt)

  -- The only errors that the shell returns at a break are exit, reload and those of reading its input: an error of a
  -- command, of its words or of a container does not end the session.
  pub break_handler-errors :
      (h h' : Handler) (ch ch' : CommandHandler) (e : Error)
      → break_handler K ctx progress h ch ≡ some (some e, h', ch')
      → (e ≡ exit) ⊎ (e ≡ reload) ⊎ In e (input_errors ch.inputs)
  break_handler-errors h h' ch ch' e eq = subst (IsNamed ch.inputs) eq (break_handler-IsNamed h ch)
