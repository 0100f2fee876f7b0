-- ===== src/Shell/Breaks.antt =====
-- commands.go: the shell at a break. It reads lines and runs their commands until one of them goes on with the build.
pub mod Errors
pub mod Targets
use buildg.Prelude.{
  Bool, true, false, List, [], ◌∷◌, ◌++◌, Option, none, some, map, if◌then◌else◌, ◌==◌,
}
use buildg.Text.{Text, codes, text_eq}
use buildg.Dict.{Dict, keys}
use buildg.Errors.{Error, exit, wrapped, Result, ok, err}
use buildg.Handler.{Handler, BreakContext, BreakpointInfo}
use buildg.Listing.{default_list_range, print_lines}
use buildg.Shell.{Session}
use buildg.Shell.Exec.{ExecStep}
use buildg.Shell.Commands.{
  Shown, hit, source_lines, prompt, cli_text, failed, Parsed, runs, refuses, shows, Progress,
  Console, HandlerContext, show, action,
}

-- What readLine gets: a line, an error of the scanner, or the end of the context. At the end of the list the standard
-- input ends.
pub data Input : Type 0 where
  line : Text → Input
  broken canceled_reading : Error → Input

-- commandHandler; `shown` is what is written, `steps` what exec has done.
pub record CommandHandler : Type 0 where
  pub inputs : List Input
  pub target_breakpoint : Text
  pub shown : List Shown
  pub steps : List ExecStep

abbrev pub write_shown : List Shown → CommandHandler → CommandHandler
write_shown s ch = record ch { shown = ch.shown ++ s }

-- What a line does: whether to read on, an error, and the state. A panic is none.
abbrev pub Dispatched : Type 0
Dispatched = Option (Bool × Option Error × Handler × CommandHandler)

abbrev pub context_of : BreakContext → Progress → Handler → HandlerContext
context_of ctx progress h = record {
  session = record { handler = h; locs = ctx.locs; continue_read = true; target_breakpoint = [] };
  info = ctx.info;
  progress = progress;
  err = none;
  shown = [];
  steps = [];
}

abbrev pub error_lines : Option Error → List Shown
error_lines none = []
error_lines (some e) = failed e ∷ []

abbrev pub new_target : Text → Text → Text
new_target old wanted = if wanted == [] then old else wanted

-- After the run of a command: its error is shown, and its context is read.
abbrev pub after_action : CommandHandler → Option (Option Error × HandlerContext) → Dispatched
after_action ch none = none
after_action ch (some (e, c)) = some (
  c.session.continue_read,
  c.err,
  c.session.handler,
  record ch {
    shown = ch.shown ++ (c.shown ++ error_lines e);
    steps = ch.steps ++ c.steps;
    target_breakpoint = new_target ch.target_breakpoint c.session.target_breakpoint;
  },
)

unfoldable pub hit_lines : Dict Text BreakpointInfo → List Shown
hit_lines [] = []
hit_lines ((key, b) ∷ hits) = hit key b.description ∷ hit_lines hits

-- the loop over the keys: `hit`
unfoldable pub is_among : Text → List Text → Bool
is_among target [] = false
is_among target (k ∷ ks) = let rest = is_among target ks in if k == target then true else rest

module _ (K : Console) (ctx : BreakContext) (progress : Progress) where
  abbrev pub run_parsed : Parsed → Handler → CommandHandler → Dispatched
  run_parsed (runs c) h ch = after_action ch (action K.terminal c (context_of ctx progress h))
  run_parsed (refuses t e) h ch = some (true, none, h, write_shown (cli_text t ∷ failed e ∷ []) ch)
  run_parsed (shows t) h ch = some (true, none, h, write_shown (cli_text t ∷ []) ch)

  unfoldable pub dispatch : List Text → Handler → CommandHandler → Dispatched
  dispatch [] h ch = some (true, none, h, ch)
  dispatch (a ∷ rest) h ch =
      if a == [] then some (true, none, h, ch) else run_parsed (K.parse (a ∷ rest)) h ch

  -- a line that does not parse is logged
  abbrev pub dispatch_line : Option (List Text) → Handler → CommandHandler → Dispatched
  dispatch_line none h ch = some (true, none, h, ch)
  dispatch_line (some args) h ch = dispatch args h ch

  abbrev pub Handled : Type 0
  Handled = Option (Option Error × Handler × CommandHandler)

  abbrev pub read_on : Dispatched → (Handler → CommandHandler → Handled) → Handled
  read_on none rest = none
  read_on (some (cont, some e, h, ch)) rest = some (some e, h, ch)
  read_on (some (true, none, h, ch)) rest = rest h ch
  read_on (some (false, none, h, ch)) rest = some (none, h, ch)

  abbrev pub prompted : List Input → CommandHandler → CommandHandler
  prompted is ch = record (write_shown (prompt ∷ []) ch) { inputs = is }

  -- The loop of breakHandler, over what readLine gets.
  unfoldable pub read_loop : List Input → Handler → CommandHandler → Handled
  unfolding dispatch
  read_loop [] h ch = some (some exit, h, prompted [] ch)
  read_loop (broken e ∷ is) h ch = some (some e, h, prompted is ch)
  read_loop (canceled_reading e ∷ is) h ch =
      some (some (wrapped (codes "canceled reading line") e), h, prompted is ch)
  read_loop (line t ∷ is) h ch =
      read_on (dispatch_line (K.split t) h (prompted is ch)) (read_loop is)

  abbrev pub lines_at : Handler → Shown
  lines_at h =
      source_lines (print_lines h.breakpoints default_list_range default_list_range false ctx.locs)

  unfoldable pub break_handler : Handler → CommandHandler → Handled
  unfolding read_loop hit_lines is_among
  break_handler h ch =
      let seen = write_shown (hit_lines ctx.hits) ch in
      let read =
        read_loop ch.inputs h
          (record (write_shown (lines_at h ∷ []) seen) { target_breakpoint = [] }) in
      if ch.target_breakpoint == []
      then read
      else if is_among ch.target_breakpoint (keys ctx.hits)
      then read
      else some (none, h, seen)
