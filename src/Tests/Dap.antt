-- ===== src/Tests/Dap.antt =====
-- pkg/dap on a session with one break at a RUN instruction.
use buildg.Prelude.{
  ℕ, ◌≡◌, ◌≢◌, ◌⊎◌, refl, true, false, List, [], ◌∷◌, ◌++◌, none, some, arith, if◌then◌else◌, ◌==◌,
}
use buildg.Int.{ℤ, pos}
use buildg.Types.{Location}
use buildg.Text.{Text, codes, text_eq}
use buildg.Dict.{lookup}
use buildg.Errors.{Error, message, ok, err}
use buildg.Breakpoints.{on_fail, new_breakpoints, get}
use buildg.Handler.{BreakContext, Handler, handle}
use buildg.Dap.Messages.{
  LaunchConfig, Request, evaluate, next, disconnect, restart, unsupported, other, Variable,
}
use buildg.Dap.Debugger.{BuildTools, Debugger}
use buildg.Dap.Requests.{set_lines}
use buildg.Dap.Exec.{Host}
use buildg.Shell.Exec.{ExecFlags}
use buildg.Dap.Server.{Server, executes, Outside}
use buildg.Dap.Lines.{table, numbered, or_old, set_lines_lem}
use buildg.Dap.LineStops.{IsCovered, StopsAtLines, handle-StopsAtLines}
use buildg.Dap.Serve.{request, end_of_input, read_requests, handle_all}
use buildg.Dap.Serve.Answers.{tags, asked, handle_all-tags}
use buildg.Tests.Breakpoints.{status, two_lines, dockerfile, file}
use buildg.Tests.Handler.{fresh_handler, counting}
use buildg.Tests.Container as tests

abbrev pub flags : ExecFlags
flags = record {
  args = [];
  image = false;
  mountroot = codes "/debugroot";
  init_state = false;
  tty = true;
  stdin = true;
  env = [];
  workdir = [];
}

abbrev pub config : LaunchConfig
config = record {
  program = codes "/src/Dockerfile";
  no_debug = false;
  stop_on_entry = true;
  target = codes "dev";
  build_args = codes "A=1" ∷ [];
  ssh = codes "default" ∷ [];
  secrets = [];
  image = [];
}

abbrev pub host : Host
host = record {
  mkdir_temp = ok (codes "/tmp/buildg-serve-state1");
  open_fifo = λ path flags mode. ok 0;
  executable = ok (codes "/bin/buildg");
  gateway = record tests.idle { start_process = λ r. ok 1 };
  streams = λ b. 0;
}

-- parsers that accept nothing, and words that are those of exec
abbrev refused : Error
refused = message (codes "refused")

abbrev no_tools : BuildTools
no_tools = record {
  Attachable = Text;
  Export = Text;
  Ssh = Text;
  parse_opt = λ o. err refused;
  parse_output = λ o. err refused;
  docker_auth = [];
  parse_ssh = λ o. err refused;
  ssh_provider = λ o. err refused;
  parse_secret = λ o. err refused;
}

abbrev pub outside : Outside
outside = record {
  tools = no_tools;
  unmarshal = λ t. err refused;
  error_text = λ e. codes "refused";
  split_words = λ t. some (t ∷ []);
  parse_words = λ ws. executes flags;
  host = host;
}

abbrev pub context : BreakContext
context = record { info = status; locs = two_lines; hits = [] }

abbrev at_break : Debugger
at_break = record {
  bps = new_breakpoints;
  l_config = none;
  b_ctx = some (context, fresh_handler);
  resumptions = [];
  running = true;
}

abbrev pub server : Server
server = record {
  debugger = some at_break;
  sent = [];
  exited = false;
  has_cleanup = true;
  cleanups = [];
}

abbrev next_request : Request
next_request = record { seq = pos 7; command = codes "next"; arguments = next }

set_lines_lem_example :
    ((set_lines dockerfile (pos 4 ∷ pos 9 ∷ []) new_breakpoints).1
      ≡ numbered dockerfile 0 (pos 4 ∷ pos 9 ∷ []))
    × ((j : Text)
        → get j (set_lines dockerfile (pos 4 ∷ pos 9 ∷ []) new_breakpoints).0
          ≡ or_old
              (lookup j (table dockerfile 0 (pos 4 ∷ pos 9 ∷ [])))
              (if codes "on-fail" == j then some on_fail else none))
set_lines_lem_example = set_lines_lem dockerfile (pos 4 ∷ pos 9 ∷ []) new_breakpoints (omega arith)

next-ne-other : next_request.arguments ≢ other
next-ne-other e = cc e

abbrev restart_it : Request
restart_it = record { seq = pos 3; command = codes "restart"; arguments = unsupported restart }

restart-IsKnown : (restart_it.arguments ≢ other) × (restart_it.arguments ≢ disconnect)
restart-IsKnown = (λ e. cc e, λ e. cc e)

-- a break at a RUN instruction, in which exec is run
abbrev at_run : Debugger
at_run = record at_break {
  l_config = some config;
  b_ctx = some (
    record context { info = record tests.config.info { input_ids = tests.config.info.mount_ids } },
    fresh_handler,
  );
}

abbrev at_run_server : Server
at_run_server = record server { debugger = some at_run }

abbrev exec_it : Request
exec_it = record {
  seq = pos 5;
  command = codes "evaluate";
  arguments = evaluate (codes "repl") (codes "exec");
}

exec-IsKnown : (exec_it.arguments ≢ other) × (exec_it.arguments ≢ disconnect)
exec-IsKnown = (λ e. cc e, λ e. cc e)

handle_all-tags_example :
    (s' : Server) × (handle_all outside (exec_it ∷ restart_it ∷ next_request ∷ []) at_run_server
      ≡ some s')
    × (tags s'
        ≡ tags at_run_server ++ asked exec_it ∷ (pos 3, codes "restart") ∷ asked next_request ∷ [])
handle_all-tags_example =
    handle_all-tags outside (exec_it ∷ restart_it ∷ next_request ∷ []) at_run_server at_run
      (exec-IsKnown, (restart-IsKnown, next-ne-other)) refl (omega arith, omega arith, tt)

-- what follows the end of the input is not read
two_read :
    read_requests
      (request restart_it ∷ request next_request ∷ end_of_input ∷ request next_request ∷ [])
    ≡ (restart_it ∷ next_request ∷ [], none)
unfolding read_requests
two_read = refl

abbrev three : List Variable
three =
    record { name = codes "A"; value = codes "1" }
    ∷ record { name = codes "B"; value = [] }
    ∷ record { name = codes "C"; value = [] }
    ∷ []

abbrev on_lines : Handler
on_lines = record fresh_handler {
  breakpoints = (set_lines dockerfile (pos 3 ∷ pos 5 ∷ []) new_breakpoints).0;
  stop_on_entry = false;
}

abbrev two_ranges : Location
two_ranges = record {
  source = file;
  ranges =
      record { start_line = pos 1; end_line = pos 2 }
      ∷ record { start_line = pos 4; end_line = pos 6 }
      ∷ [];
}

abbrev lines : List ℤ
lines = pos 3 ∷ pos 5 ∷ []

handle-StopsAtLines_example :
    StopsAtLines dockerfile lines status (two_ranges ∷ []) counting on_lines 0 at_break
    ⊎ ((handle counting status (two_ranges ∷ []) on_lines 0 ≡ (none, on_lines, 0))
        × (¬ ((k : ℕ) × IsCovered dockerfile lines (two_ranges ∷ []) k)))
handle-StopsAtLines_example =
    handle-StopsAtLines dockerfile lines new_breakpoints (omega arith) status two_ranges [] counting
      on_lines 0 at_break refl refl
