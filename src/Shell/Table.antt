-- ===== src/Shell/Table.antt =====
-- commands.go, and the command of each file that it names: the commands of the shell with their words and flags, and
-- what the action of each reads of what urfave/cli has parsed. And the command that an editor has in common with it.
pub mod Words
use buildg.Prelude.{Bool, List, [], ◌∷◌, ◌++◌}
use buildg.Int.{pos}
use buildg.Text.{Text, codes}
use buildg.Main.Flags.{
  Kind, bool, bool_t, string_slice, string, int, Flag, flag, one, Context, first,
}
use buildg.Shell.Exec.{ExecFlags}
use buildg.Shell.Commands.{Command}

-- the functions of handlerCommands
pub data HandlerCommand : Type 0 where
  break_fn breakpoints_fn clear_fn clear_all_fn next_fn continue_fn : HandlerCommand
  exec_fn list_fn log_fn reload_fn exit_fn : HandlerCommand

abbrev pub handler_commands : List HandlerCommand
handler_commands =
    break_fn ∷ breakpoints_fn ∷ clear_fn ∷ clear_all_fn ∷ next_fn ∷ continue_fn ∷ exec_fn ∷ list_fn
    ∷ log_fn ∷ reload_fn ∷ exit_fn ∷ []

-- cli.Command, without its texts
pub record CliCommand : Type 0 where
  pub name : Text
  pub aliases : List Text
  pub flags : List Flag

abbrev pub words : CliCommand → List Text
words c = c.name ∷ c.aliases

abbrev plain : Text → List Text → CliCommand
plain name aliases = record { name = name; aliases = aliases; flags = [] }

-- the flags of exec.go
abbrev pub exec_flags : List Flag
exec_flags =
    flag (one (codes "image")) bool
    ∷ flag (one (codes "mountroot")) (string (codes "/debugroot"))
    ∷ flag (one (codes "init-state")) bool
    ∷ flag (codes "tty" ∷ codes "t" ∷ []) bool_t
    ∷ flag (one (codes "i")) bool_t
    ∷ flag (codes "env" ∷ codes "e" ∷ []) string_slice
    ∷ flag (codes "workdir" ∷ codes "w" ∷ []) (string [])
    ∷ []

-- defaultListRange
abbrev pub default_list_range : Kind
default_list_range = int (pos 3)

abbrev pub list_flags : List Flag
list_flags =
    flag (one (codes "all")) bool
    ∷ flag (one (codes "A")) default_list_range
    ∷ flag (one (codes "B")) default_list_range
    ∷ flag (one (codes "range")) default_list_range
    ∷ []

abbrev pub log_flags : List Flag
log_flags =
    flag (one (codes "n")) (int (pos 10))
    ∷ flag (codes "all" ∷ codes "a" ∷ []) bool
    ∷ flag (one (codes "more")) bool
    ∷ []

abbrev pub cli_break : CliCommand
cli_break = plain (codes "break") (one (codes "b"))

abbrev pub cli_breakpoints : CliCommand
cli_breakpoints = plain (codes "breakpoints") (one (codes "bp"))

abbrev pub cli_clear : CliCommand
cli_clear = plain (codes "clear") []

abbrev pub cli_clear_all : CliCommand
cli_clear_all = plain (codes "clearall") []

abbrev pub cli_next : CliCommand
cli_next = plain (codes "next") (one (codes "n"))

abbrev pub cli_continue : CliCommand
cli_continue = plain (codes "continue") (one (codes "c"))

abbrev pub cli_exec : CliCommand
cli_exec = record { name = codes "exec"; aliases = one (codes "e"); flags = exec_flags }

abbrev pub cli_list : CliCommand
cli_list = record { name = codes "list"; aliases = codes "ls" ∷ codes "l" ∷ []; flags = list_flags }

abbrev pub cli_log : CliCommand
cli_log = record { name = codes "log"; aliases = []; flags = log_flags }

abbrev pub cli_reload : CliCommand
cli_reload = plain (codes "reload") []

abbrev pub cli_exit : CliCommand
cli_exit = plain (codes "exit") (codes "quit" ∷ codes "q" ∷ [])

abbrev pub declared : HandlerCommand → CliCommand
declared break_fn = cli_break
declared breakpoints_fn = cli_breakpoints
declared clear_fn = cli_clear
declared clear_all_fn = cli_clear_all
declared next_fn = cli_next
declared continue_fn = cli_continue
declared exec_fn = cli_exec
declared list_fn = cli_list
declared log_fn = cli_log
declared reload_fn = cli_reload
declared exit_fn = cli_exit

-- what the action of exec reads, on both sides
abbrev pub read_exec : Context → ExecFlags
read_exec c = record {
  args = c.args;
  image = c.get_bool (codes "image");
  mountroot = c.get_string (codes "mountroot");
  init_state = c.get_bool (codes "init-state");
  tty = c.get_bool (codes "tty");
  stdin = c.get_bool (codes "i");
  env = c.get_string_slice (codes "env");
  workdir = c.get_string (codes "workdir");
}

abbrev pub read_list : Context → Command
read_list c =
    Command.list (c.get_int (codes "range")) (c.get_int (codes "B")) (c.get_int (codes "A"))
      (c.get_bool (codes "all"))

abbrev pub read_log : Context → Command
read_log c =
    Command.log (c.get_int (codes "n")) (c.get_bool (codes "all")) (c.get_bool (codes "more"))

-- what each action reads
abbrev pub read_command : HandlerCommand → Context → Command
read_command break_fn c = Command.set_break (first c.args)
read_command breakpoints_fn c = Command.breakpoints
read_command clear_fn c = Command.clear_key (first c.args)
read_command clear_all_fn c = Command.clear_keys
read_command next_fn c = Command.next
read_command continue_fn c = Command.continue_key (first c.args)
read_command exec_fn c = Command.exec (read_exec c)
read_command list_fn c = read_list c
read_command log_fn c = read_log c
read_command reload_fn c = Command.reload_build
read_command exit_fn c = Command.exit_build

-- Server.execCommand of dap.go
abbrev pub repl_command : CliCommand
repl_command = record {
  name = codes "exec";
  aliases = one (codes "e");
  flags =
      flag (one (codes "image")) bool
      ∷ flag (one (codes "mountroot")) (string (codes "/debugroot"))
      ∷ flag (one (codes "init-state")) bool
      ∷ flag (codes "tty" ∷ codes "t" ∷ []) bool_t
      ∷ flag (one (codes "i")) bool_t
      ∷ flag (codes "env" ∷ codes "e" ∷ []) string_slice
      ∷ flag (codes "workdir" ∷ codes "w" ∷ []) (string [])
      ∷ [];
}
