-- ===== src/Lib.antt =====
-- buildg, an interactive debugger for Dockerfiles, as definitions and theorems. buildg runs BuildKit with
-- wrapped workers: each operation of a build reports itself before it goes on, the handler decides whether
-- the build pauses there, and a client, a shell or an editor over the Debug Adapter Protocol, inspects it.
--
-- The parts, by the path of the source and the files that model them:
--
--   pkg/buildkit/breakpoint.go   Breakpoints: the table of breakpoints and both kinds of them.
--   pkg/buildkit/handler.go      Handler: which events pause (Handler.handle, getHitBreakpoints).
--   pkg/buildkit/controller.go   Controller: the sources of running solves (Sources, Solve), the waiting
--                                operations (Pauses), the event loop (Loop), the wrapper of the worker
--                                and its operations (Worker, Results).
--   pkg/buildkit/exec.go         Container: a container on the state of an operation.
--   pkg/dap/dap.go               Dap: messages (Messages), what the handlers compute (Requests), the
--                                server (Server) and its loop (Serve), the command exec (Exec), the
--                                channels of a break (Stops), and the way from lines to stops (LineStops).
--   pkg/dap/io.go                Dap.Io: the FIFOs of a container, the client that joins its terminal to
--                                them (Attach), and the signals that it forwards (Signals).
--   pkg/dap/debugger.go          Dap.Debugger: the debugger behind the server.
--   list.go                      Listing: the lines that the list command prints.
--   pkg/buildkit/client.go       Client: the setup of BuildKit (Setup), Debug and its loop (Debug), Prune
--                                and Du (Usage), the listener of the server (Pipe).
--   commands.go, break.go,       Shell: the commands on breakpoints; what a line does (Commands), the handler
--   exec.go, exit.go, reload.go  of breaks (Breaks), the command exec (Exec), the signals while it runs
--                                (Interrupts), the standard input that they share (Stdin), and the words and
--                                flags of the commands (Table).
--   log.go                       Log: the last lines of the log, by a ring buffer.
--   main.go                      Main: the flags of each command (Flags) and its action (Actions), the
--                                root directory (Roots) on an operating system (Os), the start under
--                                rootlesskit (Rootless), the options of a build (Options), the writer
--                                of the progress (Progress).
--   pkg/buildkit/handler.go      Session: withDebug and the breakpoint handler of debugAction, which put the
--   main.go                      parts of a session of the shell together, and the debugger image (Image).
--   pkg/testutil                 Testutil: the commands that the tests start, with the prompt of the shell
--                                (Environ), what they read (Reading), and how they end (Closing).
--   pkg/buildkit/location.go     Types, with the fields that are read of BuildKit's messages.
--
-- The parts meet as in the source: an operation's wrapper (Controller.Worker.exec) waits and sends a
-- RegisteredStatus; Controller.Loop.round finds its locations, calls Handler.handle and resumes it;
-- Handler.handle asks the breakpoints and calls the client's breakpoint handler; the server of Dap changes
-- the breakpoints and the handler between two events, and the shell while its handler of breaks reads
-- lines; an exit or a reload that it returns ends the loop, and Debug ends or builds again.
--
-- Conventions. A name of the source is written in small letters (getHitBreakpoints is
-- get_hit_breakpoints). State is passed and returned. A panic is none, an error a constructor of
-- Errors.Error or the text of an outside error. int and int64 are integers (Int.ℤ) that Int.wrap64
-- wraps; pointers that are compared, and values that are only handed on, are numbers. A map is an association list
-- (Dict), and the order in which Go visits it is the order of that list. Channels that are only closed are
-- numbers (Controller.Pauses); a channel that carries values is the list of what was sent, or a stage (Dap.Stops). Loops are
-- structural. Fuel is used twice: by Decimal.format_int, the number plus one, of which it uses one for
-- each digit; and by Client.Debug.debug, one for each build, so that one more than the reloads is
-- enough. A panic of the shell, which ends the process, is an error and a mark in Session.
--
-- BuildKit, the gateway, the console, shlex, urfave/cli, the option parsers and the operating system are
-- parameters: Client.Setup.BuildKit, Client.Debug.Builds, Controller.Solve.Solver,
-- Controller.Results.ResultType, Container.Gateway, Dap.Debugger.BuildTools, Dap.Server.Outside,
-- Dap.Exec.Host, Dap.Io.OpenFifo, Dap.Io.Attach.Terminal, Shell.Commands.Console, Shell.Exec.Terminal,
-- Session.Image.ImageSolver, Main.Os.Os, Main.Rootless.Process, Main.Actions.Usage, Main.Progress.File,
-- Testutil.Host. Of the operating system,
-- Main.Os.IsOs states what is relied on: a lock has one holder and a temporary directory is new. A line of the
-- shell is the first line of what one read of the standard input gives.
--
-- Not modelled: locks of memory, since each critical section is one step here, but for the lock of the
-- standard input; logging; the texts of usage and logs; the copies of
-- bytes between FIFOs and terminals; pkg/version; in pkg/testutil the dumps of logs; in
-- pkg/buildkit/client.go the writers of the progress; in main.go
-- the command version and the copy of the progress to the log.
pub mod Prelude
pub mod Int
pub mod Text
pub mod Dict
pub mod Decimal
pub mod Errors
pub mod Types
pub mod Breakpoints
pub mod Handler
pub mod Controller
pub mod Container
pub mod Dap
pub mod Listing
pub mod Log
pub mod Shell
pub mod Main
pub mod Client
pub mod Session
pub mod Tests
pub mod Testutil
