-- ===== src/Tests.antt =====
-- Runs of the definitions on concrete inputs, and each theorem with hypotheses at one of them.
mod Breakpoints
mod Handler
mod Controller
mod Dap
mod Container
mod Listing
mod Log
mod Shell
mod Main
mod Client
mod Commands
mod Options
mod Session
mod Testutil
mod Stdin
mod Io
mod Actions
mod Pipe
mod Rootless
mod Stops
mod Serve
