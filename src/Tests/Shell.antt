-- ===== src/Tests/Shell.antt =====
-- break.go on a session with two breakpoints.
use buildg.Prelude.{true, []}
use buildg.Text.{text_eq}
use buildg.Shell.{Session}
use buildg.Tests.Breakpoints.{start, two_lines}
use buildg.Tests.Handler.{fresh_handler}

abbrev session : Session
session = record {
  handler = record fresh_handler { breakpoints = start };
  locs = two_lines;
  continue_read = true;
  target_breakpoint = [];
}
