-- ===== src/Dap/Serve.antt =====
-- pkg/dap/dap.go: the loop that reads requests, and the writer of output. Each request is handled by a goroutine of its own; a
-- list of requests stands for the order in which they are handled.
pub mod Answers
pub mod Cleaned
use buildg.Prelude.{ℕ, ◌≡◌, false, List, [], ◌∷◌, ◌++◌, Option, none, some, length}
use buildg.Text.{Text}
use buildg.Errors.{Error, Result, ok}
use buildg.Handler.{Handler, BreakContext}
use buildg.Controller.Sources.{◌>>=◌}
use buildg.Dap.Messages.{Message, output_event, Request}
use buildg.Dap.Server.{Server, send, Outside, handle, stop, finish}

-- what dap.ReadProtocolMessage returns: io.EOF is the end.
pub data Reading : Type 0 where
  request : Request → Reading
  end_of_input : Reading
  unreadable : Error → Reading

abbrev pub cons_request : Request → List Request × Option Error → List Request × Option Error
cons_request r (rs, e) = (r ∷ rs, e)

-- The requests that the loop starts to handle, and the error that it returns. After the list nothing comes yet.
unfoldable pub read_requests : List Reading → List Request × Option Error
read_requests [] = ([], none)
read_requests (request r ∷ rest) = cons_request r (read_requests rest)
read_requests (end_of_input ∷ rest) = ([], none)
read_requests (unreadable e ∷ rest) = ([], some e)

unfoldable pub handle_all : Outside → List Request → Server → Option Server
handle_all O [] s = some s
handle_all O (r ∷ rs) s = do s' ← handle O r s; handle_all O rs s'

-- outputWriter
abbrev pub write_output : Text → Text → Server → Result ℕ × Server
write_output category p s = (ok (length p), send (output_event category p) s)

-- What happens while the process runs: a request is handled, the build stops at a break, or the build ends.
pub data Step (O : Outside) : Server → Server → Type 0 where
  handles : (s t : Server) (r : Request) → s.exited ≡ false → handle O r s ≡ some t → Step O s t
  stops :
      (s t : Server) (ctx : BreakContext) (h : Handler)
      → s.exited ≡ false
      → stop O ctx h s ≡ some t
      → Step O s t
  finishes : (s t : Server) → s.exited ≡ false → finish O s ≡ some t → Step O s t

pub data Reaches (O : Outside) (s : Server) : Server → Type 0 where
  starts : Reaches O s s
  goes : (t u : Server) → Reaches O s t → Step O t u → Reaches O s u
