-- ===== src/Dap/Io.antt =====
-- pkg/dap/io.go: the FIFOs of a container, which the server makes and the client opens.
pub mod Opened
pub mod Signals
pub mod Attach
use buildg.Prelude.{ℕ, List, [], ◌∷◌, ◌++◌, Option, none, some, map}
use buildg.Text.{Text, codes}
use buildg.Errors.{Error, wrapped, Result, ok, err}
use buildg.Container.Paths.{join}

pub data OpenFlag : Type 0 where
  wronly rdonly creat nonblock : OpenFlag

-- fifo.OpenFifo, by path, flags and permissions; files are numbers.
abbrev pub OpenFifo : Type 0
OpenFifo = Text → List OpenFlag → ℕ → Result ℕ

pub data FileStep : Type 0 where
  open_file close_file : ℕ → FileStep

-- the named results that the deferred functions read
pub record Named : Type 0 where
  pub stdin : Option ℕ
  pub stdout : Option ℕ
  pub stderr : Option ℕ
  pub ret_err : Option Error

-- the open files in the order stdin, stdout, stderr, or an error; and what was done
abbrev pub Files : Type 0
Files = Result (ℕ × ℕ × ℕ) × List FileStep

-- `return nil, nil, nil, e` sets the named results before the deferred functions run.
abbrev pub returned_error : Error → Named
returned_error e = record { stdin = none; stdout = none; stderr = none; ret_err = some e }

abbrev pub returned_files : ℕ → ℕ → ℕ → Named
returned_files i o e = record { stdin = some i; stdout = some o; stderr = some e; ret_err = none }

-- a deferred function
abbrev pub close_failed : Option Error → Option ℕ → List FileStep
close_failed none f = []
close_failed (some e) none = []
close_failed (some e) (some f) = close_file f ∷ []

abbrev pub deferred_stdin : Named → List FileStep
deferred_stdin r = close_failed r.ret_err r.stdin

abbrev pub deferred_stdout : Named → List FileStep
deferred_stdout r = close_failed r.ret_err r.stdout ++ deferred_stdin r

abbrev pub deferred_stderr : Named → List FileStep
deferred_stderr r = close_failed r.ret_err r.stderr ++ deferred_stdout r

abbrev pub then_files : FileStep → Files → Files
then_files s (r, steps) = (r, s ∷ steps)

abbrev pub permissions : ℕ
permissions = 448

module _ (open_fifo : OpenFifo) (dir : Text) where
  abbrev pub after_stderr : ℕ → ℕ → Result ℕ → Files
  after_stderr i o (err e) =
      let e' = wrapped (codes "failed to open stderr fifo") e in
      (err e', deferred_stdout (returned_error e'))
  after_stderr i o (ok f) = (ok (i, o, f), open_file f ∷ deferred_stderr (returned_files i o f))

  abbrev pub after_stdout : List OpenFlag → ℕ → Result ℕ → Files
  after_stdout out i (err e) =
      let e' = wrapped (codes "failed to open stdout fifo") e in
      (err e', deferred_stdin (returned_error e'))
  after_stdout out i (ok o) =
      then_files (open_file o)
        (after_stderr i o (open_fifo (join dir (codes "stderr")) out permissions))

  abbrev pub after_stdin : List OpenFlag → Result ℕ → Files
  after_stdin out (err e) = (err (wrapped (codes "failed to open stdin fifo") e), [])
  after_stdin out (ok i) =
      then_files (open_file i)
        (after_stdout out i (open_fifo (join dir (codes "stdout")) out permissions))

  unfoldable pub open_fifos_client : Files
  open_fifos_client =
      after_stdin (rdonly ∷ []) (open_fifo (join dir (codes "stdin")) (wronly ∷ []) permissions)

  unfoldable pub open_fifos_server : Files
  open_fifos_server =
      after_stdin (wronly ∷ creat ∷ nonblock ∷ [])
        (open_fifo (join dir (codes "stdin")) (rdonly ∷ creat ∷ nonblock ∷ []) permissions)

pub data ServeStep : Type 0 where
  file : FileStep → ServeStep
  listen : Text → ServeStep
  shutdown close_server : ServeStep

-- What serveContainerIO has started, and what its last result, the function `done`, does.
pub record Served : Type 0 where
  pub stdin : ℕ
  pub stdout : ℕ
  pub stderr : ℕ
  pub started : List ServeStep
  pub done : List ServeStep

abbrev pub served : Text → Files → Result Served × List ServeStep
served root (err e, steps) = (err e, map file steps)
served root (ok (i, o, f), steps) =
    let started = map file steps ++ listen (join root (codes "signal.sock")) ∷ [] in
    (
      ok (record {
        stdin = i;
        stdout = o;
        stderr = f;
        started = started;
        done =
            shutdown
            ∷ close_server
            ∷ file (close_file i)
            ∷ file (close_file o)
            ∷ file (close_file f)
            ∷ [];
      }),
      started,
    )

unfoldable pub serve_container_io : OpenFifo → Text → Result Served × List ServeStep
unfolding open_fifos_server
serve_container_io open_fifo root = served root (open_fifos_server open_fifo root)
