-- ===== src/Tests/Io.antt =====
-- FIFOs of which the last cannot be opened, and a signal on its way.
use buildg.Prelude.{
  ℕ, ◌≤◌, ◌≡◌, refl, ◌++◌, true, [], ◌∷◌, none, some, In, length, if◌then◌else◌, ◌==◌,
}
use buildg.Text.{codes, text_eq}
use buildg.Errors.{message, wrapped, ok, err}
use buildg.Dict.{lookup, insert}
use buildg.Container.Paths.{join, segments, simplify, unite, clean}
use buildg.Dap.Io.{OpenFifo, open_file, close_file, open_fifos_client, open_fifos_server}
use buildg.Dap.Io.Attach
use buildg.Dap.Io.Attach.{Terminal, AttachStep, attach_container_io}
use buildg.Dap.Io.Attach.Restored.{Restores, attach_container_io-Restores}
use buildg.Dap.Io.Signals.{
  SignalMap, names_from, posted, SignalForwarder, new_forwarder, serve_http, start_watch, watching,
  ended, watches, unwatches, serves, sends, Reaches, starts, goes,
}
use buildg.Dap.Io.Signals.Delivered.{named, pairs, serve_all, serve_all-posted}
use buildg.Dap.Io.Signals.Watched.{IsAsked, Reaches-signalled}

-- No stderr.
abbrev two_fifos : OpenFifo
two_fifos path flags mode =
    if path == codes "/r/stderr"
    then err (message (codes "no such file"))
    else if path == codes "/r/stdin"
    then ok 3
    else ok 4

abbrev fifos : OpenFifo
fifos path flags mode =
    if path == codes "/r/stdin" then ok 3 else if path == codes "/r/stdout" then ok 4 else ok 5

no_stderr : open_fifos_server two_fifos (codes "/r") ≡ (
  err (wrapped (codes "failed to open stderr fifo") (message (codes "no such file"))),
  open_file 3 ∷ open_file 4 ∷ [],
)
unfolding open_fifos_server join segments simplify unite clean
no_stderr = refl

abbrev no_copy : Terminal
no_copy = record {
  open_fifo = fifos;
  late = none;
  raw_failure = none;
  copy_failure = some (message (codes "broken pipe"));
}

attached : attach_container_io no_copy (codes "/r") true ≡ (
  some (message (codes "broken pipe")),
  Attach.file (open_file 3)
      ∷ Attach.file (open_file 4)
      ∷ Attach.file (open_file 5)
      ∷ Attach.notify
      ∷ Attach.set_raw
      ∷ Attach.copy_input
      ∷ Attach.copy_outputs
      ∷ Attach.reset
      ∷ Attach.file (close_file 3)
      ∷ Attach.file (close_file 4)
      ∷ Attach.file (close_file 5)
      ∷ [],
)
unfolding attach_container_io open_fifos_client join segments simplify unite clean
attached = refl

attach_container_io-Restores_example :
    Restores no_copy (codes "/r") (attach_container_io no_copy (codes "/r") true)
attach_container_io-Restores_example = attach_container_io-Restores no_copy (codes "/r") true

-- Two names stand for the signal 6.
abbrev signal_map : SignalMap
signal_map = (codes "ABRT", 6) ∷ (codes "INT", 2) ∷ (codes "IOT", 6) ∷ (codes "TERM", 15) ∷ []

names : posted signal_map (6 ∷ 28 ∷ 2 ∷ []) ≡ codes "IOT" ∷ codes "INT" ∷ []
unfolding posted names_from lookup insert
names = refl

abbrev in_watch : SignalForwarder
in_watch = start_watch 7 new_forwarder

serve_all-posted_example :
    (serve_all signal_map (posted signal_map (6 ∷ 28 ∷ 2 ∷ [])) in_watch).calls
    ≡ [] ++ pairs 7 (named signal_map (6 ∷ 28 ∷ 2 ∷ []))
unfolding lookup
serve_all-posted_example =
    serve_all-posted signal_map (6 ∷ 28 ∷ 2 ∷ []) 7 in_watch (refl, (refl, (refl, (refl, tt)))) refl

-- The signal is sent after the watch has ended.
abbrev sent : SignalForwarder
sent = record {
  proc = none;
  watch = ended 7;
  requests = codes "INT" ∷ [];
  calls = [];
  signalled = (7, 2) ∷ [];
}

sent-Reaches : Reaches signal_map sent
unfolding serve_http lookup
sent-Reaches =
    goes _ _
      (goes _ _ (goes _ _ (goes _ _ starts (watches _ 7 refl)) (serves _ (codes "INT")))
        (unwatches _ 7 refl))
      (sends _ [] [] (7, 2) refl)

Reaches-signalled_example :
    ((c : ℕ × ℕ) → In c sent.signalled → IsAsked signal_map sent c)
    × (length sent.signalled ≤ length sent.requests)
    × ((p : ℕ) → sent.proc ≡ some p → sent.watch ≡ watching p)
Reaches-signalled_example = Reaches-signalled signal_map sent sent-Reaches
