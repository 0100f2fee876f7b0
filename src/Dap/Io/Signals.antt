-- ===== src/Dap/Io/Signals.antt =====
-- pkg/dap/io.go: the signals on their way from the client's terminal to the process in the container.
pub mod Delivered
pub mod Watched
use buildg.Prelude.{ℕ, ◌≡◌, List, [], ◌∷◌, ◌++◌, Option, none, some, nat_eq}
use buildg.Text.{Text, text_eq}
use buildg.Dict.{Dict, lookup, insert}

-- mobysignal.SignalMap
abbrev pub SignalMap : Type 0
SignalMap = Dict Text ℕ

-- the loop that fills sigToName
unfoldable pub names_from : SignalMap → Dict ℕ Text → Dict ℕ Text
names_from [] names = names
names_from ((name, value) ∷ rest) names = names_from rest (insert value name names)

unfoldable pub sig_to_name : SignalMap → Dict ℕ Text
unfolding names_from
sig_to_name m = names_from m []

abbrev pub post_signal : Option Text → List Text → List Text
post_signal none later = later
post_signal (some name) later = name ∷ later

-- the names that are posted for the signals that the client gets
unfoldable pub posted : SignalMap → List ℕ → List Text
unfolding sig_to_name
posted m [] = []
posted m (sig ∷ sigs) = post_signal (lookup sig (sig_to_name m)) (posted m sigs)

-- the goroutine of watchSignal
pub data Watch : Type 0 where
  not_started : Watch
  watching ended : ℕ → Watch

-- signalForwarder. `calls` are the calls of ServeHTTP that have read a process and are to signal it, `signalled` is what
-- they did, `requests` the names that they got.
pub record SignalForwarder : Type 0 where
  pub proc : Option ℕ
  pub watch : Watch
  pub requests : List Text
  pub calls : List (ℕ × ℕ)
  pub signalled : List (ℕ × ℕ)

abbrev pub new_forwarder : SignalForwarder
new_forwarder = record {
  proc = none;
  watch = not_started;
  requests = [];
  calls = [];
  signalled = [];
}

abbrev pub read_proc : Option ℕ → ℕ → List (ℕ × ℕ) → List (ℕ × ℕ)
read_proc none sig calls = calls
read_proc (some p) sig calls = calls ++ (p, sig) ∷ []

abbrev pub known_signal : Option ℕ → Option ℕ → List (ℕ × ℕ) → List (ℕ × ℕ)
known_signal none proc calls = calls
known_signal (some sig) proc calls = read_proc proc sig calls

-- ServeHTTP up to the end of its critical section
unfoldable pub serve_http : SignalMap → Text → SignalForwarder → SignalForwarder
serve_http m name s = record s {
  requests = name ∷ s.requests;
  calls = known_signal (lookup name m) s.proc s.calls;
}

abbrev pub start_watch : ℕ → SignalForwarder → SignalForwarder
start_watch p s = record s { proc = some p; watch = watching p }

abbrev pub end_watch : ℕ → SignalForwarder → SignalForwarder
end_watch p s = record s { proc = none; watch = ended p }

abbrev pub send_signal : List (ℕ × ℕ) → ℕ × ℕ → SignalForwarder → SignalForwarder
send_signal calls c s = record s { calls = calls; signalled = s.signalled ++ c ∷ [] }

pub data Step (m : SignalMap) : SignalForwarder → SignalForwarder → Type 0 where
  watches : (s : SignalForwarder) (p : ℕ) → s.watch ≡ not_started → Step m s (start_watch p s)
  unwatches : (s : SignalForwarder) (p : ℕ) → s.watch ≡ watching p → Step m s (end_watch p s)
  serves : (s : SignalForwarder) (name : Text) → Step m s (serve_http m name s)
  sends :
      (s : SignalForwarder) (before after : List (ℕ × ℕ)) (c : ℕ × ℕ)
      → s.calls ≡ before ++ c ∷ after
      → Step m s (send_signal (before ++ after) c s)

pub data Reaches (m : SignalMap) : SignalForwarder → Type 0 where
  starts : Reaches m new_forwarder
  goes : (s s' : SignalForwarder) → Reaches m s → Step m s s' → Reaches m s'
