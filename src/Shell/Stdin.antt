-- ===== src/Shell/Stdin.antt =====
-- commands.go: the standard input, which one user at a time may read. Its goroutine reads chunks and hands them to the pipe of
-- the user. A step is what one of them does while it holds the lock of the writer.
pub mod Users
use buildg.Prelude.{
  ℕ, suc, ◌≡◌, Bool, true, false, List, [], ◌∷◌, ◌++◌, Option, none, some, if◌then◌else◌,
}
use buildg.Text.{Text}
use buildg.Controller.Pauses.{is_member}

-- sharedReader. Pipes are numbered in the order in which they are made. `user` holds the lock `useMu`, `installed` says that it
-- has set `currentW`, `loaded` is a chunk that was read, with the writer that was loaded for it.
pub record SharedReader : Type 0 where
  pub next_pipe : ℕ
  pub user : Option ℕ
  pub installed : Bool
  pub current_w : Option ℕ
  pub loaded : Option (Option ℕ × Text)
  pub closed : List ℕ
  pub delivered : List (ℕ × Text)
  pub panicked : Bool

abbrev pub new_shared_reader : SharedReader
new_shared_reader = record {
  next_pipe = 0;
  user = none;
  installed = false;
  current_w = none;
  loaded = none;
  closed = [];
  delivered = [];
  panicked = false;
}

-- use, once it has its lock; to find a writer is a panic.
abbrev pub install : ℕ → Option ℕ → SharedReader → SharedReader
install n (some w) s = record s { panicked = true }
install n none s = record s { installed = true; current_w = some n }

-- the close of the writer, at the end of the input and when a user is done
abbrev pub close_writer : Option ℕ → SharedReader → SharedReader
close_writer none s = s
close_writer (some w) s = record s { current_w = none; closed = w ∷ s.closed }

-- The write of a chunk; to a closed pipe it fails, and without a writer it is discarded.
abbrev pub deliver : Option ℕ → Text → SharedReader → SharedReader
deliver none t s = record s { loaded = none }
deliver (some n) t s =
    if is_member n s.closed
    then record s { loaded = none }
    else record s { loaded = none; delivered = s.delivered ++ (n, t) ∷ [] }

abbrev pub give_up : SharedReader → SharedReader
give_up s = record s { user = none; installed = false }

pub data Step : SharedReader → SharedReader → Type 0 where
  locks :
      (s : SharedReader)
      → s.user ≡ none
      → Step s (record s { user = some s.next_pipe; next_pipe = suc s.next_pipe })
  uses :
      (s : SharedReader) (n : ℕ)
      → s.user ≡ some n
      → s.installed ≡ false
      → Step s (install n s.current_w s)
  reads :
      (s : SharedReader) (t : Text)
      → s.loaded ≡ none
      → Step s (record s { loaded = some (s.current_w, t) })
  writes :
      (s : SharedReader) (w : Option ℕ) (t : Text) → s.loaded ≡ some (w, t) → Step s (deliver w t s)
  ends : (s : SharedReader) → s.loaded ≡ none → Step s (close_writer s.current_w s)
  finishes :
      (s : SharedReader) (n : ℕ)
      → s.user ≡ some n
      → s.installed ≡ true
      → Step s (give_up (close_writer s.current_w s))

-- the states that any steps reach
pub data Reaches : SharedReader → Type 0 where
  starts : Reaches new_shared_reader
  goes : (s s' : SharedReader) → Reaches s → Step s s' → Reaches s'
