-- ===== src/Main/Progress.antt =====
-- The progress writer of main.go. While a shell is open, it keeps what the build writes.
pub mod Shown
use buildg.Prelude.{
  ℕ, ◌+◌, ◌≡◌, refl, ap, sym, ◌∙◌, Bool, true, false, not, ◌⊎◌, inl, inr, Bool-cases, List, [], ◌∷◌,
  ◌++◌, Option, none, some, arith, if◌then◌else◌, length, take, drop, append_assoc, append-nil,
  length-append, take-append, drop-append, is_nonempty,
}
use buildg.Text.{Text}
use buildg.Errors.{Error, Result, ok, err}

-- What is behind a file: a write, and all that was written.
pub record File : Type 1 where
  pub Disk : Type 0
  pub write_bytes : Text → Disk → Result ℕ × Disk
  pub bytes : Disk → Text

-- The file takes all that is written and says so.
abbrev pub TakesAll : File → Type 0
TakesAll F =
    (p : Text) (d : F.Disk)
    → ((F.write_bytes p d).0 ≡ ok (length p)) × (F.bytes (F.write_bytes p d).1 ≡ F.bytes d ++ p)

pub record ProgressWriter (T L : File) : Type 0 where
  pub terminal : T.Disk
  pub enabled : Bool
  pub buf : Text
  pub log_file : Option L.Disk

pub data Call : Type 0 where
  writes : Text → Call
  enables disables : Call

-- A failure of the log file is only logged.
abbrev pub log_write : (L : File) → Text → Option L.Disk → Option L.Disk
log_write L p none = none
log_write L p (some d) = some (L.write_bytes p d).1

module _ {T L : File} where
  abbrev pub new_progress_writer : T.Disk → L.Disk → ProgressWriter T L
  new_progress_writer terminal log_file = record {
    terminal = terminal;
    enabled = true;
    buf = [];
    log_file = some log_file;
  }

  unfoldable pub disable : ProgressWriter T L → ProgressWriter T L
  disable w = record w { enabled = false }

  -- The result of the write is dropped.
  unfoldable pub enable : ProgressWriter T L → ProgressWriter T L
  enable w =
      if is_nonempty w.buf
      then record w { enabled = true; terminal = (T.write_bytes w.buf w.terminal).1; buf = [] }
      else record w { enabled = true }

  unfoldable pub buffered : ProgressWriter T L → Text
  buffered w = w.buf

  unfoldable pub write : Text → ProgressWriter T L → Result ℕ × ProgressWriter T L
  write p w =
      let log_file = log_write L p w.log_file in
      if w.enabled
      then (
        (T.write_bytes p w.terminal).0,
        record w { terminal = (T.write_bytes p w.terminal).1; log_file = log_file },
      )
      else (ok (length p), record w { buf = w.buf ++ p; log_file = log_file })

  unfoldable pub call : Call → ProgressWriter T L → ProgressWriter T L
  unfolding write enable disable
  call (writes p) w = (write p w).1
  call enables w = enable w
  call disables w = disable w

  unfoldable pub run : List Call → ProgressWriter T L → ProgressWriter T L
  run [] w = w
  run (c ∷ cs) w = run cs (call c w)

-- What it is for: a text that grows, shown up to a cursor, which stands at the end unless it is held.
pub record Display : Type 0 where
  pub all : Text
  pub cursor : ℕ
  pub held : Bool

unfoldable pub show : Call → Display → Display
show (writes p) v =
    let grown = v.all ++ p in
    record v { all = grown; cursor = if v.held then v.cursor else length grown }
show enables v = record v { held = false; cursor = length v.all }
show disables v = record v { held = true }

unfoldable pub show_all : List Call → Display → Display
show_all [] v = v
show_all (c ∷ cs) v = show_all cs (show c v)

abbrev pub blank : Display
blank = record { all = []; cursor = 0; held = false }
