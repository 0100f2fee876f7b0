-- ===== src/Main/Progress/Shown.antt =====
-- What main.go's progress writer shows and logs, over any calls.
use buildg.Prelude.{
  ◌≡◌, refl, ap, sym, ◌∙◌, Bool, true, false, not, List, [], ◌∷◌, ◌++◌, Option, some, arith, length,
  take, drop, append_assoc, append-nil, take-append, drop-append,
}
use buildg.Text.{Text}
use buildg.Main.Progress.{
  File, TakesAll, ProgressWriter, new_progress_writer, disable, enable, buffered, log_write, write,
  Call, writes, enables, disables, call, run, Display, show, show_all, blank,
}

log_write-some :
    (L : File) (p : Text) (l : Option L.Disk) (d : L.Disk)
    → l ≡ some d
    → log_write L p l ≡ some (L.write_bytes p d).1
log_write-some L p l d e = rw e refl

module _ {T L : File} where
  -- The display that a writer stands for: the terminal ends at the cursor, and the buffer holds the rest.
  record Matches (base : Text) (w : ProgressWriter T L) (v : Display) : Type 0 where
    shown : Text
    split : v.all ≡ shown ++ w.buf
    at_cursor : v.cursor ≡ length shown
    is_held : v.held ≡ not w.enabled
    on_terminal : T.bytes w.terminal ≡ base ++ shown
    kept : w.enabled ≡ true → w.buf ≡ []

  module _ (takes : TakesAll T) (base : Text) where
    -- Each call, by the state of the writer.
    write-Matches :
        (p : Text) (terminal : T.Disk) (enabled : Bool) (buf : Text) (l : Option L.Disk)
        (v : Display)
        → let w : ProgressWriter T L = record {
          terminal = terminal;
          enabled = enabled;
          buf = buf;
          log_file = l;
        } in
          Matches base w v → Matches base (write p w).1 (show (writes p) v)
    unfolding write show
    write-Matches p terminal true buf l v m =
        let all : v.all ++ p ≡ m.shown ++ p = rw (m.split, m.kept refl, append-nil) refl in
        record {
          shown = m.shown ++ p;
          split = rw (all, m.kept refl, append-nil) refl;
          at_cursor = rw (m.is_held, all) refl;
          is_held = m.is_held;
          on_terminal = (takes p terminal).1 ∙ rw (m.on_terminal) (append_assoc base m.shown p);
          kept = m.kept;
        }
    write-Matches p terminal false buf l v m = record {
      shown = m.shown;
      split = rw m.split (append_assoc m.shown buf p);
      at_cursor = rw m.is_held m.at_cursor;
      is_held = m.is_held;
      on_terminal = m.on_terminal;
      kept = λ e. ground arith;
    }

    enable-Matches :
        (terminal : T.Disk) (enabled : Bool) (buf : Text) (l : Option L.Disk) (v : Display)
        → let w : ProgressWriter T L = record {
          terminal = terminal;
          enabled = enabled;
          buf = buf;
          log_file = l;
        } in
          Matches base w v → Matches base (enable w) (show enables v)
    unfolding enable show
    enable-Matches terminal enabled [] l v m = record {
      shown = m.shown;
      split = m.split;
      at_cursor = ap length (m.split ∙ append-nil m.shown);
      is_held = refl;
      on_terminal = m.on_terminal;
      kept = λ e. refl;
    }
    enable-Matches terminal enabled (c ∷ cs) l v m = record {
      shown = m.shown ++ c ∷ cs;
      split = m.split ∙ sym (append-nil (m.shown ++ c ∷ cs));
      at_cursor = ap length m.split;
      is_held = refl;
      on_terminal =
          (takes (c ∷ cs) terminal).1 ∙ rw m.on_terminal (append_assoc base m.shown (c ∷ cs));
      kept = λ e. refl;
    }

    disable-Matches :
        (w : ProgressWriter T L) (v : Display)
        → Matches base w v
        → Matches base (disable w) (show disables v)
    unfolding disable show
    disable-Matches w v m = record {
      shown = m.shown;
      split = m.split;
      at_cursor = m.at_cursor;
      is_held = refl;
      on_terminal = m.on_terminal;
      kept = λ e. ground arith;
    }

    call-Matches :
        (c : Call) (w : ProgressWriter T L) (v : Display)
        → Matches base w v
        → Matches base (call c w) (show c v)
    unfolding call
    call-Matches (writes p) w v m = write-Matches p w.terminal w.enabled w.buf w.log_file v m
    call-Matches enables w v m = enable-Matches w.terminal w.enabled w.buf w.log_file v m
    call-Matches disables w v m = disable-Matches w v m

    run-Matches :
        (cs : List Call) (w : ProgressWriter T L) (v : Display)
        → Matches base w v
        → Matches base (run cs w) (show_all cs v)
    unfolding run show_all
    run-Matches [] w v m = m
    run-Matches (c ∷ cs) w v m = run-Matches cs (call c w) (show c v) (call-Matches c w v m)

  module _ (takes : TakesAll L) (base : Text) where
    -- The log holds all that was written.
    abbrev HasLogged : ProgressWriter T L → Display → Type 0
    HasLogged w v = (d : L.Disk) × (w.log_file ≡ some d) × (L.bytes d ≡ base ++ v.all)

    write_log_file :
        (p : Text) (w : ProgressWriter T L) → (write p w).1.log_file ≡ log_write L p w.log_file
    unfolding write
    write_log_file p w = ground arith

    enable_log_file : (w : ProgressWriter T L) → (enable w).log_file ≡ w.log_file
    unfolding enable
    enable_log_file w = ground arith

    disable_log_file : (w : ProgressWriter T L) → (disable w).log_file ≡ w.log_file
    unfolding disable
    disable_log_file w = refl

    call-HasLogged :
        (c : Call) (w : ProgressWriter T L) (v : Display)
        → HasLogged w v
        → HasLogged (call c w) (show c v)
    unfolding call show
    call-HasLogged (writes p) w v (d, e, l) = (
      (L.write_bytes p d).1,
      write_log_file p w ∙ log_write-some L p w.log_file d e,
      (takes p d).1 ∙ rw l (append_assoc base v.all p),
    )
    call-HasLogged enables w v (d, e, l) = (d, enable_log_file w ∙ e, l)
    call-HasLogged disables w v (d, e, l) = (d, disable_log_file w ∙ e, l)

    run-HasLogged :
        (cs : List Call) (w : ProgressWriter T L) (v : Display)
        → HasLogged w v
        → HasLogged (run cs w) (show_all cs v)
    unfolding run show_all
    run-HasLogged [] w v h = h
    run-HasLogged (c ∷ cs) w v h = run-HasLogged cs (call c w) (show c v) (call-HasLogged c w v h)

-- On files that take all that is written, any calls of a new writer keep to the display of these calls: the
-- terminal has got the text up to the cursor, the buffer holds the rest, and the log file has got all.
pub run-show_all :
    (T L : File)
    → TakesAll T
    → TakesAll L
    → (cs : List Call) (terminal : T.Disk) (l : L.Disk)
    → let w = run cs (new_progress_writer {T = T} {L = L} terminal l) in
      let v = show_all cs blank in
      (T.bytes w.terminal ≡ T.bytes terminal ++ take v.cursor v.all)
      × (buffered w ≡ drop v.cursor v.all)
      × ((d : L.Disk) × (w.log_file ≡ some d) × (L.bytes d ≡ L.bytes l ++ v.all))
unfolding buffered
run-show_all T L takes logs cs terminal l =
    let w : ProgressWriter T L = new_progress_writer terminal l in
    let m = run-Matches takes (T.bytes terminal) cs w blank (record {
      shown = [];
      split = refl;
      at_cursor = refl;
      is_held = refl;
      on_terminal = sym (append-nil (T.bytes terminal));
      kept = λ e. refl;
    }) in
    (
      m.on_terminal ∙ rw (m.at_cursor, m.split, take-append) refl,
      rw (m.at_cursor, m.split, drop-append) refl,
      run-HasLogged logs (L.bytes l) cs w blank (l, refl, sym (append-nil (L.bytes l))),
    )
