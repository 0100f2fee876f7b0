-- ===== src/Dap/Io/Attach.antt =====
-- pkg/dap/io.go: AttachContainerIO, by which the client joins its terminal to the FIFOs of a container.
pub mod Restored
use buildg.Prelude.{
  ℕ, Bool, true, false, List, [], ◌∷◌, ◌++◌, Option, none, some, map, take, if◌then◌else◌, ◌==◌,
}
use buildg.Text.{Text, codes, text_eq}
use buildg.Errors.{Error, described, root_not_specified, io_timeout, Result, ok, err}
use buildg.Dap.Io.{OpenFifo, FileStep, close_file, Files, open_fifos_client}

-- FIFOs, whether 3 seconds pass before they are open, the failure to make the console raw, and the first error of the two
-- copies of output. `late` says, when they pass, how many steps the goroutine that opens the FIFOs has made in all by the
-- end of the process, before the timeout or after it.
pub record Terminal : Type 0 where
  pub open_fifo : OpenFifo
  pub late : Option ℕ
  pub raw_failure : Option Error
  pub copy_failure : Option Error

pub data AttachStep : Type 0 where
  file : FileStep → AttachStep
  notify set_raw reset copy_input copy_outputs print_finished : AttachStep

abbrev pub Attached : Type 0
Attached = Option Error × List AttachStep

abbrev pub copied : Option Error → Attached
copied none = (none, copy_input ∷ copy_outputs ∷ print_finished ∷ [])
copied (some e) = (some e, copy_input ∷ copy_outputs ∷ [])

abbrev pub between : List AttachStep → Attached → List AttachStep → Attached
between before (e, steps) after = (e, before ++ (steps ++ after))

abbrev pub with_raw : Option Error → Option Error → Attached
with_raw (some e) copy_failure = (some (described (codes "failed to configure terminal") e), [])
with_raw none copy_failure = between (set_raw ∷ []) (copied copy_failure) (reset ∷ [])

abbrev pub joined : Terminal → Bool → Attached
joined T false = copied T.copy_failure
joined T true = with_raw T.raw_failure T.copy_failure

-- the deferred closes
abbrev pub with_files : Terminal → Bool → Files → Attached
with_files T set_tty_raw (err e, steps) = (some e, map file steps)
with_files T set_tty_raw (ok (i, o, f), steps) =
    between (map file steps ++ notify ∷ []) (joined T set_tty_raw)
      (file (close_file i) ∷ file (close_file o) ∷ file (close_file f) ∷ [])

-- the select; after the timeout nothing closes what the goroutine has opened or opens later
abbrev pub after_select : Terminal → Text → Bool → Option ℕ → Attached
after_select T root set_tty_raw (some n) =
    (some io_timeout, map file (take n (open_fifos_client T.open_fifo root).1))
after_select T root set_tty_raw none = with_files T set_tty_raw (open_fifos_client T.open_fifo root)

unfoldable pub attach_container_io : Terminal → Text → Bool → Attached
unfolding open_fifos_client
attach_container_io T root set_tty_raw =
    if root == [] then (some root_not_specified, []) else after_select T root set_tty_raw T.late
