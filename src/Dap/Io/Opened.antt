-- ===== src/Dap/Io/Opened.antt =====
-- Which FIFOs are open when the opening of them returns.
use buildg.Prelude.{ℕ, ◌≡◌, refl, List, [], ◌∷◌, ◌++◌, Option, none, some, map}
use buildg.Text.{Text, codes}
use buildg.Errors.{Error, wrapped, Result, ok, err}
use buildg.Container.Paths.{join}
use buildg.Dap.Io.{
  OpenFlag, wronly, rdonly, creat, nonblock, OpenFifo, open_file, Files, permissions, after_stdin,
  open_fifos_client, open_fifos_server,
}

-- a name with the flags to open it with
abbrev pub Wanted : Type 0
Wanted = List (Text × List OpenFlag)

abbrev pub client_fifos : Wanted
client_fifos =
    (codes "stdin", wronly ∷ [])
    ∷ (codes "stdout", rdonly ∷ [])
    ∷ (codes "stderr", rdonly ∷ [])
    ∷ []

abbrev pub server_fifos : Wanted
server_fifos =
    (codes "stdin", rdonly ∷ creat ∷ nonblock ∷ [])
    ∷ (codes "stdout", wronly ∷ creat ∷ nonblock ∷ [])
    ∷ (codes "stderr", wronly ∷ creat ∷ nonblock ∷ [])
    ∷ []

abbrev pub add_opened :
    Text → Result ℕ → List ℕ × Option (Text × Error) → List ℕ × Option (Text × Error)
add_opened name (err e) later = ([], some (name, e))
add_opened name (ok f) (files, failure) = (f ∷ files, failure)

-- Each is opened until one fails: the files that were opened, with the failure.
pub open_each : OpenFifo → Text → Wanted → List ℕ × Option (Text × Error)
open_each open_fifo dir [] = ([], none)
open_each open_fifo dir ((name, flags) ∷ rest) =
    add_opened name (open_fifo (join dir name) flags permissions) (open_each open_fifo dir rest)

-- Just these files were opened, in this order, and none is closed.
abbrev pub Opened : List ℕ × Option (Text × Error) → Files → Type 0
Opened (files, none) (r, steps) =
    (i o f : ℕ) × (files ≡ i ∷ o ∷ f ∷ []) × (r ≡ ok (i, o, f)) × (steps ≡ map open_file files)
Opened (files, some (name, e)) (r, steps) =
    (r ≡ err (wrapped (codes "failed to open " ++ name ++ codes " fifo") e))
    × (steps ≡ map open_file files)

module _ (open_fifo : OpenFifo) (dir : Text) (out : List OpenFlag) where
  abbrev opens : Text → Result ℕ
  opens name = open_fifo (join dir name) out permissions

  abbrev opened_after : Result ℕ → List ℕ × Option (Text × Error)
  opened_after r = add_opened (codes "stdin") r (
      add_opened (codes "stdout") (opens (codes "stdout"))
        (add_opened (codes "stderr") (opens (codes "stderr")) ([], none)))

  after_stdin-Opened :
      (r s t : Result ℕ)
      → opens (codes "stdout") ≡ s
      → opens (codes "stderr") ≡ t
      → Opened (opened_after r) (after_stdin open_fifo dir out r)
  after_stdin-Opened (err e) s t p q = (refl, refl)
  after_stdin-Opened (ok i) (err e) t p q = rw p (refl, refl)
  after_stdin-Opened (ok i) (ok o) (err e) p q = rw (p, q) (refl, refl)
  after_stdin-Opened (ok i) (ok o) (ok f) p q = rw (p, q) (i, o, f, refl, refl, refl)

-- On both sides stdin, stdout and stderr are opened in this order until one fails. If none does, the three files are
-- returned. If one does, its error is returned, wrapped, and the files that were opened before it stay open.
pub open_fifos-Opened :
    (open_fifo : OpenFifo) (dir : Text)
    → Opened (open_each open_fifo dir client_fifos) (open_fifos_client open_fifo dir)
      × Opened (open_each open_fifo dir server_fifos) (open_fifos_server open_fifo dir)
unfolding open_each open_fifos_client open_fifos_server
open_fifos-Opened open_fifo dir = (
  after_stdin-Opened open_fifo dir (rdonly ∷ []) _ _ _ refl refl,
  after_stdin-Opened open_fifo dir (wronly ∷ creat ∷ nonblock ∷ []) _ _ _ refl refl,
)
