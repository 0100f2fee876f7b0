-- ===== src/Tests/Stdin.antt =====
-- The standard input with one user and a chunk on its way.
use buildg.Prelude.{ℕ, ◌≡◌, refl, true, false, [], Option, some}
use buildg.Text.{Text, codes}
use buildg.Shell.Stdin.{SharedReader, new_shared_reader, locks, uses, reads, Reaches, starts, goes}
use buildg.Shell.Stdin.Users.{IsWritten, Reaches-one_user}

abbrev in_use : SharedReader
in_use = record {
  next_pipe = 1;
  user = some 0;
  installed = true;
  current_w = some 0;
  loaded = some (some 0, codes "next");
  closed = [];
  delivered = [];
  panicked = false;
}

in_use-Reaches : Reaches in_use
in_use-Reaches =
    goes _ _ (goes _ _ (goes _ _ starts (locks new_shared_reader refl)) (uses _ 0 refl refl))
      (reads _ (codes "next") refl)

Reaches-one_user_example :
    (in_use.panicked ≡ false)
    × ((n : ℕ) → in_use.current_w ≡ some n → in_use.user ≡ some n)
    × ((w : Option ℕ) (t : Text) → in_use.loaded ≡ some (w, t) → IsWritten in_use w t)
Reaches-one_user_example = Reaches-one_user in_use in_use-Reaches
