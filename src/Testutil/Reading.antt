-- ===== src/Testutil/Reading.antt =====
-- pkg/testutil/debugshell.go: what the helper of the tests reads from a shell.
use buildg.Prelude.{
  ℕ, suc, Bool, true, false, List, [], ◌∷◌, ◌++◌, Option, none, some, if◌then◌else◌, ◌==◌, take,
}
use buildg.Text.{Text, codes, text_eq}
use buildg.Errors.{Error, message, described}
use buildg.Main.Options.{has_prefix, contains}

-- strings.LastIndex
abbrev pub later_or : Option ℕ → Bool → Option ℕ
later_or (some i) here = some (suc i)
later_or none true = some 0
later_or none false = none

unfoldable pub last_index : Text → Text → Option ℕ
unfolding has_prefix
last_index [] sub = if has_prefix sub [] then some 0 else none
last_index (c ∷ s) sub = later_or (last_index s sub) (has_prefix sub (c ∷ s))

-- One turn of the loop: what the buffer holds since the last, the error of reading it, and whether the command has
-- ended by the end of the turn.
pub record Tick : Type 0 where
  pub got : Text
  pub read_error : Option Error
  pub wait_done : Bool

abbrev pub end_tick :
    Text
    → Option Error
    → Option ℕ
    → Bool
    → Option (Text × Option Error)
    → Option (Text × Option Error)
end_tick out (some e) i d later = some (out, some e)
end_tick out none (some i) d later = some (take i out, none)
end_tick out none none true later = some (out, none)
end_tick out none none false later = later

-- The loop takes a turn at each tick; none while it waits.
unfoldable pub read_until_prompt : Text → List Tick → Text → Option (Text × Option Error)
unfolding last_index
read_until_prompt prompt [] out = none
read_until_prompt prompt (t ∷ ts) out =
    let now = out ++ t.got in
    end_tick now t.read_error (last_index now prompt) t.wait_done (read_until_prompt prompt ts now)

-- The output of a command, or the error that ends the test.
pub data Done : Type 0 where
  output : Text → Done
  fatal : Error → Done

abbrev pub is_eof : Error → Bool
is_eof (message t) = t == codes "EOF"
is_eof e = false

abbrev pub output_of : Text × Option Error → Done
output_of (out, none) = output out
output_of (out, some e) =
    if is_eof e then output out else fatal (described (codes "failed to read stdout") e)

abbrev pub shown_of : Option (Text × Option Error) → Option Done
shown_of none = none
shown_of (some r) = some (output_of r)

-- Do, with the error of the write and the lines that were written.
unfoldable pub do_args :
    Text → Text → Option Error → List Tick → List Text → Option Done × List Text
unfolding read_until_prompt
do_args prompt args (some e) ts written = (some (output []), written)
do_args prompt args none ts written =
    (shown_of (read_until_prompt prompt ts []), written ++ (args ++ codes "\n") ∷ [])

-- OutEqual and OutContains, and their negations: whether the test goes on.
unfoldable pub out_equal : Text → Text → Bool
out_equal s out = s == out

unfoldable pub out_contains : Text → Text → Bool
unfolding contains
out_contains s out = contains s out
