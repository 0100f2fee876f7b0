-- ===== src/Testutil/Environ.antt =====
-- The environment of a command of os/exec: of two entries for one variable the last is used. And the prompt that
-- newCommandHandler of commands.go takes from it.
use buildg.Prelude.{List, [], ◌∷◌, ◌++◌, Option, none, some, if◌then◌else◌, ◌==◌, length, drop}
use buildg.Text.{Text, codes, text_eq}
use buildg.Main.Options.{has_prefix}

abbrev pub value_of : Text → Text → Option Text
value_of p e = if has_prefix p e then some (drop (length p) e) else none

abbrev pub or_earlier : Option Text → Option Text → Option Text
or_earlier none o = o
or_earlier (some v) o = some v

unfoldable pub find_env : List Text → Text → Option Text
unfolding has_prefix
find_env [] k = none
find_env (e ∷ es) k = or_earlier (find_env es k) (value_of (k ++ codes "=") e)

abbrev or_empty : Option Text → Text
or_empty none = []
or_empty (some v) = v

-- os.Getenv of a process with these entries
unfoldable pub getenv_of : List Text → Text → Text
unfolding find_env
getenv_of env k = or_empty (find_env env k)

-- newCommandHandler: the prompt, by the environment
unfoldable pub new_prompt : (Text → Text) → Text
new_prompt getenv = let p = getenv (codes "BUILDG_PS1") in if p == [] then codes "(buildg) " else p
