-- ===== src/Dap/Strings.antt =====
-- What the server uses of Go's strings and path/filepath, on paths with slashes.
use buildg.Prelude.{ℕ, [], ◌∷◌, ◌&&◌, if◌then◌else◌, ◌==◌, nat_eq, Option, none, some}
use buildg.Text.{Text, codes, text_eq}

abbrev pub slash : ℕ
slash = 47

abbrev pub equals : ℕ
equals = 61

abbrev split_step : ℕ → Text × Text → Text × Text
split_step c ([], f) = if c == slash then (c ∷ [], f) else ([], c ∷ f)
split_step c (d ∷ ds, f) = (c ∷ d ∷ ds, f)

-- filepath.Split: up to the last slash, and the rest.
unfoldable pub split_path : Text → Text × Text
split_path [] = ([], [])
split_path (c ∷ cs) = split_step c (split_path cs)

unfoldable strip_slashes : Text → Text
strip_slashes [] = []
strip_slashes (c ∷ cs) =
    let rest = strip_slashes cs in if c == slash && rest == [] then [] else c ∷ rest

abbrev base_of : Text → Text
base_of [] = codes "/"
base_of (c ∷ cs) = (split_path (c ∷ cs)).1

-- filepath.Base
unfoldable pub base : Text → Text
unfolding strip_slashes
base path = if path == [] then codes "." else base_of (strip_slashes path)

abbrev key_step : ℕ → Text × Option Text → Text × Option Text
key_step c (k, v) = (c ∷ k, v)

-- strings.SplitN(e, "=", 2): what stands before the first "=", and what stands after it, if there is one.
unfoldable pub split_equals : Text → Text × Option Text
split_equals [] = ([], none)
split_equals (c ∷ cs) = if c == equals then ([], some cs) else key_step c (split_equals cs)
