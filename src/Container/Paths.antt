-- ===== src/Container/Paths.antt =====
-- Go's filepath.Join, on paths with slashes.
use buildg.Prelude.{ℕ, ◌≡◌, refl, Bool, false, List, [], ◌∷◌, ◌++◌, if◌then◌else◌, ◌==◌, nat_eq}
use buildg.Text.{Text, codes, text_eq}

abbrev slash : ℕ
slash = 47

abbrev cons_first : ℕ → List Text → List Text
cons_first c [] = (c ∷ []) ∷ []
cons_first c (s ∷ ss) = (c ∷ s) ∷ ss

-- the names between the slashes
unfoldable pub segments : Text → List Text
segments [] = [] ∷ []
segments (c ∷ cs) = let rest = segments cs in if c == slash then [] ∷ rest else cons_first c rest

-- ".." takes away the last name, unless there is none, or that is ".." too.
abbrev up : Bool → List Text → List Text
up rooted [] = if rooted then [] else codes ".." ∷ []
up rooted (s ∷ ss) = if s == codes ".." then codes ".." ∷ s ∷ ss else ss

-- The names that remain, the last one first.
unfoldable pub simplify : Bool → List Text → List Text → List Text
simplify rooted [] acc = acc
simplify rooted (s ∷ ss) acc = simplify rooted ss (
    if s == []
    then acc
    else if s == codes "."
    then acc
    else if s == codes ".."
    then up rooted acc
    else s ∷ acc)

unfoldable pub unite : List Text → Text → Text
unite [] acc = acc
unite (s ∷ ss) acc = unite ss (if acc == [] then s else s ++ slash ∷ acc)

abbrev is_rooted : Text → Bool
is_rooted [] = false
is_rooted (c ∷ cs) = c == slash

-- filepath.Clean
unfoldable pub clean : Text → Text
unfolding segments simplify unite
clean p =
    let names = unite (simplify (is_rooted p) (segments p) []) [] in
    if is_rooted p then slash ∷ names else if names == [] then codes "." else names

unfoldable pub join : Text → Text → Text
join a b =
    if a == []
    then (if b == [] then [] else clean b)
    else if b == []
    then clean a
    else clean (a ++ slash ∷ b)

joined :
    (join (codes "/debugroot") (codes "/") ≡ codes "/debugroot")
    × (join (codes "/a/../b") (codes "c/./d") ≡ codes "/b/c/d")
unfolding join clean segments simplify unite
joined = (refl, refl)
