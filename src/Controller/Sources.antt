-- ===== src/Controller/Sources.antt =====
-- The sources of the running solves, with the number of solves that use each, and the search for
-- the locations of a vertex.
use buildg.Prelude.{
  ℕ, List, [], ◌∷◌, ◌++◌, Option, none, some, if◌then◌else◌, ◌==◌, nat_eq, get_elem?,
}
use buildg.Int.{ℤ, pos, negsuc, ◌+ℤ◌, ◌-ℤ◌, wrap64, int_eq}
use buildg.Text.{Text, text_eq}
use buildg.Dict.{Dict, lookup, insert, delete, keys}
use buildg.Errors.{location_not_found, Result, ok, err}
use buildg.Types.{Range, SourceInfo, Location}

-- pb.Location: an index into the infos of its source.
pub record SourceLocation : Type 0 where
  pub source_index : ℤ
  pub ranges : List Range

-- pb.Source, which is not changed once it is sent.
pub record Source : Type 0 where
  pub locations : Dict Text (List SourceLocation)
  pub infos : List SourceInfo

-- `map[*pb.Source]int`, by address; `none` is a nil map.
abbrev pub Sources : Type 0
Sources = Option (Dict ℕ ℤ)

abbrev pub counts : Sources → Dict ℕ ℤ
counts none = []
counts (some m) = m

abbrev pub add_count : Option ℤ → ℤ
add_count (some c) = wrap64 (c +ℤ pos 1)
add_count none = pos 1

unfoldable pub add_location_source : ℕ → Sources → Sources
add_location_source s sources = let m = counts sources in some (insert s (add_count (lookup s m)) m)

abbrev pub delete_count : ℕ → Option ℤ → Sources → Sources
delete_count s none sources = sources
delete_count s (some c) sources =
    let c' = wrap64 (c -ℤ pos 1) in
    let m = insert s c' (counts sources) in some (if c' == pos 0 then delete s m else m)

unfoldable pub delete_location_source : ℕ → Sources → Sources
delete_location_source s sources = delete_count s (lookup s (counts sources)) sources

-- `xs[i]`; `none` is the panic of an index out of range.
abbrev pub at_index {ℓ} : {A : Type ℓ} → List A → ℤ → Option A
at_index xs (pos n) = get_elem? xs n
at_index xs (negsuc n) = none

-- `none` is a panic here and below.
infixl 5 ◌>>=◌
abbrev pub ◌>>=◌ {ℓ κ} : {A : Type ℓ} {B : Type κ} → Option A → (A → Option B) → Option B
none >>= f = none
some a >>= f = f a

-- The inner loop: the locations that one source has for the vertex.
unfoldable pub append_locations :
    List SourceInfo → List SourceLocation → List Location → Option (List Location)
append_locations infos [] locs = some locs
append_locations infos (loc ∷ rest) locs = do
  info ← at_index infos loc.source_index
  append_locations infos rest (locs ++ record { source = info; ranges = loc.ranges } ∷ [])

abbrev pub append_found :
    Source → Option (List SourceLocation) → List Location → Option (List Location)
append_found s none locs = some locs
append_found s (some found) locs = append_locations s.infos found locs

module _ (deref : ℕ → Source) (v : Text) where
  -- The outer loop over the addresses of the map.
  unfoldable pub collect_locations : List ℕ → List Location → Option (List Location)
  unfolding append_locations
  collect_locations [] locs = some locs
  collect_locations (s ∷ rest) locs = do
    locs' ← append_found (deref s) (lookup v (deref s).locations) locs
    collect_locations rest locs'

  abbrev pub located : List Location → Result (List Location)
  located [] = err (location_not_found v)
  located (loc ∷ locs) = ok (loc ∷ locs)

  unfoldable pub get_location : Sources → Option (Result (List Location))
  unfolding collect_locations
  get_location sources = do locs ← collect_locations (keys (counts sources)) []; some (located locs)
