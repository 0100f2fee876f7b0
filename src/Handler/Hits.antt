-- ===== src/Handler/Hits.antt =====
-- Which breakpoints an event hits.
use buildg.Prelude.{
  ◌≡◌, refl, sym, ap, ◌∙◌, inl, inr, true, List, [], ◌∷◌, Option, none, some, arith, if◌then◌else◌,
  ◌==◌, Bool-cases,
}
use buildg.Text.{Text, text_eq, text_beq_iff}
use buildg.Dict.{Dict, lookup, lookup-insert}
use buildg.Types.{Location, RegisteredStatus}
use buildg.Breakpoints.{Breakpoint, on_fail, line, Breakpoints, entries, get, is_target}
use buildg.Breakpoints.Order.{
  walk, for_each-walk, entries_at, at_key, sorted_entries, lookup-sorted_entries,
}
use buildg.Handler.{BreakpointInfo, record_hit, get_hit_breakpoints}

no_err :
    (bp : Breakpoint) (info : RegisteredStatus) (locs : List Location)
    → (is_target bp info locs).err ≡ none
unfolding is_target
no_err on_fail info locs = refl
no_err (line f l) info locs = ground arith

module _ (info : RegisteredStatus) (locs : List Location) where
  -- What is recorded of the breakpoint at a key.
  abbrev pub hit_of : Option Breakpoint → Option BreakpointInfo
  hit_of none = none
  hit_of (some bp) =
      if (is_target bp info locs).yes
      then some (record {
        description = (is_target bp info locs).description;
        hits = (is_target bp info locs).hit_locations;
      })
      else none

  abbrev or_else : Option BreakpointInfo → Option BreakpointInfo → Option BreakpointInfo
  or_else none o = o
  or_else (some i) o = some i

  abbrev if_present : Option Breakpoint → Option BreakpointInfo → Option BreakpointInfo
  if_present none o = none
  if_present (some _) o = o

  lookup-record_hit :
      (k j : Text) (bp : Breakpoint) (acc : Dict Text BreakpointInfo)
      → lookup j (record_hit k (is_target bp info locs) (is_target bp info locs).err acc)
        ≡ (if k == j then or_else (hit_of (some bp)) (lookup j acc) else lookup j acc)
  lookup-record_hit k j bp acc = rw no_err (
      ground (
        arith,
        lookup-insert k j
            (record {
              description = (is_target bp info locs).description;
              hits = (is_target bp info locs).hit_locations;
            })
            acc,
      ))

  -- every entry of the list is that of the map at its key
  abbrev IsFrom : Dict Text Breakpoint → Dict Text Breakpoint → Type 0
  IsFrom m [] = Unit
  IsFrom m ((k, bp) ∷ es) = (lookup k m ≡ some bp) × IsFrom m es

  lookup-cons :
      {V : Type 0} (j k : Text) (v : V) (es : Dict Text V)
      → lookup j ((k, v) ∷ es) ≡ (if k == j then some v else lookup j es)
  unfolding lookup
  lookup-cons j k v es = refl

  or_else_again :
      (o : Option Breakpoint) (x acc : Option BreakpointInfo)
      → or_else (if_present o x) (or_else x acc) ≡ or_else x acc
  or_else_again none x acc = refl
  or_else_again (some _) none acc = refl
  or_else_again (some _) (some i) acc = refl

  one_more :
      (m : Dict Text Breakpoint) (j k : Text) (bp : Breakpoint) (es : Dict Text Breakpoint)
      (acc : Dict Text BreakpointInfo)
      → lookup k m ≡ some bp
      → or_else
          (if_present (lookup j es) (hit_of (lookup j m)))
          (lookup j (record_hit k (is_target bp info locs) (is_target bp info locs).err acc))
        ≡ or_else (if_present (lookup j ((k, bp) ∷ es)) (hit_of (lookup j m))) (lookup j acc)
  one_more m j k bp es acc e =
      rw (lookup-record_hit, lookup-cons)
        (elim (Bool-cases (k == j)) [
          | inl same ↦
              (let found : lookup j m ≡ some bp =
                  ap (λ (x : Text). lookup x m) (sym ((text_beq_iff k j).0 same)) ∙ e in
                rw (same, found) (or_else_again (lookup j es) (hit_of (some bp)) (lookup j acc)))
          | inr other ↦ rw other refl
        ])

  walk_hits : Dict Text Breakpoint → Dict Text BreakpointInfo → Dict Text BreakpointInfo
  walk_hits = walk (λ key bp hit.
      (record_hit key (is_target bp info locs) (is_target bp info locs).err hit, true))

  lookup-walk_hits :
      (m : Dict Text Breakpoint) (j : Text) (es : Dict Text Breakpoint)
      (acc : Dict Text BreakpointInfo)
      → IsFrom m es
      → lookup j (walk_hits es acc)
        ≡ or_else (if_present (lookup j es) (hit_of (lookup j m))) (lookup j acc)
  unfolding walk walk_hits
  lookup-walk_hits m j [] acc h = unfold lookup in refl
  lookup-walk_hits m j ((k, bp) ∷ es) acc h =
      lookup-walk_hits m j es
        (record_hit k (is_target bp info locs) (is_target bp info locs).err acc) h.1
      ∙ one_more m j k bp es acc h.0

  IsFrom-entries_at : (m : Dict Text Breakpoint) (ks : List Text) → IsFrom m (entries_at m ks)
  unfolding entries_at at_key
  IsFrom-entries_at m [] = tt
  IsFrom-entries_at m (k ∷ ks) = go (lookup k m) refl (IsFrom-entries_at m ks)
    where
      go :
          (o : Option Breakpoint)
          → lookup k m ≡ o
          → IsFrom m (entries_at m ks)
          → IsFrom m (at_key k o (entries_at m ks))
      go none e h = tt
      go (some bp) e h = (e, h)

  or_else_self : (o : Option Breakpoint) → or_else (if_present o (hit_of o)) none ≡ hit_of o
  or_else_self none = refl
  or_else_self (some bp) = go (hit_of (some bp))
    where
      go : (x : Option BreakpointInfo) → or_else x none ≡ x
      go none = refl
      go (some i) = refl

  look_sorted :
      (m : Dict Text Breakpoint) (j : Text)
      → or_else (if_present (lookup j (sorted_entries m)) (hit_of (lookup j m))) none
        ≡ hit_of (lookup j m)
  look_sorted m j = rw lookup-sorted_entries (or_else_self (lookup j m))

  lookup-walk_sorted :
      (m : Dict Text Breakpoint) (j : Text)
      → lookup j (walk_hits (sorted_entries m) []) ≡ hit_of (lookup j m)
  lookup-walk_sorted m j =
      lookup-walk_hits m j (sorted_entries m) [] (unfold sorted_entries in IsFrom-entries_at m _)
      ∙ (unfold lookup in look_sorted m j)

  -- An event hits the breakpoint at a key exactly when the breakpoint says so, and what is recorded of it
  -- is its own description and its own locations.
  pub lookup-get_hit_breakpoints :
      (b : Breakpoints) (j : Text) → lookup j (get_hit_breakpoints b info locs) ≡ hit_of (get j b)
  unfolding get_hit_breakpoints get walk_hits
  lookup-get_hit_breakpoints b j =
      ap (lookup j) (for_each-walk _ b []) ∙ lookup-walk_sorted (entries b) j
