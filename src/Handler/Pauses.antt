-- ===== src/Handler/Pauses.antt =====
-- When a Handler pauses the build, and what it hands to the breakpoint handler.
use buildg.Prelude.{
  ◌≡◌, refl, sym, ap, ◌∙◌, ◌⊎◌, inl, inr, Bool, true, false, not, ◌&&◌, ◌||◌, List, [], ◌∷◌, Option,
  none, some, arith, if◌then◌else◌, ◌==◌, Bool-cases, is_nonempty,
}
use buildg.Text.{Text, text_eq, text_beq_iff}
use buildg.Dict.{Dict, lookup, insert, lookup-insert, HasUniqueKeys, insert-HasUniqueKeys}
use buildg.Errors.{Error}
use buildg.Types.{Location, RegisteredStatus}
use buildg.Breakpoints.{Breakpoint, Target, Breakpoints, entries, get, is_target}
use buildg.Breakpoints.Order.{walk, for_each-walk, sorted_entries}
use buildg.Handler.{
  BreakpointInfo, BreakContext, Handler, record_hit, get_hit_breakpoints, copy_hits,
  BreakpointHandler, handle,
}
use buildg.Handler.Hits.{hit_of, lookup-get_hit_breakpoints}

record_hit-HasUniqueKeys :
    (k : Text) (t : Target) (e : Option Error) (acc : Dict Text BreakpointInfo)
    → HasUniqueKeys acc
    → HasUniqueKeys (record_hit k t e acc)
record_hit-HasUniqueKeys k t (some _) acc u = u
record_hit-HasUniqueKeys k t none acc u = elim (Bool-cases t.yes) [
  | inl hit ↦ rw hit (insert-HasUniqueKeys k _ acc u)
  | inr miss ↦ rw miss u
]

module _ (info : RegisteredStatus) (locs : List Location) where
  walk-HasUniqueKeys :
      (es : Dict Text Breakpoint) (acc : Dict Text BreakpointInfo)
      → HasUniqueKeys acc
      → HasUniqueKeys (
          walk
            (λ key bp hit.
              (record_hit key (is_target bp info locs) (is_target bp info locs).err hit, true))
            es
            acc)
  unfolding walk
  walk-HasUniqueKeys [] acc u = u
  walk-HasUniqueKeys ((k, bp) ∷ es) acc u =
      walk-HasUniqueKeys es _ (record_hit-HasUniqueKeys k (is_target bp info locs) _ acc u)

  get_hit_breakpoints-HasUniqueKeys :
      (b : Breakpoints) → HasUniqueKeys (get_hit_breakpoints b info locs)
  unfolding get_hit_breakpoints
  get_hit_breakpoints-HasUniqueKeys b =
      rw for_each-walk (walk-HasUniqueKeys (sorted_entries (entries b)) [] tt)

copy_hits-flag :
    (es acc : Dict Text BreakpointInfo) (f : Bool)
    → (copy_hits es (acc, f)).1 ≡ (f || is_nonempty es)
unfolding copy_hits
copy_hits-flag [] acc f = ground arith
copy_hits-flag (e ∷ es) acc f = copy_hits-flag es _ true ∙ ground arith

abbrev or_else : Option BreakpointInfo → Option BreakpointInfo → Option BreakpointInfo
or_else none o = o
or_else (some i) o = some i

copy_one :
    (j k : Text) (i : BreakpointInfo) (es acc : Dict Text BreakpointInfo)
    → lookup k es ≡ none
    → or_else (lookup j es) (lookup j (insert k i acc))
      ≡ or_else (lookup j ((k, i) ∷ es)) (lookup j acc)
copy_one j k i es acc free = rw lookup-insert (
    unfold lookup in
    elim (Bool-cases (k == j)) [
      | inl same ↦
          (let gone : lookup j es ≡ none =
              ap (λ (x : Text). lookup x es) (sym ((text_beq_iff k j).0 same)) ∙ free in
            rw (same, gone) refl)
      | inr other ↦ rw other refl
    ])

lookup-copy_hits :
    (j : Text) (es acc : Dict Text BreakpointInfo) (f : Bool)
    → HasUniqueKeys es
    → lookup j (copy_hits es (acc, f)).0 ≡ or_else (lookup j es) (lookup j acc)
unfolding copy_hits
lookup-copy_hits j [] acc f u = unfold lookup in refl
lookup-copy_hits j ((k, i) ∷ es) acc f u =
    lookup-copy_hits j es (insert k i acc) true u.1 ∙ copy_one j k i es acc u.0

or_else-none : (o : Option BreakpointInfo) → or_else o none ≡ o
or_else-none none = refl
or_else-none (some i) = refl

copied :
    (j : Text) (es : Dict Text BreakpointInfo)
    → HasUniqueKeys es
    → lookup j (copy_hits es ([], false)).0 ≡ lookup j es
copied j es u = lookup-copy_hits j es [] false u ∙ (unfold lookup in or_else-none (lookup j es))

lookup-head :
    (k : Text) (i : BreakpointInfo) (es : Dict Text BreakpointInfo)
    → lookup k ((k, i) ∷ es) ≡ some i
unfolding lookup
lookup-head k i es = ground (arith, text_beq_iff k k)

nonempty_of_lookup :
    (k : Text) (i : BreakpointInfo) (es : Dict Text BreakpointInfo)
    → lookup k es ≡ some i
    → is_nonempty es ≡ true
unfolding lookup
nonempty_of_lookup k i [] e = ground arith
nonempty_of_lookup k i (x ∷ es) e = refl

module _ (info : RegisteredStatus) (locs : List Location) (h : Handler) where
  -- some breakpoint of the table is hit
  abbrev pub Hit : Type 0
  Hit =
      (key : Text) × (bp : Breakpoint) × (get key h.breakpoints ≡ some bp)
      × ((is_target bp info locs).yes ≡ true)

  -- Breakpoints are enabled, and: the build is to stop on entry and has not stopped yet, or every
  -- step is to stop, or a breakpoint is hit.
  abbrev pub Breaks : Type 0
  Breaks =
      (h.disable_breakpoints ≡ false)
      × (((h.stop_on_entry ≡ true) × (h.entried ≡ false)) ⊎ ((h.break_each_vertex ≡ true) ⊎ Hit))

  abbrev hits : Dict Text BreakpointInfo
  hits = get_hit_breakpoints h.breakpoints info locs

  Hit_at : (k : Text) (i : BreakpointInfo) → lookup k hits ≡ some i → Hit
  Hit_at k i found =
      go (get k h.breakpoints) refl
        (sym (lookup-get_hit_breakpoints info locs h.breakpoints k) ∙ found)
    where
      go :
          (o : Option Breakpoint)
          → get k h.breakpoints ≡ o
          → hit_of info locs (get k h.breakpoints) ≡ some i
          → Hit
      go none g e = absurd (cc (rw g at e))
      go (some bp) g e =
          let e' : hit_of info locs (some bp) ≡ some i = rw g at e in (k, bp, g, ground arith)

  hit→Hit : (es : Dict Text BreakpointInfo) → hits ≡ es → is_nonempty es ≡ true → Hit
  hit→Hit [] e n = absurd (ground arith)
  hit→Hit ((k, i) ∷ es) e n = Hit_at k i (ap (lookup k) e ∙ lookup-head k i es)

  Hit→hit : Hit → is_nonempty hits ≡ true
  Hit→hit (k, bp, g, y) =
      nonempty_of_lookup k
        (record {
          description = (is_target bp info locs).description;
          hits = (is_target bp info locs).hit_locations;
        })
        hits (lookup-get_hit_breakpoints info locs h.breakpoints k ∙ rw g (rw y refl))

-- the test of the guard, and what holds when it fails
guard_cases :
    (d s e v a : Bool)
    → ((d || (not s || e) && not v && not a) ≡ true)
      ⊎ ((d ≡ false) × (((s ≡ true) × (e ≡ false)) ⊎ ((v ≡ true) ⊎ (a ≡ true))))
guard_cases true s e v a = inl refl
guard_cases false true false v a = inr (refl, inl (refl, refl))
guard_cases false true true true a = inr (refl, inr (inl refl))
guard_cases false true true false true = inr (refl, inr (inr refl))
guard_cases false true true false false = inl refl
guard_cases false false e true a = inr (refl, inr (inl refl))
guard_cases false false e false true = inr (refl, inr (inr refl))
guard_cases false false e false false = inl refl

module _ {W : Type 0} (cb : BreakpointHandler W) (info : RegisteredStatus) (loc : Location)
    (locs : List Location) (h : Handler) (w : W) where
  abbrev context : BreakContext
  context = record {
    info = info;
    locs = loc ∷ locs;
    hits = (copy_hits (get_hit_breakpoints h.breakpoints info (loc ∷ locs)) ([], false)).0;
  }

  abbrev any_hit : Bool
  any_hit = is_nonempty (get_hit_breakpoints h.breakpoints info (loc ∷ locs))

  handle_step : handle cb info (loc ∷ locs) h w ≡ (
      if h.disable_breakpoints
        || (not h.stop_on_entry || h.entried) && not h.break_each_vertex && not any_hit
      then (none, h, w)
      else cb context (record h { entried = true }) w)
  unfolding handle
  handle_step = rw copy_hits-flag (ground arith)

  -- The breakpoint handler is called with this status, these locations and the hit breakpoints.
  abbrev pub Paused : Type 0
  Paused =
      (ctx : BreakContext) × (handle cb info (loc ∷ locs) h w
        ≡ cb ctx (record h { entried = true }) w)
      × (ctx.info ≡ info)
      × (ctx.locs ≡ loc ∷ locs)
      × ((key : Text) → lookup key ctx.hits ≡ hit_of info (loc ∷ locs) (get key h.breakpoints))

  pub handle_breaks : Breaks info (loc ∷ locs) h → Paused
  handle_breaks b = (
    context,
    handle_step ∙ taken b.1,
    refl,
    refl,
    λ key.
        copied key _ (get_hit_breakpoints-HasUniqueKeys info (loc ∷ locs) h.breakpoints)
        ∙ lookup-get_hit_breakpoints info (loc ∷ locs) h.breakpoints key,
  )
    where
      taken :
          (((h.stop_on_entry ≡ true) × (h.entried ≡ false))
            ⊎ ((h.break_each_vertex ≡ true) ⊎ Hit info (loc ∷ locs) h))
          → (if h.disable_breakpoints
                || (not h.stop_on_entry || h.entried) && not h.break_each_vertex && not any_hit
              then (none, h, w)
              else cb context (record h { entried = true }) w)
            ≡ cb context (record h { entried = true }) w
      taken (inl (s, e)) = rw (b.0, s, e) refl
      taken (inr (inl e)) = rw (b.0, e) (ground arith)
      taken (inr (inr x)) = let y = Hit→hit info (loc ∷ locs) h x in rw (b.0, y) (ground arith)

  abbrev skips : Bool
  skips =
      h.disable_breakpoints
      || (not h.stop_on_entry || h.entried) && not h.break_each_vertex && not any_hit

  goes_on : skips ≡ true → ¬ Breaks info (loc ∷ locs) h
  goes_on skip (d, inl (s, e)) = cc (rw (d, s, e) at skip)
  goes_on skip (d, inr (inl v)) = absurd (ground arith)
  goes_on skip (d, inr (inr x)) = let y = Hit→hit info (loc ∷ locs) h x in absurd (ground arith)

  -- At an event with a location: either breakpoints are enabled, and the build is to stop on entry and has not stopped
  -- yet, or each step is to stop, or a breakpoint of the table is hit; then handle marks the session as entered and
  -- calls the breakpoint handler with this status, these locations and the breakpoints of the table that are hit, each
  -- at its key. Or this is not so, and then handle calls nothing and changes nothing.
  pub handle_lem :
      (Breaks info (loc ∷ locs) h × Paused)
      ⊎ ((¬ Breaks info (loc ∷ locs) h) × (handle cb info (loc ∷ locs) h w ≡ (none, h, w)))
  handle_lem =
      elim (guard_cases h.disable_breakpoints h.stop_on_entry h.entried h.break_each_vertex
        any_hit) [
          | inl skip ↦ inr (goes_on skip, handle_step ∙ rw skip refl)
          | inr (d, inl se) ↦ inl ((d, inl se), handle_breaks (d, inl se))
          | inr (d, inr (inl v)) ↦ inl ((d, inr (inl v)), handle_breaks (d, inr (inl v)))
          | inr (d, inr (inr a)) ↦
              (let b : Breaks info (loc ∷ locs) h =
                  (d, inr (inr (hit→Hit info (loc ∷ locs) h _ refl a))) in
                inl (b, handle_breaks b))
        ]
