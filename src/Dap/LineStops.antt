-- ===== src/Dap/LineStops.antt =====
-- From the lines that a client sets to the breakpoints that it is told of at a stop.
mod Keys
use buildg.Prelude.{
  ℕ, zero, suc, ◌+◌, ◌^◌, ◌<◌, ◌≡◌, ◌≢◌, ◌↔◌, ◌⊎◌, refl, ap, sym, ◌∙◌, inl, inr, true, false,
  Bool-cases, List, [], ◌∷◌, Option, none, some, arith, if◌then◌else◌, ◌==◌, length, get_elem?, In,
}
use buildg.Int.{ℤ, pos}
use buildg.Text.{Text, codes, text_eq, text_beq_iff}
use buildg.Dict.{lookup, keys}
use buildg.Dict.Perm.{lookup_of_key, key_of_lookup}
use buildg.Decimal.{format_int, parse_int, parse_int-format_int, format_int_injective}
use buildg.Types.{Location, RegisteredStatus}
use buildg.Breakpoints.{Breakpoint, on_fail, line, Breakpoints, get, is_target}
use buildg.Breakpoints.Lines.{Covers, is_target-line_iff}
use buildg.Handler.{BreakpointInfo, BreakContext, BreakpointHandler, Handler, handle}
use buildg.Handler.Hits.{hit_of}
use buildg.Handler.Pauses.{handle_lem}
use buildg.Dap.Debugger.{Debugger, id_step, breakpoint_ids, break_handler}
use buildg.Dap.Requests.{set_lines}
use buildg.Dap.Lines.{or_old, table, set_lines_lem}
use buildg.Dap.LineStops.Keys.{
  breakpoint_ids-In, length-lt, no_number, yes_of_hit, lookup-table-some, lookup-table_at,
}

module _ (src : Text) where
  -- a range of a location in the file holds the line with this number
  abbrev pub IsCovered : List ℤ → List Location → ℕ → Type 0
  IsCovered ls locs k =
      (l : ℤ) × (get_elem? ls k ≡ some l) × (hit : Location) × Covers src l locs hit

  -- The build stops, and the client is told of exactly the lines that are covered, by their numbers.
  abbrev pub StopsAtLines :
      {W : Type 0}
      → List ℤ
      → RegisteredStatus
      → List Location
      → BreakpointHandler W
      → Handler
      → W
      → Debugger
      → Type 0
  StopsAtLines ls info locs cb h w d =
      (ctx : BreakContext) × (handle cb info locs h w ≡ cb ctx (record h { entried = true }) w)
      × ((z : ℤ)
          → In z (break_handler ctx (record h { entried = true }) d).0
            ↔ ((k : ℕ) × (z ≡ pos k) × IsCovered ls locs k))

  module _ (ls : List ℤ) (b : Breakpoints) (room : length ls + 1 < 2 ^ 63) (info : RegisteredStatus)
      (loc : Location) (locs : List Location) where
    abbrev set : Breakpoints
    set = (set_lines src ls b).0

    -- what a hit key of the table is
    hit_key :
        (key : Text) (z : ℤ) (v : BreakpointInfo)
        → parse_int key ≡ some z
        → hit_of info (loc ∷ locs) (get key set) ≡ some v
        → (k : ℕ) × (z ≡ pos k) × IsCovered ls (loc ∷ locs) k
    hit_key key z v p e =
        go (lookup key (table src 0 ls)) refl
          (ap (hit_of info (loc ∷ locs)) (sym ((set_lines_lem src ls b room).1 key)) ∙ e)
      where
        go :
            (o : Option Breakpoint)
            → lookup key (table src 0 ls) ≡ o
            → hit_of info
                (loc ∷ locs)
                (or_old o (if codes "on-fail" == key then some on_fail else none))
              ≡ some v
            → (k : ℕ) × (z ≡ pos k) × IsCovered ls (loc ∷ locs) k
        go none f h = elim (Bool-cases (codes "on-fail" == key)) [
          | inl same ↦
              absurd (no_number z (ap parse_int ((text_beq_iff (codes "on-fail") key).0 same) ∙ p))
          | inr other ↦ absurd (cc (rw other at h))
        ]
        go (some bp) f h =
            let (k, l, g, q, same) = lookup-table-some src key bp 0 ls f in
            let (hit, c) = (is_target-line_iff src l info (loc ∷ locs)).0 (
              ap (λ x. (is_target x info (loc ∷ locs)).yes) (sym same)
              ∙ yes_of_hit info (loc ∷ locs) bp v h) in
            let small = length-lt k l ls g in
            let number : parse_int key ≡ some (pos k) =
              ap parse_int (q ∙ ap (λ i. format_int (pos i)) (omega arith))
              ∙ parse_int-format_int (pos k) (omega (arith, small)) in
            (k, cc (p, number), (l, g, hit, c))

    covered_key :
        (k : ℕ)
        → IsCovered ls (loc ∷ locs) k
        → (bp : Breakpoint) × (get (format_int (pos k)) set ≡ some bp)
          × ((is_target bp info (loc ∷ locs)).yes ≡ true)
    covered_key k (l, g, hit, c) =
        let small = length-lt k l ls g in
        let found : lookup (format_int (pos k)) (table src 0 ls) ≡ some (line src l) =
          ap (λ i. lookup (format_int (pos i)) (table src 0 ls)) (omega arith)
          ∙ lookup-table_at src 0 k l ls (omega arith) g in
        (
          line src l,
          (set_lines_lem src ls b room).1 (format_int (pos k))
              ∙ ap
                  (λ o.
                    or_old o (if codes "on-fail" == format_int (pos k) then some on_fail else none))
                  found,
          (is_target-line_iff src l info (loc ∷ locs)).1 (hit, c),
        )

    hit_found :
        (o : Option Breakpoint) (bp : Breakpoint)
        → o ≡ some bp
        → (is_target bp info (loc ∷ locs)).yes ≡ true
        → (v : BreakpointInfo) × (hit_of info (loc ∷ locs) o ≡ some v)
    hit_found none bp e y = absurd (cc e)
    hit_found (some x) bp e y =
        let y' : (is_target x info (loc ∷ locs)).yes ≡ true =
          ap (λ z. (is_target z info (loc ∷ locs)).yes) (cc e) ∙ y in
        (
          record {
            description = (is_target x info (loc ∷ locs)).description;
            hits = (is_target x info (loc ∷ locs)).hit_locations;
          },
          rw y' refl,
        )

    -- the ids that a break with these hits reports
    reported_ids :
        (ctx : BreakContext) (h : Handler) (d : Debugger) (z : ℤ)
        → ((key : Text) → lookup key ctx.hits ≡ hit_of info (loc ∷ locs) (get key set))
        → In z (break_handler ctx h d).0 ↔ ((k : ℕ) × (z ≡ pos k) × IsCovered ls (loc ∷ locs) k)
    unfolding break_handler
    reported_ids ctx h d z hits = (
      λ m.
          (let (key, i, p) = (breakpoint_ids-In z (keys ctx.hits)).0 m in
            let (v, found) = lookup_of_key key ctx.hits i in
            hit_key key z v p (sym (hits key) ∙ found)),
      λ (k, e, c).
          (let (bp, found, y) = covered_key k c in
            let (v, hit) = hit_found (get (format_int (pos k)) set) bp found y in
            let small = length-lt k c.0 ls c.1 in
            (breakpoint_ids-In z (keys ctx.hits)).1 (
              format_int (pos k),
              key_of_lookup (format_int (pos k)) v ctx.hits (hits (format_int (pos k)) ∙ hit),
              parse_int-format_int (pos k) (omega (arith, small)) ∙ ap some (sym e),
            )),
    )

    module _ {W : Type 0} (cb : BreakpointHandler W) (h : Handler) (w : W) (d : Debugger) where
      -- When a client has set breakpoints on fewer than 2^63 - 1 lines of a file, whatever the table held before, and
      -- breakpoints are enabled, then at an event with a location: either the handler calls the breakpoint handler, and
      -- the ids that the debugger's one reports are exactly the numbers of those lines that a range of a location in the file
      -- holds; or the build goes on with nothing changed, and no such line is held.
      pub handle-StopsAtLines :
          h.breakpoints ≡ set
          → h.disable_breakpoints ≡ false
          → StopsAtLines ls info (loc ∷ locs) cb h w d
            ⊎ ((handle cb info (loc ∷ locs) h w ≡ (none, h, w))
                × (¬ ((k : ℕ) × IsCovered ls (loc ∷ locs) k)))
      handle-StopsAtLines e on = elim (handle_lem cb info loc locs h w) [
        | inl (breaks, (ctx, called, i, l, hits)) ↦ inl (
          ctx,
          called,
          λ z.
              reported_ids ctx (record h { entried = true }) d z
                (λ key. hits key ∙ ap (λ b. hit_of info (loc ∷ locs) (get key b)) e),
        )
        | inr (goes_on, same) ↦ inr (
          same,
          λ (k, c).
              (let (bp, found, y) = covered_key k c in
                goes_on (
                  on,
                  inr (inr (format_int (pos k), bp, ap (get (format_int (pos k))) e ∙ found, y)),
                )),
        )
      ]
