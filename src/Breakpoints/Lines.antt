-- ===== src/Breakpoints/Lines.antt =====
-- Which locations a line breakpoint hits.
use buildg.Prelude.{
  ◌≡◌, refl, ap, sym, ◌∙◌, ◌↔◌, ◌⊎◌, inl, inr, true, ◌&&◌, ◌||◌, List, [], ◌∷◌, ◌++◌, append_assoc,
  append-nil, arith, if◌then◌else◌, ◌==◌, In, Bool-cases, In-append_left, In-append_right,
  In-append-cases, is_nonempty,
}
use buildg.Text.{Text, text_eq, text_beq_iff}
use buildg.Int.{ℤ, leb_ℤ, ◌≤ℤ◌}
use buildg.Types.{Range, SourceInfo, Location, RegisteredStatus}
use buildg.Breakpoints.{line, check_ranges, check_locs, is_target, line_target}

-- The ranges that hold the line, one location for each, in order.
pub ranges_on : SourceInfo → ℤ → List Range → List Location
ranges_on src l [] = []
ranges_on src l (r ∷ rs) =
    if leb_ℤ r.start_line l && leb_ℤ l r.end_line
    then record { source = src; ranges = r ∷ [] } ∷ ranges_on src l rs
    else ranges_on src l rs

pub locs_on : Text → ℤ → List Location → List Location
locs_on f l [] = []
locs_on f l (loc ∷ locs) =
    if loc.source.filename == f
    then ranges_on loc.source l loc.ranges ++ locs_on f l locs
    else locs_on f l locs

is_nonempty-append {ℓ} :
    {A : Type ℓ} (xs ys : List A) → is_nonempty (xs ++ ys) ≡ (is_nonempty xs || is_nonempty ys)
is_nonempty-append [] ys = refl
is_nonempty-append (x ∷ xs) ys = refl

check_ranges-ranges_on :
    (src : SourceInfo) (l : ℤ) (rs : List Range) (hits : List Location)
    → check_ranges src l rs (hits, is_nonempty hits)
      ≡ (hits ++ ranges_on src l rs, is_nonempty (hits ++ ranges_on src l rs))
unfolding check_ranges ranges_on
check_ranges-ranges_on src l [] hits = rw append-nil
check_ranges-ranges_on src l (r ∷ rs) hits =
    elim (Bool-cases (leb_ℤ r.start_line l && leb_ℤ l r.end_line)) [
      | inl on ↦
          (let next = hits ++ record { source = src; ranges = r ∷ [] } ∷ [] in
            rw
              (
                on,
                ← append_assoc hits (record { source = src; ranges = r ∷ [] } ∷ [])
                    (ranges_on src l rs),
              )
              (let e : is_nonempty next ≡ true = rw (is_nonempty-append hits) (ground arith) in
                rw e at (check_ranges-ranges_on src l rs next)))
      | inr off ↦ rw off (check_ranges-ranges_on src l rs hits)
    ]

check_locs-locs_on :
    (f : Text) (l : ℤ) (locs : List Location) (hits : List Location)
    → check_locs f l locs (hits, is_nonempty hits)
      ≡ (hits ++ locs_on f l locs, is_nonempty (hits ++ locs_on f l locs))
unfolding check_locs locs_on
check_locs-locs_on f l [] hits = rw append-nil
check_locs-locs_on f l (loc ∷ locs) hits = elim (Bool-cases (loc.source.filename == f)) [
  | inl same ↦
      rw
        (
          same,
          check_ranges-ranges_on loc.source l loc.ranges hits,
          ← append_assoc hits (ranges_on loc.source l loc.ranges) (locs_on f l locs),
        )
        (check_locs-locs_on f l locs (hits ++ ranges_on loc.source l loc.ranges))
  | inr other ↦ rw other (check_locs-locs_on f l locs hits)
]

-- `h` is a location made of one range, of a location in the file, that holds the line.
abbrev pub Covers : Text → ℤ → List Location → Location → Type 0
Covers f l locs h =
    (loc : Location) × (r : Range) × In loc locs
    × (loc.source.filename ≡ f)
    × In r loc.ranges
    × (r.start_line ≤ℤ l)
    × (l ≤ℤ r.end_line)
    × (record { source = loc.source; ranges = r ∷ [] } ≡ h)

-- the same, of the ranges of one location
abbrev CoversRange : SourceInfo → ℤ → List Range → Location → Type 0
CoversRange src l rs h =
    (r : Range) × In r rs
    × (r.start_line ≤ℤ l)
    × (l ≤ℤ r.end_line)
    × (record { source = src; ranges = r ∷ [] } ≡ h)

ranges_on_sound :
    (src : SourceInfo) (l : ℤ) (rs : List Range) (h : Location)
    → In h (ranges_on src l rs)
    → CoversRange src l rs h
unfolding ranges_on
ranges_on_sound src l [] h m = absurd m
ranges_on_sound src l (r ∷ rs) h m =
    elim (Bool-cases (leb_ℤ r.start_line l && leb_ℤ l r.end_line)) [
      | inl on ↦ go on (ranges_on_sound src l rs h) (rw on at m)
      | inr off ↦ later (ranges_on_sound src l rs h (rw off at m))
    ]
  where
    later : CoversRange src l rs h → CoversRange src l (r ∷ rs) h
    later (q, k, a, b, e) = (q, inr k, a, b, e)

    go :
        (leb_ℤ r.start_line l && leb_ℤ l r.end_line) ≡ true
        → (In h (ranges_on src l rs) → CoversRange src l rs h)
        → In h (record { source = src; ranges = r ∷ [] } ∷ ranges_on src l rs)
        → CoversRange src l (r ∷ rs) h
    go on rec (inl e) = (r, inl refl, ground arith, ground arith, e)
    go on rec (inr k) = later (rec k)

ranges_on_complete :
    (src : SourceInfo) (l : ℤ) (rs : List Range) (h : Location)
    → CoversRange src l rs h
    → In h (ranges_on src l rs)
unfolding ranges_on
ranges_on_complete src l [] h (r, m, a, b, e) = absurd m
ranges_on_complete src l (q ∷ rs) h (r, inl same, a, b, e) =
    let on : (leb_ℤ q.start_line l && leb_ℤ l q.end_line) ≡ true = rw same (ground arith) in
    rw on (inl (rw same e))
ranges_on_complete src l (q ∷ rs) h (r, inr m, a, b, e) =
    let k = ranges_on_complete src l rs h (r, m, a, b, e) in
    elim (Bool-cases (leb_ℤ q.start_line l && leb_ℤ l q.end_line)) [
      | inl on ↦ rw on (inr k)
      | inr off ↦ rw off k
    ]

locs_on_sound :
    (f : Text) (l : ℤ) (locs : List Location) (h : Location)
    → In h (locs_on f l locs)
    → Covers f l locs h
unfolding locs_on
locs_on_sound f l [] h m = absurd m
locs_on_sound f l (loc ∷ locs) h m = elim (Bool-cases (loc.source.filename == f)) [
  | inl same ↦ go same (locs_on_sound f l locs h) (In-append-cases h _ _ (rw same at m))
  | inr other ↦ later (locs_on_sound f l locs h (rw other at m))
]
  where
    later : Covers f l locs h → Covers f l (loc ∷ locs) h
    later (q, r, k, n, i, a, b, e) = (q, r, inr k, n, i, a, b, e)

    here :
        (loc.source.filename == f) ≡ true
        → CoversRange loc.source l loc.ranges h
        → Covers f l (loc ∷ locs) h
    here same (r, i, a, b, e) = (loc, r, inl refl, (text_beq_iff _ f).0 same, i, a, b, e)

    go :
        (loc.source.filename == f) ≡ true
        → (In h (locs_on f l locs) → Covers f l locs h)
        → In h (ranges_on loc.source l loc.ranges) ⊎ In h (locs_on f l locs)
        → Covers f l (loc ∷ locs) h
    go same rec (inl k) = here same (ranges_on_sound loc.source l loc.ranges h k)
    go same rec (inr k) = later (rec k)

locs_on_complete :
    (f : Text) (l : ℤ) (locs : List Location) (h : Location)
    → Covers f l locs h
    → In h (locs_on f l locs)
unfolding locs_on
locs_on_complete f l [] h (q, r, m, n, i, a, b, e) = absurd m
locs_on_complete f l (loc ∷ locs) h (q, r, inl same, n, i, a, b, e) =
    let named : (loc.source.filename == f) ≡ true =
      (text_beq_iff _ f).1 (ap (λ (x : Location). x.source.filename) same ∙ n) in
    rw named (
      In-append_left h _ _ (ranges_on_complete loc.source l loc.ranges h (rw same (r, i, a, b, e))))
locs_on_complete f l (loc ∷ locs) h (q, r, inr m, n, i, a, b, e) =
    let k = locs_on_complete f l locs h (q, r, m, n, i, a, b, e) in
    elim (Bool-cases (loc.source.filename == f)) [
      | inl named ↦ rw named (In-append_right h _ _ k)
      | inr other ↦ rw other k
    ]

first_of_nonempty : (xs : List Location) → is_nonempty xs ≡ true → (h : Location) × In h xs
first_of_nonempty [] e = absurd (ground arith)
first_of_nonempty (x ∷ xs) e = (x, inl refl)

nonempty_of_In : (h : Location) (xs : List Location) → In h xs → is_nonempty xs ≡ true
nonempty_of_In h [] m = absurd m
nonempty_of_In h (x ∷ xs) m = refl

module _ (f : Text) (l : ℤ) (st : RegisteredStatus) (locs : List Location) where
  -- the hits are kept when there is one, and there is none otherwise
  hits-locs_on : (is_target (line f l) st locs).hit_locations ≡ locs_on f l locs
  unfolding is_target
  hits-locs_on = rw (check_locs-locs_on f l locs []) (go (locs_on f l locs))
    where
      go : (xs : List Location) → (line_target f l (xs, is_nonempty xs)).hit_locations ≡ xs
      go [] = refl
      go (x ∷ xs) = refl

  yes-locs_on : (is_target (line f l) st locs).yes ≡ is_nonempty (locs_on f l locs)
  unfolding is_target
  yes-locs_on = rw (check_locs-locs_on f l locs []) (go (locs_on f l locs))
    where
      go : (xs : List Location) → (line_target f l (xs, is_nonempty xs)).yes ≡ is_nonempty xs
      go [] = refl
      go (x ∷ xs) = refl

  -- A line breakpoint is hit exactly when some location in its file has a range that holds its line.
  pub is_target-line_iff :
      ((is_target (line f l) st locs).yes ≡ true) ↔ ((h : Location) × Covers f l locs h)
  is_target-line_iff = (
    λ e.
        (let (h, m) = first_of_nonempty (locs_on f l locs) (sym yes-locs_on ∙ e) in
          (h, locs_on_sound f l locs h m)),
    λ (h, c). yes-locs_on ∙ nonempty_of_In h _ (locs_on_complete f l locs h c),
  )

  -- The hit locations of a line breakpoint are exactly the ranges that hold its line in locations of
  -- its file, one location for each.
  hit_locations-line_iff :
      (h : Location) → In h (is_target (line f l) st locs).hit_locations ↔ Covers f l locs h
  hit_locations-line_iff h = rw hits-locs_on (locs_on_sound f l locs h, locs_on_complete f l locs h)
