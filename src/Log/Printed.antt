-- ===== src/Log/Printed.antt =====
-- What is printed of the ring buffer of log.go.
use buildg.Prelude.{
  ℕ, zero, suc, ◌+◌, ◌≤◌, ◌<◌, ◌≡◌, refl, ap, sym, ◌∙◌, List, [], ◌∷◌, ◌++◌, Option, some, arith,
  leb, length, replicate, get_elem?, append_assoc, append-nil, length-append, ◌⊎◌, inl, inr, subst,
  Bool-cases,
}
use buildg.Text.{Text}
use buildg.Log.{Ring, wrap, scan, print_first, print_ring, last_lines}
use buildg.Log.Kept.{Keeps, Held, Keeps-start, scan-Keeps, length-snoc}

get_middle :
    (xs : List Text) (y : Text) (ys : List Text) (k : ℕ)
    → k ≡ length xs
    → get_elem? (xs ++ y ∷ ys) k ≡ some y
get_middle [] y ys zero e = refl
get_middle [] y ys (suc k) e = absurd (omega (arith, e))
get_middle (x ∷ xs) y ys zero e = absurd (omega (arith, e))
get_middle (x ∷ xs) y ys (suc k) e = get_middle xs y ys k (omega (arith, e))

print_first-middle :
    (mid front back : List Text) (i : ℕ)
    → i ≡ length front
    → print_first (length mid) i (front ++ (mid ++ back)) ≡ some mid
unfolding print_first
print_first-middle [] front back i e = refl
print_first-middle (m ∷ mid) front back i e =
    let next : print_first (length mid) (suc i) (front ++ ((m ∷ mid) ++ back)) ≡ some mid =
      subst (λ b. print_first (length mid) (suc i) b ≡ some mid)
        (append_assoc front (m ∷ []) (mid ++ back))
        (print_first-middle mid (front ++ m ∷ []) back (suc i)
          (ap suc e ∙ sym (length-snoc front m))) in
    rw (get_middle front m (mid ++ back) i e, next) refl

print_step :
    (k i j : ℕ) (buf : List Text) (s : Text) (out : List Text)
    → get_elem? buf i ≡ some s
    → wrap buf (suc i) ≡ j
    → print_ring k j buf ≡ some out
    → print_ring (suc k) i buf ≡ some (s ∷ out)
unfolding print_ring
print_step k i j buf s out e w f = rw (e, w, f) refl

wrap_inside : (buf : List Text) (i : ℕ) → suc i < length buf → wrap buf (suc i) ≡ suc i
wrap_inside buf i h = ground (arith, h)

wrap_end : (buf : List Text) (i : ℕ) → length buf ≡ suc i → wrap buf (suc i) ≡ 0
wrap_end buf i h = ground (arith, h)

-- the slots from `cur` on up to the last one of `mid`
print_ring-middle :
    (mid front back : List Text) (i : ℕ)
    → i ≡ length front
    → print_ring (length mid) i (front ++ (mid ++ back)) ≡ some mid
unfolding print_ring
print_ring-middle [] front back i e = refl
print_ring-middle (m ∷ []) front back i e =
    let here : get_elem? (front ++ ((m ∷ []) ++ back)) i ≡ some m = get_middle front m back i e in
    rw here refl
print_ring-middle (m ∷ o ∷ mid) front back i e =
    let rest = o ∷ (mid ++ back) in
    print_step (length (o ∷ mid)) i (suc i) (front ++ (m ∷ rest)) m (o ∷ mid)
      (get_middle front m rest i e)
      (wrap_inside (front ++ (m ∷ rest)) i (omega (arith, length-append front (m ∷ rest), e)))
      (subst (λ b. print_ring (length (o ∷ mid)) (suc i) b ≡ some (o ∷ mid))
        (append_assoc front (m ∷ []) rest)
        (print_ring-middle (o ∷ mid) (front ++ m ∷ []) back (suc i)
          (ap suc e ∙ sym (length-snoc front m))))

-- `length mid + k`, by the list
abbrev plus : List Text → ℕ → ℕ
plus [] k = k
plus (m ∷ ms) k = suc (plus ms k)

plus_lem : (ms : List Text) (k : ℕ) → plus ms k ≡ length ms + k
plus_lem [] k = omega arith
plus_lem (m ∷ ms) k = omega (arith, plus_lem ms k)

-- the slots from `cur` on up to the end, and on from the start
print_ring-end :
    (m : Text) (mid front out : List Text) (i k : ℕ)
    → i ≡ length front
    → print_ring k 0 (front ++ (m ∷ mid)) ≡ some out
    → print_ring (plus (m ∷ mid) k) i (front ++ (m ∷ mid)) ≡ some ((m ∷ mid) ++ out)
print_ring-end m [] front out i k e h =
    print_step k i 0 (front ++ (m ∷ [])) m out (get_middle front m [] i e)
      (wrap_end (front ++ (m ∷ [])) i (omega (arith, length-snoc front m, e))) h
print_ring-end m (o ∷ mid) front out i k e h =
    let rest = o ∷ mid in
    print_step (plus rest k) i (suc i) (front ++ (m ∷ rest)) m (rest ++ out)
      (get_middle front m rest i e)
      (wrap_inside (front ++ (m ∷ rest)) i (omega (arith, length-append front (m ∷ rest), e)))
      (subst (λ b. print_ring (plus rest k) (suc i) b ≡ some (rest ++ out))
        (append_assoc front (m ∷ []) rest)
        (print_ring-end o mid (front ++ m ∷ []) out (suc i) k (ap suc e ∙ sym (length-snoc front m))
          (subst (λ b. print_ring k 0 b ≡ some out) (sym (append_assoc front (m ∷ []) rest)) h)))

print_first-full :
    (front back : List Text)
    → length front ≡ 0
    → print_first (length back) 0 (front ++ back) ≡ some (back ++ front)
print_first-full [] back e =
    ap (λ (b : List Text). print_first (length back) 0 b) (sym (append-nil back))
    ∙ print_first-middle back [] [] 0 refl
    ∙ ap some (sym (append-nil back))
print_first-full (f ∷ front) back e = absurd (omega (arith, e))

module _ (n : ℕ) (lines : List Text) (r : Ring) (k : Keeps n lines r) where
  abbrev Printed : Option (List Text) → Type 0
  Printed o =
      (out : List Text) × (pre : List Text) × (o ≡ some out)
      × (lines ≡ pre ++ out)
      × (((pre ≡ []) × (length lines ≤ n)) ⊎ (length out ≡ n))

  print_few : r.total ≤ n → Printed (print_first r.total 0 r.buf)
  print_few few = go k.held
    where
      go : Held n lines k.front k.back r.total → Printed (print_first r.total 0 r.buf)
      go (inl (e, l)) = (
        lines,
        [],
        rw (k.shape, e, k.all_lines ∙ ap length e) (print_first-middle k.front [] k.back 0 refl),
        refl,
        inl (refl, omega (arith, k.all_lines, few)),
      )
      go (inr (pre, e, fresh)) =
          let long : length lines ≡ length pre + (length k.back + length k.front) =
            ap length e
            ∙ length-append pre (k.back ++ k.front)
            ∙ ap (λ (x : ℕ). length pre + x) (length-append k.back k.front) in
          let none_before : length k.front ≡ 0 =
            ap length (fresh (omega (arith, long, few, k.all_lines, k.size))) in
          let count : length k.back ≡ r.total =
            omega (arith, long, few, k.all_lines, k.size, none_before) in
          (
            k.back ++ k.front,
            pre,
            ap (λ (x : List Text). print_first r.total 0 x) k.shape
                ∙ subst (λ c. print_first c 0 (k.front ++ k.back) ≡ some (k.back ++ k.front)) count
                    (print_first-full k.front k.back none_before),
            e,
            inr (length-append k.back k.front ∙ omega (arith, k.size)),
          )

  print_many : n < r.total → Printed (print_ring n r.cur r.buf)
  print_many many = go k.back k.shape k.size k.held
    where
      go :
          (back : List Text)
          → r.buf ≡ k.front ++ back
          → length k.front + length back ≡ n
          → Held n lines k.front back r.total
          → Printed (print_ring n r.cur r.buf)
      go [] sh sz held = absurd (omega (arith, k.inside, k.at, sz))
      go (b ∷ back) sh sz (inl (e, l)) = absurd (omega (arith, l, many))
      go (b ∷ back) sh sz (inr (pre, e, fresh)) =
          let again : print_ring (length k.front) 0 (k.front ++ (b ∷ back)) ≡ some k.front =
            print_ring-middle k.front [] (b ∷ back) 0 refl in
          let run = print_ring-end b back k.front k.front r.cur (length k.front) k.at again in
          let count : plus (b ∷ back) (length k.front) ≡ n =
            plus_lem (b ∷ back) (length k.front) ∙ omega (arith, sz) in
          (
            (b ∷ back) ++ k.front,
            pre,
            ap (λ (x : List Text). print_ring n r.cur x) sh
                ∙ subst
                    (λ c. print_ring c r.cur (k.front ++ (b ∷ back)) ≡ some ((b ∷ back) ++ k.front))
                    count run,
            e,
            inr (length-append (b ∷ back) k.front ∙ omega (arith, sz)),
          )

-- For a positive number n, `log -n` does not panic. What it prints is an end of the log: all of it, if it has at most n
-- lines, or n lines.
pub last_lines_lem :
    (n : ℕ) (lines : List Text)
    → 0 < n
    → (out : List Text) × (pre : List Text) × (last_lines n lines ≡ some out)
      × (lines ≡ pre ++ out)
      × (((pre ≡ []) × (length lines ≤ n)) ⊎ (length out ≡ n))
unfolding last_lines
last_lines_lem n lines h =
    let start : Ring = record { buf = replicate n []; cur = 0; total = 0 } in
    let k = scan-Keeps n lines [] start (Keeps-start n h) in
    elim (Bool-cases (leb (scan lines start).total n)) [
      | inl few ↦ rw few (print_few n lines (scan lines start) k (ground (arith, few)))
      | inr many ↦ rw many (print_many n lines (scan lines start) k (ground (arith, many)))
    ]
