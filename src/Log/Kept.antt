-- ===== src/Log/Kept.antt =====
-- What the ring buffer of log.go holds.
use buildg.Prelude.{
  ℕ, zero, suc, ◌+◌, ◌<◌, ◌≡◌, refl, ap, sym, ◌∙◌, List, [], ◌∷◌, ◌++◌, arith, length, replicate,
  set, append_assoc, append-nil, length-append, length-replicate, ◌⊎◌, inl, inr, subst,
}
use buildg.Text.{Text}
use buildg.Log.{Ring, wrap, scan}

set_middle :
    (xs : List Text) (y z : Text) (ys : List Text) (k : ℕ)
    → k ≡ length xs
    → set (xs ++ y ∷ ys) k z ≡ xs ++ z ∷ ys
set_middle [] y z ys zero e = refl
set_middle [] y z ys (suc k) e = absurd (omega (arith, e))
set_middle (x ∷ xs) y z ys zero e = absurd (omega (arith, e))
set_middle (x ∷ xs) y z ys (suc k) e =
    ap (λ (l : List Text). x ∷ l) (set_middle xs y z ys k (omega (arith, e)))

-- n lines are kept: the slots before `cur` hold the newest, those from `cur` on the oldest, or nothing yet.
pub record Keeps (n : ℕ) (lines : List Text) (r : Ring) : Type 0 where
  pub front : List Text
  pub back : List Text
  pub shape : r.buf ≡ front ++ back
  pub at : r.cur ≡ length front
  pub inside : r.cur < n
  pub size : length front + length back ≡ n
  pub all_lines : r.total ≡ length lines
  pub held :
      ((lines ≡ front) × (r.total < n))
      ⊎ ((pre : List Text) × (lines ≡ pre ++ (back ++ front)) × (length pre ≡ 0 → front ≡ []))

pub Keeps-start : (n : ℕ) → 0 < n → Keeps n [] (record { buf = replicate n []; cur = 0; total = 0 })
Keeps-start n h = record {
  front = [];
  back = replicate n [];
  shape = refl;
  at = refl;
  inside = h;
  size = omega (arith, length-replicate {A = Text} n []);
  all_lines = refl;
  held = inl (refl, h);
}

next_ring : Text → Ring → Ring
next_ring s r = record {
  buf = set r.buf r.cur s;
  cur = wrap r.buf (suc r.cur);
  total = suc r.total;
}

shift :
    (pre : List Text) (b : Text) (mid : List Text) (s : Text)
    → (pre ++ b ∷ mid) ++ s ∷ [] ≡ (pre ++ b ∷ []) ++ (mid ++ s ∷ [])
shift pre b mid s =
    append_assoc pre (b ∷ mid) (s ∷ []) ∙ sym (append_assoc pre (b ∷ []) (mid ++ s ∷ []))

pub length-snoc : (xs : List Text) (s : Text) → length (xs ++ s ∷ []) ≡ suc (length xs)
length-snoc [] s = refl
length-snoc (x ∷ xs) s = ap suc (length-snoc xs s)

abbrev pub Held : ℕ → List Text → List Text → List Text → ℕ → Type 0
Held n lines front back total =
    ((lines ≡ front) × (total < n))
    ⊎ ((pre : List Text) × (lines ≡ pre ++ (back ++ front)) × (length pre ≡ 0 → front ≡ []))

Held-last :
    (n : ℕ) (lines front : List Text) (b s : Text) (total : ℕ)
    → Held n lines front (b ∷ []) total
    → Held n (lines ++ s ∷ []) [] (front ++ s ∷ []) (suc total)
Held-last n lines front b s total (inl (e, l)) =
    inr ([], ap (λ (x : List Text). x ++ s ∷ []) e ∙ sym (append-nil (front ++ s ∷ [])), λ _. refl)
Held-last n lines front b s total (inr (pre, e, fresh)) =
    let grown : lines ++ s ∷ [] ≡ (pre ++ b ∷ front) ++ s ∷ [] =
      ap (λ (x : List Text). x ++ s ∷ []) e in
    let tidy : (pre ++ b ∷ []) ++ (front ++ s ∷ []) ≡ (pre ++ b ∷ []) ++ ((front ++ s ∷ []) ++ []) =
      ap (λ (x : List Text). (pre ++ b ∷ []) ++ x) (sym (append-nil (front ++ s ∷ []))) in
    inr (pre ++ b ∷ [], grown ∙ shift pre b front s ∙ tidy, λ _. refl)

Held-more :
    (n : ℕ) (lines front back : List Text) (b c s : Text) (total : ℕ)
    → total ≡ length lines
    → length front + length (b ∷ c ∷ back) ≡ n
    → Held n lines front (b ∷ c ∷ back) total
    → Held n (lines ++ s ∷ []) (front ++ s ∷ []) (c ∷ back) (suc total)
Held-more n lines front back b c s total t sz (inl (e, l)) =
    inl (ap (λ (x : List Text). x ++ s ∷ []) e, omega (arith, t, sz, ap length e))
Held-more n lines front back b c s total t sz (inr (pre, e, fresh)) =
    let mid = c ∷ (back ++ front) in
    let grown : lines ++ s ∷ [] ≡ (pre ++ b ∷ mid) ++ s ∷ [] =
      ap (λ (x : List Text). x ++ s ∷ []) e in
    let tidy : (pre ++ b ∷ []) ++ (mid ++ s ∷ [])
        ≡ (pre ++ b ∷ []) ++ ((c ∷ back) ++ (front ++ s ∷ [])) =
      ap (λ (x : List Text). (pre ++ b ∷ []) ++ x) (append_assoc (c ∷ back) front (s ∷ [])) in
    inr (
      pre ++ b ∷ [],
      grown ∙ shift pre b mid s ∙ tidy,
      λ z. absurd (omega (arith, z, length-snoc pre b)),
    )

Keeps-next :
    (n : ℕ) (lines : List Text) (s : Text) (r : Ring)
    → Keeps n lines r
    → Keeps n (lines ++ s ∷ []) (next_ring s r)
unfolding next_ring
Keeps-next n lines s r k = go k.back k.shape k.size k.held
  where
    go :
        (back : List Text)
        → r.buf ≡ k.front ++ back
        → length k.front + length back ≡ n
        → Held n lines k.front back r.total
        → Keeps n (lines ++ s ∷ []) (next_ring s r)
    go [] sh sz held = absurd (omega (arith, k.inside, k.at, sz))
    go (b ∷ []) sh sz held =
        let len : length r.buf ≡ n = ap length sh ∙ length-append k.front (b ∷ []) ∙ sz in
        record {
          front = [];
          back = k.front ++ s ∷ [];
          shape = rw sh (set_middle k.front b s [] r.cur k.at);
          at = ground (arith, len, sz, k.at);
          inside = ground (arith, len, sz, k.at);
          size = omega (arith, sz, length-snoc k.front s);
          all_lines = ap suc k.all_lines ∙ sym (length-snoc lines s);
          held = Held-last n lines k.front b s r.total held;
        }
    go (b ∷ c ∷ back) sh sz held =
        let len : length r.buf ≡ n = ap length sh ∙ length-append k.front (b ∷ c ∷ back) ∙ sz in
        record {
          front = k.front ++ s ∷ [];
          back = c ∷ back;
          shape =
              rw sh (set_middle k.front b s (c ∷ back) r.cur k.at)
              ∙ sym (append_assoc k.front (s ∷ []) (c ∷ back));
          at = ground (arith, len, sz, k.at, length-snoc k.front s);
          inside = ground (arith, len, sz, k.at);
          size = omega (arith, sz, length-snoc k.front s);
          all_lines = ap suc k.all_lines ∙ sym (length-snoc lines s);
          held = Held-more n lines k.front back b c s r.total k.all_lines sz held;
        }

pub scan-Keeps :
    (n : ℕ) (ls lines : List Text) (r : Ring) → Keeps n lines r → Keeps n (lines ++ ls) (scan ls r)
unfolding scan next_ring
scan-Keeps n [] lines r k = subst (λ x. Keeps n x r) (sym (append-nil lines)) k
scan-Keeps n (s ∷ ls) lines r k =
    subst (λ x. Keeps n x (scan (s ∷ ls) r)) (append_assoc lines (s ∷ []) ls)
      (scan-Keeps n ls (lines ++ s ∷ []) (next_ring s r) (Keeps-next n lines s r k))
