-- ===== src/Log.antt =====
-- log.go: the last lines of the log, by a ring buffer. A panic is `none`.
pub mod Kept
pub mod Printed
use buildg.Prelude.{
  ℕ, zero, suc, ◌+◌, ◌≤◌, ◌<◌, ◌≡◌, refl, ap, sym, ◌∙◌, Bool, List, [], ◌∷◌, ◌++◌, Option, none,
  some, arith, if◌then◌else◌, leb, length, replicate, set, get_elem?, append_assoc, append-nil,
  length-append, length-replicate, ◌⊎◌, inl, inr, subst, Bool-cases,
}
use buildg.Text.{Text}
use buildg.Controller.Sources.{◌>>=◌}

-- `buf`, `cur` and `total`
pub record Ring : Type 0 where
  pub buf : List Text
  pub cur : ℕ
  pub total : ℕ

abbrev pub wrap : List Text → ℕ → ℕ
wrap buf cur = if leb (length buf) cur then 0 else cur

-- the loop over the lines of the log
unfoldable pub scan : List Text → Ring → Ring
scan [] r = r
scan (s ∷ ss) r =
    scan ss (record { buf = set r.buf r.cur s; cur = wrap r.buf (suc r.cur); total = suc r.total })

unfoldable pub print_first : ℕ → ℕ → List Text → Option (List Text)
print_first zero i buf = some []
print_first (suc k) i buf = do
  s ← get_elem? buf i
  rest ← print_first k (suc i) buf
  some (s ∷ rest)

unfoldable pub print_ring : ℕ → ℕ → List Text → Option (List Text)
print_ring zero cur buf = some []
print_ring (suc k) cur buf = do
  s ← get_elem? buf cur
  rest ← print_ring k (wrap buf (suc cur)) buf
  some (s ∷ rest)

-- What `log -n` prints of the lines, for a positive number.
unfoldable pub last_lines : ℕ → List Text → Option (List Text)
unfolding scan print_first print_ring
last_lines n lines =
    let r = scan lines (record { buf = replicate n []; cur = 0; total = 0 }) in
    let first = print_first r.total 0 r.buf in
    let ring = print_ring n r.cur r.buf in if leb r.total n then first else ring
