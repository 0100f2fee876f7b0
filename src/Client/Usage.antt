-- ===== src/Client/Usage.antt =====
-- pkg/buildkit/client.go: Prune and Du, which list what is used and its total.
pub mod Totals
use buildg.Prelude.{Bool, true, false, not, List, [], ◌∷◌, ◌++◌, Option, none, some, if◌then◌else◌}
use buildg.Int.{ℤ, pos, ◌+ℤ◌, wrap64}
use buildg.Text.{Text}
use buildg.Errors.{Error, Result, ok, err}

-- client.UsageInfo
pub record UsageInfo : Type 0 where
  pub id : Text
  pub size : ℤ
  pub in_use : Bool

-- a line that is written
pub data Row : Type 0 where
  heading : Row
  usage : Text → Bool → ℤ → Row
  total : ℤ → Row

-- The goroutine of Prune: `first` and `total`, and what it has written.
pub record Printing : Type 0 where
  pub first : Bool
  pub sum : ℤ
  pub rows : List Row

unfoldable pub print_usage : UsageInfo → Printing → Printing
print_usage du p = record {
  first = false;
  sum = wrap64 (p.sum +ℤ du.size);
  rows =
      (if p.first then p.rows ++ heading ∷ [] else p.rows)
      ++ usage du.id (not du.in_use) du.size ∷ [];
}

unfoldable pub print_usages : List UsageInfo → Printing → Printing
print_usages [] p = p
print_usages (du ∷ dus) p = print_usages dus (print_usage du p)

abbrev pub pruned : Printing → Option Error → Option Error × List Row
pruned p (some e) = (some e, p.rows)
pruned p none = (none, p.rows ++ total p.sum ∷ [])

-- what Prune of the client sends before it returns, and its error
abbrev pub prune_sent : List UsageInfo × Option Error → Option Error × List Row
prune_sent (sent, e) =
    pruned (print_usages sent (record { first = true; sum = pos 0; rows = [] })) e

-- the loop of Du
unfoldable pub disk_usage : List UsageInfo → ℤ → List Row → ℤ × List Row
disk_usage [] sum rows = (sum, rows)
disk_usage (du ∷ dus) sum rows =
    disk_usage dus (wrap64 (sum +ℤ du.size)) (rows ++ usage du.id (not du.in_use) du.size ∷ [])

abbrev pub with_total : ℤ × List Row → List Row
with_total (sum, rows) = rows ++ total sum ∷ []

-- The heading is not flushed when DiskUsage fails.
abbrev pub du_with : Result (List UsageInfo) → Option Error × List Row
du_with (err e) = (some e, [])
du_with (ok dus) = (none, with_total (disk_usage dus (pos 0) (heading ∷ [])))

-- Prune, with the option that `all` gives, and Du, with a client or the error of its setup
unfoldable pub prune_cache :
    {C : Type 0}
    → Result C
    → Bool
    → (C → Bool → List UsageInfo × Option Error)
    → Option Error × List Row
unfolding print_usages
prune_cache (err e) all prune = (some e, [])
prune_cache (ok c) all prune = prune_sent (prune c all)

unfoldable pub du_cache :
    {C : Type 0} → Result C → (C → Result (List UsageInfo)) → Option Error × List Row
unfolding disk_usage
du_cache (err e) disk = (some e, [])
du_cache (ok c) disk = du_with (disk c)
