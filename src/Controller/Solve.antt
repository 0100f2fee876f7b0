-- ===== src/Controller/Solve.antt =====
-- The two wrappers of Solve, of the frontend's bridge and of the gateway client: they ask for
-- evaluation and keep the source of the definition in the controller while the inner solve runs.
use buildg.Prelude.{
  ℕ, suc, ◌+◌, ◌^◌, ◌<◌, ◌≡◌, refl, sym, ◌∙◌, Bool, true, Option, none, some, arith, ◌==◌, nat_eq,
  nat_beq_iff, Bool-cases, inl, inr, ap,
}
use buildg.Dict.{lookup}
use buildg.Int.{pos}
use buildg.Errors.{Result}
use buildg.Controller.Sources.{Sources, counts, add_location_source, delete_location_source}
use buildg.Controller.Active.{
  counter, lookup-add_location_source, add_count-counter, lookup-delete_location_source,
}

-- `definition` is `none` for a nil definition, and `some none` for one with no source.
pub record SolveRequest : Type 0 where
  pub evaluate : Bool
  pub definition : Option (Option ℕ)
  pub frontend : ℕ

abbrev pub source_of : Option (Option ℕ) → Option ℕ
source_of none = none
source_of (some s) = s

-- the request of a definition with the source `s`
abbrev pub request : Bool → ℕ → ℕ → SolveRequest
request b s f = record { evaluate = b; definition = some (some s); frontend = f }

-- The wrapped solve, over the controller's sources and the rest of the world.
abbrev pub Solver : Type 0 → Type 0 → Type 0
Solver R W = SolveRequest → Sources → W → Result R × Sources × W

module _ {R W : Type 0} where
  abbrev pub with_source :
      Solver R W → SolveRequest → Option ℕ → Sources → W → Result R × Sources × W
  with_source inner req none m w = inner req m w
  with_source inner req (some s) m w =
      let (r, m', w') = inner req (add_location_source s m) w in
      (r, delete_location_source s m', w')

  unfoldable pub frontend_solve : Solver R W → Solver R W
  frontend_solve inner req m w =
      with_source inner (record req { evaluate = true }) (source_of req.definition) m w

  unfoldable pub gateway_solve : Solver R W → Solver R W
  gateway_solve inner req m w =
      with_source inner (record req { evaluate = true }) (source_of req.definition) m w

  -- the inner solve leaves every counter as it found it
  abbrev pub Keeps : Solver R W → Type 0
  Keeps inner =
      (r : SolveRequest) (m : Sources) (w : W) (j : ℕ)
      → lookup j (counts (inner r m w).1) ≡ lookup j (counts m)

  module _ (inner : Solver R W) (b : Bool) (s f n : ℕ) (m : Sources) (w : W) where
    abbrev before : Sources
    before = add_location_source s m

    counter-suc : counter (n + 1) ≡ some (pos (suc n))
    counter-suc = let e : n + 1 ≡ suc n = omega arith in rw e refl

    -- A request whose definition has the source s, while n solves run with it: the inner solve is asked to
    -- evaluate and sees one more of them, its result is returned, whether it is an error or not, and
    -- if it leaves the counters as they are then so does the wrapper.
    pub frontend_solve_lem :
        n + 1 < 2 ^ 63
        → lookup s (counts m) ≡ counter n
        → Keeps inner
        → ((frontend_solve inner (request b s f) m w).0 ≡ (inner (request true s f) before w).0)
          × (lookup s (counts before) ≡ counter (n + 1))
          × ((j : ℕ)
              → lookup j (counts (frontend_solve inner (request b s f) m w).1)
                ≡ lookup j (counts m))
    unfolding frontend_solve
    frontend_solve_lem room shown keeps =
        let one_more : lookup s (counts before) ≡ counter (n + 1) =
          rw (lookup-add_location_source, shown) (ground (arith, add_count-counter n)) in
        let at_end : lookup s (counts (inner (request true s f) before w).1) ≡ some (pos (suc n)) =
          keeps (request true s f) before w s ∙ one_more ∙ counter-suc in
        (
          refl,
          one_more,
          λ j.
              lookup-delete_location_source s j n (inner (request true s f) before w).1
                (omega arith) at_end
              ∙ elim (Bool-cases (s == j)) [
                | inl same ↦
                    rw same
                      (sym shown ∙ ap (λ (x : ℕ). lookup x (counts m)) ((nat_beq_iff s j).0 same))
                | inr other ↦ rw other (
                    keeps (request true s f) before w j
                    ∙ lookup-add_location_source s j m
                    ∙ rw other refl)
              ],
        )

  -- Both wrappers do the same to a solve.
  pub gateway_solve_lem : (inner : Solver R W) → gateway_solve inner ≡ frontend_solve inner
  unfolding gateway_solve frontend_solve
  gateway_solve_lem inner = refl
