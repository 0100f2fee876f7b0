-- ===== src/Tests/Stops.antt =====
-- Two requests at one break, and a session that is canceled before a break.
use buildg.Prelude.{◌+◌, ◌≡◌, refl, ◌≢◌, ◌⊎◌, true, false, [], ◌∷◌, length}
use buildg.Int.{pos}
use buildg.Dap.Stops.{
  building, panicked, Stops, new_stops, breaks, receives, sets, requests, resumes, cancels, Reaches,
  starts, goes,
}
use buildg.Dap.Stops.Told.{at_break, Reaches-told}

-- The second request resumes the second break.
abbrev twice : Stops
twice = record {
  stage = building;
  told_ids = (pos 0 ∷ []) ∷ (pos 1 ∷ []) ∷ [];
  has_context = true;
  pending = 0;
  accepted = 2;
  passed = 2;
  is_canceled = false;
}

twice-Reaches : Reaches new_stops twice
twice-Reaches =
    goes _ _ _
      (goes _ _ _
        (goes _ _ _
          (goes _ _ _
            (goes _ _ _
              (goes _ _ _
                (goes _ _ _
                  (goes _ _ _
                    (goes _ _ _ (goes _ _ _ (starts _) (breaks _ (pos 0 ∷ []) refl))
                      (receives _ _ refl))
                    (sets _ refl))
                  (requests _))
                (requests _))
              (resumes _ 1 refl refl))
            (breaks _ (pos 1 ∷ []) refl))
          (receives _ _ refl))
        (sets _ refl))
      (resumes _ 0 refl refl)

abbrev canceled_break : Stops
canceled_break = record {
  stage = panicked;
  told_ids = [];
  has_context = false;
  pending = 0;
  accepted = 0;
  passed = 0;
  is_canceled = true;
}

canceled_break-Reaches : Reaches new_stops canceled_break
canceled_break-Reaches = goes _ _ _ (goes _ _ _ (starts _) (cancels _ refl)) (breaks _ [] refl)

Reaches-told_example :
    (twice.passed + twice.pending ≡ twice.accepted)
    × (length twice.told_ids ≡ twice.passed + at_break twice.stage)
    × ((twice.is_canceled ≡ true) ⊎ (twice.stage ≢ panicked))
Reaches-told_example = Reaches-told twice twice-Reaches
