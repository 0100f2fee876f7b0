-- ===== src/Tests/Log.antt =====
-- log.go on a log of five lines.
use buildg.Prelude.{◌≡◌, ◌≤◌, refl, List, [], ◌∷◌, ◌++◌, some, arith, length, ◌⊎◌}
use buildg.Text.{Text, codes}
use buildg.Log.{last_lines}
use buildg.Log.Printed.{last_lines_lem}

abbrev five : List Text
five = codes "a" ∷ codes "b" ∷ codes "c" ∷ codes "d" ∷ codes "e" ∷ []

last_three : last_lines 3 five ≡ some (codes "c" ∷ codes "d" ∷ codes "e" ∷ [])
unfolding last_lines
last_three = refl

last_lines_lem_example :
    (out : List Text) × (pre : List Text) × (last_lines 3 five ≡ some out)
    × (five ≡ pre ++ out)
    × (((pre ≡ []) × (5 ≤ 3)) ⊎ (length out ≡ 3))
last_lines_lem_example = last_lines_lem 3 five (omega arith)
