-- ===== src/Config/Tests.antt =====
-- An environment that sets one variable, read by a function that yields 7 on any text.
use Prim.Native.String.{String}
use robot_ethercat_master_ig.Prelude.{ℕ, Option, some, List, [], ◌∷◌}
use robot_ethercat_master_ig.Prelude.Int.{ℤ, pos}

abbrev seven : String → Option (List ℕ)
seven name = some (55 ∷ [])

abbrev digit : List ℕ → ℤ
digit [] = pos 0
digit (c ∷ rest) = pos 7
