-- ===== src/Policy/Compiler/Sorting.antt =====
-- Python's `sorted` by a key, of which the comparison is given.
use Prim.Native.String.{[], ◌∷◌}
use mathlib.Core.List.{[], ◌∷◌}
use gov_engine.Prelude.{Bool, List, if◌then◌else◌}

-- `sorted`: an element stays before those that are not less than it.
module _ {A : Type 0} (lt : A → A → Bool) where
  unfoldable pub insert_by : A → List A → List A
  insert_by x [] = x ∷ []
  insert_by x (y ∷ ys) = let rest = insert_by x ys in if lt y x then y ∷ rest else x ∷ y ∷ ys

  unfoldable pub sort_by : List A → List A
  sort_by [] = []
  sort_by (x ∷ xs) = insert_by x (sort_by xs)
