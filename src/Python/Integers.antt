-- ===== src/Python/Integers.antt =====
-- Tuples of integers as sets.
use gov_engine.Prelude.{Bool, true, false, not, ◌&&◌, ◌||◌, List, [], ◌∷◌, if◌then◌else◌}
use gov_engine.Python.Number.{ℤ, ltb_ℤ, eqb_ℤ}

-- `z in (...)`
abbrev pub in_ints : ℤ → List ℤ → Bool
in_ints z [] = false
in_ints z (x ∷ xs) = eqb_ℤ z x || in_ints z xs

-- One more member of a set that is kept sorted.
unfoldable pub insert_int : ℤ → List ℤ → List ℤ
insert_int z [] = z ∷ []
insert_int z (x ∷ xs) =
    let rest = insert_int z xs in
    if ltb_ℤ z x then z ∷ x ∷ xs else if eqb_ℤ z x then x ∷ xs else x ∷ rest

-- `sorted(set(ints))`
unfoldable pub sorted_ints : List ℤ → List ℤ
sorted_ints [] = []
sorted_ints (x ∷ xs) = insert_int x (sorted_ints xs)

-- `len(ints) == len(set(ints))`
unfoldable pub distinct_ints : List ℤ → Bool
distinct_ints [] = true
distinct_ints (x ∷ xs) = not (in_ints x xs) && distinct_ints xs

-- `tuple == tuple` over integers.
abbrev pub same_ints : List ℤ → List ℤ → Bool
same_ints [] [] = true
same_ints (x ∷ xs) (y ∷ ys) = eqb_ℤ x y && same_ints xs ys
same_ints _ _ = false
