-- ===== src/Python/Sorting.antt =====
-- `sorted` over texts, sets of texts as sorted lists without repetitions, and `dict.fromkeys`.
pub mod Laws
use Prim.Native.Char.{code}
use Prim.Native.String.{[], ◌∷◌}
use mathlib.Core.List.{List, [], ◌∷◌, ◌++◌}
use gov_engine.Prelude.{String, Bool, true, false, not, ◌&&◌, ◌||◌, ◌==◌, ltb, eqb, if◌then◌else◌}
use gov_engine.Python.Text.{strip, in_texts}

-- `s < t`, by code points.
unfoldable pub text_lt : String → String → Bool
text_lt [] [] = false
text_lt [] (d ∷ t) = true
text_lt (c ∷ s) [] = false
text_lt (c ∷ s) (d ∷ t) = ltb (code c) (code d) || (eqb (code c) (code d) && text_lt s t)

-- One more member of a set that is kept sorted.
unfoldable pub insert_text : String → List String → List String
insert_text s [] = s ∷ []
insert_text s (t ∷ ts) =
    if text_lt s t then s ∷ t ∷ ts else if s == t then t ∷ ts else t ∷ insert_text s ts

-- `sorted(set(texts))`
unfoldable pub sorted_set : List String → List String
sorted_set [] = []
sorted_set (s ∷ ts) = insert_text s (sorted_set ts)

unfoldable pub without : String → List String → List String
without s [] = []
without s (t ∷ ts) = let rest = without s ts in if s == t then rest else t ∷ rest

-- `tuple(dict.fromkeys(texts))`: the first occurrence of each text.
unfoldable pub from_keys : List String → List String
from_keys [] = []
from_keys (s ∷ ts) = s ∷ without s (from_keys ts)

-- `(item for item in texts if item)`
unfoldable pub non_empty : List String → List String
non_empty [] = []
non_empty (s ∷ ts) = let rest = non_empty ts in if s == "" then rest else s ∷ rest

-- `len(texts) == len(set(texts))`
unfoldable pub all_distinct : List String → Bool
all_distinct [] = true
all_distinct (s ∷ ts) = not (in_texts s ts) && all_distinct ts
