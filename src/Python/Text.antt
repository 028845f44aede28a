-- ===== src/Python/Text.antt =====
-- The operations on `str` that the source uses, over code points.
pub mod Stripping
use Prim.Native.Char.{Char, code}
use Prim.Native.String.{[], ◌∷◌}
use mathlib.Core.List.{List, [], ◌∷◌}
use gov_engine.Prelude.{
  ℕ, zero, suc, String, Bool, true, false, ◌&&◌, ◌||◌, ◌==◌, leb, eqb, if◌then◌else◌,
}

-- `str.isspace` of one code point.
abbrev is_space : ℕ → Bool
is_space c =
    (leb 9 c && leb c 13)
    || (leb 28 c && leb c 32)
    || eqb c 0x85
    || eqb c 0xA0
    || eqb c 0x1680
    || (leb 0x2000 c && leb c 0x200A)
    || eqb c 0x2028
    || eqb c 0x2029
    || eqb c 0x202F
    || eqb c 0x205F
    || eqb c 0x3000

lstrip : String → String
lstrip [] = []
lstrip (c ∷ s) = let rest = lstrip s in if is_space (code c) then rest else c ∷ s

rstrip : String → String
rstrip [] = []
rstrip (c ∷ s) = let rest = rstrip s in if rest == "" && is_space (code c) then [] else c ∷ rest

-- `s.strip()`
unfoldable pub strip : String → String
unfolding lstrip rstrip
strip s = rstrip (lstrip s)

abbrev push_first : Char → List String → List String
push_first c [] = (c ∷ []) ∷ []
push_first c (p ∷ ps) = (c ∷ p) ∷ ps

-- `s.split('.')`
unfoldable pub split_dot : String → List String
split_dot [] = [] ∷ []
split_dot (c ∷ s) =
    let rest = split_dot s in if eqb (code c) b'.' then [] ∷ rest else push_first c rest

-- The two sides of `s.partition('.')`.
unfoldable pub before_dot : String → String
before_dot [] = []
before_dot (c ∷ s) = let rest = before_dot s in if eqb (code c) b'.' then [] else c ∷ rest

unfoldable pub after_dot : String → String
after_dot [] = []
after_dot (c ∷ s) = let rest = after_dot s in if eqb (code c) b'.' then s else rest

-- `a or b` of two texts.
abbrev pub or_text : String → String → String
or_text a b = if a == "" then b else a

-- `name in (...)` over texts.
abbrev pub in_texts : String → List String → Bool
in_texts s [] = false
in_texts s (t ∷ ts) = s == t || in_texts s ts

-- `s[n:]` and `s[:n]`
unfoldable pub from_index : ℕ → String → String
from_index zero s = s
from_index (suc n) [] = []
from_index (suc n) (c ∷ s) = from_index n s

unfoldable pub up_to_index : ℕ → String → String
up_to_index zero s = []
up_to_index (suc n) [] = []
up_to_index (suc n) (c ∷ s) = c ∷ up_to_index n s

-- `tuple == tuple` over texts.
abbrev pub same_texts : List String → List String → Bool
same_texts [] [] = true
same_texts (s ∷ ss) (t ∷ ts) = s == t && same_texts ss ts
same_texts _ _ = false
