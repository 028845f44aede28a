-- ===== src/Policy/Compiler/Grammar.antt =====
-- govengine/policy/compiler and govengine/policy/reasons.py: the texts that a pack may hold, and
-- unknown fields.
use Prim.Native.Char.{code}
use Prim.Native.String.{count, [], ◌∷◌}
use mathlib.Core.List.{[], ◌∷◌}
use gov_engine.Prelude.{
  ℕ, String, Bool, true, false, ◌&&◌, ◌||◌, List, ◌==◌, eqb, leb, if◌then◌else◌, all,
}
use gov_engine.Python.Text.{strip, in_texts, split_dot}
use gov_engine.Python.Sorting.{sorted_set}
use gov_engine.Python.Value.{text, other, Value, str, Fields, end, field}
use gov_engine.Errors.{gov_api, Result, ok, err, fail}

abbrev in_range : ℕ → ℕ → ℕ → Bool
in_range low high c = leb low c && leb c high

abbrev is_letter : ℕ → Bool
is_letter c = in_range b'a' b'z' c || in_range b'A' b'Z' c || eqb c b'_'

-- `[A-Za-z0-9_-]*`
unfoldable pub segment_rest : String → Bool
segment_rest [] = true
segment_rest (c ∷ s) =
    (is_letter (code c) || in_range b'0' b'9' (code c) || eqb (code c) b'-') && segment_rest s

-- `_PATH_SEGMENT.fullmatch`
unfoldable pub is_path_segment : String → Bool
is_path_segment [] = false
is_path_segment (c ∷ s) = is_letter (code c) && segment_rest s

-- `_valid_namespace`
abbrev pub valid_namespace : String → Bool
valid_namespace s = all is_path_segment (split_dot s)

-- `[a-z0-9_]*`
unfoldable pub reason_rest : String → Bool
reason_rest [] = true
reason_rest (c ∷ s) =
    (in_range b'a' b'z' (code c) || in_range b'0' b'9' (code c) || eqb (code c) b'_')
    && reason_rest s

-- `_POLICY_REASON_CODE.fullmatch`
unfoldable pub is_reason_code : String → Bool
is_reason_code [] = false
is_reason_code (c ∷ s) = in_range b'a' b'z' (code c) && reason_rest s && leb (count s) 127

-- `validate_policy_reason_code`
unfoldable pub validate_policy_reason_code : Value → Result String
validate_policy_reason_code (str s) =
    if strip s == s && is_reason_code s then ok s else fail "invalid_policy_reason_code"
validate_policy_reason_code _ = fail "invalid_policy_reason_code"

unfoldable pub unknown_keys : Fields → List String → List String
unknown_keys end allowed = []
unknown_keys (field (text s) v m) allowed =
    let rest = unknown_keys m allowed in if in_texts s allowed then rest else s ∷ rest
unknown_keys (field (other s) v m) allowed = s ∷ unknown_keys m allowed

abbrev first_unknown : String → List String → Result (Unit {0})
first_unknown reason [] = ok tt
first_unknown reason (s ∷ ss) = err (gov_api reason (("field", s) ∷ []))

-- `_reject_unknown_fields`, which names the first unknown field in their order
unfoldable pub reject_unknown_policy_fields : Fields → List String → String → Result (Unit {0})
reject_unknown_policy_fields value allowed reason =
    first_unknown reason (sorted_set (unknown_keys value allowed))
