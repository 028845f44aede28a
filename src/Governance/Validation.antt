-- ===== src/Governance/Validation.antt =====
-- govengine/_governance_validation.py: the readings of one entry of a mapping.
use Prim.Native.String.{String, count, [], ◌∷◌, ◌++◌}
use Prim.Native.Char.{code}
use package.text.Mathlib.Text.{starts_with}
use gov_engine.Prelude.{
  ℕ, ◌+◌, Bool, true, not, ◌&&◌, ◌||◌, List, none, some, ◌==◌, eqb, leb, if◌then◌else◌,
}
use mathlib.Core.List.{[], ◌∷◌}
use gov_engine.Python.Number.{pos, Float, is_finite, float_lt, float_zero}
use gov_engine.Python.Text.{strip, in_texts, from_index}
use gov_engine.Python.Sorting.{all_distinct}
use gov_engine.Python.Value.{
  text, other, Value, null, bool, int, float, str, list, tuple, Items, nil, cons, Fields, end,
  field, get, get_or_null, Runtime,
}
use gov_engine.Errors.{Result, ok, fail, reject_if, ◌>>=◌, ◌>>◌}

-- `required_text`
unfoldable pub required_text : Fields → String → String → Result String
required_text value key reason = elim (get_or_null key value) [
  | str s ↦ if strip s == "" then fail reason else ok (strip s)
  | _ ↦ fail reason
]

-- `optional_text`
unfoldable pub optional_text : Fields → String → Result String
optional_text value key = elim (get key value) [
  | none ↦ ok ""
  | some null ↦ ok ""
  | some (str s) ↦ ok (strip s)
  | some _ ↦ fail ("invalid_" ++ key)
]

-- `schema_version`
unfoldable pub schema_version : Fields → String → String → Result String
schema_version value default reason = elim (get "schema_version" value) [
  | none ↦ if strip default == "" then fail reason else ok (strip default)
  | some (str s) ↦ if strip s == "" then fail reason else ok (strip s)
  | some _ ↦ fail reason
]

-- `required_nonnegative_int`
unfoldable pub required_nonnegative_int : Fields → String → String → Result ℕ
required_nonnegative_int value key reason = elim (get_or_null key value) [
  | int (pos n) ↦ ok n
  | _ ↦ fail reason
]

-- `optional_nonnegative_int`
unfoldable pub optional_nonnegative_int : Fields → String → ℕ → String → Result ℕ
optional_nonnegative_int value key default reason = elim (get key value) [
  | none ↦ ok default
  | some _ ↦ required_nonnegative_int value key reason
]

-- The last test of `required_nonnegative_number`.
abbrev nonnegative : Float → String → Result Float
nonnegative x reason = if not (is_finite x) || float_lt x float_zero then fail reason else ok x

module _ (py : Runtime) where
  -- `required_nonnegative_number`
  unfoldable pub required_nonnegative_number : Fields → String → String → Result Float
  required_nonnegative_number value key reason = elim (get_or_null key value) [
    | int z ↦ elim (py.float_of_int z) [ none ↦ fail reason | some x ↦ nonnegative x reason ]
    | float x ↦ nonnegative x reason
    | _ ↦ fail reason
  ]

  -- `optional_nonnegative_number`
  unfoldable pub optional_nonnegative_number : Fields → String → Float → String → Result Float
  optional_nonnegative_number value key default reason = elim (get key value) [
    | none ↦ ok default
    | some _ ↦ required_nonnegative_number value key reason
  ]

-- `optional_bool`
unfoldable pub optional_bool : Fields → String → Bool → String → Result Bool
optional_bool value key default reason = elim (get key value) [
  | none ↦ ok default
  | some (bool b) ↦ ok b
  | some _ ↦ fail reason
]

-- `char in '0123456789abcdef'`
abbrev is_hex : ℕ → Bool
is_hex c = (leb b'0' c && leb c b'9') || (leb b'a' c && leb c b'f')

unfoldable pub all_hex : String → Bool
all_hex [] = true
all_hex (c ∷ s) = is_hex (code c) && all_hex s

-- The test of `require_sha256_digest` on a text.
unfoldable pub is_sha256_digest : String → Bool
is_sha256_digest s =
    eqb (count s) (count "sha256:" + 64)
    && starts_with s "sha256:"
    && all_hex (from_index (count "sha256:") s)

-- `require_sha256_digest`
unfoldable pub require_sha256_digest : Value → String → Result String
require_sha256_digest (str s) reason = if is_sha256_digest s then ok s else fail reason
require_sha256_digest _ reason = fail reason

-- `optional_sha256_digest`
unfoldable pub optional_sha256_digest : Fields → String → String → Result String
optional_sha256_digest value key reason = elim (get key value) [
  | none ↦ ok ""
  | some null ↦ ok ""
  | some (str s) ↦ if s == "" then ok "" else require_sha256_digest (str s) reason
  | some v ↦ require_sha256_digest v reason
]

-- The loop of `text_tuple`.
unfoldable pub stripped_all : String → Items → Result (List String)
stripped_all reason nil = ok []
stripped_all reason (cons (str s) vs) =
    if strip s == "" then fail reason else (do rest ← stripped_all reason vs; ok (strip s ∷ rest))
stripped_all reason (cons _ vs) = fail reason

-- `text_tuple`
unfoldable pub text_tuple : Value → String → Result (List String)
text_tuple (list vs) reason = do
  texts ← stripped_all reason vs
  if all_distinct texts then ok texts else fail reason
text_tuple (tuple vs) reason = do
  texts ← stripped_all reason vs
  if all_distinct texts then ok texts else fail reason
text_tuple _ reason = fail reason

-- `optional_text_tuple`
unfoldable pub optional_text_tuple : Fields → String → List String → String → Result (List String)
optional_text_tuple value key default reason = elim (get key value) [
  | none ↦ ok default
  | some v ↦ text_tuple v reason
]

-- `reject_unknown_fields`
unfoldable pub reject_unknown_fields : Fields → List String → String → Result (Unit {0})
reject_unknown_fields end allowed reason = ok tt
reject_unknown_fields (field (other k) v m) allowed reason = fail reason
reject_unknown_fields (field (text k) v m) allowed reason = do
  reject_if (not (in_texts k allowed)) reason
  reject_unknown_fields m allowed reason
