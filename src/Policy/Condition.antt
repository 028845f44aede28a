-- ===== src/Policy/Condition.antt =====
-- How one condition of a rule is decided: govengine/policy/runtime, `_condition_matches` and what it
-- calls.
use Prim.Native.String.{◌++◌ as append}
use package.text.Mathlib.Text.{starts_with, find?}
use gov_engine.Prelude.{
  String, Bool, true, false, not, ◌||◌, List, [], ◌∷◌, Option, none, some, ◌==◌, if◌then◌else◌, any,
  all,
}
use gov_engine.Python.Number.{ltb_ℤ, leb_ℤ, float_lt, float_eq}
use gov_engine.Python.Text.{split_dot, before_dot, after_dot}
use gov_engine.Python.Value.{
  text, Value, bool, int, float, str, list, tuple, dict, Items, nil, cons, Fields, get, items,
  truthy, type_name,
}
use gov_engine.Errors.{Result, ok, err, gov_api, raised, fail, ◌>>=◌}
use gov_engine.Policy.Model.{PolicyRequest}
use gov_engine.Policy.Rule.{PolicyCondition}
use gov_engine.Policy.Equality.{bool_eq, strict_equal}

-- `_path`; `none` stands for `_MISSING`.
unfoldable pub path_parts : Value → List String → Option Value
path_parts v [] = some v
path_parts (dict m) (p ∷ ps) = elim (get p m) [ none ↦ none | some v ↦ path_parts v ps ]
path_parts v (p ∷ ps) = none

abbrev pub path_value : Fields → String → Option Value
path_value m path = path_parts (dict m) (split_dot path)

-- `_bool_path`
unfoldable pub bool_path : Fields → String → Bool
bool_path m path = elim (path_value m path) [ none ↦ false | some v ↦ truthy v ]

-- The roots of `_lookup_condition`.
unfoldable pub condition_root : String → PolicyRequest → Fields → Option Fields
condition_root namespace request context =
    if namespace == "principal"
    then some request.principal
    else if namespace == "action"
    then some request.action
    else if namespace == "resource"
    then some request.resource
    else if namespace == "request_context"
    then some request.context
    else if namespace == "context"
    then some context
    else none

-- `_lookup_condition`
unfoldable pub lookup_condition : String → PolicyRequest → Fields → Option Value
lookup_condition key request context = elim (condition_root (before_dot key) request context) [
  | none ↦ none
  | some root ↦ if after_dot key == "" then none else path_value root (after_dot key)
]

-- `_operand_type_error`
abbrev pub operand_type_error {ℓ} : {A : Type ℓ} → PolicyCondition → Value → Result A
operand_type_error c actual = err (
    gov_api "policy_condition_operand_type_mismatch"
      (("path", c.path) ∷ ("operator", c.operator) ∷ ("actual_type", type_name actual) ∷ []))

-- What `for item in expected` goes through. A condition is made with a list where its operator
-- iterates, so only the first case is reached.
unfoldable pub iterate : Value → Result (List Value)
iterate (list vs) = ok (items vs)
iterate (tuple vs) = ok (items vs)
iterate _ = err (raised "TypeError")

-- `any(_strict_equal(actual, item) for item in expected)`
abbrev pub is_one_of : Value → List Value → Bool
is_one_of actual expected = any (strict_equal actual) expected

-- The four comparisons, of two numbers of one type.
unfoldable pub numeric_test : String → Value → Value → Option Bool
numeric_test operator (int a) (int b) = some (
    if operator == "lt"
    then ltb_ℤ a b
    else if operator == "lte"
    then leb_ℤ a b
    else if operator == "gt"
    then ltb_ℤ b a
    else leb_ℤ b a)
numeric_test operator (float a) (float b) = some (
    if operator == "lt"
    then float_lt a b
    else if operator == "lte"
    then float_lt a b || float_eq a b
    else if operator == "gt"
    then float_lt b a
    else float_lt b a || float_eq a b)
numeric_test operator _ _ = none

abbrev pub is_numeric : String → Bool
is_numeric operator = operator == "lt" || operator == "lte" || operator == "gt" || operator == "gte"

-- `contains`
unfoldable pub contains_test : PolicyCondition → Value → Result Bool
contains_test c (str s) = elim c.value [
  | str part ↦ elim (find? s part) [ none ↦ ok false | some i ↦ ok true ]
  | _ ↦ operand_type_error c (str s)
]
contains_test c (list vs) = ok (any (strict_equal c.value) (items vs))
contains_test c (tuple vs) = ok (any (strict_equal c.value) (items vs))
contains_test c actual = operand_type_error c actual

-- `subset_of`: the expected items are gone through for each actual item.
unfoldable pub subset_items : PolicyCondition → Items → Result Bool
subset_items c nil = ok true
subset_items c (cons v vs) = do
  expected ← iterate c.value
  ok (all (λ item. is_one_of item expected) (v ∷ items vs))

unfoldable pub subset_test : PolicyCondition → Value → Result Bool
subset_test c (list vs) = subset_items c vs
subset_test c (tuple vs) = subset_items c vs
subset_test c actual = operand_type_error c actual

-- `matches_namespace`
unfoldable pub namespace_test : PolicyCondition → Value → Result Bool
namespace_test c (str s) = elim c.value [
  | str namespace ↦ ok (s == namespace || starts_with s (append namespace "."))
  | _ ↦ ok false
]
namespace_test c actual = operand_type_error c actual

-- `_condition_matches` for a value that is there
unfoldable pub present_matches : PolicyCondition → Value → Result Bool
present_matches c actual =
    if c.operator == "eq"
    then ok (strict_equal actual c.value)
    else if c.operator == "neq"
    then ok (not (strict_equal actual c.value))
    else if c.operator == "in"
    then (do expected ← iterate c.value; ok (is_one_of actual expected))
    else if c.operator == "not_in"
    then (do expected ← iterate c.value; ok (not (is_one_of actual expected)))
    else if c.operator == "contains"
    then contains_test c actual
    else if is_numeric c.operator
    then elim (numeric_test c.operator actual c.value) [
      | none ↦ operand_type_error c actual
      | some b ↦ ok b
    ]
    else if c.operator == "subset_of"
    then subset_test c actual
    else if c.operator == "matches_namespace"
    then namespace_test c actual
    else fail "unknown_policy_condition_operator"

-- `(actual is not _MISSING) is expected`
abbrev pub exists_test : Option Value → Value → Bool
exists_test actual (bool b) = bool_eq (elim actual [ none ↦ false | some v ↦ true ]) b
exists_test actual _ = false

-- `_condition_matches`
unfoldable pub condition_matches : PolicyCondition → PolicyRequest → Fields → Result Bool
condition_matches c request context =
    let actual = lookup_condition c.path request context in
    if c.operator == "exists"
    then ok (exists_test actual c.value)
    else elim actual [ none ↦ ok false | some v ↦ present_matches c v ]
