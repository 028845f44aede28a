-- ===== src/Policy/Compiler/Conditions.antt =====
-- govengine/policy/compiler: `PolicyCondition`, its validation and the conditions of a rule.
use Prim.Native.String.{[], ◌∷◌}
use mathlib.Core.List.{[], ◌∷◌}
use gov_engine.Prelude.{
  ℕ, String, Bool, true, false, not, ◌&&◌, ◌||◌, List, ◌==◌, ltb, if◌then◌else◌, all,
}
use gov_engine.Python.Text.{in_texts, split_dot}
use gov_engine.Python.Sorting.{text_lt, all_distinct}
use gov_engine.Python.Value.{
  text, key_text, Value, bool, int, float, str, list, tuple, dict, Items, nil, cons, Fields, end,
  field, get_or_null, has_key, field_count, item_count, dict_of, Runtime,
}
use gov_engine.Python.Reading.{read_text}
use gov_engine.Errors.{gov_api, Result, ok, fail, ensure, reject_if, require_mapping, ◌>>=◌, ◌>>◌}
use gov_engine.Governance.Scope.{RecordDigest}
use gov_engine.Policy.Model.Parse.{safe_mapping, json_safe}
use gov_engine.Policy.Rule.{PolicyCondition}
use gov_engine.Policy.Compiler.Grammar.{
  is_path_segment, valid_namespace, reject_unknown_policy_fields,
}
use gov_engine.Policy.Compiler.Sorting.{sort_by}

abbrev pub policy_condition_operators : List String
policy_condition_operators =
    "eq" ∷ "neq" ∷ "in" ∷ "not_in" ∷ "contains" ∷ "exists" ∷ "lt" ∷ "lte" ∷ "gt" ∷ "gte"
    ∷ "subset_of" ∷ "matches_namespace" ∷ []

abbrev pub policy_condition_namespaces : List String
policy_condition_namespaces =
    "principal" ∷ "action" ∷ "resource" ∷ "request_context" ∷ "context" ∷ []

abbrev pub max_conditions_per_rule : ℕ
max_conditions_per_rule = 32

-- `parts[0] in POLICY_CONDITION_NAMESPACES`, of two parts or more
abbrev rooted_path : List String → Bool
rooted_path (root ∷ _ ∷ _) = in_texts root policy_condition_namespaces
rooted_path _ = false

-- The operand that an operator takes.
unfoldable pub operand_fits : String → Value → Bool
operand_fits operator value =
    if operator == "exists"
    then elim value [ bool b ↦ true | _ ↦ false ]
    else if in_texts operator ("lt" ∷ "lte" ∷ "gt" ∷ "gte" ∷ [])
    then elim value [ int z ↦ true | float x ↦ true | _ ↦ false ]
    else if in_texts operator ("in" ∷ "not_in" ∷ "subset_of" ∷ [])
    then elim value [ list vs ↦ true | _ ↦ false ]
    else if operator == "matches_namespace"
    then elim value [ str s ↦ valid_namespace s | _ ↦ false ]
    else true

-- `_validate_condition`
unfoldable pub validate_condition : PolicyCondition → Result (Unit {0})
validate_condition item = do
  reject_if (item.path == "") "missing_policy_condition_path"
  ensure (rooted_path (split_dot item.path) && all is_path_segment (split_dot item.path))
      (gov_api "unknown_policy_condition_path" (("path", item.path) ∷ []))
  ensure (in_texts item.operator policy_condition_operators)
      (gov_api "unknown_policy_condition_operator" (("operator", item.operator) ∷ []))
  value ← json_safe item.value
  reject_if (not (operand_fits item.operator value)) "invalid_policy_condition_operand"

-- `PolicyCondition(path=..., operator=..., value=...)`
abbrev pub make_condition : PolicyCondition → Result PolicyCondition
make_condition item = validate_condition item >> ok item

-- `PolicyCondition.as_dict`, whose copy of the value has been made before
abbrev pub condition_as_dict : PolicyCondition → Fields
condition_as_dict item =
    dict_of (("path", str item.path) ∷ ("operator", str item.operator) ∷ ("value", item.value) ∷ [])

-- The conditions of a v0.1 rule, by their paths.
unfoldable pub path_conditions : Fields → Result (List PolicyCondition)
path_conditions end = ok []
path_conditions (field k v m) = do
  first ← make_condition (record { path = key_text k; operator = "eq"; value = v })
  rest ← path_conditions m
  ok (first ∷ rest)

-- A condition with the key that it is sorted by.
pub record KeyedCondition : Type 0 where
  pub condition : PolicyCondition
  pub value_digest : String

-- `a < b` of pairs of texts.
abbrev pub pair_lt : String → String → Bool → Bool
pair_lt a b rest = text_lt a b || (a == b && rest)

abbrev keyed_lt : KeyedCondition → KeyedCondition → Bool
keyed_lt a b =
    pair_lt a.condition.path b.condition.path
      (pair_lt a.condition.operator b.condition.operator (text_lt a.value_digest b.value_digest))

abbrev conditions_of : List KeyedCondition → List PolicyCondition
conditions_of [] = []
conditions_of (k ∷ ks) = k.condition ∷ conditions_of ks

module _ (py : Runtime) (digests : RecordDigest) where
  -- `PolicyCondition.from_mapping`
  unfoldable pub condition_from_mapping : Value → Result PolicyCondition
  condition_from_mapping value = do
    raw ← require_mapping value "invalid_policy_condition"
    reject_unknown_policy_fields raw ("path" ∷ "operator" ∷ "value" ∷ [])
        "unknown_policy_condition_field"
    reject_if (not (has_key (text "value") raw)) "missing_policy_condition_value"
    operand ← json_safe (get_or_null "value" raw)
    make_condition (record {
      path = read_text py "path" raw;
      operator = read_text py "operator" raw;
      value = operand;
    })

  unfoldable pub condition_items : Items → Result (List PolicyCondition)
  condition_items nil = ok []
  condition_items (cons v vs) = do
    first ← condition_from_mapping v
    rest ← condition_items vs
    ok (first ∷ rest)

  unfoldable pub keyed_conditions : List PolicyCondition → Result (List KeyedCondition)
  keyed_conditions [] = ok []
  keyed_conditions (c ∷ cs) = do
    digest ← digests.record_digest c.value "govengine.policy.PolicyConditionValue"
    rest ← keyed_conditions cs
    ok (record { condition = c; value_digest = digest } ∷ rest)

  unfoldable pub condition_fingerprints : List PolicyCondition → Result (List String)
  condition_fingerprints [] = ok []
  condition_fingerprints (c ∷ cs) = do
    digest ← digests.record_digest (dict (condition_as_dict c)) "govengine.policy.PolicyCondition"
    rest ← condition_fingerprints cs
    ok (digest ∷ rest)

  -- The conditions in their canonical order, without repetitions.
  unfoldable pub canonical_conditions : List PolicyCondition → Result (List PolicyCondition)
  canonical_conditions conditions = do
    keyed ← keyed_conditions conditions
    let canonical = conditions_of (sort_by keyed_lt keyed)
    fingerprints ← condition_fingerprints canonical
    reject_if (not (all_distinct fingerprints)) "duplicate_policy_condition"
    ok canonical

  abbrev listed_conditions : Items → Result (List PolicyCondition)
  listed_conditions nil = fail "policy_rule_without_conditions"
  listed_conditions vs = do
    reject_if (ltb max_conditions_per_rule (item_count vs)) "policy_rule_condition_limit_exceeded"
    conditions ← condition_items vs
    canonical_conditions conditions

  abbrev mapped_conditions : Fields → Result (List PolicyCondition)
  mapped_conditions end = fail "policy_rule_without_conditions"
  mapped_conditions raw = do
    reject_if (ltb max_conditions_per_rule (field_count raw)) "policy_rule_condition_limit_exceeded"
    conditions ← path_conditions raw
    canonical_conditions conditions

  -- `_conditions`
  unfoldable pub read_conditions : Value → Bool → Result (List PolicyCondition)
  read_conditions value false = do
    raw ← safe_mapping value "invalid_policy_rule_conditions"
    mapped_conditions raw
  read_conditions (list vs) true = listed_conditions vs
  read_conditions (tuple vs) true = listed_conditions vs
  read_conditions _ true = fail "invalid_policy_rule_conditions"
