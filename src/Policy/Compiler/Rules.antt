-- ===== src/Policy/Compiler/Rules.antt =====
-- govengine/policy/compiler: `PolicyRule.from_mapping`.
use Prim.Native.String.{[], ◌∷◌}
use mathlib.Core.List.{[], ◌∷◌}
use gov_engine.Prelude.{
  ℕ, ◌+◌, String, Bool, true, false, not, ◌&&◌, ◌||◌, List, none, some, ◌==◌, leb, ltb,
  if◌then◌else◌, length,
}
use gov_engine.Python.Number.{pos, Float, float_zero}
use gov_engine.Python.Text.{in_texts}
use gov_engine.Python.Value.{
  text, Value, null, int, float, str, tuple, nil, Fields, get, get_or_null, has_key, or_value,
  Runtime,
}
use gov_engine.Python.Reading.{read_text_alias}
use gov_engine.Errors.{
  raised, Result, ok, err, fail, expect, reject_if, require_mapping, ◌>>=◌, ◌>>◌,
}
use gov_engine.Governance.Scope.{RecordDigest}
use gov_engine.Policy.Model.{policy_risk_classes, is_bad_score}
use gov_engine.Policy.Model.Parse.{parse_obligations, parse_constraints}
use gov_engine.Policy.Rule.{PolicyRule}
use gov_engine.Policy.Compiler.Grammar.{reject_unknown_policy_fields, validate_policy_reason_code}
use gov_engine.Policy.Compiler.Conditions.{read_conditions}

abbrev pub policy_rule_effects : List String
policy_rule_effects = "allow" ∷ "allow_with_obligations" ∷ "approval_required" ∷ "deny" ∷ []

-- `_POLICY_RULE_V0_1_FIELDS` and `_POLICY_RULE_V1_FIELDS`
abbrev pub policy_rule_fields : Bool → List String
policy_rule_fields true =
    "rule_id" ∷ "effect" ∷ "conditions" ∷ "priority" ∷ "reason_code" ∷ "risk_class" ∷ "risk_score"
    ∷ "obligations" ∷ "constraints" ∷ []
policy_rule_fields false =
    "rule_id" ∷ "id" ∷ "effect" ∷ "decision" ∷ "conditions" ∷ "priority" ∷ "reason_code"
    ∷ "risk_class" ∷ "risk_score" ∷ "obligations" ∷ "constraints" ∷ []

abbrev pub max_controls_per_rule : ℕ
max_controls_per_rule = 64

module _ (py : Runtime) (digests : RecordDigest) where
  -- `raw_priority`
  unfoldable pub read_priority : Fields → Result ℕ
  read_priority raw = elim (get "priority" raw) [
    | none ↦ ok 100
    | some (int (pos n)) ↦ if leb n 1000000 then ok n else fail "invalid_policy_rule_priority"
    | some _ ↦ fail "invalid_policy_rule_priority"
  ]

  -- `reason_code`, which is the effect where none is given
  unfoldable pub read_reason_code : Fields → String → Result String
  read_reason_code raw effect = elim (get_or_null "reason_code" raw) [
    | null ↦ ok effect
    | str s ↦ if s == "" then ok effect else validate_policy_reason_code (str s)
    | v ↦ validate_policy_reason_code v
  ]

  unfoldable pub read_risk_class : Fields → Result String
  read_risk_class raw = elim (get "risk_class" raw) [
    | none ↦ ok "low"
    | some (str s) ↦
        if in_texts s policy_risk_classes then ok s else fail "invalid_policy_risk_class"
    | some _ ↦ fail "invalid_policy_risk_class"
  ]

  abbrev bounded_score : Float → Result Float
  bounded_score x = if is_bad_score x then fail "invalid_policy_risk_score" else ok x

  unfoldable pub read_rule_score : Fields → Result Float
  read_rule_score raw = elim (get "risk_score" raw) [
    | none ↦ ok float_zero
    | some (int z) ↦ elim (py.float_of_int z) [
      | none ↦ err (raised "OverflowError")
      | some x ↦ bounded_score x
    ]
    | some (float x) ↦ bounded_score x
    | some _ ↦ fail "invalid_policy_risk_score"
  ]

  -- The tests of a rule's fields, for `schema_version == 'v1'` or another version.
  unfoldable pub check_rule_fields : Fields → Bool → Result (Unit {0})
  check_rule_fields raw is_v1 = do
    reject_unknown_policy_fields raw (policy_rule_fields is_v1) "invalid_policy_rule"
    reject_if
        (not is_v1
          && ((has_key (text "rule_id") raw && has_key (text "id") raw)
              || (has_key (text "effect") raw && has_key (text "decision") raw)))
        "invalid_policy_rule"

  -- `PolicyRule.from_mapping`
  unfoldable pub rule_from_mapping : Value → Bool → Result PolicyRule
  rule_from_mapping value is_v1 = do
    raw ← require_mapping value "invalid_policy_rule"
    check_rule_fields raw is_v1
    let rule_id = read_text_alias py "rule_id" "id" raw
    let effect = read_text_alias py "effect" "decision" raw
    reject_if (rule_id == "") "missing_policy_rule_id"
    expect (in_texts effect policy_rule_effects) "unknown_policy_rule_effect"
        (if effect == "" then "missing" else effect)
    conditions ← read_conditions py digests (get_or_null "conditions" raw) is_v1
    priority ← read_priority raw
    obligations ←
        parse_obligations py "invalid_policy_rule_obligations"
          (or_value (get_or_null "obligations" raw) (tuple nil))
    constraints ←
        parse_constraints py "invalid_policy_rule_constraints"
          (or_value (get_or_null "constraints" raw) (tuple nil))
    reject_if (ltb max_controls_per_rule (length obligations + length constraints))
        "policy_rule_control_limit_exceeded"
    reason_code ← read_reason_code raw effect
    risk_class ← read_risk_class raw
    risk_score ← read_rule_score raw
    ok (record {
      rule_id = rule_id;
      effect = effect;
      conditions = conditions;
      priority = priority;
      reason_code = reason_code;
      risk_class = risk_class;
      risk_score = risk_score;
      obligations = obligations;
      constraints = constraints;
    })
