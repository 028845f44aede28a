-- ===== src/Policy/Compiler/Pack.antt =====
-- govengine/policy/compiler: `PolicyCompiler.compile`.
use Prim.Native.String.{◌++◌}
use gov_engine.Prelude.{
  ℕ, ◌+◌, String, Bool, true, false, not, ◌&&◌, ◌||◌, List, [], ◌∷◌, none, some, Option, ◌==◌, eqb,
  ltb, if◌then◌else◌, length,
}
use gov_engine.Python.Number.{pos, leb_ℤ}
use gov_engine.Python.Text.{in_texts, or_text}
use gov_engine.Python.Sorting.{text_lt}
use gov_engine.Python.Value.{
  text, Value, int, str, list, tuple, dict, Items, nil, cons, Fields, get_or_null, has_key,
  or_value, items_of, item_count, Runtime,
}
use gov_engine.Python.Reading.{read_text, read_text_alias, read_text_or}
use gov_engine.Errors.{
  gov_api, raised, Result, ok, err, fail, expect, reject_if, require_mapping, ◌>>=◌, ◌>>◌,
}
use gov_engine.Governance.Scope.{RecordDigest}
use gov_engine.Governance.Timestamps.{Timestamps, parse_aware_timestamp}
use gov_engine.Governance.Validation.{text_tuple}
use gov_engine.Policy.Forbidden.{reject_forbidden_policy_metadata}
use gov_engine.Policy.Model.{
  PolicyObligation, PolicyConstraint, obligation_as_dict, constraint_as_dict,
}
use gov_engine.Policy.Model.Parse.{safe_mapping, json_safe}
use gov_engine.Policy.Rule.{PolicyCondition, PolicyRule, CompiledPolicyPack}
use gov_engine.Policy.Compiler.Grammar.{reject_unknown_policy_fields}
use gov_engine.Policy.Compiler.Sorting.{sort_by}
use gov_engine.Policy.Compiler.Conditions.{condition_as_dict}
use gov_engine.Policy.Compiler.Rules.{rule_from_mapping}

pub record CompileResult : Type 0 where
  pub status : String
  pub policy_pack : Option CompiledPolicyPack
  pub reason_code : String
  pub diagnostics : List String

-- `CompileResult.ok`
abbrev pub is_compiled : CompileResult → Bool
is_compiled r = r.status == "compiled" && elim r.policy_pack [ none ↦ false | some pack ↦ true ]

abbrev pub max_policy_rules : ℕ
max_policy_rules = 256

abbrev pub max_total_conditions : ℕ
max_total_conditions = 4096

-- `_POLICY_PACK_V1_FIELDS` and `_POLICY_PACK_V0_1_FIELDS`
abbrev pub policy_pack_fields : Bool → List String
policy_pack_fields true =
    "policy_id" ∷ "version" ∷ "schema_version" ∷ "issuer_ref" ∷ "policy_epoch" ∷ "validity"
    ∷ "supersedes" ∷ "rules" ∷ "metadata" ∷ []
policy_pack_fields false =
    "policy_id" ∷ "id" ∷ "version" ∷ "schema_version" ∷ "rules" ∷ "metadata" ∷ []

-- What a v1 pack has beyond a v0.1 pack.
pub record Issue : Type 0 where
  pub issuer_ref : String
  pub policy_epoch : ℕ
  pub not_before : String
  pub expires_at : String
  pub supersedes : List String

-- `(a.priority, a.rule_id) < (b.priority, b.rule_id)`
abbrev pub rule_lt : PolicyRule → PolicyRule → Bool
rule_lt a b =
    ltb a.priority b.priority || (eqb a.priority b.priority && text_lt a.rule_id b.rule_id)

abbrev pub total_conditions : List PolicyRule → ℕ
total_conditions [] = 0
total_conditions (r ∷ rs) = length r.conditions + total_conditions rs

-- `seen.get(key)`, with "" where the key is missing; a later entry stands before an earlier one.
abbrev pub seen_get : List (String × String) → String → String
seen_get [] key = ""
seen_get ((k, v) ∷ seen) key = if k == key then v else seen_get seen key

abbrev condition_values : List PolicyCondition → List Value
condition_values [] = []
condition_values (c ∷ cs) = dict (condition_as_dict c) ∷ condition_values cs

-- `str(exc)`
abbrev error_text : String → List (String × String) → String
error_text reason [] = reason
error_text reason ((k, v) ∷ rest) =
    let later = error_text reason rest in
    if k == "detail" && not (v == "") then (reason ++ ":") ++ v else later

-- The controls of the rules, with their types and identifiers.
abbrev obligation_controls :
    List PolicyObligation → List ((String × String) × Fields) → List ((String × String) × Fields)
obligation_controls [] rest = rest
obligation_controls (o ∷ os) rest =
    (("obligation", o.obligation_id), obligation_as_dict o) ∷ obligation_controls os rest

abbrev constraint_controls :
    List PolicyConstraint → List ((String × String) × Fields) → List ((String × String) × Fields)
constraint_controls [] rest = rest
constraint_controls (c ∷ cs) rest =
    (("constraint", c.constraint_id), constraint_as_dict c) ∷ constraint_controls cs rest

abbrev pub all_controls : List PolicyRule → List ((String × String) × Fields)
all_controls [] = []
all_controls (r ∷ rs) =
    obligation_controls r.obligations (constraint_controls r.constraints (all_controls rs))

-- A control was seen, last with another fingerprint.
abbrev differs : List ((String × String) × String) → String → String → String → Bool
differs [] control_type control_id fingerprint = false
differs (((t, i), f) ∷ seen) control_type control_id fingerprint =
    if t == control_type && i == control_id
    then not (f == fingerprint)
    else differs seen control_type control_id fingerprint

module _ (digests : RecordDigest) where
  -- The loop of `_reject_conflicts`.
  unfoldable pub reject_rule_conflicts :
      List PolicyRule → List String → List (String × String) → Result (Unit {0})
  reject_rule_conflicts [] rule_ids seen = ok tt
  reject_rule_conflicts (rule ∷ rules) rule_ids seen = do
    reject_if (in_texts rule.rule_id rule_ids) "duplicate_policy_rule_id"
    fingerprint ←
        digests.record_digest (list (items_of (condition_values rule.conditions)))
          "govengine.policy.PolicyConditionSet"
    reject_if
        (not (seen_get seen fingerprint == "") && not (seen_get seen fingerprint == rule.effect))
        "conflicting_policy_rules"
    reject_if (seen_get seen fingerprint == rule.effect) "redundant_policy_rules"
    reject_rule_conflicts rules (rule.rule_id ∷ rule_ids) ((fingerprint, rule.effect) ∷ seen)

  -- The loop of `_reject_control_conflicts` over the controls of all rules.
  unfoldable pub reject_control_conflicts :
      List ((String × String) × Fields) → List ((String × String) × String) → Result (Unit {0})
  reject_control_conflicts [] seen = ok tt
  reject_control_conflicts (((control_type, control_id), payload) ∷ controls) seen = do
    fingerprint ← digests.record_digest (dict payload) ("govengine.policy." ++ control_type)
    reject_if (differs seen control_type control_id fingerprint) "conflicting_policy_controls"
    reject_control_conflicts controls (((control_type, control_id), fingerprint) ∷ seen)

module _ (py : Runtime) (digests : RecordDigest) (clock : Timestamps) where
  unfoldable pub rule_items : Items → Bool → Result (List PolicyRule)
  rule_items nil is_v1 = ok []
  rule_items (cons v vs) is_v1 = do
    first ← rule_from_mapping py digests v is_v1
    rest ← rule_items vs is_v1
    ok (first ∷ rest)

  -- `_policy_timestamp`
  abbrev policy_timestamp : Value → String → Result String
  policy_timestamp value reason =
      parse_aware_timestamp clock value reason >>= λ instant. ok (clock.utc_text instant)

  abbrev read_epoch : Value → Result ℕ
  read_epoch (int (pos n)) = ok n
  read_epoch _ = fail "invalid_policy_epoch"

  -- The part of `_compile_or_raise` on a v1 pack.
  unfoldable pub read_issue : Fields → Result Issue
  read_issue raw = do
    let issuer_ref = read_text py "issuer_ref" raw
    reject_if (issuer_ref == "") "missing_policy_issuer_ref"
    policy_epoch ← read_epoch (get_or_null "policy_epoch" raw)
    validity ← require_mapping (get_or_null "validity" raw) "invalid_policy_validity"
    reject_unknown_policy_fields validity ("not_before" ∷ "expires_at" ∷ [])
        "invalid_policy_validity"
    not_before ← policy_timestamp (get_or_null "not_before" validity) "invalid_policy_not_before"
    expires_at ← policy_timestamp (get_or_null "expires_at" validity) "invalid_policy_expires_at"
    end_at ← parse_aware_timestamp clock (str expires_at) "invalid_policy_expires_at"
    start ← parse_aware_timestamp clock (str not_before) "invalid_policy_not_before"
    reject_if (leb_ℤ end_at start) "invalid_policy_validity_window"
    supersedes ←
        text_tuple (or_value (get_or_null "supersedes" raw) (tuple nil)) "invalid_policy_supersedes"
    ok (record {
      issuer_ref = issuer_ref;
      policy_epoch = policy_epoch;
      not_before = not_before;
      expires_at = expires_at;
      supersedes = supersedes;
    })

  abbrev pub no_issue : Issue
  no_issue = record {
    issuer_ref = "";
    policy_epoch = 0;
    not_before = "";
    expires_at = "";
    supersedes = [];
  }

  -- `raw_rules`, a list or tuple that is not empty
  abbrev pub listed_rules : Value → Result Items
  listed_rules (list (cons v vs)) = ok (cons v vs)
  listed_rules (tuple (cons v vs)) = ok (cons v vs)
  listed_rules _ = fail "policy_pack_without_rules"

  -- The rules of a pack in their order, with the limits and the tests for conflicts.
  unfoldable pub compile_rules : Value → Bool → Result (List PolicyRule)
  compile_rules value is_v1 = do
    raw_rules ← listed_rules value
    reject_if (ltb max_policy_rules (item_count raw_rules)) "policy_rule_limit_exceeded"
    parsed ← rule_items raw_rules is_v1
    let rules = sort_by rule_lt parsed
    reject_if (ltb max_total_conditions (total_conditions rules)) "policy_condition_limit_exceeded"
    reject_rule_conflicts digests rules [] []
    reject_control_conflicts digests (all_controls rules) []
    ok rules

  -- The tests of a pack's fields.
  unfoldable pub check_pack_fields : Fields → Bool → Result (Unit {0})
  check_pack_fields raw is_v1 = do
    reject_unknown_policy_fields raw (policy_pack_fields is_v1) "invalid_policy_pack"
    reject_if (not is_v1 && has_key (text "policy_id") raw && has_key (text "id") raw)
        "invalid_policy_pack"

  -- `PolicyCompiler._compile_or_raise`, before the seal of the pack
  unfoldable pub compile_or_raise : Value → Result CompiledPolicyPack
  compile_or_raise policy_pack = do
    copy ← json_safe policy_pack
    raw ← require_mapping copy "invalid_policy_pack"
    let policy_id = read_text_alias py "policy_id" "id" raw
    let version = read_text py "version" raw
    reject_if (policy_id == "") "missing_policy_pack_id"
    reject_if (version == "") "missing_policy_pack_version"
    let schema_version = read_text_or py "schema_version" "v0.1" raw
    expect (in_texts schema_version ("v0.1" ∷ "v1" ∷ [])) "unknown_policy_pack_schema_version"
        (or_text schema_version "missing")
    check_pack_fields raw (schema_version == "v1")
    issue ← if schema_version == "v1" then read_issue raw else ok no_issue
    rules ← compile_rules (get_or_null "rules" raw) (schema_version == "v1")
    metadata ← safe_mapping (get_or_null "metadata" raw) "invalid_policy_pack_metadata"
    reject_forbidden_policy_metadata py metadata
    ok (record {
      policy_id = policy_id;
      version = version;
      schema_version = schema_version;
      rules = rules;
      metadata = metadata;
      issuer_ref = issue.issuer_ref;
      policy_epoch = issue.policy_epoch;
      not_before = issue.not_before;
      expires_at = issue.expires_at;
      supersedes = issue.supersedes;
    })

  -- The result for what `_compile_or_raise` returned or raised.
  abbrev pub compile_result : Result CompiledPolicyPack → Result CompileResult
  compile_result (ok pack) = ok (record {
    status = "compiled";
    policy_pack = some pack;
    reason_code = "compiled";
    diagnostics = [];
  })
  compile_result (err (gov_api reason context)) = ok (record {
    status = "rejected";
    policy_pack = none;
    reason_code = reason;
    diagnostics = error_text reason context ∷ [];
  })
  compile_result (err (raised name)) = err (raised name)

  -- `PolicyCompiler.compile`, before the seal of the pack
  unfoldable pub compile : Value → Result CompileResult
  compile policy_pack = compile_result (compile_or_raise policy_pack)
