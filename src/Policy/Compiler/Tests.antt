-- ===== src/Policy/Compiler/Tests.antt =====
-- The compilation of a concrete pack.
use gov_engine.Prelude.{String, List, [], ◌∷◌, ◌≡◌, refl, none, some}
use gov_engine.Python.Number.{float_zero}
use gov_engine.Python.Text.{strip, split_dot}
use gov_engine.Python.Sorting.{all_distinct, sorted_set, insert_text, text_lt}
use gov_engine.Python.Value.{
  text, Value, str, list, dict, cons, end, dict_of, items_of, lookup, item_count, field_count,
}
use gov_engine.Python.Reading.{read_text, read_text_alias, read_text_or}
use gov_engine.Errors.{Result, ok, require_mapping, ◌>>=◌}
use gov_engine.JsonBoundary.{bounded_json_copy, walk, visit}
use gov_engine.Samples.{plain_runtime}
use gov_engine.Governance.Scope.{RecordDigest}
use gov_engine.Governance.Timestamps.{Timestamps}
use gov_engine.Policy.Forbidden.{is_forbidden, find_forbidden_key, reject_forbidden_policy_metadata}
use gov_engine.Policy.Model.Parse.{
  safe_mapping, parse_obligations, parse_constraints, obligation_items, constraint_items,
}
use gov_engine.Policy.Rule.{PolicyRule, CompiledPolicyPack}
use gov_engine.Policy.Compiler.Grammar.{
  segment_rest, is_path_segment, reason_rest, is_reason_code, validate_policy_reason_code,
  unknown_keys, reject_unknown_policy_fields,
}
use gov_engine.Policy.Compiler.Sorting.{insert_by, sort_by}
use gov_engine.Policy.Compiler.Conditions.{
  operand_fits, validate_condition, path_conditions, condition_from_mapping, condition_items,
  keyed_conditions, condition_fingerprints, canonical_conditions, read_conditions,
}
use gov_engine.Policy.Compiler.Rules.{
  read_priority, read_reason_code, read_risk_class, read_rule_score, check_rule_fields,
  rule_from_mapping,
}
use gov_engine.Policy.Compiler.Pack.{
  CompileResult, reject_rule_conflicts, reject_control_conflicts, rule_items, read_issue,
  compile_rules, check_pack_fields, compile_or_raise, compile,
}
use gov_engine.Policy.Compiler.Laws.{Compiled, compile-Compiled}

-- The path that a condition or the first of a list names.
abbrev named_path : Value → String
named_path (str s) = s
named_path (dict m) = elim (lookup (text "path") m) [ some (str s) ↦ s | _ ↦ "" ]
named_path _ = ""

abbrev digest_of : Value → String
digest_of (list (cons v vs)) = named_path v
digest_of v = named_path v

abbrev by_path : RecordDigest
by_path = record { record_digest = λ v t. ok (digest_of v) }

abbrev no_clock : Timestamps
no_clock = record { from_iso = λ s. none; utc_text = λ z. "" }

abbrev raw_rule : String → String → String → Value
raw_rule rule_id effect path = dict (
    dict_of (
      ("rule_id", str rule_id)
      ∷ ("effect", str effect)
      ∷ ("conditions", dict (dict_of ((path, str "read") ∷ [])))
      ∷ []))

abbrev raw_pack : List Value → Value
raw_pack rules = dict (
    dict_of (
      ("policy_id", str "policy-1")
      ∷ ("version", str "1.0.0")
      ∷ ("rules", list (items_of rules))
      ∷ []))

abbrev compiled_rule : String → String → String → PolicyRule
compiled_rule rule_id effect path = record {
  rule_id = rule_id;
  effect = effect;
  conditions = record { path = path; operator = "eq"; value = str "read" } ∷ [];
  priority = 100;
  reason_code = effect;
  risk_class = "low";
  risk_score = float_zero;
  obligations = [];
  constraints = [];
}

abbrev pack : CompiledPolicyPack
pack = record {
  policy_id = "policy-1";
  version = "1.0.0";
  schema_version = "v0.1";
  rules =
      compiled_rule "first" "deny" "action.kind"
      ∷ compiled_rule "second" "allow" "action.mode"
      ∷ [];
  metadata = end;
  issuer_ref = "";
  policy_epoch = 0;
  not_before = "";
  expires_at = "";
  supersedes = [];
}

abbrev compiled : CompileResult
compiled = record {
  status = "compiled";
  policy_pack = some pack;
  reason_code = "compiled";
  diagnostics = [];
}

abbrev two_rules : Value
two_rules =
    raw_pack (raw_rule "second" "allow" "action.mode" ∷ raw_rule "first" "deny" "action.kind" ∷ [])

run : Value → Result CompileResult
unfolding compile compile_or_raise check_pack_fields compile_rules read_issue rule_items
    reject_control_conflicts reject_rule_conflicts rule_from_mapping check_rule_fields
    read_rule_score read_risk_class read_reason_code read_priority read_conditions
    canonical_conditions condition_fingerprints keyed_conditions condition_items
    condition_from_mapping path_conditions validate_condition operand_fits sort_by insert_by
    reject_unknown_policy_fields unknown_keys validate_policy_reason_code is_reason_code reason_rest
    is_path_segment segment_rest safe_mapping parse_obligations parse_constraints obligation_items
    constraint_items is_forbidden find_forbidden_key reject_forbidden_policy_metadata
    bounded_json_copy walk visit field_count item_count require_mapping read_text read_text_alias
    read_text_or lookup all_distinct sorted_set insert_text text_lt strip split_dot
run value = compile plain_runtime by_path no_clock value

two_are_compiled : compile plain_runtime by_path no_clock two_rules ≡ ok compiled
unfolding run
two_are_compiled = refl

conflict_is_rejected :
    (compile plain_runtime by_path no_clock (
        raw_pack
          (raw_rule "second" "allow" "action.mode" ∷ raw_rule "first" "deny" "action.mode" ∷ []))
      >>= λ r. ok r.reason_code)
    ≡ ok "conflicting_policy_rules"
unfolding run
conflict_is_rejected = refl

compile-Compiled_example : Compiled pack.rules
compile-Compiled_example =
    compile-Compiled plain_runtime by_path no_clock two_rules compiled pack two_are_compiled refl
