-- ===== src/Policy/Engine/Tests.antt =====
-- Runs of the engine, and its theorems at concrete requests and packs.
use gov_engine.Prelude.{◌≡◌, refl, ◌≤◌, ◌⊎◌, inl, true, [], ◌∷◌, none, In, arith}
use gov_engine.Python.Number.{float_085, float_one}
use gov_engine.Python.Text.{strip, split_dot, before_dot, after_dot}
use gov_engine.Python.Value.{str, bool, end, dict_of, lookup}
use gov_engine.Errors.{Result, ok}
use gov_engine.Policy.Forbidden.{is_forbidden, find_forbidden_key, reject_forbidden_policy_metadata}
use gov_engine.Policy.Model.{PolicyRequest, PolicyVerdict, check_verdict, validate_policy_verdict}
use gov_engine.Policy.Rule.{PolicyRule, CompiledPolicyPack}
use gov_engine.Policy.Equality.{strict_equal}
use gov_engine.Policy.Condition.{
  path_parts, bool_path, condition_root, lookup_condition, present_matches, condition_matches,
}
use gov_engine.Policy.Engine.{
  kernel_ruling, all_match, matched_rules, first_with, is_mutating, is_critical, Ruling,
  rule_ruling, matched_ruling, verdict, invariant_ruling, evaluate_snapshot,
}
use gov_engine.Policy.Engine.Decisions.{evaluate_snapshot_strictest, DeniedByDefault, DecidedBy}
use gov_engine.Policy.Engine.Precedence.{severity, Applies}
use gov_engine.Policy.Engine.Guarantees.{
  SameRules, permitted_by_rule, unsafe_denied, critical_mutation_restrained,
  decision_order_independent,
}
use gov_engine.Samples.{plain_runtime, read_request, pack_of, allow_read, deny_read}

abbrev allow_pack : CompiledPolicyPack
allow_pack = pack_of (allow_read ∷ [])

abbrev both_pack : CompiledPolicyPack
both_pack = pack_of (allow_read ∷ deny_read ∷ [])

abbrev swapped_pack : CompiledPolicyPack
swapped_pack = pack_of (deny_read ∷ allow_read ∷ [])

abbrev unsafe_request : PolicyRequest
unsafe_request = record read_request { action = dict_of (("destructive", bool true) ∷ []) }

abbrev critical_request : PolicyRequest
critical_request = record read_request {
  action = dict_of (("mode", str "write") ∷ []);
  resource = dict_of (("criticality", str "high") ∷ []);
}

-- The verdict that a ruling makes for a sample request.
abbrev verdict_for : Ruling → PolicyVerdict
verdict_for ruling = record {
  verdict_id = "policy-1:request-1";
  request_id = read_request.request_id;
  subject_ref = read_request.subject_ref;
  decision = ruling.decision;
  schema_version = "v0.1";
  reason_code = ruling.reason_code;
  risk_class = ruling.risk_class;
  risk_score = ruling.risk_score;
  obligations = ruling.obligations;
  constraints = ruling.constraints;
  blockers = ruling.blockers;
  evidence_refs = [];
  metadata = dict_of (("policy_pack", str "policy-1") ∷ ("policy_version", str "1.0.0") ∷ []);
}

-- The engine at sample data; its line opens what a run goes through.
run : PolicyRequest → CompiledPolicyPack → Result PolicyVerdict
unfolding evaluate_snapshot invariant_ruling bool_path path_parts split_dot lookup is_mutating
    is_critical matched_rules all_match condition_matches lookup_condition condition_root before_dot
    after_dot present_matches strict_equal matched_ruling first_with rule_ruling verdict
    validate_policy_verdict check_verdict reject_forbidden_policy_metadata find_forbidden_key
    is_forbidden strip
run request pack = evaluate_snapshot plain_runtime request pack end

abbrev allowed : PolicyVerdict
allowed = verdict_for (unfold rule_ruling in rule_ruling allow_read [])

read_is_allowed : evaluate_snapshot plain_runtime read_request allow_pack end ≡ ok allowed
unfolding run
read_is_allowed = refl

abbrev denied : PolicyVerdict
denied = verdict_for (unfold rule_ruling in rule_ruling deny_read ("deny_read" ∷ []))

abbrev destructive_denied : PolicyVerdict
destructive_denied = verdict_for (
    kernel_ruling "deny" "destructive_action_without_approval_evidence"
      "destructive_action_without_approval_evidence" "critical" float_one)

abbrev held : PolicyVerdict
held = verdict_for (
    kernel_ruling "approval_required" "critical_mutating_action_requires_approval"
      "operator_approval_required" "high" float_085)

evaluate_snapshot_strictest_example :
    DeniedByDefault read_request allow_pack end allowed
    ⊎ ((r : PolicyRule) × DecidedBy read_request allow_pack end allowed r)
unfolding run
evaluate_snapshot_strictest_example =
    evaluate_snapshot_strictest plain_runtime read_request allow_pack end allowed refl refl

permitted_by_rule_example :
    (invariant_ruling plain_runtime read_request ≡ none)
    × ((r : PolicyRule) × DecidedBy read_request allow_pack end allowed r)
    × ((s : PolicyRule)
        → In s allow_pack.rules
        → Applies read_request end s
        → severity s.effect ≤ 1)
unfolding run
permitted_by_rule_example =
    permitted_by_rule plain_runtime read_request allow_pack end allowed refl (inl refl)

unsafe_denied_example : destructive_denied.decision ≡ "deny"
unfolding run
unsafe_denied_example =
    unsafe_denied plain_runtime unsafe_request allow_pack end destructive_denied refl refl

critical_mutation_restrained_example :
    (held.decision ≡ "deny") ⊎ (held.decision ≡ "approval_required")
unfolding run
critical_mutation_restrained_example =
    critical_mutation_restrained plain_runtime critical_request allow_pack end held refl refl

same_two_rules : SameRules both_pack swapped_pack
same_two_rules r = grind arith

decision_order_independent_example : denied.decision ≡ denied.decision
unfolding run
decision_order_independent_example =
    decision_order_independent plain_runtime read_request both_pack swapped_pack end denied denied
      same_two_rules refl refl
