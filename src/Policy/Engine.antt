-- ===== src/Policy/Engine.antt =====
-- govengine/policy/runtime: `PolicyEngine.evaluate` from the snapshot of the pack on.
pub mod Precedence
pub mod Decisions
pub mod Guarantees
mod Tests
use Prim.Native.String.{◌++◌ as append}
use gov_engine.Prelude.{
  String, Bool, true, false, not, ◌&&◌, ◌||◌, List, [], ◌∷◌, Option, none, some, ◌==◌,
  if◌then◌else◌,
}
use gov_engine.Python.Number.{Float, float_half, float_085, float_one}
use gov_engine.Python.Text.{in_texts}
use gov_engine.Python.Value.{Value, str, Fields, dict_of, get_or_null, or_value, Runtime, text_of}
use gov_engine.Errors.{Result, ok, ◌>>=◌}
use gov_engine.Policy.Model.{
  PolicyRequest, PolicyObligation, PolicyConstraint, PolicyVerdict, policy_verdict_schema_version,
  validate_policy_verdict,
}
use gov_engine.Policy.Rule.{PolicyCondition, PolicyRule, CompiledPolicyPack}
use gov_engine.Policy.Condition.{bool_path, condition_matches}

-- The conditions of a rule in turn, up to the first that fails.
unfoldable pub all_match : List PolicyCondition → PolicyRequest → Fields → Result Bool
all_match [] request context = ok true
all_match (c ∷ cs) request context = do
  b ← condition_matches c request context
  elim b [ true ↦ all_match cs request context | false ↦ ok false ]

-- `_matches`
abbrev pub rule_matches : PolicyRule → PolicyRequest → Fields → Result Bool
rule_matches rule = all_match rule.conditions

-- `tuple(rule for rule in policy_pack.rules if _matches(rule, ...))`
unfoldable pub matched_rules : List PolicyRule → PolicyRequest → Fields → Result (List PolicyRule)
matched_rules [] request context = ok []
matched_rules (r ∷ rs) request context = do
  b ← rule_matches r request context
  rest ← matched_rules rs request context
  ok (if b then r ∷ rest else rest)

-- `next((rule for rule in matched if rule.effect == effect), None)`
unfoldable pub first_with : String → List PolicyRule → Option PolicyRule
first_with effect [] = none
first_with effect (r ∷ rs) = if r.effect == effect then some r else first_with effect rs

-- What `_verdict` takes besides the request and the pack.
pub record Ruling : Type 0 where
  pub decision : String
  pub reason_code : String
  pub blockers : List String
  pub risk_class : String
  pub risk_score : Float
  pub obligations : List PolicyObligation
  pub constraints : List PolicyConstraint

-- `_has_approval_evidence`, which no request has.
abbrev pub has_approval_evidence : PolicyRequest → Bool
has_approval_evidence request = false

-- `_verdict_from_rule`
unfoldable pub rule_ruling : PolicyRule → List String → Ruling
rule_ruling rule blockers = record {
  decision = rule.effect;
  reason_code = rule.reason_code;
  blockers = blockers;
  risk_class = rule.risk_class;
  risk_score = rule.risk_score;
  obligations = rule.obligations;
  constraints = rule.constraints;
}

-- A ruling that the kernel makes by itself.
abbrev kernel_ruling : String → String → String → String → Float → Ruling
kernel_ruling decision reason_code blocker risk_class risk_score = record {
  decision = decision;
  reason_code = reason_code;
  blockers = blocker ∷ [];
  risk_class = risk_class;
  risk_score = risk_score;
  obligations = [];
  constraints = [];
}

-- The choice among the rules that matched: the first denial, else the first that wants approval,
-- else the first with obligations, else the first.
unfoldable pub matched_ruling : List PolicyRule → Ruling
matched_ruling [] =
    kernel_ruling "deny" "no_matching_policy_rule" "no_matching_policy_rule" "medium" float_half
matched_ruling (first ∷ others) = elim (first_with "deny" (first ∷ others)) [
  | some rule ↦ rule_ruling rule (rule.reason_code ∷ [])
  | none ↦ elim (first_with "approval_required" (first ∷ others)) [
    | some rule ↦ rule_ruling rule (rule.reason_code ∷ [])
    | none ↦ elim (first_with "allow_with_obligations" (first ∷ others)) [
      | some rule ↦ rule_ruling rule []
      | none ↦ rule_ruling first []
    ]
  ]
]

module _ (py : Runtime) where
  -- `_is_mutating`
  unfoldable pub is_mutating : Fields → Bool
  is_mutating action =
      let mode = py.lower (
        text_of py (
          or_value
            (or_value (or_value (get_or_null "mode" action) (get_or_null "type" action))
              (get_or_null "category" action))
            (str ""))) in
      in_texts mode ("write" ∷ "mutating" ∷ "mutation" ∷ "delete" ∷ "destructive" ∷ "apply" ∷ [])

  -- `_is_critical`
  unfoldable pub is_critical : Fields → Bool
  is_critical resource =
      let criticality = py.lower (
        text_of py (
          or_value
            (or_value (get_or_null "criticality" resource) (get_or_null "risk_class" resource))
            (str ""))) in
      in_texts criticality ("high" ∷ "critical" ∷ [])

  -- `_verdict`
  unfoldable pub verdict : PolicyRequest → CompiledPolicyPack → Ruling → Result PolicyVerdict
  verdict request pack ruling = validate_policy_verdict py (record {
    verdict_id = append pack.policy_id (append ":" request.request_id);
    request_id = request.request_id;
    subject_ref = request.subject_ref;
    decision = ruling.decision;
    schema_version = policy_verdict_schema_version;
    reason_code = ruling.reason_code;
    risk_class = ruling.risk_class;
    risk_score = ruling.risk_score;
    obligations = ruling.obligations;
    constraints = ruling.constraints;
    blockers = ruling.blockers;
    evidence_refs = request.evidence_refs;
    metadata =
        dict_of (("policy_pack", str pack.policy_id) ∷ ("policy_version", str pack.version) ∷ []);
  })

  -- The tests of `_evaluate_invariants`; `none` where no invariant decides.
  unfoldable pub invariant_ruling : PolicyRequest → Option Ruling
  invariant_ruling request =
      if bool_path request.action "unsafe_execution_shape"
        || bool_path request.context "execution.unsafe_execution_shape"
      then some (
          kernel_ruling "deny" "unsafe_execution_shape" "unsafe_execution_shape" "critical"
            float_one)
      else if bool_path request.action "destructive" && not (has_approval_evidence request)
      then some (
          kernel_ruling "deny" "destructive_action_without_approval_evidence"
            "destructive_action_without_approval_evidence" "critical" float_one)
      else if is_mutating request.action
          && (is_critical request.resource && not (has_approval_evidence request))
      then some (
          kernel_ruling "approval_required" "critical_mutating_action_requires_approval"
            "operator_approval_required" "high" float_085)
      else none

  -- `PolicyEngine.evaluate`, for a request that was validated and the snapshot of a pack.
  unfoldable pub evaluate_snapshot :
      PolicyRequest → CompiledPolicyPack → Fields → Result PolicyVerdict
  evaluate_snapshot request pack context = elim (invariant_ruling request) [
    | some ruling ↦ verdict request pack ruling
    | none ↦ do
      matched ← matched_rules pack.rules request context
      verdict request pack (matched_ruling matched)
  ]
