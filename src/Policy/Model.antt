-- ===== src/Policy/Model.antt =====
-- govengine/policy/model: requests, obligations, constraints and verdicts, and their validation.
-- A record holds values of the types that the dataclass declares.
pub mod Parse
pub mod Laws
use gov_engine.Prelude.{
  String, Bool, not, ◌&&◌, ◌||◌, List, [], ◌∷◌, map, ◌==◌, if◌then◌else◌, is_empty,
}
use gov_engine.Python.Number.{Float, float_zero, float_one, is_finite, float_lt}
use gov_engine.Python.Text.{in_texts, or_text}
use gov_engine.Python.Value.{
  Value, str, float, list, dict, Fields, Runtime, dict_of, items_of, text_items,
}
use gov_engine.Errors.{Result, ok, err, fail, fail_with, reject_if, ◌>>=◌, ◌>>◌}
use gov_engine.Policy.Forbidden.{reject_forbidden_policy_metadata}

abbrev pub policy_request_schema_version : String
policy_request_schema_version = "v0.1"

abbrev pub policy_verdict_schema_version : String
policy_verdict_schema_version = "v0.1"

-- `POLICY_VERDICT_DECISIONS`, which are the `POLICY_RULE_EFFECTS` too.
abbrev pub policy_verdict_decisions : List String
policy_verdict_decisions = "allow" ∷ "allow_with_obligations" ∷ "approval_required" ∷ "deny" ∷ []

abbrev pub policy_risk_classes : List String
policy_risk_classes = "low" ∷ "medium" ∷ "high" ∷ "critical" ∷ []

pub record PolicyRequest : Type 0 where
  pub request_id : String
  pub subject_ref : String
  pub schema_version : String
  pub principal : Fields
  pub action : Fields
  pub resource : Fields
  pub context : Fields
  pub evidence_refs : List String
  pub metadata : Fields

pub record PolicyObligation : Type 0 where
  pub obligation_id : String
  pub kind : String
  pub description : String
  pub metadata : Fields

pub record PolicyConstraint : Type 0 where
  pub constraint_id : String
  pub kind : String
  pub value : Value
  pub metadata : Fields

pub record PolicyVerdict : Type 0 where
  pub verdict_id : String
  pub request_id : String
  pub subject_ref : String
  pub decision : String
  pub schema_version : String
  pub reason_code : String
  pub risk_class : String
  pub risk_score : Float
  pub obligations : List PolicyObligation
  pub constraints : List PolicyConstraint
  pub blockers : List String
  pub evidence_refs : List String
  pub metadata : Fields

-- `PolicyRequest.as_dict`
unfoldable pub request_as_dict : PolicyRequest → Fields
request_as_dict r = dict_of (
    ("request_id", str r.request_id)
    ∷ ("subject_ref", str r.subject_ref)
    ∷ ("schema_version", str r.schema_version)
    ∷ ("principal", dict r.principal)
    ∷ ("action", dict r.action)
    ∷ ("resource", dict r.resource)
    ∷ ("context", dict r.context)
    ∷ ("evidence_refs", list (text_items r.evidence_refs))
    ∷ ("metadata", dict r.metadata)
    ∷ [])

-- `PolicyObligation.as_dict`
unfoldable pub obligation_as_dict : PolicyObligation → Fields
obligation_as_dict o = dict_of (
    ("obligation_id", str o.obligation_id)
    ∷ ("kind", str o.kind)
    ∷ ("description", str o.description)
    ∷ ("metadata", dict o.metadata)
    ∷ [])

-- `PolicyConstraint.as_dict`
unfoldable pub constraint_as_dict : PolicyConstraint → Fields
constraint_as_dict c = dict_of (
    ("constraint_id", str c.constraint_id)
    ∷ ("kind", str c.kind)
    ∷ ("value", c.value)
    ∷ ("metadata", dict c.metadata)
    ∷ [])

-- `PolicyVerdict.as_dict`
unfoldable pub verdict_as_dict : PolicyVerdict → Fields
verdict_as_dict v = dict_of (
    ("verdict_id", str v.verdict_id)
    ∷ ("request_id", str v.request_id)
    ∷ ("subject_ref", str v.subject_ref)
    ∷ ("schema_version", str v.schema_version)
    ∷ ("decision", str v.decision)
    ∷ ("reason_code", str v.reason_code)
    ∷ ("risk_class", str v.risk_class)
    ∷ ("risk_score", float v.risk_score)
    ∷ ("obligations", list (items_of (map (λ o. dict (obligation_as_dict o)) v.obligations)))
    ∷ ("constraints", list (items_of (map (λ c. dict (constraint_as_dict c)) v.constraints)))
    ∷ ("blockers", list (text_items v.blockers))
    ∷ ("evidence_refs", list (text_items v.evidence_refs))
    ∷ ("metadata", dict v.metadata)
    ∷ [])

-- `not math.isfinite(score) or score < 0.0 or score > 1.0`
abbrev pub is_bad_score : Float → Bool
is_bad_score x = not (is_finite x) || float_lt x float_zero || float_lt float_one x

-- The tests of `validate_policy_verdict` before the last.
unfoldable pub check_verdict : PolicyVerdict → Result (Unit {0})
check_verdict item =
    if not (item.schema_version == policy_verdict_schema_version)
    then fail_with "unknown_policy_verdict_schema_version" (or_text item.schema_version "missing")
    else if not (in_texts item.decision policy_verdict_decisions)
    then fail_with "unknown_policy_verdict_decision" (or_text item.decision "missing")
    else if not (in_texts item.risk_class policy_risk_classes)
    then fail_with "unknown_policy_risk_class" item.risk_class
    else if is_bad_score item.risk_score
    then fail "invalid_policy_risk_score"
    else if item.decision == "deny" && is_empty item.blockers
    then fail "policy_deny_without_blocker"
    else if item.decision == "approval_required" && is_empty item.blockers
    then fail "policy_approval_without_blocker"
    else ok tt

module _ (py : Runtime) where
  -- `validate_policy_request`, of a `PolicyRequest`
  unfoldable pub validate_policy_request : PolicyRequest → Result PolicyRequest
  validate_policy_request item =
      if item.schema_version == policy_request_schema_version
      then (do
        reject_forbidden_policy_metadata py item.principal
        reject_forbidden_policy_metadata py item.action
        reject_forbidden_policy_metadata py item.resource
        reject_forbidden_policy_metadata py item.context
        reject_forbidden_policy_metadata py item.metadata
        ok item)
      else fail_with "unknown_policy_request_schema_version" (or_text item.schema_version "missing")

  -- `validate_policy_verdict`, of a `PolicyVerdict`
  unfoldable pub validate_policy_verdict : PolicyVerdict → Result PolicyVerdict
  validate_policy_verdict item = do
    check_verdict item
    reject_forbidden_policy_metadata py item.metadata
    ok item
