-- ===== src/Admission/Records.antt =====
-- govengine/admission.py: `GovAdmissionDecision`, `GovPolicyDecision` and `GovApprovalRequest`.
use gov_engine.Prelude.{String, Bool, not, ◌&&◌, List, [], ◌∷◌, ◌==◌, none, some}
use gov_engine.Python.Text.{in_texts, or_text}
use gov_engine.Python.Value.{
  Value, bool, str, list, dict, Fields, get, get_or_null, truthy, dict_of, text_items, Runtime,
}
use gov_engine.Python.Reading.{read_text, read_text_alias, read_text_or}
use gov_engine.Errors.{Result, ok, expect, reject_if, require_mapping, ◌>>=◌, ◌>>◌}
use gov_engine.Admission.{
  admission_outcomes, subject_kinds, policy_decisions, approval_states, reject_forbidden_metadata,
  admission_metadata, read_enum, read_sequence,
}

pub record GovAdmissionDecision : Type 0 where
  pub decision_id : String
  pub subject_ref : String
  pub subject_kind : String
  pub outcome : String
  pub allowed : Bool
  pub reason_code : String
  pub detail : String
  pub blockers : List String
  pub context : Fields
  pub signal : Fields
  pub explainability : Fields
  pub metadata : Fields

pub record GovPolicyDecision : Type 0 where
  pub policy_id : String
  pub subject_ref : String
  pub subject_kind : String
  pub decision : String
  pub reason_code : String
  pub controls : List String
  pub blockers : List String
  pub metadata : Fields

pub record GovApprovalRequest : Type 0 where
  pub request_id : String
  pub subject_ref : String
  pub subject_kind : String
  pub state : String
  pub reason_code : String
  pub requested_by : String
  pub approver_ref : String
  pub expires_at : String
  pub policy_refs : List String
  pub metadata : Fields

-- `GovAdmissionDecision.as_dict`
abbrev pub admission_decision_as_dict : GovAdmissionDecision → Fields
admission_decision_as_dict item = dict_of (
    ("decision_id", str item.decision_id)
    ∷ ("subject_ref", str item.subject_ref)
    ∷ ("subject_kind", str item.subject_kind)
    ∷ ("outcome", str item.outcome)
    ∷ ("allowed", bool item.allowed)
    ∷ ("reason_code", str item.reason_code)
    ∷ ("detail", str item.detail)
    ∷ ("blockers", list (text_items item.blockers))
    ∷ ("context", dict item.context)
    ∷ ("signal", dict item.signal)
    ∷ ("explainability", dict item.explainability)
    ∷ ("metadata", dict item.metadata)
    ∷ [])

-- `GovPolicyDecision.as_dict`
abbrev pub policy_decision_as_dict : GovPolicyDecision → Fields
policy_decision_as_dict item = dict_of (
    ("policy_id", str item.policy_id)
    ∷ ("subject_ref", str item.subject_ref)
    ∷ ("subject_kind", str item.subject_kind)
    ∷ ("decision", str item.decision)
    ∷ ("reason_code", str item.reason_code)
    ∷ ("controls", list (text_items item.controls))
    ∷ ("blockers", list (text_items item.blockers))
    ∷ ("metadata", dict item.metadata)
    ∷ [])

-- `GovApprovalRequest.as_dict`
abbrev pub approval_request_as_dict : GovApprovalRequest → Fields
approval_request_as_dict item = dict_of (
    ("request_id", str item.request_id)
    ∷ ("subject_ref", str item.subject_ref)
    ∷ ("subject_kind", str item.subject_kind)
    ∷ ("state", str item.state)
    ∷ ("reason_code", str item.reason_code)
    ∷ ("requested_by", str item.requested_by)
    ∷ ("approver_ref", str item.approver_ref)
    ∷ ("expires_at", str item.expires_at)
    ∷ ("policy_refs", list (text_items item.policy_refs))
    ∷ ("metadata", dict item.metadata)
    ∷ [])

module _ (py : Runtime) where
  -- The tests of `validate_admission_decision`.
  unfoldable pub check_admission_decision : GovAdmissionDecision → Result (Unit {0})
  check_admission_decision item = do
    expect (in_texts item.subject_kind subject_kinds) "unknown_admission_subject_kind"
        item.subject_kind
    expect (in_texts item.outcome admission_outcomes) "unknown_admission_outcome" item.outcome
    reject_if (item.allowed && in_texts item.outcome ("denied" ∷ "deferred" ∷ []))
        "admission_allowed_outcome_mismatch"
    reject_if (not item.allowed && item.outcome == "allowed") "admission_denied_outcome_mismatch"
    reject_forbidden_metadata py item.context
    reject_forbidden_metadata py item.signal
    reject_forbidden_metadata py item.explainability
    reject_forbidden_metadata py item.metadata

  -- `validate_admission_decision`, of a decision
  unfoldable pub validate_admission_decision : GovAdmissionDecision → Result GovAdmissionDecision
  validate_admission_decision item = do check_admission_decision item; ok item

  -- `GovAdmissionDecision.from_mapping`
  unfoldable pub admission_decision_from_mapping : Value → Result GovAdmissionDecision
  admission_decision_from_mapping value = do
    raw ← require_mapping value "invalid_admission_decision"
    let decision_id = read_text_alias py "decision_id" "id" raw
    reject_if (decision_id == "") "missing_admission_decision_id"
    let subject_ref = read_text py "subject_ref" raw
    reject_if (subject_ref == "") "missing_admission_subject_ref"
    outcome ←
        read_enum py (get_or_null "outcome" raw) admission_outcomes "allowed"
          "unknown_admission_outcome"
    subject_kind ←
        read_enum py (get_or_null "subject_kind" raw) subject_kinds "task"
          "unknown_admission_subject_kind"
    blockers ← read_sequence py "blockers" raw
    context ← admission_metadata py (get_or_null "context" raw)
    signal ← admission_metadata py (get_or_null "signal" raw)
    explainability ← admission_metadata py (get_or_null "explainability" raw)
    metadata ← admission_metadata py (get_or_null "metadata" raw)
    validate_admission_decision (record {
      decision_id = decision_id;
      subject_ref = subject_ref;
      subject_kind = subject_kind;
      outcome = outcome;
      allowed = elim (get "allowed" raw) [ none ↦ outcome == "allowed" | some v ↦ truthy v ];
      reason_code = or_text (read_text_or py "reason_code" outcome raw) outcome;
      detail = read_text py "detail" raw;
      blockers = blockers;
      context = context;
      signal = signal;
      explainability = explainability;
      metadata = metadata;
    })

  -- The tests of `validate_policy_decision`.
  unfoldable pub check_policy_decision : GovPolicyDecision → Result (Unit {0})
  check_policy_decision item = do
    expect (in_texts item.subject_kind subject_kinds) "unknown_policy_subject_kind"
        item.subject_kind
    expect (in_texts item.decision policy_decisions) "unknown_policy_decision" item.decision
    reject_forbidden_metadata py item.metadata

  -- `validate_policy_decision`, of a decision
  unfoldable pub validate_policy_decision : GovPolicyDecision → Result GovPolicyDecision
  validate_policy_decision item = do check_policy_decision item; ok item

  -- `GovPolicyDecision.from_mapping`
  unfoldable pub policy_decision_from_mapping : Value → Result GovPolicyDecision
  policy_decision_from_mapping value = do
    raw ← require_mapping value "invalid_policy_decision"
    let policy_id = read_text_alias py "policy_id" "id" raw
    reject_if (policy_id == "") "missing_policy_decision_id"
    let subject_ref = read_text py "subject_ref" raw
    reject_if (subject_ref == "") "missing_policy_subject_ref"
    decision ←
        read_enum py (get_or_null "decision" raw) policy_decisions "allow" "unknown_policy_decision"
    subject_kind ←
        read_enum py (get_or_null "subject_kind" raw) subject_kinds "task"
          "unknown_policy_subject_kind"
    controls ← read_sequence py "controls" raw
    blockers ← read_sequence py "blockers" raw
    metadata ← admission_metadata py (get_or_null "metadata" raw)
    validate_policy_decision (record {
      policy_id = policy_id;
      subject_ref = subject_ref;
      subject_kind = subject_kind;
      decision = decision;
      reason_code = or_text (read_text_or py "reason_code" decision raw) decision;
      controls = controls;
      blockers = blockers;
      metadata = metadata;
    })

  -- The tests of `validate_approval_request`.
  unfoldable pub check_approval_request : GovApprovalRequest → Result (Unit {0})
  check_approval_request item = do
    expect (in_texts item.subject_kind subject_kinds) "unknown_approval_subject_kind"
        item.subject_kind
    expect (in_texts item.state approval_states) "unknown_approval_state" item.state
    reject_forbidden_metadata py item.metadata

  -- `validate_approval_request`, of a request
  unfoldable pub validate_approval_request : GovApprovalRequest → Result GovApprovalRequest
  validate_approval_request item = do check_approval_request item; ok item

  -- `GovApprovalRequest.from_mapping`
  unfoldable pub approval_request_from_mapping : Value → Result GovApprovalRequest
  approval_request_from_mapping value = do
    raw ← require_mapping value "invalid_approval_request"
    let request_id = read_text_alias py "request_id" "id" raw
    reject_if (request_id == "") "missing_approval_request_id"
    let subject_ref = read_text py "subject_ref" raw
    reject_if (subject_ref == "") "missing_approval_subject_ref"
    subject_kind ←
        read_enum py (get_or_null "subject_kind" raw) subject_kinds "task"
          "unknown_approval_subject_kind"
    state ←
        read_enum py (get_or_null "state" raw) approval_states "requested" "unknown_approval_state"
    policy_refs ← read_sequence py "policy_refs" raw
    metadata ← admission_metadata py (get_or_null "metadata" raw)
    validate_approval_request (record {
      request_id = request_id;
      subject_ref = subject_ref;
      subject_kind = subject_kind;
      state = state;
      reason_code =
          or_text (read_text_or py "reason_code" "operator_approval_required" raw)
            "operator_approval_required";
      requested_by = read_text py "requested_by" raw;
      approver_ref = read_text py "approver_ref" raw;
      expires_at = read_text py "expires_at" raw;
      policy_refs = policy_refs;
      metadata = metadata;
    })
