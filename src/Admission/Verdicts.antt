-- ===== src/Admission/Verdicts.antt =====
-- govengine/admission.py: `policy_verdict_to_gov_policy_decision`, and the decisions that are made from
-- the gates of a host.
pub mod Blocking
use Prim.Native.String.{◌++◌}
use gov_engine.Prelude.{
  String, Bool, true, false, not, ◌&&◌, ◌||◌, List, [], ◌∷◌, ◌==◌, if◌then◌else◌, is_empty, Option,
  none, some,
}
use gov_engine.Python.Number.{float_zero}
use gov_engine.Python.Text.{strip, in_texts, or_text}
use gov_engine.Python.Value.{
  text, Value, bool, float, str, list, tuple, dict, Items, nil, cons, Fields, end, field, get,
  get_or_null, or_value, key_eq, dict_of, Runtime, text_of,
}
use gov_engine.Python.Reading.{read_text, read_text_or}
use gov_engine.Errors.{Result, ok, fail_with, reject_if, ◌>>=◌, ◌>>◌}
use gov_engine.Core.{plain_text}
use gov_engine.Admission.{
  admission_outcomes, subject_kinds, admission_metadata, read_enum, read_strict_enum, read_sequence,
  text_sequence,
}
use gov_engine.Admission.References.{runtime_signal}
use gov_engine.Admission.Records.{
  GovAdmissionDecision, GovPolicyDecision, validate_admission_decision, validate_policy_decision,
}

-- `_policy_verdict_admission_decision`
unfoldable pub verdict_decision : String → Result String
verdict_decision decision =
    if decision == "allow_with_obligations"
    then ok "allow"
    else (if decision == "approval_required"
        then ok "require_approval"
        else (if in_texts decision ("allow" ∷ "deny" ∷ [])
            then ok decision
            else fail_with "unknown_policy_verdict_decision" (or_text decision "missing")))

-- The entries of a list, each behind a word: `f'{word}:{entry}'`.
abbrev labelled : String → List String → List String → List String
labelled word [] rest = rest
labelled word (entry ∷ entries) rest = (word ++ entry) ∷ labelled word entries rest

-- The blockers of a decision that stops, where the verdict has none.
unfoldable pub verdict_blockers : String → String → List String → List String
verdict_blockers decision reason_code blockers =
    if decision == "require_approval" && is_empty blockers
    then "operator_approval_required" ∷ []
    else (if decision == "deny" && is_empty blockers then reason_code ∷ [] else blockers)

-- `mapping[key] = value`
abbrev set_field : String → Value → Fields → Fields
set_field key value end = field (text key) value end
set_field key value (field k v m) =
    let rest = set_field key value m in
    if key_eq k (text key) then field k value m else field k v rest

module _ (py : Runtime) where
  abbrev item_id : Fields → String
  item_id m = strip (
      text_of py (
        or_value
          (or_value
            (or_value
              (or_value (or_value (get_or_null "obligation_id" m) (get_or_null "constraint_id" m))
                (get_or_null "id" m))
              (get_or_null "kind" m))
            (get_or_null "type" m))
          (str "")))

  abbrev one_item : Value → String
  one_item (dict m) = item_id m
  one_item v = strip (text_of py v)

  abbrev item_texts : Items → List String
  item_texts nil = []
  item_texts (cons v vs) =
      let rest = item_texts vs in if one_item v == "" then rest else one_item v ∷ rest

  -- `_policy_verdict_items`
  unfoldable pub verdict_items : Value → List String
  verdict_items (list vs) = item_texts vs
  verdict_items (tuple vs) = item_texts vs
  verdict_items _ = []

  module _ (as_dict : Value → Option Value) where
    -- `policy_verdict_to_gov_policy_decision`
    unfoldable pub policy_verdict_to_decision : Value → String → String → Result GovPolicyDecision
    policy_verdict_to_decision value policy_id subject_kind = do
      raw ← runtime_signal py as_dict value
      let verdict_id = strip (
          text_of py (
            or_value
              (or_value
                (or_value (or_value (str policy_id) (get_or_null "verdict_id" raw))
                  (get_or_null "policy_id" raw))
                (get_or_null "id" raw))
              (str "")))
      reject_if (verdict_id == "") "missing_policy_verdict_id"
      let subject_ref = read_text py "subject_ref" raw
      reject_if (subject_ref == "") "missing_policy_verdict_subject_ref"
      decision ← verdict_decision (read_text py "decision" raw)
      let reason_code = or_text (read_text_or py "reason_code" decision raw) decision
      blockers ← read_sequence py "blockers" raw
      kind ← read_enum py (str subject_kind) subject_kinds "task" "unknown_policy_subject_kind"
      validate_policy_decision py (record {
        policy_id = verdict_id;
        subject_ref = subject_ref;
        subject_kind = kind;
        decision = decision;
        reason_code = reason_code;
        controls =
            labelled "obligation:"
              (verdict_items (or_value (get_or_null "obligations" raw) (tuple nil)))
              (labelled "constraint:"
                (verdict_items (or_value (get_or_null "constraints" raw) (tuple nil))) []);
        blockers = verdict_blockers decision reason_code blockers;
        metadata = dict_of (
            ("policy_verdict_schema_version", str (plain_text py "schema_version" raw))
            ∷ ("policy_request_id", str (plain_text py "request_id" raw))
            ∷ ("risk_class", str (plain_text py "risk_class" raw))
            ∷ ("risk_score", elim (get "risk_score" raw) [ none ↦ float float_zero | some v ↦ v ])
            ∷ []);
      })

  -- `admission_decision_from_host_gate`, of the optional arguments as they are given
  unfoldable pub decision_from_host_gate :
      String
      → String
      → String
      → Bool
      → String
      → String
      → Value
      → Value
      → Value
      → Value
      → Value
      → Result GovAdmissionDecision
  decision_from_host_gate decision_id subject_ref subject_kind allowed reason_code detail
        blocker_values context_value signal_value explainability_value metadata_value =
      do
        let outcome = if allowed then "allowed" else "denied"
        blockers ← text_sequence py blocker_values
        context ← admission_metadata py context_value
        signal ← admission_metadata py signal_value
        explainability ← admission_metadata py explainability_value
        metadata ← admission_metadata py metadata_value
        validate_admission_decision py (record {
          decision_id = decision_id;
          subject_ref = subject_ref;
          subject_kind = subject_kind;
          outcome = outcome;
          allowed = allowed;
          reason_code = or_text reason_code outcome;
          detail = detail;
          blockers = blockers;
          context = context;
          signal = signal;
          explainability = explainability;
          metadata = metadata;
        })

  -- `_admission_decision_from_planning_adapter`
  unfoldable pub decision_from_planning_adapter :
      String
      → String
      → String
      → String
      → String
      → Value
      → Value
      → Value
      → Result GovAdmissionDecision
  decision_from_planning_adapter decision_id subject_ref subject_kind outcome reason_code
        blocker_values signal_value metadata_value =
      do
        checked_outcome ←
            read_strict_enum py (str outcome) admission_outcomes "unknown_admission_outcome"
        adapter_metadata ← admission_metadata py metadata_value
        blockers ← text_sequence py blocker_values
        signal ← admission_metadata py signal_value
        validate_admission_decision py (record {
          decision_id = decision_id;
          subject_ref = subject_ref;
          subject_kind = subject_kind;
          outcome = checked_outcome;
          allowed = not (in_texts checked_outcome ("denied" ∷ "deferred" ∷ []));
          reason_code = reason_code;
          detail = "";
          blockers = blockers;
          context = end;
          signal = signal;
          explainability = end;
          metadata =
              set_field "execution_authority" (bool false) (
                set_field "governance_flow" (str "planning_admission_adapter.v1") adapter_metadata);
        })
