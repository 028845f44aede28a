-- ===== src/Admission/Composition/Tests.antt =====
-- Compositions of concrete summaries.
use gov_engine.Prelude.{String, true, false, [], ◌∷◌, ◌≡◌, refl, Option, none}
use gov_engine.Python.Text.{strip}
use gov_engine.Python.Sorting.{sorted_set, insert_text, text_lt, from_keys, non_empty, without}
use gov_engine.Python.Value.{
  Value, null, bool, float, str, dict, Fields, end, dict_of, lookup, item_count, field_count,
}
use gov_engine.Errors.{Result, ok, require_mapping, ◌>>=◌}
use gov_engine.JsonBoundary.{bounded_json_copy, walk, visit}
use gov_engine.Samples.{plain_runtime}
use gov_engine.Core.{is_allowed, missing_reasons, transition_decision}
use gov_engine.Core.Gate.{runner_as_dict, guarded_blockers, evaluate_gate}
use gov_engine.Core.Gate.Laws.{evaluate_gate_iff}
use gov_engine.Admission.{
  find_forbidden_key, reject_forbidden_metadata, admission_metadata, read_enum, text_sequence,
  bool_value,
}
use gov_engine.Admission.Signals.{
  signal_status, explicit_false, policy_signal_status, ticket_signal_status, trust_signal_status,
  guarded_bundle_decision_failed, guarded_runtime_status, replay_runtime_status,
  receipt_obligation_required,
}
use gov_engine.Admission.References.{
  bounded_entry, bounded_entries, bounded_artifact_reference, role_references,
  references_from_summaries, runtime_signal, artifact_reference_signal,
}
use gov_engine.Python.Number.{float_zero}
use gov_engine.Python.Reading.{read_text, read_text_or}
use gov_engine.Admission.Records.{
  GovPolicyDecision, check_policy_decision, validate_policy_decision,
}
use gov_engine.Admission.Verdicts.{
  verdict_decision, verdict_blockers, verdict_items, policy_verdict_to_decision,
}
use gov_engine.Admission.Verdicts.Blocking.{Projected, policy_verdict_to_decision-Projected}
use gov_engine.Admission.RuntimeResult.{
  RuntimeAdmissionResult, check_runtime_admission, validate_runtime_admission,
}
use gov_engine.Admission.Composition.{
  AdmissionInput, Summaries, Statuses, replace_or_append, dedupe, gate_input_of, gate_blockers,
  admission_blockers, admission_actions, blocked_reason, composed_admission, read_runner,
  read_statuses, read_summaries, read_references, compose_runtime_admission,
}
use gov_engine.Admission.Composition.Laws.{Admitted, compose_runtime_admission-Admitted}
use gov_engine.Admission.Composition.Completeness.{compose_runtime_admission_complete}

abbrev no_objects : Value → Option Value
no_objects v = none

abbrev input_of : String → AdmissionInput
input_of policy = record {
  admission_id = "admission-1";
  subject_ref = "task-1";
  prepared_execution_contract = dict (dict_of (("status", str "prepared") ∷ []));
  policy_decision = dict (dict_of (("decision", str policy) ∷ []));
  execution_ticket =
      dict (dict_of (("status", str "approved") ∷ ("ticket_id", str "ticket-1") ∷ []));
  trust_decision = dict (dict_of (("trusted", bool true) ∷ []));
  runner_profile = dict (dict_of (("name", str "dry-run") ∷ ("allowed", bool true) ∷ []));
  receipt_obligation = dict (dict_of (("required", bool true) ∷ []));
  sclite_guarded_strict =
      dict (dict_of (("verification_status", str "passed") ∷ ("replay_status", str "fresh") ∷ []));
  replay_freshness = dict (dict_of (("replay_status", str "fresh") ∷ []));
  runtime_consumable = true;
  live = false;
  artifact_refs = null;
  metadata = null;
}

compose : AdmissionInput → Result RuntimeAdmissionResult
unfolding compose_runtime_admission read_summaries read_references read_statuses read_runner
    composed_admission blocked_reason admission_actions admission_blockers gate_blockers dedupe
    replace_or_append validate_runtime_admission check_runtime_admission runtime_signal
    artifact_reference_signal references_from_summaries role_references bounded_artifact_reference
    bounded_entries bounded_entry signal_status explicit_false policy_signal_status
    ticket_signal_status trust_signal_status guarded_bundle_decision_failed guarded_runtime_status
    replay_runtime_status receipt_obligation_required find_forbidden_key reject_forbidden_metadata
    admission_metadata bool_value evaluate_gate guarded_blockers transition_decision missing_reasons
    bounded_json_copy walk visit field_count item_count require_mapping lookup sorted_set
    insert_text text_lt from_keys non_empty without strip
compose input = compose_runtime_admission plain_runtime no_objects input

denied_reason : (compose (input_of "deny") >>= λ r. ok r.reason_code) ≡ ok "policy_denied"
unfolding compose
denied_reason = refl

abbrev sums : Summaries
sums = record {
  prepared = dict_of (("status", str "prepared") ∷ []);
  policy = dict_of (("decision", str "allow") ∷ []);
  ticket = dict_of (("status", str "approved") ∷ ("ticket_id", str "ticket-1") ∷ []);
  trust = dict_of (("trusted", bool true) ∷ []);
  runner = dict_of (("name", str "dry-run") ∷ ("allowed", bool true) ∷ []);
  receipt = dict_of (("required", bool true) ∷ []);
  guarded = dict_of (("verification_status", str "passed") ∷ ("replay_status", str "fresh") ∷ []);
  replay = dict_of (("replay_status", str "fresh") ∷ []);
}

abbrev statuses : Statuses
statuses = record {
  has_prepared_contract = true;
  policy = "allow";
  ticket = "approved";
  trust = "trusted";
  guarded = "passed";
  replay = "fresh";
  runner = record {
    name = "dry-run";
    allowed = true;
    live_backend_enabled = false;
    metadata = end;
  };
  receipt_required = true;
}

abbrev refs : Fields
refs = dict_of (("execution_ticket", dict (dict_of (("ticket_id", str "ticket-1") ∷ []))) ∷ [])

abbrev admitted : RuntimeAdmissionResult
admitted = record {
  admission_id = "admission-1";
  subject_ref = "task-1";
  schema_version = "v0.1";
  status = "allowed";
  allowed = true;
  reason_code = "all_required_gates_passed";
  blockers = [];
  required_next_actions = [];
  prepared_execution_contract = sums.prepared;
  policy_decision = sums.policy;
  execution_ticket = sums.ticket;
  trust_decision = sums.trust;
  sclite_guarded_strict = sums.guarded;
  replay_freshness = sums.replay;
  runner_profile = runner_as_dict statuses.runner;
  receipt_obligation = sums.receipt;
  artifact_refs = refs;
  metadata = end;
}

is_composed : compose_runtime_admission plain_runtime no_objects (input_of "allow") ≡ ok admitted
unfolding compose
is_composed = refl

sums_are_read : read_summaries plain_runtime no_objects (input_of "allow") ≡ ok sums
unfolding compose
sums_are_read = refl

statuses_are_read : read_statuses plain_runtime sums true ≡ ok statuses
unfolding compose
statuses_are_read = refl

statuses_pass : is_allowed (evaluate_gate (gate_input_of statuses true) false) ≡ true
unfolding compose
statuses_pass = refl

compose_runtime_admission-Admitted_example : Admitted plain_runtime (input_of "allow") admitted
compose_runtime_admission-Admitted_example =
    compose_runtime_admission-Admitted plain_runtime no_objects (input_of "allow") admitted
      is_composed refl

compose_runtime_admission_complete_example : admitted.allowed ≡ true
compose_runtime_admission_complete_example =
    compose_runtime_admission_complete plain_runtime no_objects (input_of "allow") admitted sums
      statuses is_composed sums_are_read statuses_are_read
      ((evaluate_gate_iff (gate_input_of statuses true) false).0 statuses_pass) refl refl

abbrev verdict : Fields
verdict = dict_of (
    ("verdict_id", str "verdict-1")
    ∷ ("subject_ref", str "task-1")
    ∷ ("decision", str "deny")
    ∷ ("reason_code", str "denied_by_rule")
    ∷ [])

abbrev denial : GovPolicyDecision
denial = record {
  policy_id = "verdict-1";
  subject_ref = "task-1";
  subject_kind = "task";
  decision = "deny";
  reason_code = "denied_by_rule";
  controls = [];
  blockers = "denied_by_rule" ∷ [];
  metadata = dict_of (
      ("policy_verdict_schema_version", str "")
      ∷ ("policy_request_id", str "")
      ∷ ("risk_class", str "")
      ∷ ("risk_score", float float_zero)
      ∷ []);
}

project : Value → Result GovPolicyDecision
unfolding policy_verdict_to_decision verdict_decision verdict_blockers verdict_items
    validate_policy_decision check_policy_decision runtime_signal admission_metadata
    reject_forbidden_metadata find_forbidden_key read_enum text_sequence read_text read_text_or
    bounded_json_copy walk visit field_count item_count require_mapping lookup strip
project value = policy_verdict_to_decision plain_runtime no_objects value "" "task"

is_projected :
    policy_verdict_to_decision plain_runtime no_objects (dict verdict) "" "task" ≡ ok denial
unfolding project
is_projected = refl

verdict_is_read : runtime_signal plain_runtime no_objects (dict verdict) ≡ ok verdict
unfolding project
verdict_is_read = refl

policy_verdict_to_decision-Projected_example : Projected plain_runtime no_objects verdict denial
policy_verdict_to_decision-Projected_example =
    policy_verdict_to_decision-Projected plain_runtime no_objects (dict verdict) "" "task" verdict
      denial verdict_is_read is_projected
