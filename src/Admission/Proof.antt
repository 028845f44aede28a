-- ===== src/Admission/Proof.antt =====
-- govengine/admission.py: the stored form of `RuntimeAdmissionResult`, its public summary, and
-- `validate_runtime_admission_proof_inputs`.
use gov_engine.Prelude.{
  String, Bool, true, false, not, ◌&&◌, List, [], ◌∷◌, ◌==◌, if◌then◌else◌, length, none, some,
}
use gov_engine.Python.Number.{pos}
use gov_engine.Python.Text.{strip, in_texts, or_text}
use gov_engine.Python.Value.{
  Value, bool, int, str, list, tuple, dict, Items, nil, cons, Fields, get, get_or_null, or_value,
  is_end, dict_of, text_items, Runtime, text_of,
}
use gov_engine.Python.Reading.{read_text, read_text_alias, read_text_or}
use gov_engine.Run.{keys_of}
use gov_engine.Errors.{Result, ok, err, raised, reject_if, require_mapping, ◌>>=◌, ◌>>◌}
use gov_engine.Admission.{admission_metadata, read_strict_enum, bool_value, read_sequence}
use gov_engine.Admission.Blockers.{passing_ticket, passing_trust}
use gov_engine.Admission.Signals.{
  guarded_runtime_status, replay_runtime_status, trust_signal_status, ticket_signal_status,
  receipt_obligation_required,
}
use gov_engine.Admission.RuntimeResult.{
  RuntimeAdmissionResult, runtime_admission_statuses, runtime_admission_schema_version,
  validate_runtime_admission,
}

-- `RuntimeAdmissionResult.as_dict`
abbrev pub runtime_admission_as_dict : RuntimeAdmissionResult → Fields
runtime_admission_as_dict item = dict_of (
    ("admission_id", str item.admission_id)
    ∷ ("subject_ref", str item.subject_ref)
    ∷ ("schema_version", str item.schema_version)
    ∷ ("status", str item.status)
    ∷ ("allowed", bool item.allowed)
    ∷ ("reason_code", str item.reason_code)
    ∷ ("blockers", list (text_items item.blockers))
    ∷ ("required_next_actions", list (text_items item.required_next_actions))
    ∷ ("prepared_execution_contract", dict item.prepared_execution_contract)
    ∷ ("policy_decision", dict item.policy_decision)
    ∷ ("execution_ticket", dict item.execution_ticket)
    ∷ ("trust_decision", dict item.trust_decision)
    ∷ ("sclite_guarded_strict", dict item.sclite_guarded_strict)
    ∷ ("replay_freshness", dict item.replay_freshness)
    ∷ ("runner_profile", dict item.runner_profile)
    ∷ ("receipt_obligation", dict item.receipt_obligation)
    ∷ ("artifact_refs", dict item.artifact_refs)
    ∷ ("metadata", dict item.metadata)
    ∷ [])

module _ (py : Runtime) where
  abbrev read_part : String → Fields → Result Fields
  read_part key raw = admission_metadata py (get_or_null key raw)

  -- `RuntimeAdmissionResult.from_mapping`
  unfoldable pub runtime_admission_from_mapping : Value → Result RuntimeAdmissionResult
  runtime_admission_from_mapping value = do
    raw ← require_mapping value "invalid_runtime_admission_result"
    let admission_id = read_text_alias py "admission_id" "id" raw
    reject_if (admission_id == "") "missing_runtime_admission_id"
    let subject_ref = read_text py "subject_ref" raw
    reject_if (subject_ref == "") "missing_runtime_admission_subject_ref"
    status ←
        read_strict_enum py (get_or_null "status" raw) runtime_admission_statuses
          "unknown_runtime_admission_status"
    allowed ← bool_value py (get_or_null "allowed" raw) (status == "allowed")
    blockers ← read_sequence py "blockers" raw
    required_next_actions ← read_sequence py "required_next_actions" raw
    prepared_execution_contract ← read_part "prepared_execution_contract" raw
    policy_decision ← read_part "policy_decision" raw
    execution_ticket ← read_part "execution_ticket" raw
    trust_decision ← read_part "trust_decision" raw
    sclite_guarded_strict ← read_part "sclite_guarded_strict" raw
    replay_freshness ← read_part "replay_freshness" raw
    runner_profile ← read_part "runner_profile" raw
    receipt_obligation ← read_part "receipt_obligation" raw
    artifact_refs ← read_part "artifact_refs" raw
    metadata ← read_part "metadata" raw
    validate_runtime_admission py (record {
      admission_id = admission_id;
      subject_ref = subject_ref;
      schema_version = read_text_or py "schema_version" runtime_admission_schema_version raw;
      status = status;
      allowed = allowed;
      reason_code = or_text (read_text_or py "reason_code" status raw) status;
      blockers = blockers;
      required_next_actions = required_next_actions;
      prepared_execution_contract = prepared_execution_contract;
      policy_decision = policy_decision;
      execution_ticket = execution_ticket;
      trust_decision = trust_decision;
      sclite_guarded_strict = sclite_guarded_strict;
      replay_freshness = replay_freshness;
      runner_profile = runner_profile;
      receipt_obligation = receipt_obligation;
      artifact_refs = artifact_refs;
      metadata = metadata;
    })

  -- `_receipt_obligation_public_status`
  unfoldable pub receipt_obligation_public_status : Fields → Result String
  receipt_obligation_public_status payload =
      if is_end payload
      then ok "missing"
      else (receipt_obligation_required py payload >>= λ required. ok (
          if required
          then "required"
          else or_text (read_text_or py "status" "missing" payload) "missing"))

  -- `runtime_admission_public_summary`, of a result
  unfoldable pub runtime_admission_public_summary : RuntimeAdmissionResult → Bool → Result Fields
  runtime_admission_public_summary value show_artifact_refs = do
    item ← validate_runtime_admission py value
    receipt ← receipt_obligation_public_status item.receipt_obligation
    ok (
        dict_of (
          ("schema_version", str item.schema_version)
          ∷ ("admission_id", str item.admission_id)
          ∷ ("subject_ref", str item.subject_ref)
          ∷ ("status", str item.status)
          ∷ ("allowed", bool item.allowed)
          ∷ ("reason_code", str item.reason_code)
          ∷ ("blocker_count", int (pos (length item.blockers)))
          ∷ ("required_next_action_count", int (pos (length item.required_next_actions)))
          ∷ ("receipt_obligation", str receipt)
          ∷ (if show_artifact_refs then ("artifact_refs", dict item.artifact_refs) ∷ [] else [])))

  -- The texts of an entry of a reference: of no mapping, list or tuple.
  abbrev reference_text : Value → String
  reference_text (dict m) = ""
  reference_text (list vs) = ""
  reference_text (tuple vs) = ""
  reference_text v = strip (text_of py (or_value v (str "")))

  unfoldable pub first_reference : Fields → List String → String
  first_reference value [] = ""
  first_reference value (key ∷ keys) =
      let rest = first_reference value keys in or_text (reference_text (get_or_null key value)) rest

  -- `_proof_ref`
  unfoldable pub proof_ref : Fields → String → List String → String
  proof_ref refs group keys = elim (get_or_null group refs) [
    | dict value ↦ first_reference value keys
    | _ ↦ ""
  ]

  abbrev plain_items : Items → List String
  plain_items nil = []
  plain_items (cons (dict m) vs) = plain_items vs
  plain_items (cons v vs) = text_of py v ∷ plain_items vs

  -- `binds`, of which the letters of a text are none that is looked for
  abbrev receipt_binds : Value → Result (List String)
  receipt_binds (list vs) = ok (plain_items vs)
  receipt_binds (tuple vs) = ok (plain_items vs)
  receipt_binds (dict m) = ok (keys_of py m)
  receipt_binds (str s) = ok []
  receipt_binds _ = err (raised "TypeError")

  -- `validate_runtime_admission_proof_inputs`, of a result
  unfoldable pub validate_proof_inputs : RuntimeAdmissionResult → Result RuntimeAdmissionResult
  validate_proof_inputs value = do
    item ← validate_runtime_admission py value
    reject_if (not item.allowed) "runtime_admission_proof_not_allowed"
    guarded ← guarded_runtime_status py item.sclite_guarded_strict
    reject_if (not (guarded == "passed")) "runtime_admission_proof_guarded_strict_missing"
    reject_if
        (not (
          replay_runtime_status py item.replay_freshness item.sclite_guarded_strict true
          == "fresh"))
        "runtime_admission_proof_replay_freshness_missing"
    trust ← trust_signal_status py item.trust_decision
    reject_if (not (in_texts trust passing_trust)) "runtime_admission_proof_trust_decision_missing"
    ticket ← ticket_signal_status py item.execution_ticket
    reject_if (not (in_texts ticket passing_ticket))
        "runtime_admission_proof_execution_ticket_missing"
    required ← receipt_obligation_required py item.receipt_obligation
    reject_if (not required) "runtime_admission_proof_receipt_obligation_missing"
    allowed ← bool_value py (get_or_null "allowed" item.runner_profile) false
    reject_if (not allowed) "runtime_admission_proof_runner_profile_missing"
    live ← bool_value py (get_or_null "live_backend_enabled" item.runner_profile) false
    reject_if live "runtime_admission_proof_live_backend_not_allowed"
    reject_if
        (proof_ref item.artifact_refs "sclite_guarded_strict" ("root_chain_digest" ∷ []) == "")
        "runtime_admission_proof_guard_digest_missing"
    reject_if (proof_ref item.artifact_refs "execution_ticket" ("ticket_id" ∷ []) == "")
        "runtime_admission_proof_ticket_ref_missing"
    reject_if
        (proof_ref item.artifact_refs "execution_ticket" ("ticket_digest" ∷ "digest" ∷ []) == "")
        "runtime_admission_proof_ticket_digest_missing"
    binds ← elim (get "binds" item.receipt_obligation) [ none ↦ ok [] | some v ↦ receipt_binds v ]
    reject_if (not (in_texts "admission" binds && in_texts "ticket" binds))
        "runtime_admission_proof_receipt_binding_incomplete"
    ok item
