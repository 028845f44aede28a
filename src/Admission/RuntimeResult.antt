-- ===== src/Admission/RuntimeResult.antt =====
-- govengine/admission.py: `RuntimeAdmissionResult` and its validation.
use gov_engine.Prelude.{String, Bool, not, ◌&&◌, List, [], ◌∷◌, ◌==◌, is_empty}
use gov_engine.Python.Text.{in_texts, or_text}
use gov_engine.Python.Value.{Fields, Runtime}
use gov_engine.Errors.{Result, ok, expect, reject_if, ◌>>◌}
use gov_engine.Admission.{reject_forbidden_metadata}

pub record RuntimeAdmissionResult : Type 0 where
  pub admission_id : String
  pub subject_ref : String
  pub schema_version : String
  pub status : String
  pub allowed : Bool
  pub reason_code : String
  pub blockers : List String
  pub required_next_actions : List String
  pub prepared_execution_contract : Fields
  pub policy_decision : Fields
  pub execution_ticket : Fields
  pub trust_decision : Fields
  pub sclite_guarded_strict : Fields
  pub replay_freshness : Fields
  pub runner_profile : Fields
  pub receipt_obligation : Fields
  pub artifact_refs : Fields
  pub metadata : Fields

abbrev pub runtime_admission_statuses : List String
runtime_admission_statuses =
    "allowed" ∷ "blocked" ∷ "dry_run_only" ∷ "needs_review" ∷ "record_only" ∷ []

abbrev pub runtime_admission_schema_version : String
runtime_admission_schema_version = "v0.1"

module _ (py : Runtime) where
  -- The tests of `validate_runtime_admission_result`.
  unfoldable pub check_runtime_admission : RuntimeAdmissionResult → Result (Unit {0})
  check_runtime_admission item = do
    expect (item.schema_version == runtime_admission_schema_version)
        "unknown_runtime_admission_schema_version" (or_text item.schema_version "missing")
    expect (in_texts item.status runtime_admission_statuses) "unknown_runtime_admission_status"
        item.status
    reject_if (item.allowed && not (item.status == "allowed"))
        "runtime_admission_allowed_status_mismatch"
    reject_if (not item.allowed && item.status == "allowed")
        "runtime_admission_blocked_status_mismatch"
    reject_if (item.allowed && not (is_empty item.blockers && is_empty item.required_next_actions))
        "runtime_admission_allowed_with_blockers"
    reject_if
        (not (item.status == "allowed")
          && is_empty item.blockers
          && is_empty item.required_next_actions)
        "runtime_admission_blocked_without_evidence"
    reject_forbidden_metadata py item.prepared_execution_contract
    reject_forbidden_metadata py item.policy_decision
    reject_forbidden_metadata py item.execution_ticket
    reject_forbidden_metadata py item.trust_decision
    reject_forbidden_metadata py item.sclite_guarded_strict
    reject_forbidden_metadata py item.replay_freshness
    reject_forbidden_metadata py item.runner_profile
    reject_forbidden_metadata py item.receipt_obligation
    reject_forbidden_metadata py item.artifact_refs
    reject_forbidden_metadata py item.metadata

  -- `validate_runtime_admission_result`, of a result
  unfoldable pub validate_runtime_admission : RuntimeAdmissionResult → Result RuntimeAdmissionResult
  validate_runtime_admission item = do check_runtime_admission item; ok item
