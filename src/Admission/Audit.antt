-- ===== src/Admission/Audit.antt =====
-- govengine/admission.py: `GovAuditRecord`, its validation and its public summary.
use gov_engine.Prelude.{String, List, [], ◌∷◌, ◌==◌, length}
use gov_engine.Python.Number.{pos}
use gov_engine.Python.Text.{in_texts, or_text}
use gov_engine.Python.Value.{
  Value, int, str, list, dict, Fields, get_or_null, dict_of, text_items, Runtime,
}
use gov_engine.Python.Reading.{read_text, read_text_alias, read_text_or}
use gov_engine.Errors.{Result, ok, expect, reject_if, require_mapping, ◌>>=◌, ◌>>◌}
use gov_engine.Admission.{
  subject_kinds, audit_record_types, reject_forbidden_metadata, admission_metadata, read_enum,
  read_sequence,
}

pub record GovAuditRecord : Type 0 where
  pub record_id : String
  pub record_type : String
  pub subject_ref : String
  pub schema_version : String
  pub subject_kind : String
  pub decision_ref : String
  pub reason_code : String
  pub event_refs : List String
  pub recorded_at : String
  pub metadata : Fields

abbrev pub audit_record_schema_version : String
audit_record_schema_version = "v0.1"

-- `GovAuditRecord.as_dict`
abbrev pub audit_record_as_dict : GovAuditRecord → Fields
audit_record_as_dict item = dict_of (
    ("record_id", str item.record_id)
    ∷ ("record_type", str item.record_type)
    ∷ ("subject_ref", str item.subject_ref)
    ∷ ("schema_version", str item.schema_version)
    ∷ ("subject_kind", str item.subject_kind)
    ∷ ("decision_ref", str item.decision_ref)
    ∷ ("reason_code", str item.reason_code)
    ∷ ("event_refs", list (text_items item.event_refs))
    ∷ ("recorded_at", str item.recorded_at)
    ∷ ("metadata", dict item.metadata)
    ∷ [])

module _ (py : Runtime) where
  -- The tests of `validate_audit_record`.
  unfoldable pub check_audit_record : GovAuditRecord → Result (Unit {0})
  check_audit_record item = do
    expect (in_texts item.subject_kind subject_kinds) "unknown_audit_subject_kind" item.subject_kind
    expect (in_texts item.record_type audit_record_types) "unknown_audit_record_type"
        item.record_type
    expect (item.schema_version == audit_record_schema_version)
        "unknown_audit_record_schema_version" (or_text item.schema_version "missing")
    reject_forbidden_metadata py item.metadata

  -- `validate_audit_record`, of a record
  unfoldable pub validate_audit_record : GovAuditRecord → Result GovAuditRecord
  validate_audit_record item = do check_audit_record item; ok item

  -- `GovAuditRecord.from_mapping`
  unfoldable pub audit_record_from_mapping : Value → Result GovAuditRecord
  audit_record_from_mapping value = do
    raw ← require_mapping value "invalid_audit_record"
    let record_id = read_text_alias py "record_id" "id" raw
    reject_if (record_id == "") "missing_audit_record_id"
    let subject_ref = read_text py "subject_ref" raw
    reject_if (subject_ref == "") "missing_audit_subject_ref"
    record_type ←
        read_enum py (get_or_null "record_type" raw) audit_record_types "admission_decision"
          "unknown_audit_record_type"
    subject_kind ←
        read_enum py (get_or_null "subject_kind" raw) subject_kinds "task"
          "unknown_audit_subject_kind"
    event_refs ← read_sequence py "event_refs" raw
    metadata ← admission_metadata py (get_or_null "metadata" raw)
    validate_audit_record (record {
      record_id = record_id;
      record_type = record_type;
      subject_ref = subject_ref;
      schema_version = read_text_or py "schema_version" audit_record_schema_version raw;
      subject_kind = subject_kind;
      decision_ref = read_text py "decision_ref" raw;
      reason_code = or_text (read_text_or py "reason_code" "recorded" raw) "recorded";
      event_refs = event_refs;
      recorded_at = read_text py "recorded_at" raw;
      metadata = metadata;
    })

  -- `audit_record_public_summary`, of a record
  unfoldable pub audit_record_public_summary : GovAuditRecord → Result Fields
  audit_record_public_summary value = do
    item ← validate_audit_record value
    ok (
        dict_of (
          ("schema_version", str item.schema_version)
          ∷ ("record_id", str item.record_id)
          ∷ ("record_type", str item.record_type)
          ∷ ("subject_ref", str item.subject_ref)
          ∷ ("decision_ref", str item.decision_ref)
          ∷ ("reason_code", str item.reason_code)
          ∷ ("event_ref_count", int (pos (length item.event_refs)))
          ∷ []))
