-- ===== src/Admission/Ledger.antt =====
-- govengine/admission.py: `AuditLedgerEntry`, its validation and its digest.
use gov_engine.Prelude.{String, Bool, true, false, not, ◌||◌, List, [], ◌∷◌, ◌==◌, if◌then◌else◌}
use gov_engine.Python.Number.{ℤ, pos, negsuc}
use gov_engine.Python.Text.{strip}
use gov_engine.Python.Value.{
  Value, bool, int, str, dict, Fields, get_or_null, or_value, dict_of, Runtime,
}
use gov_engine.Python.Reading.{read_text, read_text_alias}
use gov_engine.Errors.{Result, ok, fail, expect, reject_if, require_mapping, ◌>>=◌, ◌>>◌}
use gov_engine.Governance.Scope.{RecordDigest}
use gov_engine.Admission.{
  reject_forbidden_metadata, admission_metadata, require_digest_ref, validate_optional_digest_ref,
}
use gov_engine.Admission.Audit.{
  GovAuditRecord, audit_record_as_dict, audit_record_from_mapping, validate_audit_record,
}

pub record AuditLedgerEntry : Type 0 where
  pub entry_id : String
  pub sequence : ℤ
  pub record_of : GovAuditRecord
  pub record_digest : String
  pub schema_version : String
  pub event_digest : String
  pub previous_entry_digest : String
  pub entry_digest : String
  pub recorded_at : String
  pub metadata : Fields

abbrev pub audit_ledger_entry_schema_version : String
audit_ledger_entry_schema_version = "v0.1"

-- `int(v)`, with `parse` for what Python makes of a float, a text or another object.
abbrev pub int_of : (Value → Result ℤ) → Value → Result ℤ
int_of parse (int z) = ok z
int_of parse (bool b) = ok (if b then pos 1 else pos 0)
int_of parse v = parse v

abbrev pub is_below_zero : ℤ → Bool
is_below_zero (pos n) = false
is_below_zero (negsuc n) = true

-- `AuditLedgerEntry.as_dict` without the schema version and the entry's digest.
abbrev entry_fields : AuditLedgerEntry → List (String × Value) → List (String × Value)
entry_fields item rest =
    ("entry_id", str item.entry_id)
    ∷ ("sequence", int item.sequence)
    ∷ ("record", dict (audit_record_as_dict item.record_of))
    ∷ ("record_digest", str item.record_digest)
    ∷ rest

abbrev later_fields : AuditLedgerEntry → String → List (String × Value)
later_fields item entry_digest =
    ("event_digest", str item.event_digest)
    ∷ ("previous_entry_digest", str item.previous_entry_digest)
    ∷ ("entry_digest", str entry_digest)
    ∷ ("recorded_at", str item.recorded_at)
    ∷ ("metadata", dict item.metadata)
    ∷ []

-- `AuditLedgerEntry.as_dict`
unfoldable pub entry_as_dict : AuditLedgerEntry → Fields
entry_as_dict item = dict_of (
    entry_fields item
      (("schema_version", str item.schema_version) ∷ later_fields item item.entry_digest))

-- The payload of `_audit_ledger_entry_digest_unchecked`: the entry's own digest is cleared, and a
-- missing schema version left out.
unfoldable pub digest_payload : AuditLedgerEntry → Fields
digest_payload item =
    if item.schema_version == ""
    then dict_of (entry_fields item (later_fields item ""))
    else dict_of
        (entry_fields item (("schema_version", str item.schema_version) ∷ later_fields item ""))

-- The record that an entry is made of: one that is built, or a mapping to read it from.
pub data RecordInput : Type 0 where
  built : GovAuditRecord → RecordInput
  mapping : Value → RecordInput

-- The initial values of the fields that `__post_init__` strips.
pub record EntryInput : Type 0 where
  pub entry_id : String
  pub sequence : ℤ
  pub record_of : RecordInput
  pub record_digest : String
  pub schema_version : String
  pub event_digest : String
  pub previous_entry_digest : String
  pub entry_digest : String
  pub recorded_at : String
  pub metadata : Value

module _ (py : Runtime) (digests : RecordDigest) where
  -- `_audit_record_digest`
  unfoldable pub audit_record_digest : GovAuditRecord → Result String
  audit_record_digest item =
      digests.record_digest (dict (audit_record_as_dict item)) "govengine.admission.GovAuditRecord"

  -- `audit_ledger_entry_digest`, of an entry
  unfoldable pub audit_ledger_entry_digest : AuditLedgerEntry → Result String
  audit_ledger_entry_digest item =
      digests.record_digest (dict (digest_payload item)) "govengine.admission.AuditLedgerEntry"

  -- The comparison of an entry's digest with the computed one.
  unfoldable pub check_entry_digest : AuditLedgerEntry → Result (Unit {0})
  check_entry_digest item = if item.entry_digest == "" then ok tt else (do
    computed ← audit_ledger_entry_digest item
    reject_if (not (item.entry_digest == computed)) "audit_ledger_entry_digest_mismatch")

  -- The tests of `validate_audit_ledger_entry` before that of the entry's own digest.
  unfoldable pub check_entry_fields : AuditLedgerEntry → Result (Unit {0})
  check_entry_fields item = do
    reject_if (item.entry_id == "") "missing_audit_ledger_entry_id"
    reject_if (is_below_zero item.sequence) "invalid_audit_ledger_sequence"
    expect (item.schema_version == "" || item.schema_version == audit_ledger_entry_schema_version)
        "unknown_audit_ledger_entry_schema_version" item.schema_version
    record_of ← validate_audit_record py item.record_of
    digest ←
        require_digest_ref item.record_digest "missing_audit_ledger_record_digest"
          "invalid_audit_ledger_record_digest"
    computed ← audit_record_digest item.record_of
    reject_if (not (item.record_digest == computed)) "audit_ledger_record_digest_mismatch"
    validate_optional_digest_ref item.event_digest "invalid_audit_ledger_event_digest"
    validate_optional_digest_ref item.previous_entry_digest "invalid_audit_ledger_previous_digest"
    validate_optional_digest_ref item.entry_digest "invalid_audit_ledger_entry_digest"

  -- The tests of `validate_audit_ledger_entry`.
  unfoldable pub check_entry : AuditLedgerEntry → Result (Unit {0})
  check_entry item = do
    check_entry_fields item
    check_entry_digest item
    reject_forbidden_metadata py item.metadata

  -- `validate_audit_ledger_entry`, of an entry
  unfoldable pub validate_audit_ledger_entry : AuditLedgerEntry → Result AuditLedgerEntry
  validate_audit_ledger_entry item = do check_entry item; ok item

  abbrev pub built_record : RecordInput → Result GovAuditRecord
  built_record (built item) = ok item
  built_record (mapping value) = audit_record_from_mapping py value

  -- The fields after `__post_init__`.
  abbrev pub stripped_entry : EntryInput → GovAuditRecord → Fields → AuditLedgerEntry
  stripped_entry input item metadata = record {
    entry_id = strip input.entry_id;
    sequence = input.sequence;
    record_of = item;
    record_digest = strip input.record_digest;
    schema_version = strip input.schema_version;
    event_digest = strip input.event_digest;
    previous_entry_digest = strip input.previous_entry_digest;
    entry_digest = strip input.entry_digest;
    recorded_at = strip input.recorded_at;
    metadata = metadata;
  }

  -- `AuditLedgerEntry.__post_init__`
  unfoldable pub make_entry : EntryInput → Result AuditLedgerEntry
  make_entry input = do
    item ← built_record input.record_of
    metadata ← admission_metadata py input.metadata
    validate_audit_ledger_entry (stripped_entry input item metadata)

  -- `raw.get('record')`, which must be a mapping
  abbrev pub read_record : Fields → Result Value
  read_record raw = elim (get_or_null "record" raw) [
    | dict m ↦ ok (dict m)
    | _ ↦ fail "missing_audit_ledger_record"
  ]

  -- `AuditLedgerEntry.from_mapping`
  unfoldable pub entry_from_mapping : (Value → Result ℤ) → Value → Result AuditLedgerEntry
  entry_from_mapping parse value = do
    raw ← require_mapping value "invalid_audit_ledger_entry"
    record_value ← read_record raw
    sequence ← int_of parse (or_value (get_or_null "sequence" raw) (int (pos 0)))
    metadata ← admission_metadata py (get_or_null "metadata" raw)
    make_entry (record {
      entry_id = read_text_alias py "entry_id" "id" raw;
      sequence = sequence;
      record_of = mapping record_value;
      record_digest = read_text py "record_digest" raw;
      schema_version = read_text py "schema_version" raw;
      event_digest = read_text py "event_digest" raw;
      previous_entry_digest = read_text py "previous_entry_digest" raw;
      entry_digest = read_text py "entry_digest" raw;
      recorded_at = read_text py "recorded_at" raw;
      metadata = dict metadata;
    })
