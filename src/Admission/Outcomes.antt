-- ===== src/Admission/Outcomes.antt =====
-- govengine/admission.py: `AuditLedgerAppendResult` and `AuditLedgerVerificationResult`.
use gov_engine.Prelude.{
  String, Bool, not, ◌&&◌, ◌||◌, List, [], ◌∷◌, ◌==◌, if◌then◌else◌, is_empty, length,
}
use gov_engine.Python.Number.{ℤ, pos, negsuc, eqb_ℤ}
use gov_engine.Python.Text.{strip, in_texts, or_text}
use gov_engine.Python.Value.{
  Value, null, bool, int, str, list, dict, Fields, get_or_null, or_value, truthy, dict_of,
  text_items, Runtime, text_of,
}
use gov_engine.Python.Reading.{read_text, read_text_or}
use gov_engine.Errors.{Result, ok, expect, reject_if, require_mapping, ◌>>=◌, ◌>>◌}
use gov_engine.Admission.{
  reject_forbidden_metadata, admission_metadata, read_sequence, require_digest_ref,
  validate_optional_digest_ref,
}
use gov_engine.Admission.Ledger.{int_of, is_below_zero}

pub record AuditLedgerAppendResult : Type 0 where
  pub status : String
  pub entry_id : String
  pub sequence : ℤ
  pub entry_digest : String
  pub reason_code : String
  pub blockers : List String
  pub metadata : Fields

pub record AuditLedgerVerificationResult : Type 0 where
  pub status : String
  pub verified : Bool
  pub checked_entries : ℤ
  pub last_entry_id : String
  pub last_entry_digest : String
  pub reason_code : String
  pub blockers : List String
  pub metadata : Fields

abbrev pub append_statuses : List String
append_statuses = "appended" ∷ "rejected" ∷ []

abbrev pub verify_statuses : List String
verify_statuses = "verified" ∷ "failed" ∷ "empty" ∷ []

-- `AuditLedgerAppendResult.as_dict`
abbrev pub append_result_as_dict : AuditLedgerAppendResult → Fields
append_result_as_dict item = dict_of (
    ("status", str item.status)
    ∷ ("entry_id", str item.entry_id)
    ∷ ("sequence", int item.sequence)
    ∷ ("entry_digest", str item.entry_digest)
    ∷ ("reason_code", str item.reason_code)
    ∷ ("blockers", list (text_items item.blockers))
    ∷ ("metadata", dict item.metadata)
    ∷ [])

-- `AuditLedgerVerificationResult.as_dict`
abbrev pub verification_result_as_dict : AuditLedgerVerificationResult → Fields
verification_result_as_dict item = dict_of (
    ("status", str item.status)
    ∷ ("verified", bool item.verified)
    ∷ ("checked_entries", int item.checked_entries)
    ∷ ("last_entry_id", str item.last_entry_id)
    ∷ ("last_entry_digest", str item.last_entry_digest)
    ∷ ("reason_code", str item.reason_code)
    ∷ ("blockers", list (text_items item.blockers))
    ∷ ("metadata", dict item.metadata)
    ∷ [])

-- The tests of a result that says an entry was appended.
unfoldable pub check_appended : AuditLedgerAppendResult → Result (Unit {0})
check_appended item = do
  reject_if (item.entry_id == "") "missing_audit_ledger_append_entry_id"
  reject_if (is_below_zero item.sequence) "invalid_audit_ledger_append_sequence"
  digest ←
      require_digest_ref item.entry_digest "missing_audit_ledger_append_digest"
        "invalid_audit_ledger_append_digest"
  ok tt

-- The tests of a result that says the ledger was verified.
unfoldable pub check_verified : AuditLedgerVerificationResult → Result (Unit {0})
check_verified item = do
  reject_if (not item.verified) "audit_ledger_verified_status_mismatch"
  reject_if (is_below_zero item.checked_entries || eqb_ℤ item.checked_entries (pos 0))
      "audit_ledger_verified_without_entries"
  reject_if (item.last_entry_id == "") "missing_audit_ledger_last_entry_id"
  digest ←
      require_digest_ref item.last_entry_digest "missing_audit_ledger_last_digest"
        "invalid_audit_ledger_last_digest"
  reject_if (not (is_empty item.blockers)) "audit_ledger_verified_with_blockers"

module _ (py : Runtime) where
  -- The tests of `validate_audit_ledger_append_result`.
  unfoldable pub check_append_result : AuditLedgerAppendResult → Result (Unit {0})
  check_append_result item = do
    expect (in_texts item.status append_statuses) "unknown_audit_ledger_append_status" item.status
    (if item.status == "appended" then check_appended item else ok tt)
    reject_if
        (item.status == "rejected" && is_empty item.blockers && item.reason_code == "recorded")
        "audit_ledger_rejection_without_reason"
    reject_forbidden_metadata py item.metadata

  -- `validate_audit_ledger_append_result`, of a result
  unfoldable pub validate_append_result : AuditLedgerAppendResult → Result AuditLedgerAppendResult
  validate_append_result item = do check_append_result item; ok item

  -- The tests of `validate_audit_ledger_verification_result`.
  unfoldable pub check_verification_result : AuditLedgerVerificationResult → Result (Unit {0})
  check_verification_result item = do
    expect (in_texts item.status verify_statuses) "unknown_audit_ledger_verification_status"
        item.status
    reject_if (is_below_zero item.checked_entries) "invalid_audit_ledger_checked_entries"
    validate_optional_digest_ref item.last_entry_digest "invalid_audit_ledger_last_digest"
    (if item.status == "verified" then check_verified item else ok tt)
    reject_if (item.status == "failed" && is_empty item.blockers)
        "audit_ledger_failed_without_blockers"
    reject_if (item.status == "empty" && not (eqb_ℤ item.checked_entries (pos 0)))
        "audit_ledger_empty_with_entries"
    reject_forbidden_metadata py item.metadata

  -- `validate_audit_ledger_verification_result`, of a result
  unfoldable pub validate_verification_result :
      AuditLedgerVerificationResult → Result AuditLedgerVerificationResult
  validate_verification_result item = do check_verification_result item; ok item

  -- The fields after `__post_init__`.
  abbrev pub stripped_append_result : AuditLedgerAppendResult → Fields → AuditLedgerAppendResult
  stripped_append_result input metadata = record {
    status = strip input.status;
    entry_id = strip input.entry_id;
    sequence = input.sequence;
    entry_digest = strip input.entry_digest;
    reason_code = or_text (strip (or_text input.reason_code "recorded")) "recorded";
    blockers = input.blockers;
    metadata = metadata;
  }

  -- `AuditLedgerAppendResult.__post_init__`, of texts
  unfoldable pub make_append_result : AuditLedgerAppendResult → Result AuditLedgerAppendResult
  make_append_result input = do
    metadata ← admission_metadata py (dict input.metadata)
    validate_append_result (stripped_append_result input metadata)

  -- `AuditLedgerVerificationResult.__post_init__`, of texts
  unfoldable pub make_verification_result :
      AuditLedgerVerificationResult → Result AuditLedgerVerificationResult
  make_verification_result input = do
    let status = strip input.status
    metadata ← admission_metadata py (dict input.metadata)
    validate_verification_result (record {
      status = status;
      verified = input.verified;
      checked_entries = input.checked_entries;
      last_entry_id = strip input.last_entry_id;
      last_entry_digest = strip input.last_entry_digest;
      reason_code =
          or_text (strip (or_text (or_text input.reason_code status) "verified")) "verified";
      blockers = input.blockers;
      metadata = metadata;
    })

  -- `AuditLedgerAppendResult.from_mapping`
  unfoldable pub append_result_from_mapping :
      (Value → Result ℤ) → Value → Result AuditLedgerAppendResult
  append_result_from_mapping parse value = do
    raw ← require_mapping value "invalid_audit_ledger_append_result"
    sequence ← elim (get_or_null "sequence" raw) [ null ↦ ok (negsuc 0) | v ↦ int_of parse v ]
    blockers ← read_sequence py "blockers" raw
    metadata ← admission_metadata py (get_or_null "metadata" raw)
    make_append_result (record {
      status = read_text py "status" raw;
      entry_id = read_text py "entry_id" raw;
      sequence = sequence;
      entry_digest = read_text py "entry_digest" raw;
      reason_code = or_text (read_text_or py "reason_code" "recorded" raw) "recorded";
      blockers = blockers;
      metadata = metadata;
    })

  -- `AuditLedgerVerificationResult.from_mapping`
  unfoldable pub verification_result_from_mapping :
      (Value → Result ℤ) → Value → Result AuditLedgerVerificationResult
  verification_result_from_mapping parse value = do
    raw ← require_mapping value "invalid_audit_ledger_verification_result"
    checked_entries ← int_of parse (or_value (get_or_null "checked_entries" raw) (int (pos 0)))
    blockers ← read_sequence py "blockers" raw
    metadata ← admission_metadata py (get_or_null "metadata" raw)
    make_verification_result (record {
      status = read_text py "status" raw;
      verified = truthy (get_or_null "verified" raw);
      checked_entries = checked_entries;
      last_entry_id = read_text py "last_entry_id" raw;
      last_entry_digest = read_text py "last_entry_digest" raw;
      reason_code =
          or_text
            (strip (
              text_of py (
                or_value (or_value (get_or_null "reason_code" raw) (get_or_null "status" raw))
                  (str "verified"))))
            "verified";
      blockers = blockers;
      metadata = metadata;
    })

  -- `audit_ledger_verification_public_summary`, of a result
  unfoldable pub verification_public_summary : AuditLedgerVerificationResult → Result Fields
  verification_public_summary value = do
    item ← validate_verification_result value
    ok (
        dict_of (
          ("status", str item.status)
          ∷ ("verified", bool item.verified)
          ∷ ("reason_code", str item.reason_code)
          ∷ ("blocker_count", int (pos (length item.blockers)))
          ∷ ("checked_entries", int item.checked_entries)
          ∷ ("last_entry_id", str item.last_entry_id)
          ∷ ("last_entry_digest", str item.last_entry_digest)
          ∷ []))
