-- ===== src/Admission/Adapter/Verification.antt =====
-- govengine/admission.py: `JsonlAuditLedgerAdapter.verify`.
use gov_engine.Prelude.{
  ℕ, suc, String, true, false, not, List, [], ◌∷◌, ◌==◌, if◌then◌else◌, length, Option, none, some,
}
use gov_engine.Python.Number.{pos, eqb_ℤ}
use gov_engine.Python.Value.{end, Runtime}
use gov_engine.Errors.{Result, ok, ◌>>=◌}
use gov_engine.Governance.Scope.{RecordDigest}
use gov_engine.Admission.Ledger.{
  AuditLedgerEntry, audit_ledger_entry_digest, validate_audit_ledger_entry,
}
use gov_engine.Admission.Outcomes.{AuditLedgerVerificationResult, make_verification_result}
use gov_engine.Admission.Adapter.{last_digest}

abbrev pub last_entry : List AuditLedgerEntry → Option AuditLedgerEntry
last_entry [] = none
last_entry (e ∷ es) = elim (last_entry es) [ none ↦ some e | some l ↦ some l ]

abbrev pub last_id : List AuditLedgerEntry → String
last_id es = elim (last_entry es) [ none ↦ "" | some e ↦ e.entry_id ]

module _ (py : Runtime) (digests : RecordDigest) where
  -- The entries of `verify` after each is validated.
  unfoldable pub validate_entries : List AuditLedgerEntry → Result (List AuditLedgerEntry)
  validate_entries [] = ok []
  validate_entries (e ∷ es) = do
    checked ← validate_audit_ledger_entry py digests e
    rest ← validate_entries es
    ok (checked ∷ rest)

  -- The loop of `verify`: the reason of the first failure, or "".
  unfoldable pub chain_failure : String → ℕ → List AuditLedgerEntry → Result String
  chain_failure previous index [] = ok ""
  chain_failure previous index (e ∷ es) =
      let rest = chain_failure e.entry_digest (suc index) es in
      if not (eqb_ℤ e.sequence (pos index))
      then ok "audit_ledger_sequence_mismatch"
      else (if not (e.previous_entry_digest == previous)
          then ok "audit_ledger_previous_digest_mismatch"
          else (do
            digest ← audit_ledger_entry_digest py digests e
            if e.entry_digest == digest then rest else ok "audit_ledger_entry_digest_mismatch"))

  -- `_audit_ledger_failed`
  unfoldable pub audit_ledger_failed :
      List AuditLedgerEntry → String → Result AuditLedgerVerificationResult
  audit_ledger_failed entries reason = make_verification_result py (record {
    status = "failed";
    verified = false;
    checked_entries = pos (length entries);
    last_entry_id = last_id entries;
    last_entry_digest = last_digest entries;
    reason_code = reason;
    blockers = reason ∷ [];
    metadata = end;
  })

  abbrev pub empty_result : Result AuditLedgerVerificationResult
  empty_result = make_verification_result py (record {
    status = "empty";
    verified = false;
    checked_entries = pos 0;
    last_entry_id = "";
    last_entry_digest = "";
    reason_code = "empty";
    blockers = [];
    metadata = end;
  })

  abbrev pub verified_result : List AuditLedgerEntry → Result AuditLedgerVerificationResult
  verified_result checked = make_verification_result py (record {
    status = "verified";
    verified = true;
    checked_entries = pos (length checked);
    last_entry_id = last_id checked;
    last_entry_digest = last_digest checked;
    reason_code = "verified";
    blockers = [];
    metadata = end;
  })

  -- The end of `verify`, for the reason that the loop has found.
  abbrev pub judged : List AuditLedgerEntry → String → Result AuditLedgerVerificationResult
  judged checked reason =
      if reason == "" then verified_result checked else audit_ledger_failed checked reason

  -- `verify` after each entry is validated.
  abbrev pub verify_checked : List AuditLedgerEntry → Result AuditLedgerVerificationResult
  verify_checked [] = empty_result
  verify_checked (e ∷ es) = chain_failure "" 0 (e ∷ es) >>= judged (e ∷ es)

  -- `JsonlAuditLedgerAdapter.verify`
  unfoldable pub verify : List AuditLedgerEntry → Result AuditLedgerVerificationResult
  verify entries = validate_entries entries >>= verify_checked
