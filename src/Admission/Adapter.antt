-- ===== src/Admission/Adapter.antt =====
-- govengine/admission.py: `JsonlAuditLedgerAdapter`, over a file that is a list of lines.
pub mod Verification
pub mod Chain
pub mod Verifying
pub mod Storing
pub mod Reading
pub mod History
mod Tests
pub mod Appending
use Prim.Native.String.{◌++◌}
use gov_engine.Prelude.{
  ℕ, suc, ◌+◌, ◌-◌, String, Bool, true, false, not, ◌&&◌, ◌||◌, List, [], ◌∷◌, ◌==◌, leb, ltb, eqb,
  if◌then◌else◌, is_empty, length, Option, none, some,
}
use gov_engine.Python.Number.{ℤ, pos, negsuc, eqb_ℤ}
use gov_engine.Python.Text.{strip}
use gov_engine.Python.Value.{Value, int, str, dict, end, dict_of, Runtime, text_of}
use gov_engine.Errors.{Result, ok, err, fail, fail_with, reject_if, ◌>>=◌, ◌>>◌}
use gov_engine.Governance.Scope.{RecordDigest}
use gov_engine.Admission.Audit.{GovAuditRecord, audit_record_as_dict, validate_audit_record}
use gov_engine.Admission.Ledger.{
  AuditLedgerEntry, EntryInput, built, mapping, audit_ledger_entry_digest,
  audit_ledger_entry_schema_version, entry_as_dict, entry_from_mapping, make_entry,
  validate_audit_ledger_entry,
}
use gov_engine.Admission.Outcomes.{
  AuditLedgerAppendResult, AuditLedgerVerificationResult, make_append_result,
  make_verification_result,
}

-- What the adapter takes of Python's library: `json.loads`, which is `none` where it raises
-- `JSONDecodeError`, `json.dumps` and `int`.
pub record JsonText : Type 0 where
  pub loads : String → Option Value
  pub dumps : Value → String
  pub parse_int : Value → Result ℤ

-- The lines of the file, `none` where there is no file.
abbrev pub LedgerFile : Type 0
LedgerFile = Option (List String)

abbrev pub lines_of : LedgerFile → List String
lines_of none = []
lines_of (some lines) = lines

-- The digest of the last entry, or another where there is none.
abbrev pub digest_after : String → List AuditLedgerEntry → String
digest_after previous [] = previous
digest_after previous (e ∷ es) = digest_after e.entry_digest es

-- `existing[-1].entry_digest if existing else ''`
abbrev pub last_digest : List AuditLedgerEntry → String
last_digest es = digest_after "" es

-- One more at the end.
abbrev pub add_last {ℓ} : {A : Type ℓ} → List A → A → List A
add_last [] y = y ∷ []
add_last (x ∷ xs) y = x ∷ add_last xs y

-- The default of `limit`.
abbrev pub default_limit : ℕ
default_limit = 100

module _ (py : Runtime) (digests : RecordDigest) (json : JsonText) where
  -- The entry of a line that is parsed.
  abbrev pub parsed_entry : ℕ → Option Value → Result AuditLedgerEntry
  parsed_entry line_number none =
      fail_with "invalid_audit_ledger_jsonl" (text_of py (int (pos line_number)))
  parsed_entry line_number (some raw) =
      entry_from_mapping py digests json.parse_int raw >>= validate_audit_ledger_entry py digests

  -- One line of the file, where its text is not empty.
  unfoldable pub read_line : ℕ → String → Result AuditLedgerEntry
  read_line line_number line = parsed_entry line_number (json.loads line)

  -- The loop of `read`, with room for as many entries as the limit leaves.
  unfoldable pub read_lines : String → List String → ℕ → Bool → ℕ → Result (List AuditLedgerEntry)
  read_lines after [] number seen room = ok []
  read_lines after (line ∷ lines) number seen room =
      let skip = read_lines after lines (suc number) seen room in
      if strip line == ""
      then skip
      else (read_line number (strip line) >>= λ entry.
          (let passed = read_lines after lines (suc number) (entry.entry_id == after) room in
            let more = read_lines after lines (suc number) seen (room - 1) in
            if not seen
            then passed
            else (if leb room 1 then ok (entry ∷ []) else (do rest ← more; ok (entry ∷ rest)))))

  -- `JsonlAuditLedgerAdapter.read`
  unfoldable pub read : String → ℕ → LedgerFile → Result (List AuditLedgerEntry)
  read after limit file = do
    reject_if (ltb limit 1) "invalid_audit_ledger_read_limit"
    read_lines after (lines_of file) 1 (after == "") limit

  -- The entry that `append` makes first, without its digest.
  unfoldable pub new_entry : ℕ → GovAuditRecord → String → String → String → Result AuditLedgerEntry
  new_entry sequence checked record_digest event_digest previous = make_entry py digests (record {
    entry_id = "audit-ledger-entry-" ++ text_of py (int (pos (suc sequence)));
    sequence = pos sequence;
    record_of = built checked;
    record_digest = record_digest;
    schema_version = audit_ledger_entry_schema_version;
    event_digest = event_digest;
    previous_entry_digest = previous;
    entry_digest = "";
    recorded_at = "";
    metadata = dict (
        dict_of
          (("adapter", str "jsonl_hash_chain_dev") ∷ ("storage", str "development_only") ∷ []));
  })

  -- `AuditLedgerEntry(**{**entry.as_dict(), 'entry_digest': digest})`
  unfoldable pub with_digest : AuditLedgerEntry → String → Result AuditLedgerEntry
  with_digest entry digest = make_entry py digests (record {
    entry_id = entry.entry_id;
    sequence = entry.sequence;
    record_of = mapping (dict (audit_record_as_dict entry.record_of));
    record_digest = entry.record_digest;
    schema_version = entry.schema_version;
    event_digest = entry.event_digest;
    previous_entry_digest = entry.previous_entry_digest;
    entry_digest = digest;
    recorded_at = entry.recorded_at;
    metadata = dict entry.metadata;
  })

  -- The result of `append` where the caller names another previous digest.
  unfoldable pub previous_mismatch : Result AuditLedgerAppendResult
  previous_mismatch = make_append_result py (record {
    status = "rejected";
    entry_id = "";
    sequence = negsuc 0;
    entry_digest = "";
    reason_code = "audit_ledger_previous_digest_mismatch";
    blockers = "audit_ledger_previous_digest_mismatch" ∷ [];
    metadata = end;
  })

  -- The entry that `append` stores after the entries that it has read.
  unfoldable pub stored_entry :
      List AuditLedgerEntry → GovAuditRecord → String → String → Result AuditLedgerEntry
  stored_entry existing checked record_digest event_digest = do
    entry ← new_entry (length existing) checked record_digest event_digest (last_digest existing)
    digest ← audit_ledger_entry_digest py digests entry
    with_digest entry digest

  -- `append` up to the write: the entry to store, or `none` where the caller names another previous
  -- digest.
  unfoldable pub prepare_append :
      LedgerFile → GovAuditRecord → String → String → String → Result (Option AuditLedgerEntry)
  prepare_append file item record_digest event_digest previous_entry_digest = do
    checked ← validate_audit_record py item
    existing ← read "" default_limit file
    (if not (strip previous_entry_digest == "")
          && not (strip previous_entry_digest == last_digest existing)
        then ok none
        else (do
          stored ← stored_entry existing checked record_digest event_digest
          ok (some stored)))

  -- The result of `append` for the entry that it has stored.
  unfoldable pub appended_result : AuditLedgerEntry → Result AuditLedgerAppendResult
  appended_result stored = make_append_result py (record {
    status = "appended";
    entry_id = stored.entry_id;
    sequence = stored.sequence;
    entry_digest = stored.entry_digest;
    reason_code = "recorded";
    blockers = [];
    metadata = end;
  })

  -- The file after one more line.
  abbrev pub written : LedgerFile → AuditLedgerEntry → LedgerFile
  written file stored = some (add_last (lines_of file) (json.dumps (dict (entry_as_dict stored))))

  abbrev pub finish_append :
      LedgerFile → Result (Option AuditLedgerEntry) → Result AuditLedgerAppendResult × LedgerFile
  finish_append file (err e) = (err e, file)
  finish_append file (ok none) = (previous_mismatch, file)
  finish_append file (ok (some stored)) = (appended_result stored, written file stored)

  -- `JsonlAuditLedgerAdapter.append`: the result, and the file afterwards.
  unfoldable pub append :
      LedgerFile
      → GovAuditRecord
      → String
      → String
      → String
      → Result AuditLedgerAppendResult × LedgerFile
  append file item record_digest event_digest previous_entry_digest =
      finish_append file (prepare_append file item record_digest event_digest previous_entry_digest)
