-- ===== src/Admission/Adapter/Tests.antt =====
-- The adapter on concrete files, with a digest that is the same for every record.
use gov_engine.Prelude.{
  ℕ, zero, suc, ◌-◌, ◌≤◌, String, true, false, List, some, [], ◌∷◌, ◌==◌, ◌≡◌, refl, inl, inr,
  length, leb, sym, arith,
}
use gov_engine.Python.Number.{ℤ, pos}
use gov_engine.Python.Text.{strip, from_index}
use gov_engine.Python.Value.{str, dict, Fields, end, dict_of, lookup, item_count, field_count}
use gov_engine.Python.Reading.{read_text, read_text_alias, read_text_or}
use gov_engine.Errors.{Result, ok, fail, require_mapping, ◌>>=◌}
use gov_engine.JsonBoundary.{bounded_json_copy, walk, visit}
use gov_engine.Samples.{plain_runtime}
use gov_engine.Governance.Validation.{require_sha256_digest, is_sha256_digest, all_hex}
use gov_engine.Governance.Scope.{RecordDigest}
use gov_engine.Admission.{
  require_digest_ref, validate_optional_digest_ref, find_forbidden_key, reject_forbidden_metadata,
  admission_metadata, read_enum, text_sequence,
}
use gov_engine.Admission.Audit.{
  GovAuditRecord, check_audit_record, validate_audit_record, audit_record_from_mapping,
}
use gov_engine.Admission.Ledger.{
  AuditLedgerEntry, digest_payload, entry_as_dict, audit_record_digest, audit_ledger_entry_digest,
  check_entry_digest, check_entry_fields, check_entry, validate_audit_ledger_entry, make_entry,
  entry_from_mapping,
}
use gov_engine.Admission.Outcomes.{
  AuditLedgerAppendResult, AuditLedgerVerificationResult, check_appended, check_verified,
  check_append_result, check_verification_result, validate_append_result,
  validate_verification_result, make_append_result, make_verification_result,
}
use gov_engine.Admission.Adapter.{
  JsonText, LedgerFile, read_line, read_lines, read, new_entry, with_digest, previous_mismatch,
  stored_entry, prepare_append, appended_result, append, default_limit, digest_after, lines_of,
  written, add_last,
}
use gov_engine.Admission.Adapter.Verification.{
  validate_entries, chain_failure, audit_ledger_failed, verify,
}
use gov_engine.Admission.Adapter.Chain.{Chained}
use gov_engine.Admission.Adapter.History.{NoCollision, record_digests, verify-same_history}
use gov_engine.Admission.Adapter.Reading.{read_lines-full}
use gov_engine.Admission.Adapter.Appending.{append-Chained, append-bounded, append-full}
use gov_engine.Admission.Adapter.Verifying.{Verdict, verify-Chained}

abbrev some_digest : String
some_digest = "sha256:0123456789abcdef0123456789abcdef0123456789abcdef0123456789abcdef"

abbrev one_digest : RecordDigest
one_digest = record { record_digest = λ v t. ok some_digest }

abbrev audit_record : GovAuditRecord
audit_record = record {
  record_id = "record-1";
  record_type = "admission_decision";
  subject_ref = "task-1";
  schema_version = "v0.1";
  subject_kind = "task";
  decision_ref = "";
  reason_code = "recorded";
  event_refs = [];
  recorded_at = "";
  metadata = end;
}

abbrev adapter_metadata : Fields
adapter_metadata =
    dict_of (("adapter", str "jsonl_hash_chain_dev") ∷ ("storage", str "development_only") ∷ [])

-- Entry number `n`.
abbrev entry_at : ℤ → String → AuditLedgerEntry
entry_at n previous = record {
  entry_id = "audit-ledger-entry-int";
  sequence = n;
  record_of = audit_record;
  record_digest = some_digest;
  schema_version = "v0.1";
  event_digest = "";
  previous_entry_digest = previous;
  entry_digest = some_digest;
  recorded_at = "";
  metadata = adapter_metadata;
}

verified : List AuditLedgerEntry → Result AuditLedgerVerificationResult
unfolding verify validate_entries chain_failure audit_ledger_failed validate_audit_ledger_entry
    check_entry check_entry_fields check_entry_digest audit_ledger_entry_digest audit_record_digest
    digest_payload make_verification_result validate_verification_result check_verification_result
    check_verified validate_optional_digest_ref require_digest_ref require_sha256_digest
    is_sha256_digest all_hex from_index strip admission_metadata bounded_json_copy walk visit
    field_count item_count reject_forbidden_metadata find_forbidden_key validate_audit_record
    check_audit_record require_mapping
verified es = verify plain_runtime one_digest es

abbrev two_entries : List AuditLedgerEntry
two_entries = entry_at (pos 0) "" ∷ entry_at (pos 1) some_digest ∷ []

abbrev verdict_of_two : AuditLedgerVerificationResult
verdict_of_two = record {
  status = "verified";
  verified = true;
  checked_entries = pos 2;
  last_entry_id = "audit-ledger-entry-int";
  last_entry_digest = some_digest;
  reason_code = "verified";
  blockers = [];
  metadata = end;
}

two_are_verified : verify plain_runtime one_digest two_entries ≡ ok verdict_of_two
unfolding verified
two_are_verified = refl

verify-Chained_example : Verdict plain_runtime one_digest two_entries verdict_of_two
verify-Chained_example =
    verify-Chained plain_runtime one_digest two_entries verdict_of_two two_are_verified

other_is_unverified :
    (verify plain_runtime one_digest (entry_at (pos 0) "" ∷ entry_at (pos 2) some_digest ∷ [])
      >>= λ r. ok r.reason_code)
    ≡ ok "audit_ledger_sequence_mismatch"
unfolding verified
other_is_unverified = refl

abbrev one_entry : List AuditLedgerEntry
one_entry = entry_at (pos 0) "" ∷ []

abbrev verdict_of_one : AuditLedgerVerificationResult
verdict_of_one = record {
  status = "verified";
  verified = true;
  checked_entries = pos 1;
  last_entry_id = "audit-ledger-entry-int";
  last_entry_digest = some_digest;
  reason_code = "verified";
  blockers = [];
  metadata = end;
}

one_is_verified : verify plain_runtime one_digest one_entry ≡ ok verdict_of_one
unfolding verified
one_is_verified = refl

one_is_free : NoCollision plain_runtime one_digest one_entry one_entry
one_is_free e f (inl e_is) (inl f_is) d key s own other found =
    rw (sym f_is) (rw (sym e_is) at found)
one_is_free e f (inl e_is) (inr gone) d key s own other found = elim gone [ ]
one_is_free e f (inr gone) f_is d key s own other found = elim gone [ ]

verify-same_history_example : record_digests one_entry ≡ record_digests one_entry
verify-same_history_example =
    verify-same_history plain_runtime one_digest one_entry one_entry verdict_of_one verdict_of_one
      one_is_free one_is_verified one_is_verified refl refl refl refl

abbrev plain_json : JsonText
plain_json = record {
  loads = λ text. some (dict (entry_as_dict (entry_at (pos 0) "")));
  dumps = λ v. "{}";
  parse_int = λ v. fail "no_integer";
}

append_first : LedgerFile → Result AuditLedgerAppendResult × LedgerFile
unfolding append appended_result prepare_append stored_entry previous_mismatch with_digest new_entry
    read read_lines read_line validate_audit_ledger_entry check_entry check_entry_fields
    check_entry_digest audit_ledger_entry_digest audit_record_digest digest_payload make_entry
    entry_from_mapping audit_record_from_mapping make_append_result validate_append_result
    check_append_result check_appended validate_optional_digest_ref require_digest_ref
    require_sha256_digest is_sha256_digest all_hex from_index strip admission_metadata
    bounded_json_copy walk visit field_count item_count reject_forbidden_metadata find_forbidden_key
    validate_audit_record check_audit_record require_mapping lookup read_text read_text_alias
    read_text_or read_enum text_sequence entry_as_dict
append_first file = append plain_runtime one_digest plain_json file audit_record some_digest "" ""

abbrev appended_at : ℕ → AuditLedgerAppendResult
appended_at n = record {
  status = "appended";
  entry_id = "audit-ledger-entry-int";
  sequence = pos n;
  entry_digest = some_digest;
  reason_code = "recorded";
  blockers = [];
  metadata = end;
}

appends_to_one :
    append plain_runtime one_digest plain_json (some ("{}" ∷ [])) audit_record some_digest "" ""
    ≡ (ok (appended_at 1), some ("{}" ∷ "{}" ∷ []))
unfolding append_first
appends_to_one = refl

one_is_read :
    read plain_runtime one_digest plain_json "" default_limit (some ("{}" ∷ [])) ≡ ok one_entry
unfolding append_first
one_is_read = refl

one_is_Chained : Chained plain_runtime one_digest "" 0 one_entry
unfolding verified Chained audit_ledger_entry_digest
one_is_Chained = (refl, refl, refl, tt)

append-Chained_example :
    (stored : AuditLedgerEntry) × (some ("{}" ∷ "{}" ∷ [])
      ≡ written plain_runtime one_digest plain_json (some ("{}" ∷ [])) stored)
    × (pos 1 ≡ stored.sequence)
    × Chained plain_runtime one_digest "" 0 (add_last one_entry stored)
append-Chained_example =
    append-Chained plain_runtime one_digest plain_json (some ("{}" ∷ [])) (some ("{}" ∷ "{}" ∷ []))
      audit_record some_digest "" "" one_entry (appended_at 1) one_is_read appends_to_one refl
      one_is_Chained

append-bounded_example : (pos 1 ≡ pos (length one_entry)) × (length one_entry ≤ 100)
append-bounded_example =
    append-bounded plain_runtime one_digest plain_json (some ("{}" ∷ [])) (some ("{}" ∷ "{}" ∷ []))
      audit_record some_digest "" "" one_entry (appended_at 1) one_is_read appends_to_one refl

abbrev repeated {ℓ} : {A : Type ℓ} → ℕ → A → List A
repeated zero x = []
repeated (suc n) x = x ∷ repeated n x

line_is_read :
    (number : ℕ)
    → read_line plain_runtime one_digest plain_json number "{}" ≡ ok (entry_at (pos 0) "")
unfolding append_first
line_is_read number = refl

brace_is_text : (strip "{}" == "") ≡ false
unfolding append_first
brace_is_text = refl

brace_is_stripped : strip "{}" ≡ "{}"
unfolding append_first
brace_is_stripped = refl

one_more :
    (lines : List String) (number room : ℕ) {later : List AuditLedgerEntry}
    → leb room 1 ≡ false
    → read_lines plain_runtime one_digest plain_json "" lines (suc number) true (room - 1)
      ≡ ok later
    → read_lines plain_runtime one_digest plain_json "" ("{}" ∷ lines) number true room
      ≡ ok (entry_at (pos 0) "" ∷ later)
unfolding read_lines
one_more lines number room more rest =
    rw (brace_is_text, brace_is_stripped, line_is_read number, more, rest) refl

lines_are_read :
    (n number : ℕ)
    → read_lines plain_runtime one_digest plain_json "" (repeated (suc n) "{}") number true (suc n)
      ≡ ok (repeated (suc n) (entry_at (pos 0) ""))
unfolding read_lines
lines_are_read zero number = rw (brace_is_text, brace_is_stripped, line_is_read number) refl
lines_are_read (suc n) number =
    let later : suc (suc n) - 1 ≡ suc n = omega arith in
    one_more (repeated (suc n) "{}") number (suc (suc n)) (ground arith)
      (rw (later) (lines_are_read n (suc number)))

appends_after :
    (file : LedgerFile) (existing : List AuditLedgerEntry)
    → read plain_runtime one_digest plain_json "" default_limit file ≡ ok existing
    → digest_after "" existing ≡ some_digest
    → append plain_runtime one_digest plain_json file audit_record some_digest "" ""
      ≡ (ok (appended_at (length existing)), some (add_last (lines_of file) "{}"))
unfolding append appended_result prepare_append stored_entry previous_mismatch with_digest new_entry
    validate_audit_ledger_entry check_entry check_entry_fields check_entry_digest
    audit_ledger_entry_digest audit_record_digest digest_payload make_entry entry_from_mapping
    audit_record_from_mapping make_append_result validate_append_result check_append_result
    check_appended validate_optional_digest_ref require_digest_ref require_sha256_digest
    is_sha256_digest all_hex from_index strip admission_metadata bounded_json_copy walk visit
    field_count item_count reject_forbidden_metadata find_forbidden_key validate_audit_record
    check_audit_record require_mapping lookup read_text read_text_alias read_text_or read_enum
    text_sequence
appends_after file existing reads last = rw (reads, last) refl

abbrev full_file : LedgerFile
full_file = some (repeated 100 "{}")

abbrev fuller_file : LedgerFile
fuller_file = some (add_last (repeated 100 "{}") "{}")

abbrev hundred : List AuditLedgerEntry
hundred = repeated 100 (entry_at (pos 0) "")

full_is_read : read plain_runtime one_digest plain_json "" default_limit full_file ≡ ok hundred
unfolding read
full_is_read = lines_are_read 99 1

fuller_is_read : read plain_runtime one_digest plain_json "" default_limit fuller_file ≡ ok hundred
unfolding read
fuller_is_read =
    read_lines-full plain_runtime one_digest plain_json "" (repeated 100 "{}") "{}" 1 true 100
      (omega arith) refl (lines_are_read 99 1)

append-full_example : (pos 100 ≡ pos 100) × (pos 100 ≡ pos 100)
append-full_example =
    append-full plain_runtime one_digest plain_json full_file fuller_file
      (some (add_last (lines_of fuller_file) "{}")) audit_record audit_record some_digest "" ""
      some_digest "" "" hundred (appended_at 100) (appended_at 100) full_is_read refl
      (appends_after full_file hundred full_is_read refl) refl
      (appends_after fuller_file hundred fuller_is_read refl) refl
