-- ===== src/Admission/Adapter/Appending.antt =====
-- govengine/admission.py: `JsonlAuditLedgerAdapter.append` on a file that has been read.
use gov_engine.Prelude.{
  ◌≤◌, String, Bool, true, false, not, ◌&&◌, List, none, some, Option, [], ◌∷◌, ◌==◌, ◌≡◌, ◌≢◌,
  refl, if◌then◌else◌, length, ne_of_eqb-false, ap, sym, ◌∙◌, All, none-ne-some, arith,
}
use gov_engine.Python.Number.{pos}
use gov_engine.Python.Text.{strip, in_texts}
use gov_engine.Python.Value.{dict, Runtime}
use gov_engine.Errors.{
  Error, Result, ok, err, ◌>>=◌, >>=-eq-ok, ok-injective, checked-eq-ok, reject_if-eq-ok, expect,
  fail-ne-ok,
}
use gov_engine.Governance.Scope.{RecordDigest}
use gov_engine.Admission.{admission_metadata, require_digest_ref}
use gov_engine.Admission.Audit.{GovAuditRecord, validate_audit_record}
use gov_engine.Admission.Ledger.{AuditLedgerEntry, entry_as_dict, is_below_zero}
use gov_engine.Admission.Outcomes.{
  AuditLedgerAppendResult, make_append_result, validate_append_result, check_append_result,
  check_appended, append_statuses, stripped_append_result,
}
use gov_engine.Admission.Adapter.{
  JsonText, LedgerFile, stored_entry, last_digest, digest_after, add_last, read, lines_of,
  default_limit, append, prepare_append, finish_append, appended_result, previous_mismatch, written,
}
use gov_engine.Admission.Adapter.Chain.{Chained}
use gov_engine.Admission.Adapter.Storing.{Next, stored_entry-Next, extend-Chained}
use gov_engine.Admission.Adapter.Reading.{Stripped, Room, read_lines-Room, read_lines-full}

last-Stripped :
    (previous : String) (es : List AuditLedgerEntry)
    → strip previous ≡ previous
    → All Stripped es
    → strip (digest_after previous es) ≡ digest_after previous es
last-Stripped previous [] clean all_clean = clean
last-Stripped previous (e ∷ es) clean (first, rest) = last-Stripped e.entry_digest es first rest

strip-rejected : strip "rejected" ≡ "rejected"
unfolding strip
strip-rejected = refl

strip-empty : strip "" ≡ ""
unfolding strip
strip-empty = refl

module _ (py : Runtime) (digests : RecordDigest) (json : JsonText) where
  stripped_append_result-eq-ok :
      (input : AuditLedgerAppendResult) {r : AuditLedgerAppendResult}
      → make_append_result py input ≡ ok r
      → (r.status ≡ strip input.status)
        × (r.entry_digest ≡ strip input.entry_digest)
        × (r.sequence ≡ input.sequence)
        × (check_append_result py r ≡ ok tt)
  unfolding make_append_result validate_append_result
  stripped_append_result-eq-ok input h =
      let (metadata, copied, h₁) = >>=-eq-ok (admission_metadata py (dict input.metadata)) _ h in
      let (tests, same) =
        checked-eq-ok (check_append_result py (stripped_append_result py input metadata)) _ h₁ in
      (
        ap (λ x. x.status) same,
        ap (λ x. x.entry_digest) same,
        ap (λ x. x.sequence) same,
        ap (check_append_result py) same ∙ tests,
      )

  appended-filled : (r : AuditLedgerAppendResult) → check_appended r ≡ ok tt → r.entry_digest ≢ ""
  unfolding check_appended require_digest_ref
  appended-filled r h blank =
      let (_, h₁) = reject_if-eq-ok (r.entry_id == "") _ _ h in
      let (_, h₂) = reject_if-eq-ok (is_below_zero r.sequence) _ _ h₁ in
      let (digest, found, _) = >>=-eq-ok (require_digest_ref r.entry_digest _ _) _ h₂ in
      fail-ne-ok (rw (blank) at found)

  -- A result that says `appended` has a digest.
  checked-filled :
      (r : AuditLedgerAppendResult)
      → r.status ≡ "appended"
      → check_append_result py r ≡ ok tt
      → r.entry_digest ≢ ""
  unfolding check_append_result check_appended require_digest_ref
  checked-filled r status h blank =
      let (_, known, h₁) =
        >>=-eq-ok
          (expect (in_texts r.status append_statuses) "unknown_audit_ledger_append_status" r.status)
          _ h in
      let (_, tests, h₂) =
        >>=-eq-ok (if r.status == "appended" then check_appended r else ok tt) _ h₁ in
      appended-filled r (rw (status) at tests) blank

  some-injective : {a b : AuditLedgerEntry} → some a ≡ some b → a ≡ b
  some-injective e = cc

  err-ne-ok :
      {e : Error} {r : AuditLedgerAppendResult}
      → ◌≢◌ {A = Result AuditLedgerAppendResult} (err e) (ok r)
  err-ne-ok e = cc

  -- A result that says `appended` comes from an entry that was stored.
  record Stored (file : LedgerFile) (existing : List AuditLedgerEntry) (r : AuditLedgerAppendResult)
      (file' : LedgerFile) : Type 0 where
    stored : AuditLedgerEntry
    next : Next py digests existing stored
    number : r.sequence ≡ stored.sequence
    digest : r.entry_digest ≡ strip stored.entry_digest
    filled : r.entry_digest ≢ ""
    after : file' ≡ written py digests json file stored

  finish_append-Stored :
      (file : LedgerFile) (existing : List AuditLedgerEntry)
      (prepared : Result (Option AuditLedgerEntry)) {r : AuditLedgerAppendResult}
      {file' : LedgerFile}
      → ((stored : AuditLedgerEntry)
          → prepared ≡ ok (some stored)
          → Next py digests existing stored)
      → finish_append py digests json file prepared ≡ (ok r, file')
      → r.status ≡ "appended"
      → Stored file existing r file'
  unfolding previous_mismatch appended_result
  finish_append-Stored file existing (err e) follow h status = absurd (err-ne-ok (ap (λ p. p.0) h))
  finish_append-Stored file existing (ok none) follow h status =
      let (named, digest, number, tests) = stripped_append_result-eq-ok _ (ap (λ p. p.0) h) in
      absurd (ne_of_eqb-false "rejected" "appended" refl (sym strip-rejected ∙ sym named ∙ status))
  finish_append-Stored file existing (ok (some stored)) follow h status =
      let (named, digest, number, tests) = stripped_append_result-eq-ok _ (ap (λ p. p.0) h) in
      record {
        stored = stored;
        next = follow stored refl;
        number = number;
        digest = digest;
        filled = checked-filled _ status tests;
        after = sym (ap (λ p. p.1) h);
      }

  prepared-Next :
      (existing : List AuditLedgerEntry) (checked : GovAuditRecord) (record_digest event : String)
      (mismatch : Bool) (stored : AuditLedgerEntry)
      → (if mismatch
          then ok none
          else (stored_entry py digests json existing checked record_digest event >>= λ e.
              ok (some e)))
        ≡ ok (some stored)
      → Next py digests existing stored
  prepared-Next existing checked record_digest event true stored h =
      absurd (none-ne-some (ok-injective h))
  prepared-Next existing checked record_digest event false stored h =
      let (entry, made, h₁) =
        >>=-eq-ok (stored_entry py digests json existing checked record_digest event)
          (λ e. ok (some e)) h in
      let same = ok-injective h₁ in
      stored_entry-Next py digests json existing checked record_digest event {stored = stored}
        (made ∙ ap ok (some-injective same))

  -- The entry that `append` prepares comes after the entries that it reads.
  prepare_append-Next :
      (file : LedgerFile) (item : GovAuditRecord) (record_digest event previous : String)
      (existing : List AuditLedgerEntry) (stored : AuditLedgerEntry)
      → read py digests json "" default_limit file ≡ ok existing
      → prepare_append py digests json file item record_digest event previous ≡ ok (some stored)
      → Next py digests existing stored
  unfolding prepare_append
  prepare_append-Next file item record_digest event previous existing stored reads h =
      let (checked, _, h₁) = >>=-eq-ok (validate_audit_record py item) _ h in
      let h₂ = rw (reads) at h₁ in
      prepared-Next existing checked record_digest event
        (not (strip previous == "") && not (strip previous == last_digest existing)) stored h₂

  append-Stored :
      (file : LedgerFile) (item : GovAuditRecord) (record_digest event previous : String)
      (existing : List AuditLedgerEntry) {r : AuditLedgerAppendResult} {file' : LedgerFile}
      → read py digests json "" default_limit file ≡ ok existing
      → append py digests json file item record_digest event previous ≡ (ok r, file')
      → r.status ≡ "appended"
      → Stored file existing r file'
  unfolding append
  append-Stored file item record_digest event previous existing reads h status =
      finish_append-Stored file existing
        (prepare_append py digests json file item record_digest event previous)
        (λ stored. prepare_append-Next file item record_digest event previous existing stored reads)
        h status

  read-Room :
      (file : LedgerFile) (existing : List AuditLedgerEntry)
      → read py digests json "" default_limit file ≡ ok existing
      → Room py digests json default_limit existing
  unfolding read
  read-Room file existing h =
      read_lines-Room py digests json "" (lines_of file) 1 true default_limit (omega arith) h

  read-written :
      (file : LedgerFile) (existing : List AuditLedgerEntry) (stored : AuditLedgerEntry)
      → read py digests json "" default_limit file ≡ ok existing
      → length existing ≡ 100
      → read py digests json "" default_limit (written py digests json file stored) ≡ ok existing
  unfolding read
  read-written file existing stored h count =
      read_lines-full py digests json "" (lines_of file) (json.dumps (dict (entry_as_dict stored)))
        1 true default_limit (omega arith) count h

  -- Where the entries that `append` reads are chained, and its result says `appended`,
  -- the file has one more line, of the entry that the result tells of, and the entries that were read
  -- followed by this one are chained too.
  pub append-Chained :
      (file file' : LedgerFile) (item : GovAuditRecord) (record_digest event previous : String)
      (existing : List AuditLedgerEntry) (r : AuditLedgerAppendResult)
      → read py digests json "" default_limit file ≡ ok existing
      → append py digests json file item record_digest event previous ≡ (ok r, file')
      → r.status ≡ "appended"
      → Chained py digests "" 0 existing
      → (stored : AuditLedgerEntry) × (file' ≡ written py digests json file stored)
        × (r.sequence ≡ stored.sequence)
        × Chained py digests "" 0 (add_last existing stored)
  append-Chained file file' item record_digest event previous existing r reads h status chain =
      let got = append-Stored file item record_digest event previous existing reads h status in
      let clean = last-Stripped "" existing strip-empty (read-Room file existing reads).0 in
      (
        got.stored,
        got.after,
        got.number,
        extend-Chained py digests "" 0 existing got.stored chain
            (got.next.number ∙ ap pos (omega arith)) (got.next.previous ∙ clean)
            (got.next.sealed (λ blank. got.filled (got.digest ∙ ap strip blank ∙ strip-empty))),
      )

  -- An `append` that says `appended` numbers its entry by the entries it reads, which are one hundred
  -- at most.
  pub append-bounded :
      (file file' : LedgerFile) (item : GovAuditRecord) (record_digest event previous : String)
      (existing : List AuditLedgerEntry) (r : AuditLedgerAppendResult)
      → read py digests json "" default_limit file ≡ ok existing
      → append py digests json file item record_digest event previous ≡ (ok r, file')
      → r.status ≡ "appended"
      → (r.sequence ≡ pos (length existing)) × (length existing ≤ 100)
  append-bounded file file' item record_digest event previous existing r reads h status =
      let got = append-Stored file item record_digest event previous existing reads h status in
      (got.number ∙ got.next.number, (read-Room file existing reads).1)

  -- Where `append` reads one hundred entries and its result says `appended`, and the next `append`
  -- on the file that it leaves says `appended` too, both give their entry the number 100.
  pub append-full :
      (file file' file'' : LedgerFile) (item item' : GovAuditRecord)
      (record_digest event previous record_digest' event' previous' : String)
      (existing : List AuditLedgerEntry) (r r' : AuditLedgerAppendResult)
      → read py digests json "" default_limit file ≡ ok existing
      → length existing ≡ 100
      → append py digests json file item record_digest event previous ≡ (ok r, file')
      → r.status ≡ "appended"
      → append py digests json file' item' record_digest' event' previous' ≡ (ok r', file'')
      → r'.status ≡ "appended"
      → (r.sequence ≡ pos 100) × (r'.sequence ≡ pos 100)
  append-full file file' file'' item item' rd ev pr rd' ev' pr' existing r r' reads count h status
        h' status' =
      let got = append-Stored file item rd ev pr existing reads h status in
      let again = read-written file existing got.stored reads count in
      let reads' = ap (read py digests json "" default_limit) got.after ∙ again in
      (
        (append-bounded file file' item rd ev pr existing r reads h status).0 ∙ ap pos count,
        (append-bounded file' file'' item' rd' ev' pr' existing r' reads' h' status').0
            ∙ ap pos count,
      )
