-- ===== src/Admission/Adapter/Storing.antt =====
-- govengine/admission.py: the entry that `JsonlAuditLedgerAdapter.append` stores.
use gov_engine.Prelude.{
  ℕ, suc, ◌+◌, String, not, List, [], ◌∷◌, ◌==◌, ◌≡◌, ◌≢◌, length, eq_iff, eqb-false_of_ne,
  not-eq-false, ap, sym, ◌∙◌, arith,
}
use gov_engine.Python.Number.{pos}
use gov_engine.Python.Text.{strip}
use gov_engine.Python.Text.Stripping.{strip_idem}
use gov_engine.Python.Value.{Fields, Runtime}
use gov_engine.Errors.{ok, >>=-eq-ok, checked-eq-ok, rejected-eq-ok}
use gov_engine.Governance.Scope.{RecordDigest}
use gov_engine.Admission.{admission_metadata}
use gov_engine.Admission.Audit.{GovAuditRecord}
use gov_engine.Admission.Ledger.{
  AuditLedgerEntry, EntryInput, built_record, make_entry, check_entry, check_entry_fields,
  stripped_entry, check_entry_digest, audit_ledger_entry_digest, validate_audit_ledger_entry,
}
use gov_engine.Admission.Adapter.{
  JsonText, new_entry, with_digest, stored_entry, last_digest, digest_after, add_last,
}
use gov_engine.Admission.Adapter.Chain.{Chained}

module _ (py : Runtime) (digests : RecordDigest) where
  -- What an entry keeps of what it is made of.
  pub record Kept (input : EntryInput) (e : AuditLedgerEntry) : Type 0 where
    pub number : e.sequence ≡ input.sequence
    pub previous : e.previous_entry_digest ≡ strip input.previous_entry_digest
    pub digest : e.entry_digest ≡ strip input.entry_digest
    pub checked : check_entry py digests e ≡ ok tt

  stripped_entry-Kept :
      (input : EntryInput) (item : GovAuditRecord) (metadata : Fields) {e : AuditLedgerEntry}
      → validate_audit_ledger_entry py digests (stripped_entry py digests input item metadata)
        ≡ ok e
      → Kept input e
  unfolding validate_audit_ledger_entry
  stripped_entry-Kept input item metadata {e} h =
      let (tests, same) =
        checked-eq-ok (check_entry py digests (stripped_entry py digests input item metadata)) _
          h in
      record {
        number = ap (λ x. x.sequence) same;
        previous = ap (λ x. x.previous_entry_digest) same;
        digest = ap (λ x. x.entry_digest) same;
        checked = ap (check_entry py digests) same ∙ tests;
      }

  pub make_entry-Kept :
      (input : EntryInput) {e : AuditLedgerEntry}
      → make_entry py digests input ≡ ok e
      → Kept input e
  unfolding make_entry
  make_entry-Kept input h =
      let (item, read, h₁) = >>=-eq-ok (built_record py digests input.record_of) _ h in
      let (metadata, copied, h₂) = >>=-eq-ok (admission_metadata py input.metadata) _ h₁ in
      stripped_entry-Kept input item metadata h₂

  compared-eq-ok :
      (e : AuditLedgerEntry)
      → e.entry_digest ≢ ""
      → check_entry_digest py digests e ≡ ok tt
      → audit_ledger_entry_digest py digests e ≡ ok e.entry_digest
  unfolding check_entry_digest
  compared-eq-ok e filled h =
      let (computed, found, h₁) =
        >>=-eq-ok (audit_ledger_entry_digest py digests e) _
          (rw (eqb-false_of_ne e.entry_digest "" filled) at h) in
      let same = rejected-eq-ok (not (e.entry_digest == computed)) _ h₁ in
      found ∙ ap ok (sym ((eq_iff e.entry_digest computed).0 (not-eq-false same)))

  pub check_entry-digest :
      (e : AuditLedgerEntry)
      → check_entry py digests e ≡ ok tt
      → e.entry_digest ≢ ""
      → audit_ledger_entry_digest py digests e ≡ ok e.entry_digest
  unfolding check_entry
  check_entry-digest e h filled =
      let (_, fields, h₁) = >>=-eq-ok (check_entry_fields py digests e) _ h in
      let (done, compared, h₂) = >>=-eq-ok (check_entry_digest py digests e) _ h₁ in
      compared-eq-ok e filled compared

  -- The entry that comes after a list of entries.
  pub record Next (existing : List AuditLedgerEntry) (e : AuditLedgerEntry) : Type 0 where
    pub number : e.sequence ≡ pos (length existing)
    pub previous : e.previous_entry_digest ≡ strip (last_digest existing)
    pub sealed : e.entry_digest ≢ "" → audit_ledger_entry_digest py digests e ≡ ok e.entry_digest

  module _ (json : JsonText) where
    pub stored_entry-Next :
        (existing : List AuditLedgerEntry) (item : GovAuditRecord) (record_digest event : String)
        {stored : AuditLedgerEntry}
        → stored_entry py digests json existing item record_digest event ≡ ok stored
        → Next existing stored
    unfolding stored_entry new_entry with_digest
    stored_entry-Next existing item record_digest event {stored} h =
        let (entry, made, h₁) =
          >>=-eq-ok
            (new_entry py digests json (length existing) item record_digest event
              (last_digest existing))
            _ h in
        let (digest, computed, h₂) = >>=-eq-ok (audit_ledger_entry_digest py digests entry) _ h₁ in
        let first = make_entry-Kept _ made in
        let second = make_entry-Kept _ h₂ in
        record {
          number = second.number ∙ first.number;
          previous = second.previous ∙ ap strip first.previous ∙ strip_idem (last_digest existing);
          sealed = λ filled. check_entry-digest stored second.checked filled;
        }

  -- An entry that comes next extends a chain.
  pub extend-Chained :
      (previous : String) (index : ℕ) (es : List AuditLedgerEntry) (e : AuditLedgerEntry)
      → Chained py digests previous index es
      → e.sequence ≡ pos (index + length es)
      → e.previous_entry_digest ≡ digest_after previous es
      → audit_ledger_entry_digest py digests e ≡ ok e.entry_digest
      → Chained py digests previous index (add_last es e)
  unfolding Chained
  extend-Chained previous index [] e chain number link digest =
      (number ∙ ap pos (omega arith), link, digest, tt)
  extend-Chained previous index (f ∷ es) e (first, here, own, chain) number link digest = (
    first,
    here,
    own,
    extend-Chained f.entry_digest (suc index) es e chain (number ∙ ap pos (omega arith)) link
        digest,
  )
