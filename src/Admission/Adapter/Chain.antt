-- ===== src/Admission/Adapter/Chain.antt =====
-- govengine/admission.py: the chain of entries that `JsonlAuditLedgerAdapter.verify` looks for.
use gov_engine.Prelude.{
  ℕ, suc, String, Bool, true, false, not, List, [], ◌∷◌, ◌==◌, ◌≡◌, ◌≢◌, refl, inl, inr, eqb,
  if◌then◌else◌, eq_iff, eq_refl, Bool-cases, ap, sym, ◌∙◌, ne_of_eqb-false, arith,
}
use gov_engine.Python.Number.{ℤ, pos, negsuc, eqb_ℤ}
use gov_engine.Python.Value.{dict, Runtime}
use gov_engine.Errors.{Result, ok, >>=-eq-ok, checked-eq-ok, ok-injective}
use gov_engine.Governance.Scope.{RecordDigest}
use gov_engine.Admission.{admission_metadata}
use gov_engine.Admission.Outcomes.{
  AuditLedgerVerificationResult, make_verification_result, validate_verification_result,
}
use gov_engine.Admission.Ledger.{
  AuditLedgerEntry, audit_ledger_entry_digest, check_entry, validate_audit_ledger_entry,
}
use gov_engine.Admission.Adapter.Verification.{chain_failure, validate_entries}

pub eqb_ℤ-eq : (a b : ℤ) → eqb_ℤ a b ≡ true → a ≡ b
eqb_ℤ-eq (pos a) (pos b) h = ap pos (ground arith)
eqb_ℤ-eq (negsuc a) (negsuc b) h = ap negsuc (ground arith)
eqb_ℤ-eq (pos a) (negsuc b) h = cc
eqb_ℤ-eq (negsuc a) (pos b) h = cc

eqb_refl : (n : ℕ) → eqb n n ≡ true
eqb_refl n = ground arith

-- A test that answers otherwise than by "" has not failed.
pass-eq-ok :
    (b : Bool) (reason : String) (rest : Result String)
    → (reason == "") ≡ false
    → (if not b then ok reason else rest) ≡ ok ""
    → (b ≡ true) × (rest ≡ ok "")
pass-eq-ok true reason rest text h = (refl, h)
pass-eq-ok false reason rest text h = absurd (ne_of_eqb-false reason "" text (ok-injective h))

mismatch-ne-empty : ◌≢◌ {A = Result String} (ok "audit_ledger_entry_digest_mismatch") (ok "")
mismatch-ne-empty e = ne_of_eqb-false "audit_ledger_entry_digest_mismatch" "" refl (ok-injective e)

same-eq-ok :
    (claimed computed : String) (rest : Result String)
    → (if claimed == computed then rest else ok "audit_ledger_entry_digest_mismatch") ≡ ok ""
    → (claimed ≡ computed) × (rest ≡ ok "")
same-eq-ok claimed computed rest h = elim (Bool-cases (claimed == computed)) [
  | inl same ↦ ((eq_iff claimed computed).0 same, ground arith)
  | inr other ↦ absurd (mismatch-ne-empty (ground arith))
]

module _ (py : Runtime) (digests : RecordDigest) where
  -- Entry number `index` and those after it: the numbers follow one another, each entry names the
  -- digest of the one before it, and each digest is the digest of its entry.
  unfoldable pub Chained : String → ℕ → List AuditLedgerEntry → Type 0
  Chained previous index [] = Unit
  Chained previous index (e ∷ es) =
      (e.sequence ≡ pos index)
      × (e.previous_entry_digest ≡ previous)
      × (audit_ledger_entry_digest py digests e ≡ ok e.entry_digest)
      × Chained e.entry_digest (suc index) es

  pub chain_failure-Chained :
      (previous : String) (index : ℕ) (es : List AuditLedgerEntry)
      → chain_failure py digests previous index es ≡ ok ""
      → Chained previous index es
  unfolding chain_failure Chained
  chain_failure-Chained previous index [] h = tt
  chain_failure-Chained previous index (e ∷ es) h =
      let (number, h₁) = pass-eq-ok (eqb_ℤ e.sequence (pos index)) _ _ refl h in
      let (link, h₂) = pass-eq-ok (e.previous_entry_digest == previous) _ _ refl h₁ in
      let (digest, computed, h₃) = >>=-eq-ok (audit_ledger_entry_digest py digests e) _ h₂ in
      let (claimed, rest) = same-eq-ok e.entry_digest digest _ h₃ in
      (
        eqb_ℤ-eq e.sequence (pos index) number,
        (eq_iff e.previous_entry_digest previous).0 link,
        computed ∙ ap ok (sym claimed),
        chain_failure-Chained e.entry_digest (suc index) es rest,
      )

  both_links :
      (previous : String) (index : ℕ) (e : AuditLedgerEntry) (es : List AuditLedgerEntry)
      → e.sequence ≡ pos index
      → e.previous_entry_digest ≡ previous
      → audit_ledger_entry_digest py digests e ≡ ok e.entry_digest
      → chain_failure py digests e.entry_digest (suc index) es ≡ ok ""
      → chain_failure py digests previous index (e ∷ es) ≡ ok ""
  unfolding chain_failure
  both_links previous index e es number link digest rest =
      let numbered = ap (λ z. eqb_ℤ z (pos index)) number ∙ eqb_refl index in
      let linked = ap (λ d. d == previous) link ∙ eq_refl previous in
      rw (digest, numbered, linked, eq_refl e.entry_digest, rest) refl

  pub Chained-chain_failure :
      (previous : String) (index : ℕ) (es : List AuditLedgerEntry)
      → Chained previous index es
      → chain_failure py digests previous index es ≡ ok ""
  unfolding chain_failure Chained
  Chained-chain_failure previous index [] h = refl
  Chained-chain_failure previous index (e ∷ es) (number, link, digest, rest) =
      both_links previous index e es number link digest
        (Chained-chain_failure e.entry_digest (suc index) es rest)

  pub validate_audit_ledger_entry-eq-ok :
      (e : AuditLedgerEntry) {checked : AuditLedgerEntry}
      → validate_audit_ledger_entry py digests e ≡ ok checked
      → checked ≡ e
  unfolding validate_audit_ledger_entry
  validate_audit_ledger_entry-eq-ok e h = (checked-eq-ok (check_entry py digests e) e h).1

  pub validate_entries-eq-ok :
      (es : List AuditLedgerEntry) {checked : List AuditLedgerEntry}
      → validate_entries py digests es ≡ ok checked
      → checked ≡ es
  unfolding validate_entries
  validate_entries-eq-ok [] h = sym (ok-injective h)
  validate_entries-eq-ok (e ∷ es) h =
      let (first, here, h₁) = >>=-eq-ok (validate_audit_ledger_entry py digests e) _ h in
      let (rest, there, h₂) = >>=-eq-ok (validate_entries py digests es) _ h₁ in
      let same = validate_audit_ledger_entry-eq-ok e here in
      let tail = validate_entries-eq-ok es there in cc

  -- A result of the verification keeps the verdict it was made with.
  pub make_verification_result-verified :
      (input : AuditLedgerVerificationResult) {r : AuditLedgerVerificationResult}
      → make_verification_result py input ≡ ok r
      → (r.verified ≡ input.verified) × (r.checked_entries ≡ input.checked_entries)
  unfolding make_verification_result validate_verification_result
  make_verification_result-verified input h =
      let (metadata, copied, h₁) = >>=-eq-ok (admission_metadata py (dict input.metadata)) _ h in
      let same = (checked-eq-ok _ _ h₁).1 in
      (ap (λ x. x.verified) same, ap (λ x. x.checked_entries) same)
