-- ===== src/Admission/Adapter/Verifying.antt =====
-- govengine/admission.py: what `JsonlAuditLedgerAdapter.verify` answers.
use gov_engine.Prelude.{
  String, true, false, List, [], ◌∷◌, ◌==◌, ◌≡◌, ◌↔◌, refl, inl, inr, is_empty, length, eq_iff,
  Bool-cases, ap, sym, ◌∙◌, ne_of_eqb-false,
}
use gov_engine.Python.Number.{pos}
use gov_engine.Python.Value.{Runtime}
use gov_engine.Errors.{ok, >>=-eq-ok, ok-injective}
use gov_engine.Governance.Scope.{RecordDigest}
use gov_engine.Admission.Outcomes.{AuditLedgerVerificationResult}
use gov_engine.Admission.Ledger.{AuditLedgerEntry}
use gov_engine.Admission.Adapter.Verification.{
  chain_failure, validate_entries, verify, audit_ledger_failed, verified_result, empty_result,
  judged, verify_checked,
}
use gov_engine.Admission.Adapter.Chain.{
  Chained, chain_failure-Chained, Chained-chain_failure, validate_entries-eq-ok,
  make_verification_result-verified,
}

module _ (py : Runtime) (digests : RecordDigest) where
  -- What the verification says of a list of entries.
  unfoldable pub Verdict : List AuditLedgerEntry → AuditLedgerVerificationResult → Type 0
  Verdict es r =
      ((r.verified ≡ true) ↔ ((is_empty es ≡ false) × Chained py digests "" 0 es))
      × (r.checked_entries ≡ pos (length es))

  failed-Verdict :
      (e : AuditLedgerEntry) (es : List AuditLedgerEntry) (reason : String)
      {r : AuditLedgerVerificationResult}
      → chain_failure py digests "" 0 (e ∷ es) ≡ ok reason
      → (reason == "") ≡ false
      → audit_ledger_failed py digests (e ∷ es) reason ≡ ok r
      → Verdict (e ∷ es) r
  unfolding audit_ledger_failed Verdict
  failed-Verdict e es reason found broken h =
      let (unverified, count) = make_verification_result-verified py digests _ h in
      (
        (
          λ holds. cc,
          λ (filled, chain). absurd (
              ne_of_eqb-false reason "" broken
                (ok-injective (sym found ∙ Chained-chain_failure py digests "" 0 (e ∷ es) chain))),
        ),
        count,
      )

  verified-Verdict :
      (e : AuditLedgerEntry) (es : List AuditLedgerEntry) {r : AuditLedgerVerificationResult}
      → chain_failure py digests "" 0 (e ∷ es) ≡ ok ""
      → verified_result py digests (e ∷ es) ≡ ok r
      → Verdict (e ∷ es) r
  unfolding Verdict
  verified-Verdict e es found h =
      let (holds, count) = make_verification_result-verified py digests _ h in
      ((λ _. (refl, chain_failure-Chained py digests "" 0 (e ∷ es) found), λ _. holds), count)

  empty-Verdict :
      {r : AuditLedgerVerificationResult} → empty_result py digests ≡ ok r → Verdict [] r
  unfolding Verdict
  empty-Verdict h =
      let (unverified, count) = make_verification_result-verified py digests _ h in
      ((λ holds. cc, λ (filled, chain). cc), count)

  checked-Verdict :
      (es : List AuditLedgerEntry) {r : AuditLedgerVerificationResult}
      → verify_checked py digests es ≡ ok r
      → Verdict es r
  checked-Verdict [] h = empty-Verdict h
  checked-Verdict (e ∷ es) h =
      let (reason, found, h₁) =
        >>=-eq-ok (chain_failure py digests "" 0 (e ∷ es)) (judged py digests (e ∷ es)) h in
      elim (Bool-cases (reason == "")) [
        | inl blank ↦
            verified-Verdict e es (found ∙ ap ok ((eq_iff reason "").0 blank)) (rw blank at h₁)
        | inr broken ↦ failed-Verdict e es reason found broken (rw broken at h₁)
      ]

  -- Where `verify` answers on a list of entries, it says they are verified exactly if there is an
  -- entry and the entries are chained from number 0 and the empty digest, and it counts all entries.
  pub verify-Chained :
      (es : List AuditLedgerEntry) (r : AuditLedgerVerificationResult)
      → verify py digests es ≡ ok r
      → Verdict es r
  unfolding verify
  verify-Chained es r h =
      let (checked, here, h₁) =
        >>=-eq-ok (validate_entries py digests es) (verify_checked py digests) h in
      let same = validate_entries-eq-ok py digests es here in checked-Verdict es (rw same at h₁)
