-- ===== src/Admission/Adapter/History.antt =====
-- govengine/admission.py: two ledgers that end in the same digest.
use gov_engine.Prelude.{
  ℕ, suc, String, true, List, some, [], ◌∷◌, ◌==◌, ◌≡◌, refl, inl, inr, In, Bool-cases, length, ap,
  sym, ◌∙◌, arith,
}
use gov_engine.Python.Number.{pos}
use gov_engine.Python.Value.{str, get, lookup, Runtime}
use gov_engine.Errors.{ok}
use gov_engine.Governance.Scope.{RecordDigest}
use gov_engine.Admission.Ledger.{AuditLedgerEntry, audit_ledger_entry_digest, digest_payload}
use gov_engine.Admission.Outcomes.{AuditLedgerVerificationResult}
use gov_engine.Admission.Adapter.{digest_after, last_digest}
use gov_engine.Admission.Adapter.Verification.{verify}
use gov_engine.Admission.Adapter.Chain.{Chained}
use gov_engine.Admission.Adapter.Verifying.{verify-Chained, Verdict}

-- No entry of one ledger has the digest of an entry of the other with other texts in its payload.
abbrev pub NoCollision :
    Runtime → RecordDigest → List AuditLedgerEntry → List AuditLedgerEntry → Type 0
NoCollision py digests es fs =
    (e f : AuditLedgerEntry)
    → In e es
    → In f fs
    → (d key s : String) → audit_ledger_entry_digest py digests e ≡ ok d
    → audit_ledger_entry_digest py digests f ≡ ok d
    → get key (digest_payload e) ≡ some (str s)
    → get key (digest_payload f) ≡ some (str s)

abbrev pub record_digests : List AuditLedgerEntry → List String
record_digests [] = []
record_digests (e ∷ es) = e.record_digest ∷ record_digests es

record_digest_of_payload :
    (e : AuditLedgerEntry) → get "record_digest" (digest_payload e) ≡ some (str e.record_digest)
unfolding digest_payload lookup
record_digest_of_payload e = elim (Bool-cases (e.schema_version == "")) [
  | inl missing ↦ rw (missing) refl
  | inr given ↦ rw (given) refl
]

previous_of_payload :
    (e : AuditLedgerEntry)
    → get "previous_entry_digest" (digest_payload e) ≡ some (str e.previous_entry_digest)
unfolding digest_payload lookup
previous_of_payload e = elim (Bool-cases (e.schema_version == "")) [
  | inl missing ↦ rw (missing) refl
  | inr given ↦ rw (given) refl
]

pos-injective : {a b : ℕ} → pos a ≡ pos b → a ≡ b
pos-injective e = cc

str-injective : {a b : String} → some (str a) ≡ some (str b) → a ≡ b
str-injective e = cc

module _ (py : Runtime) (digests : RecordDigest) where
  agree :
      (es fs : List AuditLedgerEntry) (e f : AuditLedgerEntry)
      → NoCollision py digests (e ∷ es) (f ∷ fs)
      → audit_ledger_entry_digest py digests e ≡ ok e.entry_digest
      → audit_ledger_entry_digest py digests f ≡ ok f.entry_digest
      → e.entry_digest ≡ f.entry_digest
      → (key s : String) → get key (digest_payload e) ≡ some (str s)
      → get key (digest_payload f) ≡ some (str s)
  agree es fs e f free own other same key s =
      free e f (inl refl) (inl refl) f.entry_digest key s (own ∙ ap ok same) other

  same_entry :
      (es fs : List AuditLedgerEntry) (e f : AuditLedgerEntry)
      → NoCollision py digests (e ∷ es) (f ∷ fs)
      → audit_ledger_entry_digest py digests e ≡ ok e.entry_digest
      → audit_ledger_entry_digest py digests f ≡ ok f.entry_digest
      → e.entry_digest ≡ f.entry_digest
      → (e.record_digest ≡ f.record_digest) × (e.previous_entry_digest ≡ f.previous_entry_digest)
  same_entry es fs e f free own other same = (
    str-injective (
        sym (
          agree es fs e f free own other same "record_digest" e.record_digest
            (record_digest_of_payload e))
        ∙ record_digest_of_payload f),
    str-injective (
        sym (
          agree es fs e f free own other same "previous_entry_digest" e.previous_entry_digest
            (previous_of_payload e))
        ∙ previous_of_payload f),
  )

  -- Chains of one length that end in one digest began after one digest, and hold the same records.
  same_chain :
      (p q : String) (index : ℕ) (es fs : List AuditLedgerEntry)
      → NoCollision py digests es fs
      → Chained py digests p index es
      → Chained py digests q index fs
      → length es ≡ length fs
      → digest_after p es ≡ digest_after q fs
      → (p ≡ q) × (record_digests es ≡ record_digests fs)
  unfolding Chained
  same_chain p q index [] [] free left right count last = (last, refl)
  same_chain p q index [] (f ∷ fs) free left right count last = absurd (omega (arith, count))
  same_chain p q index (e ∷ es) [] free left right count last = absurd (omega (arith, count))
  same_chain p q index (e ∷ es) (f ∷ fs) free (_, here, own, left) (_, there, other, right) count
        last =
      let (same, rest) =
        same_chain e.entry_digest f.entry_digest (suc index) es fs
          (λ a b in_es in_fs. free a b (inr in_es) (inr in_fs)) left right (omega (arith, count))
          last in
      let (recorded, before) = same_entry es fs e f free own other same in
      (sym here ∙ before ∙ there, cc)

  -- Two ledgers that both verify, with as many entries and the same last digest, and without a
  -- collision of digests between their entries, hold records with the same digests in the same order.
  pub verify-same_history :
      (es fs : List AuditLedgerEntry) (r q : AuditLedgerVerificationResult)
      → NoCollision py digests es fs
      → verify py digests es ≡ ok r
      → verify py digests fs ≡ ok q
      → r.verified ≡ true
      → q.verified ≡ true
      → r.checked_entries ≡ q.checked_entries
      → last_digest es ≡ last_digest fs
      → record_digests es ≡ record_digests fs
  unfolding Verdict
  verify-same_history es fs r q free done done' holds holds' count last =
      let ((left, _), counted) = verify-Chained py digests es r done in
      let ((right, _), counted') = verify-Chained py digests fs q done' in
      (same_chain "" "" 0 es fs free (left holds).1 (right holds').1
        (pos-injective (sym counted ∙ count ∙ counted')) last).1
