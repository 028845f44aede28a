-- ===== src/Governance/Scope/Request/Laws.antt =====
-- govengine/scope_policy.py: lemmas on requested scopes.
use gov_engine.Prelude.{
  String, true, false, not, ◌≡◌, refl, sym, ap, inl, inr, List, [], ◌∷◌, ◌==◌, if◌then◌else◌,
  Bool-cases, eqb-false_of_ne, ne_of_eqb-false, not-eq-true, all, eq_iff,
}
use gov_engine.Errors.{fail-ne-ok, fail_with-ne-ok}
use gov_engine.Prelude.{both_true, either_false}
use gov_engine.Python.Text.{strip, in_texts}
use gov_engine.Python.Value.{Key, Value, dict, Fields, is_end, Runtime}
use gov_engine.Errors.{
  Result, ok, err, fail_with, reject_if, ◌>>=◌, >>=-eq-ok, ok-injective, reject_if-eq-ok,
  require_mapping,
}
use gov_engine.Policy.Forbidden.Laws.{KeyIn}
use gov_engine.Governance.Keys.{
  folded_all, is_forbidden_key, find_bounded_governance_key, forbidden_governance_input_keys,
  reject_forbidden_governance_input,
}
use gov_engine.Governance.Keys.Laws.{find_bounded_governance_key_clean}
use gov_engine.Governance.Scope.Request.{
  self_authorized_scope_keys, raw_destination_keys, filled_mapping, reject_self_authorized_scope,
  reject_raw_destination, validate_requested_scope,
}

filled_mapping-eq-ok : (v : Value) (m : Fields) → filled_mapping v ≡ ok m → v ≡ dict m
unfolding filled_mapping
filled_mapping-eq-ok (dict n) m e = ap dict (ok-injective (reject_if-eq-ok (is_end n) _ (ok n) e).1)
filled_mapping-eq-ok _ m e = cc

-- A search whose result was not refused found nothing.
nothing_found :
    (m : Result String) (reason : String)
    → (m >>= λ found. reject_if (not (found == "")) reason) ≡ ok tt
    → m ≡ ok ""
nothing_found (ok f) reason e = elim (Bool-cases (f == "")) [
  | inl empty ↦ ap ok ((eq_iff f "").0 empty)
  | inr full ↦ absurd (fail-ne-ok (rw full at e))
]
nothing_found (err x) reason e = cc

nothing_detailed :
    (m : Result String) (reason : String)
    → ◌≡◌ {A = Result (Unit {0})}
        (m >>= λ found. if found == "" then ok tt else fail_with reason found)
        (ok tt)
    → m ≡ ok ""
nothing_detailed (ok f) reason e = elim (Bool-cases (f == "")) [
  | inl empty ↦ ap ok ((eq_iff f "").0 empty)
  | inr full ↦ absurd (fail_with-ne-ok (rw full at e))
]
nothing_detailed (err x) reason e = cc

module _ (py : Runtime) (kept : (s : String) → py.casefold s ≡ "" → s ≡ "") where
  -- Names that are not blank do not fold to the empty text.
  named :
      (keys : List String)
      → all (λ s. not (strip s == "")) keys ≡ true
      → in_texts "" (folded_all py [] keys) ≡ false
  named [] h = refl
  named (s ∷ ss) h =
      let (this, rest) = both_true (not (strip s == "")) _ h in
      either_false ("" == py.casefold (strip s)) _
        (eqb-false_of_ne "" (py.casefold (strip s))
          (λ e. ne_of_eqb-false (strip s) "" (not-eq-true this) (kept (strip s) (sym e))))
        (named ss rest)

  found_nothing :
      (keys : List String) (v : Value)
      → find_bounded_governance_key py keys v ≡ ok ""
      → all (λ s. not (strip s == "")) keys ≡ true
      → (k : Key) → KeyIn k v
      → is_forbidden_key py keys k ≡ false
  found_nothing keys v e h = find_bounded_governance_key_clean py keys v (named keys h) e

  -- A requested scope that is accepted has no key, at any depth, of the governance deny list, of a
  -- scope policy or of a raw destination. Case folding is taken to make no text empty that was not.
  pub validate_requested_scope_clean :
      (raw scope : Fields) (k : Key)
      → validate_requested_scope py (dict raw) ≡ ok scope
      → KeyIn k (dict raw)
      → (is_forbidden_key py forbidden_governance_input_keys k ≡ false)
        × (is_forbidden_key py self_authorized_scope_keys k ≡ false)
        × (is_forbidden_key py raw_destination_keys k ≡ false)
  unfolding validate_requested_scope reject_forbidden_governance_input reject_self_authorized_scope
      reject_raw_destination require_mapping strip
  validate_requested_scope_clean raw scope k e h =
      let (_, e1, r1) = >>=-eq-ok (reject_forbidden_governance_input py (dict raw)) _ e in
      let (_, e2, r2) = >>=-eq-ok (reject_self_authorized_scope py (dict raw)) _ r1 in
      let (_, e3, _) = >>=-eq-ok (reject_raw_destination py (dict raw)) _ r2 in
      (
        found_nothing forbidden_governance_input_keys (dict raw)
            (nothing_detailed
              (find_bounded_governance_key py forbidden_governance_input_keys (dict raw)) _ e1)
            refl k h,
        found_nothing self_authorized_scope_keys (dict raw)
            (nothing_found (find_bounded_governance_key py self_authorized_scope_keys (dict raw)) _
              e2)
            refl k h,
        found_nothing raw_destination_keys (dict raw)
            (nothing_found (find_bounded_governance_key py raw_destination_keys (dict raw)) _ e3)
            refl k h,
      )
