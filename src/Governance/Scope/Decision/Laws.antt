-- ===== src/Governance/Scope/Decision/Laws.antt =====
-- govengine/scope_policy.py: what a binding permits, and lemmas on decisions.
use gov_engine.Prelude.{
  ℕ, ◌≤◌, String, Bool, true, false, not, ◌&&◌, ◌≡◌, ◌≢◌, refl, ◌∙◌, ap, ◌⊎◌, inl, inr, ◌==◌,
  if◌then◌else◌, In, arith, Bool-cases, ne_of_eqb-false, not-eq-false, eq_iff,
}
use gov_engine.Errors.{fail-ne-ok}
use gov_engine.Python.Number.{ℤ, pos}
use gov_engine.Python.Text.{strip, in_texts}
use gov_engine.Python.Sorting.Laws.{In_of_in_texts}
use gov_engine.Python.Integers.{in_ints}
use gov_engine.Python.Value.{Value, null, int, str, dict, Fields, get_or_null, Runtime}
use gov_engine.Errors.{
  Result, ok, fail, ◌>>=◌, >>=-eq-ok, ok-injective, if-err-eq-ok, require_mapping,
}
use gov_engine.Governance.Validation.{required_text}
use gov_engine.Governance.Scope.{
  RecordDigest, ScopePolicyBinding, validate_scope_policy_binding, scope_policy_binding_digest,
  is_port,
}
use gov_engine.Governance.Scope.Request.{validate_requested_scope}
use gov_engine.Governance.Scope.Decision.{
  ScopeDecision, scope_decision, private_address_classes, destination_port, destination_reason,
  scope_reason, evaluate_scope_policy,
}

-- The text of a mapping's entry.
abbrev Reads : Fields → String → String → Type 0
Reads raw key s = (v : String) × (get_or_null key raw ≡ str v) × (strip v ≡ s) × (s ≢ "")

-- A destination that a binding lets through.
pub record DestinationPermitted (policy : ScopePolicyBinding) (raw : Fields) : Type 0 where
  pub network : policy.network_allowed ≡ true
  pub scheme : (s : String) × Reads raw "scheme" s × In s policy.allowed_schemes
  pub port :
      (n : ℕ) × (get_or_null "effective_port" raw ≡ int (pos n))
      × (1 ≤ n)
      × (n ≤ 65535)
      × (in_ints (pos n) policy.allowed_ports ≡ true)
  pub address_class :
      (s : String) × Reads raw "address_class" s
      × In s policy.allowed_address_classes
      × ((in_texts s private_address_classes ≡ false) ⊎ (policy.private_networks_allowed ≡ true))

-- A requested scope that a binding lets through.
pub record ScopePermitted (policy : ScopePolicyBinding) (scope : Fields) : Type 0 where
  pub namespace :
      (s : String) × Reads scope "target_namespace" s × In s policy.allowed_target_namespaces
  pub destination :
      (get_or_null "requested_destination" scope ≡ null)
      ⊎ ((raw : Fields) × (get_or_null "requested_destination" scope ≡ dict raw)
          × DestinationPermitted policy raw)

-- A test that has no other way to the reason `scope_allowed`.
passed :
    (b : Bool) (reason : String) (k : Result String)
    → (reason == "scope_allowed") ≡ false
    → (if b then ok reason else k) ≡ ok "scope_allowed"
    → (b ≡ false) × (k ≡ ok "scope_allowed")
passed true reason k other e =
    absurd (ne_of_eqb-false reason "scope_allowed" other (ok-injective e))
passed false reason k other e = (refl, e)

stripped_text :
    (v : Value) (reason s : String)
    → (elim v [ str t ↦ if strip t == "" then fail reason else ok (strip t) | _ ↦ fail reason ])
      ≡ ok s
    → (t : String) × (v ≡ str t) × (strip t ≡ s) × (s ≢ "")
stripped_text (str t) reason s e =
    let (full, same) = if-err-eq-ok (strip t == "") _ _ e in
    (t, refl, ok-injective same, rw (← ok-injective same) (ne_of_eqb-false (strip t) "" full))
stripped_text _ reason s e = cc

-- `b and not c` is false.
guarded : (b c : Bool) → (b && not c) ≡ false → (b ≡ false) ⊎ (c ≡ true)
guarded true c e = inr (not-eq-false e)
guarded false c e = inl refl

required_text-Reads :
    (raw : Fields) (key reason s : String) → required_text raw key reason ≡ ok s → Reads raw key s
unfolding required_text
required_text-Reads raw key reason s e = stripped_text (get_or_null key raw) reason s e

destination_port-eq-ok :
    (v : Value) (z : ℤ)
    → destination_port v ≡ ok z
    → (n : ℕ) × (v ≡ int (pos n)) × (1 ≤ n) × (n ≤ 65535) × (pos n ≡ z)
unfolding destination_port
destination_port-eq-ok (int (pos n)) z e = elim (Bool-cases (is_port n)) [
  | inl fits ↦ (n, refl, ground arith, ground arith, ok-injective (rw fits at e))
  | inr off ↦ absurd (fail-ne-ok (rw off at e))
]
destination_port-eq-ok _ z e = cc

destination_reason-allowed :
    (policy : ScopePolicyBinding) (raw : Fields)
    → destination_reason policy raw ≡ ok "scope_allowed"
    → DestinationPermitted policy raw
unfolding destination_reason
destination_reason-allowed policy raw e =
    let (network, e1) = passed (not policy.network_allowed) _ _ refl e in
    let (scheme, read_scheme, e2) = >>=-eq-ok (required_text raw "scheme" _) _ e1 in
    let (scheme_in, e3) = passed (not (in_texts scheme policy.allowed_schemes)) _ _ refl e2 in
    let (port, read_port, e4) =
      >>=-eq-ok (destination_port (get_or_null "effective_port" raw)) _ e3 in
    let (port_in, e5) = passed (not (in_ints port policy.allowed_ports)) _ _ refl e4 in
    let (class, read_class, e6) = >>=-eq-ok (required_text raw "address_class" _) _ e5 in
    let (private, e7) =
      passed (in_texts class private_address_classes && not policy.private_networks_allowed) _ _
        refl e6 in
    let (class_in, e8) = passed (not (in_texts class policy.allowed_address_classes)) _ _ refl e7 in
    let (n, is_int, low, high, same) =
      destination_port-eq-ok (get_or_null "effective_port" raw) port read_port in
    record {
      network = not-eq-false network;
      scheme = (
        scheme,
        required_text-Reads raw "scheme" _ scheme read_scheme,
        In_of_in_texts scheme policy.allowed_schemes (not-eq-false scheme_in),
      );
      port = (n, is_int, low, high, rw same (not-eq-false port_in));
      address_class = (
        class,
        required_text-Reads raw "address_class" _ class read_class,
        In_of_in_texts class policy.allowed_address_classes (not-eq-false class_in),
        guarded (in_texts class private_address_classes) _ private,
      );
    }

destination_of :
    (policy : ScopePolicyBinding) (v : Value)
    → ◌≡◌ {A = Result String}
        (elim v [
          | null ↦ ok "scope_allowed"
          | d ↦ require_mapping d "invalid_requested_destination" >>= λ raw.
              destination_reason policy raw
        ])
        (ok "scope_allowed")
    → (v ≡ null) ⊎ ((raw : Fields) × (v ≡ dict raw) × DestinationPermitted policy raw)
unfolding require_mapping
destination_of policy null e = inl refl
destination_of policy (dict raw) e = inr (raw, refl, destination_reason-allowed policy raw e)
destination_of policy _ e = cc

scope_reason-allowed :
    (policy : ScopePolicyBinding) (scope : Fields)
    → scope_reason policy scope ≡ ok "scope_allowed"
    → ScopePermitted policy scope
unfolding scope_reason
scope_reason-allowed policy scope e =
    let (name, read_name, e1) = >>=-eq-ok (required_text scope "target_namespace" _) _ e in
    let (name_in, e2) = passed (not (in_texts name policy.allowed_target_namespaces)) _ _ refl e1 in
    record {
      namespace = (
        name,
        required_text-Reads scope "target_namespace" _ name read_name,
        In_of_in_texts name policy.allowed_target_namespaces (not-eq-false name_in),
      );
      destination = destination_of policy (get_or_null "requested_destination" scope) e2;
    }

allowed_reason :
    (a b reason : String) (policy : ScopePolicyBinding)
    → (scope_decision a b policy reason).status ≡ "allowed"
    → reason ≡ "scope_allowed"
unfolding scope_decision
allowed_reason a b reason policy h = elim (Bool-cases (reason == "scope_allowed")) [
  | inl same ↦ (eq_iff reason "scope_allowed").0 same
  | inr other ↦ absurd (ne_of_eqb-false "denied" "allowed" refl (rw other at h))
]

-- An allowed decision rests on a valid binding that permits the scope which was checked: its target
-- namespace is listed, and a requested destination needs a binding that allows the network, with the
-- scheme, the port and the address class listed, and private classes allowed where the class is one.
pub evaluate_scope_policy_allowed :
    (py : Runtime) (signing : RecordDigest) (requested : Value) (policy : ScopePolicyBinding)
    (d : ScopeDecision)
    → evaluate_scope_policy py signing requested policy ≡ ok d
    → d.status ≡ "allowed"
    → (validate_scope_policy_binding policy ≡ ok tt)
      × ((scope : Fields) × (validate_requested_scope py requested ≡ ok scope)
          × ScopePermitted policy scope)
unfolding evaluate_scope_policy
evaluate_scope_policy_allowed py signing requested policy d e h =
    let (scope, checked, e1) = >>=-eq-ok (validate_requested_scope py requested) _ e in
    let (_, valid, e2) = >>=-eq-ok (validate_scope_policy_binding policy) _ e1 in
    let (a, _, e3) = >>=-eq-ok (signing.record_digest (dict scope) _) _ e2 in
    let (b, _, e4) = >>=-eq-ok (scope_policy_binding_digest signing policy) _ e3 in
    let (reason, ruled, e5) = >>=-eq-ok (scope_reason policy scope) _ e4 in
    let same =
      allowed_reason a b reason policy
        (ap (λ (x : ScopeDecision). x.status) (ok-injective e5) ∙ h) in
    (valid, (scope, checked, scope_reason-allowed policy scope (ruled ∙ ap ok same)))
