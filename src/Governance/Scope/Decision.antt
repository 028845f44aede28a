-- ===== src/Governance/Scope/Decision.antt =====
-- govengine/scope_policy.py: the decision on a requested scope.
pub mod Laws
use Prim.Native.String.{◌++◌}
use gov_engine.Prelude.{ℕ, String, Bool, true, false, not, ◌&&◌, List, [], ◌∷◌, ◌==◌, if◌then◌else◌}
use gov_engine.Python.Number.{ℤ, pos}
use gov_engine.Python.Text.{in_texts, from_index, up_to_index}
use gov_engine.Python.Integers.{in_ints}
use gov_engine.Python.Value.{Value, null, int, str, dict, Fields, get_or_null, Runtime}
use gov_engine.Errors.{Result, ok, fail, require_mapping, ◌>>=◌, ◌>>◌}
use gov_engine.Governance.Validation.{required_text, require_sha256_digest}
use gov_engine.Governance.Scope.{
  RecordDigest, ScopePolicyBinding, validate_scope_policy_binding, scope_policy_binding_digest,
  is_port,
}
use gov_engine.Governance.Scope.Request.{validate_requested_scope}

pub record ScopeDecision : Type 0 where
  pub decision_id : String
  pub status : String
  pub reason_code : String
  pub requested_scope_digest : String
  pub policy_binding_digest : String
  pub redirect_policy : String
  pub blockers : List String
  pub schema_version : String

-- `ScopeDecision.allowed`
abbrev pub is_allowed : ScopeDecision → Bool
is_allowed d = d.status == "allowed"

-- `_scope_decision`
unfoldable pub scope_decision : String → String → ScopePolicyBinding → String → ScopeDecision
scope_decision scope_digest policy_digest policy reason = record {
  decision_id =
      "scope:"
      ++ up_to_index 16 (from_index 7 scope_digest)
      ++ ":"
      ++ up_to_index 16 (from_index 7 policy_digest);
  status = if reason == "scope_allowed" then "allowed" else "denied";
  reason_code = reason;
  requested_scope_digest = scope_digest;
  policy_binding_digest = policy_digest;
  redirect_policy = policy.redirect_policy;
  blockers = if reason == "scope_allowed" then [] else reason ∷ [];
  schema_version = "v1";
}

abbrev pub private_address_classes : List String
private_address_classes = "private" ∷ "loopback" ∷ "link_local" ∷ []

-- The port of a destination.
unfoldable pub destination_port : Value → Result ℤ
destination_port (int (pos n)) =
    if is_port n then ok (pos n) else fail "invalid_requested_destination_port"
destination_port _ = fail "invalid_requested_destination_port"

-- The reason that the checks of a destination end with.
unfoldable pub destination_reason : ScopePolicyBinding → Fields → Result String
destination_reason policy raw = if not policy.network_allowed then ok "network_not_allowed" else (do
  scheme ← required_text raw "scheme" "missing_requested_destination_scheme"
  if not (in_texts scheme policy.allowed_schemes) then ok "network_scheme_not_allowed" else (do
    port ← destination_port (get_or_null "effective_port" raw)
    if not (in_ints port policy.allowed_ports) then ok "network_port_not_allowed" else (do
      address_class ← required_text raw "address_class" "missing_requested_address_class"
      if in_texts address_class private_address_classes && not policy.private_networks_allowed
          then ok "private_network_not_allowed"
          else if not (in_texts address_class policy.allowed_address_classes)
          then ok "network_address_class_not_allowed"
          else (do
            origin ←
                required_text raw "origin_binding_digest" "missing_requested_origin_binding_digest"
            digest ← require_sha256_digest (str origin) "invalid_requested_origin_binding_digest"
            ok "scope_allowed"))))

-- The reason of a decision on a requested scope.
unfoldable pub scope_reason : ScopePolicyBinding → Fields → Result String
scope_reason policy scope = do
  namespace ← required_text scope "target_namespace" "missing_requested_target_namespace"
  if not (in_texts namespace policy.allowed_target_namespaces)
      then ok "target_namespace_not_allowed"
      else elim (get_or_null "requested_destination" scope) [
        | null ↦ ok "scope_allowed"
        | destination ↦ (do
          raw ← require_mapping destination "invalid_requested_destination"
          destination_reason policy raw)
      ]

module _ (py : Runtime) (signing : RecordDigest) where
  -- `evaluate_scope_policy`, of a `ScopePolicyBinding`
  unfoldable pub evaluate_scope_policy : Value → ScopePolicyBinding → Result ScopeDecision
  evaluate_scope_policy requested policy = do
    scope ← validate_requested_scope py requested
    validate_scope_policy_binding policy
    scope_digest ← signing.record_digest (dict scope) "govengine.governance.RequestedScope"
    policy_digest ← scope_policy_binding_digest signing policy
    reason ← scope_reason policy scope
    ok (scope_decision scope_digest policy_digest policy reason)
