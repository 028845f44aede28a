-- ===== src/Governance/Tests.antt =====
-- Scope decisions and key searches at concrete scopes and bindings.
use gov_engine.Prelude.{String, ◌≡◌, refl, true, false, [], ◌∷◌}
use gov_engine.Python.Number.{pos}
use gov_engine.Python.Text.{strip, up_to_index, from_index}
use gov_engine.Python.Sorting.{sorted_set, insert_text, text_lt}
use gov_engine.Python.Integers.{sorted_ints, insert_int}
use gov_engine.Python.Value.{
  text, Value, str, int, dict, Fields, dict_of, lookup, item_count, field_count,
}
use gov_engine.Errors.{Result, ok, require_mapping}
use gov_engine.JsonBoundary.{bounded_json_copy, walk, visit}
use gov_engine.Policy.Forbidden.Laws.{in_dict, is_key}
use gov_engine.Governance.Keys.{
  item_entries, field_entries, first_forbidden, inspect, scan, find_bounded_governance_key,
  forbidden_governance_input_keys, reject_forbidden_governance_input, is_forbidden_key,
}
use gov_engine.Governance.Keys.Laws.{find_bounded_governance_key_clean}
use gov_engine.Governance.Validation.{
  required_text, require_sha256_digest, is_sha256_digest, all_hex,
}
use gov_engine.Governance.Scope.{
  RecordDigest, ScopePolicyBinding, validate_network, validate_scope_policy_binding,
  scope_policy_binding_digest,
}
use gov_engine.Governance.Scope.Request.{
  self_authorized_scope_keys, raw_destination_keys, filled_mapping, reject_self_authorized_scope,
  reject_raw_destination, validate_requested_scope,
}
use gov_engine.Governance.Scope.Decision.{
  ScopeDecision, scope_decision, destination_port, destination_reason, scope_reason,
  evaluate_scope_policy,
}
use gov_engine.Governance.Scope.Decision.Laws.{ScopePermitted, evaluate_scope_policy_allowed}
use gov_engine.Governance.Scope.Request.Laws.{validate_requested_scope_clean}
use gov_engine.Samples.{plain_runtime}

abbrev some_digest : String
some_digest = "sha256:0123456789abcdef0123456789abcdef0123456789abcdef0123456789abcdef"

abbrev one_digest : RecordDigest
one_digest = record { record_digest = λ v t. ok some_digest }

abbrev binding : ScopePolicyBinding
binding = record {
  binding_id = "binding-1";
  policy_pack_digest = some_digest;
  policy_epoch = pos 1;
  source_ref = "source";
  attestation_ref = "attestation";
  allowed_target_namespaces = "staging" ∷ [];
  network_allowed = true;
  allowed_schemes = "https" ∷ [];
  allowed_ports = pos 443 ∷ [];
  allowed_address_classes = "public" ∷ [];
  redirect_policy = "deny";
  private_networks_allowed = false;
  schema_version = "v1";
}

abbrev destination_to : String → Fields
destination_to address_class = dict_of (
    ("scheme", str "https")
    ∷ ("effective_port", int (pos 443))
    ∷ ("address_class", str address_class)
    ∷ ("origin_binding_digest", str some_digest)
    ∷ [])

abbrev scope_to : String → Fields
scope_to address_class = dict_of (
    ("target_namespace", str "staging")
    ∷ ("requested_destination", dict (destination_to address_class))
    ∷ [])

search : Value → Result (Unit {0})
unfolding reject_forbidden_governance_input find_bounded_governance_key scan inspect item_entries
    field_entries first_forbidden strip item_count field_count
search v = reject_forbidden_governance_input plain_runtime v

request : Value → Result Fields
unfolding validate_requested_scope require_mapping reject_forbidden_governance_input
    reject_self_authorized_scope reject_raw_destination filled_mapping bounded_json_copy walk visit
    search
request v = validate_requested_scope plain_runtime v

run : Fields → ScopePolicyBinding → Result ScopeDecision
unfolding evaluate_scope_policy request scope_decision scope_reason destination_reason
    destination_port required_text require_sha256_digest is_sha256_digest all_hex
    validate_scope_policy_binding validate_network scope_policy_binding_digest sorted_set
    insert_text text_lt sorted_ints insert_int lookup up_to_index from_index
run scope policy = evaluate_scope_policy plain_runtime one_digest (dict scope) policy

abbrev allowed : ScopeDecision
allowed =
    unfold scope_decision up_to_index from_index in
    scope_decision some_digest some_digest binding "scope_allowed"

evaluate_scope_policy_allowed_example :
    (validate_scope_policy_binding binding ≡ ok tt)
    × ((scope : Fields) × (validate_requested_scope plain_runtime (dict (scope_to "public"))
          ≡ ok scope)
        × ScopePermitted binding scope)
unfolding run
evaluate_scope_policy_allowed_example =
    evaluate_scope_policy_allowed plain_runtime one_digest (dict (scope_to "public")) binding
      allowed refl refl

validate_requested_scope_clean_example :
    (is_forbidden_key plain_runtime forbidden_governance_input_keys (text "target_namespace")
      ≡ false)
    × (is_forbidden_key plain_runtime self_authorized_scope_keys (text "target_namespace") ≡ false)
    × (is_forbidden_key plain_runtime raw_destination_keys (text "target_namespace") ≡ false)
unfolding request
validate_requested_scope_clean_example =
    validate_requested_scope_clean plain_runtime (λ s e. e) (scope_to "public") (scope_to "public")
      (text "target_namespace") refl (in_dict is_key)

find_bounded_governance_key_clean_example :
    is_forbidden_key plain_runtime forbidden_governance_input_keys (text "target_namespace") ≡ false
unfolding search
find_bounded_governance_key_clean_example =
    find_bounded_governance_key_clean plain_runtime forbidden_governance_input_keys
      (dict (scope_to "public")) refl refl (text "target_namespace") (in_dict is_key)
