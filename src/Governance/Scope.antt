-- ===== src/Governance/Scope.antt =====
-- govengine/scope_policy.py: the binding of a scope policy, its validation and its digest.
pub mod Request
pub mod Decision
use gov_engine.Prelude.{
  ℕ, String, Bool, true, false, not, ◌&&◌, ◌||◌, List, [], ◌∷◌, ◌==◌, leb, if◌then◌else◌, is_empty,
  all, any,
}
use gov_engine.Python.Number.{ℤ, pos, negsuc}
use gov_engine.Python.Text.{strip, in_texts, same_texts}
use gov_engine.Python.Sorting.{sorted_set}
use gov_engine.Python.Integers.{sorted_ints, distinct_ints, same_ints}
use gov_engine.Python.Value.{
  Value, bool, int, str, list, tuple, dict, Items, nil, cons, Fields, get_or_null, dict_of,
  text_items,
}
use gov_engine.Errors.{Result, ok, fail, reject_if, require_mapping, ◌>>=◌, ◌>>◌}
use gov_engine.Governance.Validation.{
  required_text, require_sha256_digest, is_sha256_digest, required_nonnegative_int, text_tuple,
  schema_version, reject_unknown_fields,
}

-- What a client takes of govengine/signing.py: `govengine_record_digest(record, record_type=...)`.
pub record RecordDigest : Type 0 where
  pub record_digest : Value → String → Result String

pub record ScopePolicyBinding : Type 0 where
  pub binding_id : String
  pub policy_pack_digest : String
  pub policy_epoch : ℤ
  pub source_ref : String
  pub attestation_ref : String
  pub allowed_target_namespaces : List String
  pub network_allowed : Bool
  pub allowed_schemes : List String
  pub allowed_ports : List ℤ
  pub allowed_address_classes : List String
  pub redirect_policy : String
  pub private_networks_allowed : Bool
  pub schema_version : String

abbrev pub scope_policy_binding_schema_version : String
scope_policy_binding_schema_version = "v1"

abbrev pub scope_policy_binding_fields : List String
scope_policy_binding_fields =
    "schema_version" ∷ "binding_id" ∷ "policy_pack_digest" ∷ "policy_epoch" ∷ "source_ref"
    ∷ "attestation_ref" ∷ "allowed_target_namespaces" ∷ "network_allowed" ∷ "allowed_schemes"
    ∷ "allowed_ports" ∷ "allowed_address_classes" ∷ "redirect_policy" ∷ "private_networks_allowed"
    ∷ []

-- `_canonical_text_tuple`
unfoldable pub canonical_text_tuple : Value → String → Bool → Result (List String)
canonical_text_tuple value reason allow_empty = do
  texts ← text_tuple value reason
  reject_if (is_empty (sorted_set texts) && not allow_empty) reason
  ok (sorted_set texts)

-- `not 1 <= port <= 65535`, of an integer.
abbrev pub is_port : ℕ → Bool
is_port n = leb 1 n && leb n 65535

-- The loop of `_port_tuple`.
unfoldable pub ports_of : Items → Result (List ℤ)
ports_of nil = ok []
ports_of (cons (int (pos n)) vs) =
    if is_port n
    then (do rest ← ports_of vs; ok (pos n ∷ rest))
    else fail "invalid_allowed_network_ports"
ports_of (cons _ vs) = fail "invalid_allowed_network_ports"

abbrev canonical_ports : Items → Result (List ℤ)
canonical_ports vs = do
  ports ← ports_of vs
  reject_if (not (distinct_ints ports)) "invalid_allowed_network_ports"
  ok (sorted_ints ports)

-- `_port_tuple`
unfoldable pub port_tuple : Value → Result (List ℤ)
port_tuple (list vs) = canonical_ports vs
port_tuple (tuple vs) = canonical_ports vs
port_tuple _ = fail "invalid_allowed_network_ports"

-- `_strict_bool`
unfoldable pub strict_bool : Fields → String → String → Result Bool
strict_bool value key reason = elim (get_or_null key value) [ bool b ↦ ok b | _ ↦ fail reason ]

abbrev pub int_items : List ℤ → Items
int_items [] = nil
int_items (z ∷ zs) = cons (int z) (int_items zs)

-- `ScopePolicyBinding.as_dict`
abbrev pub binding_as_dict : ScopePolicyBinding → Fields
binding_as_dict item = dict_of (
    ("schema_version", str item.schema_version)
    ∷ ("binding_id", str item.binding_id)
    ∷ ("policy_pack_digest", str item.policy_pack_digest)
    ∷ ("policy_epoch", int item.policy_epoch)
    ∷ ("source_ref", str item.source_ref)
    ∷ ("attestation_ref", str item.attestation_ref)
    ∷ ("allowed_target_namespaces", list (text_items item.allowed_target_namespaces))
    ∷ ("network_allowed", bool item.network_allowed)
    ∷ ("allowed_schemes", list (text_items item.allowed_schemes))
    ∷ ("allowed_ports", list (int_items item.allowed_ports))
    ∷ ("allowed_address_classes", list (text_items item.allowed_address_classes))
    ∷ ("redirect_policy", str item.redirect_policy)
    ∷ ("private_networks_allowed", bool item.private_networks_allowed)
    ∷ [])

abbrev is_negative : ℤ → Bool
is_negative (pos n) = false
is_negative (negsuc n) = true

-- The member lists of a network policy: complete where the network is allowed, empty where not.
unfoldable pub validate_network : ScopePolicyBinding → Result (Unit {0})
validate_network item = do
  reject_if
      (item.network_allowed
        && (is_empty item.allowed_schemes
            || is_empty item.allowed_ports
            || is_empty item.allowed_address_classes))
      "scope_network_policy_incomplete"
  reject_if
      (not item.network_allowed
        && (not (is_empty item.allowed_schemes)
            || not (is_empty item.allowed_ports)
            || not (is_empty item.allowed_address_classes)))
      "scope_network_policy_disabled_with_allowlist"

-- `_validate_scope_policy_binding`, where the fields have the types that are declared
unfoldable pub validate_scope_policy_binding : ScopePolicyBinding → Result (Unit {0})
validate_scope_policy_binding item = do
  reject_if (not (item.schema_version == scope_policy_binding_schema_version))
      "unknown_scope_policy_binding_schema_version"
  reject_if (strip item.binding_id == "") "missing_scope_policy_binding_id"
  reject_if (strip item.source_ref == "") "missing_scope_policy_source_ref"
  reject_if (strip item.attestation_ref == "") "missing_scope_policy_attestation_ref"
  reject_if (not (is_sha256_digest item.policy_pack_digest)) "invalid_scope_policy_pack_digest"
  reject_if (is_negative item.policy_epoch) "invalid_scope_policy_epoch"
  reject_if
      (not (same_texts item.allowed_target_namespaces (sorted_set item.allowed_target_namespaces)))
      "invalid_allowed_target_namespaces"
  reject_if (not (same_texts item.allowed_schemes (sorted_set item.allowed_schemes)))
      "invalid_allowed_network_schemes"
  reject_if (not (same_ints item.allowed_ports (sorted_ints item.allowed_ports)))
      "invalid_allowed_network_ports"
  reject_if
      (not (same_texts item.allowed_address_classes (sorted_set item.allowed_address_classes)))
      "invalid_allowed_address_classes"
  reject_if (is_empty item.allowed_target_namespaces) "scope_policy_without_target_namespaces"
  reject_if (not (in_texts item.redirect_policy ("deny" ∷ "same_origin" ∷ [])))
      "unsupported_redirect_policy"
  reject_if (any (λ s. not (in_texts s ("http" ∷ "https" ∷ []))) item.allowed_schemes)
      "unsupported_scope_network_scheme"
  reject_if
      (any (λ s. not (in_texts s ("public" ∷ "private" ∷ "loopback" ∷ "link_local" ∷ [])))
        item.allowed_address_classes)
      "unsupported_scope_address_class"
  validate_network item

-- The end of `ScopePolicyBinding.from_mapping`
abbrev checked_binding : ScopePolicyBinding → Result ScopePolicyBinding
checked_binding item = do validate_scope_policy_binding item; ok item

-- `ScopePolicyBinding.from_mapping`
unfoldable pub binding_from_mapping : Value → Result ScopePolicyBinding
binding_from_mapping value = do
  raw ← require_mapping value "invalid_scope_policy_binding"
  reject_unknown_fields raw scope_policy_binding_fields "unknown_scope_policy_binding_field"
  binding_id ← required_text raw "binding_id" "missing_scope_policy_binding_id"
  pack_text ← required_text raw "policy_pack_digest" "missing_scope_policy_pack_digest"
  policy_pack_digest ← require_sha256_digest (str pack_text) "invalid_scope_policy_pack_digest"
  policy_epoch ← required_nonnegative_int raw "policy_epoch" "invalid_scope_policy_epoch"
  source_ref ← required_text raw "source_ref" "missing_scope_policy_source_ref"
  attestation_ref ← required_text raw "attestation_ref" "missing_scope_policy_attestation_ref"
  namespaces ←
      canonical_text_tuple (get_or_null "allowed_target_namespaces" raw)
        "invalid_allowed_target_namespaces" false
  network_allowed ← strict_bool raw "network_allowed" "invalid_scope_network_allowed"
  schemes ←
      canonical_text_tuple (get_or_null "allowed_schemes" raw) "invalid_allowed_network_schemes"
        true
  ports ← port_tuple (get_or_null "allowed_ports" raw)
  classes ←
      canonical_text_tuple (get_or_null "allowed_address_classes" raw)
        "invalid_allowed_address_classes" true
  redirect_policy ← required_text raw "redirect_policy" "missing_scope_redirect_policy"
  private_networks_allowed ←
      strict_bool raw "private_networks_allowed" "invalid_private_networks_allowed"
  version ←
      schema_version raw scope_policy_binding_schema_version
        "invalid_scope_policy_binding_schema_version"
  checked_binding (record {
    binding_id = binding_id;
    policy_pack_digest = policy_pack_digest;
    policy_epoch = pos policy_epoch;
    source_ref = source_ref;
    attestation_ref = attestation_ref;
    allowed_target_namespaces = namespaces;
    network_allowed = network_allowed;
    allowed_schemes = schemes;
    allowed_ports = ports;
    allowed_address_classes = classes;
    redirect_policy = redirect_policy;
    private_networks_allowed = private_networks_allowed;
    schema_version = version;
  })

module _ (signing : RecordDigest) where
  -- `scope_policy_binding_digest`, of a `ScopePolicyBinding`
  unfoldable pub scope_policy_binding_digest : ScopePolicyBinding → Result String
  scope_policy_binding_digest checked = do
    validate_scope_policy_binding checked
    signing.record_digest (dict (binding_as_dict checked))
        "govengine.scope_policy.ScopePolicyBinding"
