-- ===== src/Governance/Scope/Request.antt =====
-- govengine/scope_policy.py: the scope that a request asks for.
pub mod Laws
use gov_engine.Prelude.{String, List, [], ◌∷◌, ◌==◌, not}
use gov_engine.Python.Value.{Value, dict, Fields, is_end, Runtime}
use gov_engine.Errors.{Result, ok, fail, reject_if, require_mapping, ◌>>=◌, ◌>>◌}
use gov_engine.JsonBoundary.{default_json_boundary_limits, bounded_json_copy}
use gov_engine.Governance.Keys.{find_bounded_governance_key, reject_forbidden_governance_input}

abbrev pub self_authorized_scope_keys : List String
self_authorized_scope_keys =
    "allowed_address_classes" ∷ "allowed_ports" ∷ "allowed_schemes" ∷ "allowed_target_namespaces"
    ∷ "network_allowed" ∷ "private_networks_allowed" ∷ "redirect_policy" ∷ []

abbrev pub raw_destination_keys : List String
raw_destination_keys = "address" ∷ "host" ∷ "hostname" ∷ "ip" ∷ "url" ∷ []

-- `not isinstance(copied, Mapping) or not copied`
unfoldable pub filled_mapping : Value → Result Fields
filled_mapping (dict m) = do reject_if (is_end m) "invalid_requested_scope"; ok m
filled_mapping _ = fail "invalid_requested_scope"

module _ (py : Runtime) where
  -- `_reject_self_authorized_scope`
  unfoldable pub reject_self_authorized_scope : Value → Result (Unit {0})
  reject_self_authorized_scope value = do
    found ← find_bounded_governance_key py self_authorized_scope_keys value
    reject_if (not (found == "")) "self_authorized_scope_policy"

  -- `_reject_raw_destination`
  unfoldable pub reject_raw_destination : Value → Result (Unit {0})
  reject_raw_destination value = do
    found ← find_bounded_governance_key py raw_destination_keys value
    reject_if (not (found == "")) "raw_destination_detail_forbidden"

  -- `_bounded_scope`, which is `validate_requested_scope`
  unfoldable pub validate_requested_scope : Value → Result Fields
  validate_requested_scope value = do
    raw ← require_mapping value "invalid_requested_scope"
    reject_forbidden_governance_input py (dict raw)
    reject_self_authorized_scope (dict raw)
    reject_raw_destination (dict raw)
    copied ← bounded_json_copy default_json_boundary_limits (dict raw)
    filled_mapping copied
