-- ===== src/Policy/Forbidden.antt =====
-- govengine/policy/model: the search for forbidden keys in metadata.
pub mod Laws
mod Tests
use gov_engine.Prelude.{String, Bool, [], ◌∷◌, ◌==◌, if◌then◌else◌}
use gov_engine.Python.Text.{strip, in_texts}
use gov_engine.Python.Value.{
  Key, key_text, Value, null, list, tuple, dict, Items, nil, cons, Fields, end, field, Runtime,
}
use gov_engine.Errors.{Result, ok, fail_with}

-- `name in FORBIDDEN_POLICY_METADATA_KEYS`
unfoldable pub is_forbidden : String → Bool
is_forbidden name = in_texts name (
    "raw_intent" ∷ "raw_payload" ∷ "raw_evidence" ∷ "raw_output" ∷ "prompt" ∷ "credential"
    ∷ "credentials" ∷ "secret" ∷ "token" ∷ "password" ∷ "api_key" ∷ "command" ∷ "commands"
    ∷ "stdout" ∷ "stderr" ∷ "subprocess" ∷ "shell" ∷ "live_execution" ∷ "live_backend"
    ∷ "carrier_payload" ∷ "transport_payload" ∷ "runtime_storage" ∷ "storage_path" ∷ "scheduler"
    ∷ "schedule" ∷ "target" ∷ "target_url" ∷ "url" ∷ [])

module _ (py : Runtime) where
  -- `str(key).strip().lower()`
  abbrev pub normal_key : Key → String
  normal_key k = py.lower (strip (key_text k))

  -- `_find_forbidden_key`: the first forbidden name, or "".
  unfoldable mutual
    pub find_forbidden_key : Value → String
    find_forbidden_key (dict m) = forbidden_in_fields m
    find_forbidden_key (list vs) = forbidden_in_items vs
    find_forbidden_key (tuple vs) = forbidden_in_items vs
    find_forbidden_key _ = ""

    pub forbidden_in_items : Items → String
    forbidden_in_items nil = ""
    forbidden_in_items (cons v vs) =
        let found = find_forbidden_key v in
        let rest = forbidden_in_items vs in if found == "" then rest else found

    pub forbidden_in_fields : Fields → String
    forbidden_in_fields end = ""
    forbidden_in_fields (field k v m) =
        let found = find_forbidden_key v in
        let rest = forbidden_in_fields m in
        let later = if found == "" then rest else found in
        if is_forbidden (normal_key k) then normal_key k else later

  -- `_reject_forbidden_policy_metadata`
  unfoldable pub reject_forbidden_policy_metadata : Fields → Result (Unit {0})
  reject_forbidden_policy_metadata m =
      let key = find_forbidden_key (dict m) in
      if key == "" then ok tt else fail_with "forbidden_policy_metadata" key
