-- ===== src/Admission.antt =====
-- govengine/admission.py: the closed sets of words, the metadata of records and the readings that the
-- records of this file share.
pub mod Records
pub mod Verdicts
pub mod Audit
pub mod Ledger
pub mod Outcomes
pub mod Adapter
pub mod Blockers
pub mod Signals
pub mod References
pub mod RuntimeResult
pub mod Composition
pub mod Proof
use gov_engine.Prelude.{
  String, Bool, true, false, not, ◌&&◌, ◌||◌, List, [], ◌∷◌, ◌==◌, if◌then◌else◌,
}
use gov_engine.Python.Text.{strip, in_texts, or_text}
use gov_engine.Python.Number.{ℤ, pos}
use gov_engine.Python.Value.{
  Key, key_text, Value, null, bool, int, str, list, tuple, dict, Items, nil, cons, Fields, end,
  field, get_or_null, or_value, truthy, Runtime, text_of,
}
use gov_engine.Run.{texts_of, keys_of}
use gov_engine.Errors.{Result, ok, fail, fail_with, reject_if, require_mapping, ◌>>=◌, ◌>>◌}
use gov_engine.JsonBoundary.{default_json_boundary_limits, bounded_json_copy}
use gov_engine.Policy.Model.Parse.{mapping_of}
use gov_engine.Governance.Validation.{require_sha256_digest}

abbrev pub admission_outcomes : List String
admission_outcomes = "allowed" ∷ "denied" ∷ "deferred" ∷ "dry_run_only" ∷ "record_only" ∷ []

abbrev pub subject_kinds : List String
subject_kinds =
    "task" ∷ "run" ∷ "host" ∷ "artifact" ∷ "profile" ∷ "operator_action" ∷ "generic" ∷ []

abbrev pub policy_decisions : List String
policy_decisions =
    "allow" ∷ "deny" ∷ "defer" ∷ "require_approval" ∷ "dry_run_only" ∷ "record_only" ∷ []

abbrev pub approval_states : List String
approval_states =
    "not_required" ∷ "requested" ∷ "approved" ∷ "denied" ∷ "expired" ∷ "cancelled" ∷ []

abbrev pub audit_record_types : List String
audit_record_types =
    "admission_decision" ∷ "policy_decision" ∷ "approval_request" ∷ "operator_review" ∷ []

-- `FORBIDDEN_ADMISSION_METADATA_KEYS`
abbrev pub forbidden_admission_metadata_keys : List String
forbidden_admission_metadata_keys =
    "raw_intent" ∷ "raw_payload" ∷ "raw_evidence" ∷ "raw_output" ∷ "prompt" ∷ "credential"
    ∷ "credentials" ∷ "secret" ∷ "token" ∷ "password" ∷ "api_key" ∷ "command" ∷ "commands"
    ∷ "stdout" ∷ "stderr" ∷ "subprocess" ∷ "shell" ∷ "live_execution" ∷ "live_backend"
    ∷ "carrier_payload" ∷ "transport_payload" ∷ "runtime_storage" ∷ "storage_path" ∷ "scheduler"
    ∷ "schedule" ∷ "target" ∷ "target_url" ∷ "url" ∷ []

-- `_require_digest_ref`
unfoldable pub require_digest_ref : String → String → String → Result String
require_digest_ref value missing_reason invalid_reason =
    if value == "" then fail missing_reason else require_sha256_digest (str value) invalid_reason

-- `_validate_optional_digest_ref`
unfoldable pub validate_optional_digest_ref : String → String → Result (Unit {0})
validate_optional_digest_ref value invalid_reason =
    if value == ""
    then ok tt
    else (do digest ← require_sha256_digest (str value) invalid_reason; ok tt)

module _ (py : Runtime) where
  -- `_find_forbidden_key`: the first forbidden name, or "".
  unfoldable mutual
    pub find_forbidden_key : Value → String
    find_forbidden_key (dict m) = forbidden_in_fields m
    find_forbidden_key (list vs) = forbidden_in_items vs
    find_forbidden_key (tuple vs) = forbidden_in_items vs
    find_forbidden_key _ = ""

    pub forbidden_in_items : Items → String
    forbidden_in_items nil = ""
    forbidden_in_items (cons v vs) =
        let rest = forbidden_in_items vs in or_text (find_forbidden_key v) rest

    pub forbidden_in_fields : Fields → String
    forbidden_in_fields end = ""
    forbidden_in_fields (field k v m) =
        let name = py.lower (key_text k) in
        let rest = forbidden_in_fields m in
        let later = or_text (find_forbidden_key v) rest in
        if in_texts name forbidden_admission_metadata_keys then name else later

  -- `_reject_forbidden_metadata`
  unfoldable pub reject_forbidden_metadata : Fields → Result (Unit {0})
  reject_forbidden_metadata value =
      let reason = find_forbidden_key (dict value) in
      if reason == "" then ok tt else fail_with "forbidden_admission_metadata" reason

  -- `_metadata`
  unfoldable pub admission_metadata : Value → Result Fields
  admission_metadata null = ok end
  admission_metadata value = do
    raw ← require_mapping value "invalid_admission_metadata"
    copy ← bounded_json_copy default_json_boundary_limits (dict raw)
    reject_forbidden_metadata (mapping_of copy)
    ok (mapping_of copy)

  -- `str(value or '').strip().lower()`
  abbrev pub normalized_word : Value → String
  normalized_word value = py.lower (strip (text_of py (or_value value (str ""))))

  -- `_enum`
  unfoldable pub read_enum : Value → List String → String → String → Result String
  read_enum value allowed default unknown_reason =
      if normalized_word value == ""
      then ok default
      else (if in_texts (normalized_word value) allowed
          then ok (normalized_word value)
          else fail_with unknown_reason (normalized_word value))

  -- `_strict_enum`
  unfoldable pub read_strict_enum : Value → List String → String → Result String
  read_strict_enum value allowed unknown_reason =
      if in_texts (normalized_word value) allowed
      then ok (normalized_word value)
      else fail_with unknown_reason (or_text (normalized_word value) "missing")

  -- `_bool_value`
  unfoldable pub bool_value : Value → Bool → Result Bool
  bool_value null default = ok default
  bool_value (bool b) default = ok b
  bool_value (str s) default =
      if in_texts (py.lower (strip s)) ("true" ∷ "1" ∷ "yes" ∷ "y" ∷ [])
      then ok true
      else (if in_texts (py.lower (strip s)) ("false" ∷ "0" ∷ "no" ∷ "n" ∷ [])
          then ok false
          else fail_with "invalid_boolean" (or_text (py.lower (strip s)) "missing"))
  bool_value value default = ok (truthy value)

  -- `_tuple`
  unfoldable pub text_sequence : Value → Result (List String)
  text_sequence (str s) = ok (s ∷ [])
  text_sequence (list vs) = ok (texts_of py vs)
  text_sequence (tuple vs) = ok (texts_of py vs)
  text_sequence (dict m) = ok (keys_of py m)
  text_sequence _ = fail "invalid_admission_sequence"

  -- `_tuple(raw.get(key) or ())`
  abbrev pub read_sequence : String → Fields → Result (List String)
  read_sequence key raw = text_sequence (or_value (get_or_null key raw) (tuple nil))
