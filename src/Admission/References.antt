-- ===== src/Admission/References.antt =====
-- govengine/admission.py: the bounded references to artifacts that an admission carries.
use gov_engine.Prelude.{
  String, Bool, true, false, not, ◌||◌, List, [], ◌∷◌, ◌==◌, if◌then◌else◌, Option, some,
}
use gov_engine.Python.Text.{strip, in_texts}
use gov_engine.Python.Sorting.{sorted_set}
use gov_engine.Python.Value.{
  text, Value, null, int, float, str, dict, Fields, end, field, get_or_null, is_end, Runtime,
  text_of,
}
use gov_engine.Run.{keys_of}
use gov_engine.Errors.{Result, ok, fail, ◌>>=◌}
use gov_engine.JsonBoundary.{default_json_boundary_limits, bounded_json_copy}
use gov_engine.Policy.Model.Parse.{mapping_of}
use gov_engine.Governance.Validation.{require_sha256_digest}
use gov_engine.Admission.{forbidden_admission_metadata_keys, admission_metadata}

-- `ADMISSION_REF_KEYS`
abbrev pub admission_ref_keys : List String
admission_ref_keys =
    "admission_id" ∷ "artifact_id" ∷ "artifact_ref" ∷ "chain_id" ∷ "decision_id" ∷ "id" ∷ "path"
    ∷ "policy_id" ∷ "profile" ∷ "receipt_id" ∷ "ref" ∷ "request_id" ∷ "runner_profile" ∷ "ticket_id"
    ∷ "verifier_id" ∷ []

-- `ADMISSION_DIGEST_KEYS`
abbrev pub admission_digest_keys : List String
admission_digest_keys =
    "admission_digest" ∷ "artifact_digest" ∷ "binds_digest" ∷ "digest" ∷ "root_chain_digest"
    ∷ "sha256" ∷ "ticket_digest" ∷ []

-- `_is_bounded_scalar`
abbrev pub is_bounded_scalar : Value → Bool
is_bounded_scalar (str s) = true
is_bounded_scalar (int z) = true
is_bounded_scalar (float x) = true
is_bounded_scalar _ = false

-- What the mappings `{**out}` of this module hold after one more entry at the end.
abbrev pub add_field : Fields → String → Value → Fields
add_field end key value = field (text key) value end
add_field (field k v m) key value = field k v (add_field m key value)

module _ (py : Runtime) where
  -- One turn of the loop of `_bounded_artifact_reference`.
  unfoldable pub bounded_entry : Fields → String → Fields → Result Fields
  bounded_entry payload key out =
      let item = strip (text_of py (get_or_null key payload)) in
      if in_texts key forbidden_admission_metadata_keys
        || not (is_bounded_scalar (get_or_null key payload))
        || item == ""
      then ok out
      else (if in_texts key admission_digest_keys
          then (require_sha256_digest (str item) "invalid_admission_artifact_digest" >>= λ digest.
              ok (add_field out key (str digest)))
          else ok (if in_texts key admission_ref_keys then add_field out key (str item) else out))

  unfoldable pub bounded_entries : Fields → List String → Fields → Result Fields
  bounded_entries payload [] out = ok out
  bounded_entries payload (key ∷ keys) out =
      bounded_entry payload key out >>= bounded_entries payload keys

  -- `_bounded_artifact_reference`
  unfoldable pub bounded_artifact_reference : Fields → Result Fields
  bounded_artifact_reference payload = bounded_entries payload (sorted_set (keys_of py payload)) end

  -- The roles with a reference.
  unfoldable pub role_references : List (String × Fields) → Fields → Result Fields
  role_references [] out = ok out
  role_references ((role, summary) ∷ roles) out = bounded_artifact_reference summary >>= λ bounded.
      role_references roles (if is_end bounded then out else add_field out role (dict bounded))

  -- `_normalize_admission_artifact_refs_from_summaries`, of the summaries in the order of
  -- `ADMISSION_ARTIFACT_INPUTS` and the explicit references
  unfoldable pub references_from_summaries : List (String × Fields) → Result Fields → Result Fields
  references_from_summaries summaries explicit_refs = do
    out ← role_references summaries end
    given ← explicit_refs
    explicit ← bounded_artifact_reference given
    ok (if is_end explicit then out else add_field out "explicit" (dict explicit))

  -- `_runtime_signal` and `_artifact_reference_signal` read a missing value, a mapping, or an object
  -- by its `as_dict`, whose result is a parameter.
  module _ (as_dict : Value → Option Value) where
    -- `_runtime_signal`
    unfoldable pub runtime_signal : Value → Result Fields
    runtime_signal null = ok end
    runtime_signal (dict m) = admission_metadata py (dict m)
    runtime_signal value = elim (as_dict value) [
      | some (dict m) ↦ admission_metadata py (dict m)
      | _ ↦ fail "invalid_runtime_admission_signal"
    ]

    -- `_artifact_reference_signal`
    unfoldable pub artifact_reference_signal : Value → Result Fields
    artifact_reference_signal null = ok end
    artifact_reference_signal (dict m) =
        bounded_json_copy default_json_boundary_limits (dict m) >>= λ copy. ok (mapping_of copy)
    artifact_reference_signal value = elim (as_dict value) [
      | some (dict m) ↦
          bounded_json_copy default_json_boundary_limits (dict m) >>= λ copy. ok (mapping_of copy)
      | _ ↦ fail "invalid_admission_artifact_refs"
    ]
