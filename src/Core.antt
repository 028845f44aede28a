-- ===== src/Core.antt =====
-- govengine/core.py: artifact descriptors, transition decisions and the prerequisites of an execution.
pub mod Gate
use gov_engine.Prelude.{
  String, Bool, true, false, not, ◌&&◌, ◌||◌, List, [], ◌∷◌, ◌++◌, ◌==◌, if◌then◌else◌, is_empty,
}
use gov_engine.Python.Text.{in_texts}
use gov_engine.Python.Value.{
  Value, bool, str, list, dict, Fields, end, get_or_null, or_value, dict_of, items_of, text_items,
  Runtime, text_of,
}
use gov_engine.Python.Reading.{read_text, read_text_alias}
use gov_engine.Errors.{Result, ok, fail, reject_if, require_mapping, ◌>>=◌, ◌>>◌}

pub record ArtifactDescriptor : Type 0 where
  pub artifact_type : String
  pub schema_version : String
  pub digest : String
  pub role : String
  pub path : String
  pub metadata : Fields

pub record ArtifactEnvelope : Type 0 where
  pub descriptor : ArtifactDescriptor
  pub artifact : Fields
  pub source : String

pub record GovernanceContext : Type 0 where
  pub context_id : String
  pub profile : String
  pub policy_decision : Fields
  pub trust_decision : Fields
  pub runner_profile : String
  pub metadata : Fields

pub record ArtifactState : Type 0 where
  pub descriptor : ArtifactDescriptor
  pub lifecycle_state : String
  pub chain_status : String
  pub signature_status : String
  pub policy_status : String
  pub blocked_reasons : List String
  pub next_actions : List String

pub record TransitionDecision : Type 0 where
  pub status : String
  pub reason_code : String
  pub from_state : String
  pub to_state : String
  pub artifacts : List ArtifactDescriptor
  pub blockers : List String
  pub next_actions : List String
  pub context : GovernanceContext

pub record ExecutionPrerequisites : Type 0 where
  pub has_prepared_execution_contract : Bool
  pub policy_decision_status : String
  pub execution_ticket_status : String
  pub trust_decision_status : String
  pub runner_profile_allowed : Bool
  pub runner_profile : String
  pub live_backend_enabled : Bool

-- `TransitionDecision.allowed`
abbrev pub is_allowed : TransitionDecision → Bool
is_allowed item = in_texts item.status ("allowed" ∷ "ok" ∷ []) && is_empty item.blockers

-- `GovernanceContext(runner_profile=..., metadata=...)`
abbrev pub runner_context : String → Fields → GovernanceContext
runner_context runner_profile metadata = record {
  context_id = "default";
  profile = "generic";
  policy_decision = end;
  trust_decision = end;
  runner_profile = runner_profile;
  metadata = metadata;
}

-- `if b: reasons.append(reason)`, before the later tests.
abbrev pub append_if : Bool → String → List String → List String
append_if b reason rest = if b then reason ∷ rest else rest

-- `ExecutionPrerequisites.missing_reasons`
unfoldable pub missing_reasons : ExecutionPrerequisites → Bool → List String
missing_reasons item live =
    append_if (not item.has_prepared_execution_contract) "missing_prepared_execution_contract" (
      append_if
        (not (in_texts item.policy_decision_status ("allow" ∷ "allowed" ∷ "passed" ∷ "ok" ∷ [])))
        "missing_or_invalid_policy_decision"
        (append_if
          (not (
            in_texts item.execution_ticket_status
              ("approve" ∷ "approved" ∷ "approved_for_dry_run" ∷ "passed" ∷ "ok" ∷ [])))
          "missing_or_invalid_execution_ticket"
          (append_if (not (in_texts item.trust_decision_status ("trusted" ∷ "passed" ∷ "ok" ∷ [])))
            "missing_or_invalid_trust_decision"
            (append_if (not item.runner_profile_allowed) "runner_profile_not_allowed"
              (append_if (live && not item.live_backend_enabled) "live_backend_disabled" [])))))

-- `ExecutionPrerequisites.transition_decision`
unfoldable pub transition_decision : ExecutionPrerequisites → Bool → TransitionDecision
transition_decision item live =
    let reasons = missing_reasons item live in
    if is_empty reasons
    then record {
      status = "allowed";
      reason_code = "ok";
      from_state = "";
      to_state = "";
      artifacts = [];
      blockers = [];
      next_actions = [];
      context = runner_context item.runner_profile end;
    }
    else record {
      status = "blocked";
      reason_code =
          if live && in_texts "live_backend_disabled" reasons
          then "execution_disabled"
          else "raw_intent_rejected";
      from_state = "";
      to_state = "";
      artifacts = [];
      blockers = reasons;
      next_actions =
          "prepare_execution_contract" ∷ "obtain_policy_decision" ∷ "approve_execution_ticket"
          ∷ "verify_trust_decision" ∷ "select_allowed_runner_profile" ∷ [];
      context = runner_context item.runner_profile end;
    }

-- `ArtifactDescriptor.as_dict`
abbrev pub descriptor_as_dict : ArtifactDescriptor → Fields
descriptor_as_dict item = dict_of (
    ("artifact_type", str item.artifact_type)
    ∷ ("schema_version", str item.schema_version)
    ∷ ("digest", str item.digest)
    ∷ ("role", str item.role)
    ∷ ("path", str item.path)
    ∷ ("metadata", dict item.metadata)
    ∷ [])

-- `GovernanceContext.as_dict`
abbrev pub context_as_dict : GovernanceContext → Fields
context_as_dict item = dict_of (
    ("context_id", str item.context_id)
    ∷ ("profile", str item.profile)
    ∷ ("policy_decision", dict item.policy_decision)
    ∷ ("trust_decision", dict item.trust_decision)
    ∷ ("runner_profile", str item.runner_profile)
    ∷ ("metadata", dict item.metadata)
    ∷ [])

abbrev descriptor_values : List ArtifactDescriptor → List Value
descriptor_values [] = []
descriptor_values (d ∷ ds) = dict (descriptor_as_dict d) ∷ descriptor_values ds

-- `TransitionDecision.as_dict`
abbrev pub decision_as_dict : TransitionDecision → Fields
decision_as_dict item = dict_of (
    ("status", str item.status)
    ∷ ("allowed", bool (is_allowed item))
    ∷ ("reason_code", str item.reason_code)
    ∷ ("from_state", str item.from_state)
    ∷ ("to_state", str item.to_state)
    ∷ ("artifacts", list (items_of (descriptor_values item.artifacts)))
    ∷ ("blockers", list (text_items item.blockers))
    ∷ ("next_actions", list (text_items item.next_actions))
    ∷ ("context", dict (context_as_dict item.context))
    ∷ [])

module _ (py : Runtime) where
  -- `str(raw.get(key) or '')`
  abbrev pub plain_text : String → Fields → String
  plain_text key raw = text_of py (or_value (get_or_null key raw) (str ""))

  -- `raw.get(key) if isinstance(raw.get(key), Mapping) else {}`
  abbrev pub mapping_or_empty : String → Fields → Fields
  mapping_or_empty key raw = elim (get_or_null key raw) [ dict m ↦ m | _ ↦ end ]

  -- `ArtifactDescriptor.from_mapping`
  unfoldable pub descriptor_from_mapping : Value → Result ArtifactDescriptor
  descriptor_from_mapping value = do
    raw ← require_mapping value "invalid_artifact_descriptor"
    let artifact_type = read_text py "artifact_type" raw
    let schema_version = read_text_alias py "schema_version" "version" raw
    let digest = read_text_alias py "digest" "sha256" raw
    reject_if (artifact_type == "") "missing_artifact_type"
    reject_if (schema_version == "") "missing_schema_version"
    reject_if (digest == "") "missing_artifact_digest"
    ok (record {
      artifact_type = artifact_type;
      schema_version = schema_version;
      digest = digest;
      role = plain_text "role" raw;
      path = plain_text "path" raw;
      metadata = mapping_or_empty "metadata" raw;
    })

  -- `ArtifactEnvelope.from_mapping`
  unfoldable pub envelope_from_mapping : Value → Result ArtifactEnvelope
  envelope_from_mapping value = do
    raw ← require_mapping value "invalid_artifact_envelope"
    descriptor_value ← require_mapping (get_or_null "descriptor" raw) "missing_artifact_descriptor"
    descriptor ← descriptor_from_mapping (dict descriptor_value)
    ok (record {
      descriptor = descriptor;
      artifact = mapping_or_empty "artifact" raw;
      source = plain_text "source" raw;
    })
