-- ===== src/Policy/Enforcement/Plan.antt =====
-- govengine/policy/enforcement.py: `admit_policy_execution`, which binds a verdict to a pack and to
-- the controls that are projected from it.
pub mod Reasons
pub mod Laws
use Prim.Native.String.{◌++◌ as append}
use gov_engine.Prelude.{
  String, Bool, true, false, not, ◌&&◌, List, [], ◌∷◌, ◌++◌, ◌==◌, if◌then◌else◌, is_empty,
}
use gov_engine.Python.Text.{in_texts, or_text}
use gov_engine.Python.Sorting.{from_keys, non_empty}
use gov_engine.Python.Value.{Value, str, Fields, get_or_null, Runtime}
use gov_engine.Errors.{Result, ok, err, gov_api, raised, fail, reject_if, ◌>>=◌, ◌>>◌}
use gov_engine.Policy.Model.{PolicyVerdict, validate_policy_verdict}
use gov_engine.Policy.Rule.{CompiledPolicyPack}
use gov_engine.Policy.Enforcement.Projection.{
  RuntimeControls, default_controls, project_runtime_controls,
}
use gov_engine.Governance.Validation.{require_sha256_digest}

pub record PolicyEnforcementPlan : Type 0 where
  pub plan_id : String
  pub subject_ref : String
  pub policy_pack_id : String
  pub policy_pack_version : String
  pub policy_pack_digest : String
  pub verdict_id : String
  pub verdict_digest : String
  pub status : String
  pub reason_code : String
  pub schema_version : String
  pub controls : RuntimeControls
  pub blockers : List String

abbrev pub policy_enforcement_plan_schema_version : String
policy_enforcement_plan_schema_version = "v0.1"

-- `if not getattr(item, field_name): raise`, for each name in order
unfoldable pub require_filled : List (String × String) → Result (Unit {0})
require_filled [] = ok tt
require_filled ((name, value) ∷ rest) = do
  reject_if (value == "") (append "missing_policy_enforcement_plan_" name)
  require_filled rest

-- `_validate_plan_shape`
unfoldable pub validate_plan_shape : PolicyEnforcementPlan → Result String
validate_plan_shape item = do
  reject_if (not (item.schema_version == policy_enforcement_plan_schema_version))
      "unknown_policy_enforcement_plan_schema"
  require_filled (
      ("plan_id", item.plan_id)
      ∷ ("subject_ref", item.subject_ref)
      ∷ ("policy_pack_id", item.policy_pack_id)
      ∷ ("policy_pack_version", item.policy_pack_version)
      ∷ ("policy_pack_digest", item.policy_pack_digest)
      ∷ ("verdict_id", item.verdict_id)
      ∷ ("verdict_digest", item.verdict_digest)
      ∷ ("reason_code", item.reason_code)
      ∷ [])
  reject_if (not (in_texts item.status ("ready" ∷ "blocked" ∷ [])))
      "unknown_policy_enforcement_plan_status"
  reject_if (item.status == "ready" && not (is_empty item.blockers))
      "ready_policy_enforcement_plan_with_blockers"
  reject_if (item.status == "blocked" && is_empty item.blockers)
      "blocked_policy_enforcement_plan_without_blockers"
  first ←
      require_sha256_digest (str item.policy_pack_digest) "invalid_policy_enforcement_plan_digest"
  require_sha256_digest (str item.verdict_digest) "invalid_policy_enforcement_plan_digest"

-- `checked.metadata.get(key) != text`
unfoldable pub names_other : Fields → String → String → Bool
names_other metadata key s = elim (get_or_null key metadata) [ str t ↦ not (t == s) | _ ↦ true ]

-- `blockers.append(reason)`, where the test holds
abbrev pub blocker_if : Bool → String → List String
blocker_if true reason = reason ∷ []
blocker_if false reason = []

abbrev pub permits : String → Bool
permits decision = in_texts decision ("allow" ∷ "allow_with_obligations" ∷ [])

-- The controls, the reason and the blocker of a projection that was tried.
unfoldable pub caught :
    Result RuntimeControls → String → Result (RuntimeControls × String × List String)
caught (ok controls) reason = ok (controls, reason, [])
caught (err (gov_api code context)) reason = ok (default_controls, code, code ∷ [])
caught (err (raised name)) reason = err (raised name)

-- The status and the reason of a plan, by its blockers.
abbrev pub status_of : List String → String
status_of blockers = if is_empty blockers then "ready" else "blocked"

module _ (py : Runtime) where
  -- The branch on the decision.
  unfoldable pub projected :
      PolicyVerdict → String → Result (RuntimeControls × String × List String)
  projected checked reason =
      if permits checked.decision
      then caught (project_runtime_controls py checked) reason
      else ok (default_controls, reason, reason ∷ [])

  -- `tuple(dict.fromkeys(item for item in blockers if item))`
  unfoldable pub plan_blockers : CompiledPolicyPack → PolicyVerdict → List String → List String
  plan_blockers pack checked more = from_keys (
      non_empty (
        checked.blockers
        ++ (blocker_if (names_other checked.metadata "policy_pack" pack.policy_id)
              "policy_verdict_pack_mismatch"
            ++ (blocker_if (names_other checked.metadata "policy_version" pack.version)
                  "policy_verdict_version_mismatch"
                ++ more))))

  -- `admit_policy_execution`, of the snapshot of a pack and a `PolicyVerdict`; the two digests are
  -- `policy_pack_digest` and `policy_verdict_digest`.
  unfoldable pub admit_snapshot :
      (pack_digest : CompiledPolicyPack → Result String)
      (verdict_digest : PolicyVerdict → Result String)
      → CompiledPolicyPack
      → PolicyVerdict
      → Result PolicyEnforcementPlan
  admit_snapshot pack_digest verdict_digest pack verdict = do
    checked ← validate_policy_verdict py verdict
    (controls, reason, more) ← projected checked (or_text checked.reason_code checked.decision)
    digest ← pack_digest pack
    verdict_hash ← verdict_digest checked
    let blockers = plan_blockers pack checked more
    let plan : PolicyEnforcementPlan = record {
      plan_id = append "policy-enforcement:" checked.verdict_id;
      subject_ref = checked.subject_ref;
      policy_pack_id = pack.policy_id;
      policy_pack_version = pack.version;
      policy_pack_digest = digest;
      verdict_id = checked.verdict_id;
      verdict_digest = verdict_hash;
      status = status_of blockers;
      reason_code = if is_empty blockers then "policy_controls_projected" else reason;
      schema_version = policy_enforcement_plan_schema_version;
      controls = controls;
      blockers = blockers;
    }
    shape ← validate_plan_shape plan
    ok plan
