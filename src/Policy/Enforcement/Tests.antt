-- ===== src/Policy/Enforcement/Tests.antt =====
-- A projection of a concrete verdict.
use gov_engine.Prelude.{String, refl, [], ◌∷◌}
use gov_engine.Python.Number.{pos, float_half}
use gov_engine.Python.Text.{strip}
use gov_engine.Python.Sorting.{text_lt, insert_text, sorted_set, all_distinct}
use gov_engine.Python.Value.{int, end}
use gov_engine.Errors.{Result, ok}
use gov_engine.Policy.Forbidden.{is_forbidden, find_forbidden_key, reject_forbidden_policy_metadata}
use gov_engine.Policy.Model.{PolicyVerdict, check_verdict, validate_policy_verdict}
use gov_engine.Policy.Enforcement.Projection.{
  RuntimeControls, default_controls, project_runtime_controls, apply_obligations, apply_constraints,
  apply_effect, constraint_effect, obligation_effect, positive_int, validate_projection,
  is_text_tuple,
}
use gov_engine.Policy.Enforcement.Limits.{step_limit}
use gov_engine.Policy.Enforcement.Guarantees.{IsLeastLimit, project_runtime_controls_limits}
use gov_engine.Policy.Rule.{CompiledPolicyPack}
use gov_engine.Python.Sorting.{from_keys, non_empty, without}
use gov_engine.Policy.Enforcement.Plan.{
  PolicyEnforcementPlan, require_filled, validate_plan_shape, names_other, caught,
  projected as tried, plan_blockers, admit_snapshot,
}
use gov_engine.Governance.Validation.{require_sha256_digest, is_sha256_digest, all_hex}
use gov_engine.Python.Text.{from_index}
use gov_engine.Python.Value.{str, dict_of, lookup}
use gov_engine.Policy.Enforcement.Plan.Laws.{Ready, admit_snapshot-Ready}
use gov_engine.Samples.{plain_runtime, pack_of, allow_read}

run : PolicyVerdict → Result RuntimeControls
unfolding project_runtime_controls validate_policy_verdict check_verdict
    reject_forbidden_policy_metadata find_forbidden_key is_forbidden strip apply_obligations
    apply_constraints apply_effect constraint_effect obligation_effect positive_int
    validate_projection is_text_tuple sorted_set insert_text text_lt all_distinct
run v = project_runtime_controls plain_runtime v

abbrev limited : PolicyVerdict
limited = record {
  verdict_id = "policy-1:request-1";
  request_id = "request-1";
  subject_ref = "governance:op:step:attempt";
  decision = "allow_with_obligations";
  schema_version = "v0.1";
  reason_code = "bounded";
  risk_class = "low";
  risk_score = float_half;
  obligations =
      record { obligation_id = "o1"; kind = "receipt"; description = ""; metadata = end } ∷ [];
  constraints =
      record { constraint_id = "c1"; kind = "max_steps"; value = int (pos 9); metadata = end }
      ∷ record { constraint_id = "c2"; kind = "max_steps"; value = int (pos 4); metadata = end }
      ∷ [];
  blockers = [];
  evidence_refs = [];
  metadata = end;
}

abbrev projected : RuntimeControls
projected = record default_controls {
  max_steps = 4;
  typed_execution_control_ids = "receipt_required" ∷ [];
  control_ids = "c1" ∷ "c2" ∷ "o1" ∷ [];
}

project_runtime_controls_limits_example : IsLeastLimit step_limit limited.constraints projected
unfolding run
project_runtime_controls_limits_example =
    project_runtime_controls_limits plain_runtime limited projected step_limit refl

abbrev some_digest : String
some_digest = "sha256:0123456789abcdef0123456789abcdef0123456789abcdef0123456789abcdef"

abbrev pack : CompiledPolicyPack
pack = pack_of (allow_read ∷ [])

-- The limited verdict, for the sample pack.
abbrev bound : PolicyVerdict
bound = record limited {
  metadata = dict_of (("policy_pack", str "policy-1") ∷ ("policy_version", str "1.0.0") ∷ []);
}

admit : PolicyVerdict → Result PolicyEnforcementPlan
unfolding admit_snapshot tried caught plan_blockers names_other from_keys non_empty without lookup
    validate_plan_shape require_filled require_sha256_digest is_sha256_digest all_hex from_index run
admit v = admit_snapshot plain_runtime (λ p. ok some_digest) (λ w. ok some_digest) pack v

abbrev plan : PolicyEnforcementPlan
plan = record {
  plan_id = "policy-enforcement:policy-1:request-1";
  subject_ref = "governance:op:step:attempt";
  policy_pack_id = "policy-1";
  policy_pack_version = "1.0.0";
  policy_pack_digest = some_digest;
  verdict_id = "policy-1:request-1";
  verdict_digest = some_digest;
  status = "ready";
  reason_code = "policy_controls_projected";
  schema_version = "v0.1";
  controls = projected;
  blockers = [];
}

admit_snapshot-Ready_example : Ready plain_runtime pack bound projected
unfolding admit
admit_snapshot-Ready_example =
    admit_snapshot-Ready plain_runtime (λ p. ok some_digest) (λ w. ok some_digest) pack bound plan
      refl refl
