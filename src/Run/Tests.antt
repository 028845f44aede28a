-- ===== src/Run/Tests.antt =====
-- A run from its first state to its last, and the theorems on runs at it.
use gov_engine.Prelude.{String, ◌≡◌, refl, inl, inr, List, [], ◌∷◌, In}
use gov_engine.Python.Text.{strip}
use gov_engine.Python.Value.{end, field_count}
use gov_engine.Errors.{Result}
use gov_engine.Governance.Keys.{
  field_entries, first_forbidden, inspect, scan, find_bounded_governance_key,
}
use gov_engine.Run.{GovRunState, StateTransition, reject_forbidden_metadata}
use gov_engine.Run.Transition.{
  validate_run_state, validate_state_transition, moved, apply_state_transition, apply_all,
}
use gov_engine.Run.Transition.Laws.{Extends, apply_all-Extends}
use gov_engine.Run.Stages.{completed_through_stages, completed_run_was_gated, completed_is_final}
use gov_engine.Samples.{plain_runtime}

abbrev state_at : String → GovRunState
state_at state = record {
  run_id = "run-1";
  state = state;
  profile = "generic";
  event_refs = [];
  artifact_refs = [];
  blockers = [];
  metadata = end;
}

abbrev step : String → String → StateTransition
step from_state to_state = record {
  run_id = "run-1";
  from_state = from_state;
  to_state = to_state;
  reason_code = "ok";
  event_ref = "";
  required_decisions = "runner_gate_decision" ∷ [];
  metadata = end;
}

abbrev whole_run : List StateTransition
whole_run =
    step "new" "admitted"
    ∷ step "admitted" "policy_checked"
    ∷ step "policy_checked" "trust_checked"
    ∷ step "trust_checked" "gated"
    ∷ step "gated" "running_dry_run"
    ∷ step "running_dry_run" "receipt_recorded"
    ∷ step "receipt_recorded" "completed"
    ∷ []

run : GovRunState → List StateTransition → Result GovRunState
unfolding apply_all apply_state_transition moved validate_run_state validate_state_transition
    reject_forbidden_metadata find_bounded_governance_key scan inspect field_entries first_forbidden
    field_count strip
run s ts = apply_all plain_runtime s ts

completed_through_stages_example : (u : StateTransition) × In u whole_run × (u.to_state ≡ "gated")
unfolding run
completed_through_stages_example =
    completed_through_stages plain_runtime whole_run (state_at "new") (state_at "completed") "gated"
      refl refl refl (inr (inr (inr (inl refl))))

completed_run_was_gated_example :
    (u : StateTransition) × In u whole_run
    × (u.to_state ≡ "running_dry_run")
    × In "runner_gate_decision" u.required_decisions
unfolding run
completed_run_was_gated_example =
    completed_run_was_gated plain_runtime whole_run (state_at "new") (state_at "completed") refl
      refl refl

completed_is_final_example : ◌≡◌ {A = List StateTransition} [] []
unfolding run
completed_is_final_example =
    completed_is_final plain_runtime [] (state_at "completed") (state_at "completed") refl refl

apply_all-Extends_example : Extends (state_at "new") (state_at "completed")
unfolding run
apply_all-Extends_example =
    apply_all-Extends plain_runtime whole_run (state_at "new") (state_at "completed") refl
