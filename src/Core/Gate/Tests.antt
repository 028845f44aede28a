-- ===== src/Core/Gate/Tests.antt =====
-- The gate on concrete inputs.
use gov_engine.Prelude.{Bool, true, false, [], ◌∷◌, ◌≡◌, ◌↔◌, refl}
use gov_engine.Python.Value.{end}
use gov_engine.Core.{is_allowed, missing_reasons, transition_decision}
use gov_engine.Core.Gate.{ExecutionGateInput, guarded_blockers, evaluate_gate}
use gov_engine.Core.Gate.Laws.{Passing, evaluate_gate_iff}

abbrev gate_input : Bool → ExecutionGateInput
gate_input contract = record {
  has_prepared_execution_contract = contract;
  policy_decision_status = "allowed";
  execution_ticket_status = "approved";
  trust_decision_status = "trusted";
  runner_profile = record {
    name = "dry-run";
    allowed = true;
    live_backend_enabled = false;
    metadata = end;
  };
  runtime_consumable_bundle = true;
  guarded_bundle_status = "passed";
  replay_status = "fresh";
}

ready_is_allowed : is_allowed (evaluate_gate (gate_input true) false) ≡ true
unfolding evaluate_gate guarded_blockers transition_decision missing_reasons
ready_is_allowed = refl

live_is_disabled :
    (evaluate_gate (gate_input false) true).blockers
    ≡ ("missing_prepared_execution_contract" ∷ "live_backend_disabled" ∷ [])
unfolding evaluate_gate guarded_blockers transition_decision missing_reasons
live_is_disabled = refl

evaluate_gate_iff_example :
    (is_allowed (evaluate_gate (gate_input true) false) ≡ true) ↔ Passing (gate_input true) false
evaluate_gate_iff_example = evaluate_gate_iff (gate_input true) false
