-- ===== src/Core/Gate.antt =====
-- govengine/execution/gate.py: `ExecutionGate` and the input that it decides on.
pub mod Laws
mod Tests
use gov_engine.Prelude.{
  String, Bool, true, false, not, ◌&&◌, ◌||◌, List, [], ◌∷◌, ◌++◌, ◌==◌, if◌then◌else◌, is_empty,
}
use gov_engine.Python.Text.{in_texts}
use gov_engine.Python.Value.{
  Value, null, bool, str, dict, Fields, end, get_or_null, or_value, dict_of, Runtime, text_of,
}
use gov_engine.Core.{
  TransitionDecision, ExecutionPrerequisites, is_allowed, runner_context, append_if,
  transition_decision,
}

pub record RunnerProfile : Type 0 where
  pub name : String
  pub allowed : Bool
  pub live_backend_enabled : Bool
  pub metadata : Fields

pub record ExecutionGateInput : Type 0 where
  pub has_prepared_execution_contract : Bool
  pub policy_decision_status : String
  pub execution_ticket_status : String
  pub trust_decision_status : String
  pub runner_profile : RunnerProfile
  pub runtime_consumable_bundle : Bool
  pub guarded_bundle_status : String
  pub replay_status : String

-- `RunnerProfile.as_dict`
abbrev pub runner_as_dict : RunnerProfile → Fields
runner_as_dict item = dict_of (
    ("name", str item.name)
    ∷ ("allowed", bool item.allowed)
    ∷ ("live_backend_enabled", bool item.live_backend_enabled)
    ∷ ("metadata", dict item.metadata)
    ∷ [])

-- `ExecutionGateInput.as_dict`
abbrev pub gate_input_as_dict : ExecutionGateInput → Fields
gate_input_as_dict item = dict_of (
    ("has_prepared_execution_contract", bool item.has_prepared_execution_contract)
    ∷ ("policy_decision_status", str item.policy_decision_status)
    ∷ ("execution_ticket_status", str item.execution_ticket_status)
    ∷ ("trust_decision_status", str item.trust_decision_status)
    ∷ ("runner_profile", dict (runner_as_dict item.runner_profile))
    ∷ ("runtime_consumable_bundle", bool item.runtime_consumable_bundle)
    ∷ ("guarded_bundle_status", str item.guarded_bundle_status)
    ∷ ("replay_status", str item.replay_status)
    ∷ [])

-- `ExecutionGateInput.prerequisites`
abbrev pub prerequisites : ExecutionGateInput → ExecutionPrerequisites
prerequisites item = record {
  has_prepared_execution_contract = item.has_prepared_execution_contract;
  policy_decision_status = item.policy_decision_status;
  execution_ticket_status = item.execution_ticket_status;
  trust_decision_status = item.trust_decision_status;
  runner_profile_allowed = item.runner_profile.allowed;
  runner_profile = item.runner_profile.name;
  live_backend_enabled = item.runner_profile.live_backend_enabled;
}

-- `guarded_blockers`
unfoldable pub guarded_blockers : ExecutionGateInput → List String
guarded_blockers item =
    if item.runtime_consumable_bundle
    then append_if (not (in_texts item.guarded_bundle_status ("passed" ∷ "ok" ∷ "allowed" ∷ [])))
        "missing_or_invalid_kernel_guard"
        (append_if (not (item.replay_status == "fresh")) "missing_or_replayed_guarded_root" [])
    else []

abbrev gate_target : Bool → String
gate_target live = if live then "runner_allowed_live" else "runner_allowed_dry_run"

-- The metadata of a decision that blocks.
abbrev blocked_metadata : ExecutionGateInput → Fields
blocked_metadata item = dict_of (
    ("runner_profile", dict (runner_as_dict item.runner_profile))
    ∷ ("gate_input", dict (gate_input_as_dict item))
    ∷ [])

-- The decision where the guard or the replay state of a bundle blocks.
abbrev guard_decision : ExecutionGateInput → Bool → TransitionDecision → TransitionDecision
guard_decision item live decision = record {
  status = "blocked";
  reason_code =
      if in_texts item.replay_status ("replayed" ∷ "stale" ∷ "expired" ∷ [])
      then "replay_detected"
      else "kernel_guard_required";
  from_state = "execution_gated";
  to_state = gate_target live;
  artifacts = [];
  blockers = decision.blockers ++ guarded_blockers item;
  next_actions =
      decision.next_actions
      ++ ("verify_guarded_strict_bundle" ∷ "record_guard_replay_freshness" ∷ []);
  context = runner_context item.runner_profile.name (blocked_metadata item);
}

abbrev allowed_decision : ExecutionGateInput → Bool → TransitionDecision
allowed_decision item live = record {
  status = "allowed";
  reason_code = "ok";
  from_state = "execution_gated";
  to_state = gate_target live;
  artifacts = [];
  blockers = [];
  next_actions = [];
  context =
      runner_context item.runner_profile.name
        (dict_of (("runner_profile", dict (runner_as_dict item.runner_profile)) ∷ []));
}

abbrev blocked_decision : ExecutionGateInput → Bool → TransitionDecision → TransitionDecision
blocked_decision item live decision = record {
  status = "blocked";
  reason_code = decision.reason_code;
  from_state = "execution_gated";
  to_state = gate_target live;
  artifacts = [];
  blockers = decision.blockers;
  next_actions = decision.next_actions;
  context = runner_context item.runner_profile.name (blocked_metadata item);
}

-- `ExecutionGate.evaluate`
unfoldable pub evaluate_gate : ExecutionGateInput → Bool → TransitionDecision
evaluate_gate item live =
    let decision = transition_decision (prerequisites item) live in
    if not (is_empty (guarded_blockers item))
    then guard_decision item live decision
    else (if is_allowed decision
        then allowed_decision item live
        else blocked_decision item live decision)

-- `ExecutionGate.evaluate_runtime_consumable`
unfoldable pub evaluate_runtime_consumable :
    Runtime → ExecutionGateInput → Fields → Bool → TransitionDecision
evaluate_runtime_consumable py item bundle live =
    evaluate_gate
      (record {
        has_prepared_execution_contract = item.has_prepared_execution_contract;
        policy_decision_status = item.policy_decision_status;
        execution_ticket_status = item.execution_ticket_status;
        trust_decision_status = item.trust_decision_status;
        runner_profile = item.runner_profile;
        runtime_consumable_bundle = true;
        guarded_bundle_status = text_of py (
            or_value
              (or_value (get_or_null "verification_status" bundle) (get_or_null "status" bundle))
              (str ""));
        replay_status = text_of py (or_value (get_or_null "replay_status" bundle) (str ""));
      })
      live
