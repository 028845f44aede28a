-- ===== src/Run/Transition.antt =====
-- govengine/state_machine.py: the validation of a transition, and the step that it makes.
pub mod Laws
use Prim.Native.String.{◌++◌}
use gov_engine.Prelude.{
  String, Bool, true, false, not, ◌&&◌, ◌||◌, List, [], ◌∷◌, ◌==◌, if◌then◌else◌,
}
use mathlib.Core.List.{◌++◌ as append}
use gov_engine.Python.Text.{strip, in_texts}
use gov_engine.Python.Sorting.{from_keys}
use gov_engine.Python.Value.{Key, key_text, Value, Fields, end, field, Runtime}
use gov_engine.Python.Reading.{read_text}
use gov_engine.Errors.{
  Result, ok, err, gov_api, fail, fail_with, reject_if, require_mapping, ◌>>=◌, ◌>>◌,
}
use gov_engine.Run.{
  run_states, allowed_transitions, targets, GovRunState, StateTransition, metadata_of, read_tuple,
  read_or, reject_forbidden_metadata,
}

-- `if not b: raise GovApiError(f'{reason}:{detail}')`
abbrev need : Bool → String → String → Result (Unit {0})
need b reason detail = if b then ok tt else fail_with reason detail

module _ (py : Runtime) where
  -- `validate_run_state`, of a `GovRunState`
  unfoldable pub validate_run_state : GovRunState → Result GovRunState
  validate_run_state state = do
    need (in_texts state.state run_states) "unknown_run_state" state.state
    reject_forbidden_metadata py state.metadata
    ok state

  -- `validate_state_transition`, of a `StateTransition`
  unfoldable pub validate_state_transition : StateTransition → Result StateTransition
  validate_state_transition t = do
    need (in_texts t.from_state run_states) "unknown_run_state" t.from_state
    need (in_texts t.to_state run_states) "unknown_run_state" t.to_state
    need (in_texts t.to_state (targets allowed_transitions t.from_state)) "invalid_state_transition"
        (t.from_state ++ "->" ++ t.to_state)
    reject_if
        (t.to_state == "running_dry_run"
          && not (in_texts "runner_gate_decision" t.required_decisions))
        "missing_runner_gate_decision"
    reject_forbidden_metadata py t.metadata
    ok t

  -- `any(str(key).strip().casefold() in {'raw_intent', 'prompt'} for key in raw)`
  unfoldable pub has_raw_intent : Fields → Bool
  has_raw_intent end = false
  has_raw_intent (field k v m) =
      let rest = has_raw_intent m in
      if in_texts (py.casefold (strip (key_text k))) ("raw_intent" ∷ "prompt" ∷ [])
      then true
      else rest

  -- `StateTransition.from_mapping`
  unfoldable pub transition_from_mapping : Value → Result StateTransition
  transition_from_mapping value = do
    raw ← require_mapping value "invalid_state_transition"
    reject_if (has_raw_intent raw) "raw_intent_not_state_transition"
    let run_id = read_text py "run_id" raw
    reject_if (run_id == "") "missing_run_id"
    let from_state = read_text py "from_state" raw
    let to_state = read_text py "to_state" raw
    reject_if (from_state == "" || to_state == "") "missing_state_transition_endpoint"
    reject_forbidden_metadata py (metadata_of raw)
    decisions ← read_tuple py "required_decisions" raw
    validate_state_transition (record {
      run_id = run_id;
      from_state = from_state;
      to_state = to_state;
      reason_code = read_or py "reason_code" "ok" raw;
      event_ref = read_or py "event_ref" "" raw;
      required_decisions = decisions;
      metadata = metadata_of raw;
    })

  -- The state that a transition leads to.
  unfoldable pub moved : GovRunState → StateTransition → GovRunState
  moved current step = record current {
    state = step.to_state;
    event_refs =
        append current.event_refs (if step.event_ref == "" then [] else step.event_ref ∷ []);
    blockers =
        if step.to_state == "blocked" && not (step.reason_code == "ok")
        then from_keys (append current.blockers (step.reason_code ∷ []))
        else current.blockers;
  }

  -- `apply_state_transition`
  unfoldable pub apply_state_transition : GovRunState → StateTransition → Result GovRunState
  apply_state_transition state transition = do
    current ← validate_run_state state
    step ← validate_state_transition transition
    reject_if (not (current.run_id == step.run_id)) "state_transition_run_mismatch"
    need (current.state == step.from_state) "state_transition_from_mismatch"
        (current.state ++ "!=" ++ step.from_state)
    ok (moved current step)

  -- A run: transitions applied one after the other.
  unfoldable pub apply_all : GovRunState → List StateTransition → Result GovRunState
  apply_all s [] = ok s
  apply_all s (t ∷ ts) = do next ← apply_state_transition s t; apply_all next ts
