-- ===== src/Admission/Composition.antt =====
-- govengine/admission.py: `compose_runtime_admission_result`.
pub mod Laws
pub mod Completeness
mod Tests
use gov_engine.Prelude.{
  String, Bool, false, not, ◌&&◌, List, [], ◌∷◌, ◌++◌, ◌==◌, if◌then◌else◌, Option, is_empty, map,
  any,
}
use gov_engine.Python.Text.{strip, in_texts, or_text}
use gov_engine.Python.Sorting.{from_keys, non_empty}
use gov_engine.Python.Value.{Value, str, Fields, get_or_null, or_value, Runtime, text_of}
use gov_engine.Errors.{Result, ok, ◌>>=◌}
use gov_engine.Core.{TransitionDecision, is_allowed}
use gov_engine.Core.Gate.{RunnerProfile, ExecutionGateInput, runner_as_dict, evaluate_gate}
use gov_engine.Admission.{admission_metadata, bool_value}
use gov_engine.Admission.Blockers.{
  table_get, policy_runtime_blocker, policy_runtime_status, policy_runtime_actions,
  ticket_runtime_blocker, ticket_runtime_actions, trust_runtime_blocker, trust_runtime_actions,
  runner_runtime_blocker, runner_runtime_actions,
}
use gov_engine.Admission.Signals.{
  signal_status, explicit_false, policy_signal_status, ticket_signal_status, trust_signal_status,
  guarded_runtime_status, replay_runtime_status, receipt_obligation_required,
}
use gov_engine.Admission.References.{
  runtime_signal, artifact_reference_signal, references_from_summaries,
}
use gov_engine.Admission.RuntimeResult.{
  RuntimeAdmissionResult, runtime_admission_schema_version, validate_runtime_admission,
}

-- The arguments of `compose_runtime_admission_result`.
pub record AdmissionInput : Type 0 where
  pub admission_id : String
  pub subject_ref : String
  pub prepared_execution_contract : Value
  pub policy_decision : Value
  pub execution_ticket : Value
  pub trust_decision : Value
  pub runner_profile : Value
  pub receipt_obligation : Value
  pub sclite_guarded_strict : Value
  pub replay_freshness : Value
  pub runtime_consumable : Bool
  pub live : Bool
  pub artifact_refs : Value
  pub metadata : Value

-- The bounded summaries of the arguments.
pub record Summaries : Type 0 where
  pub prepared : Fields
  pub policy : Fields
  pub ticket : Fields
  pub trust : Fields
  pub runner : Fields
  pub receipt : Fields
  pub guarded : Fields
  pub replay : Fields

-- The statuses that are read from the summaries.
pub record Statuses : Type 0 where
  pub has_prepared_contract : Bool
  pub policy : String
  pub ticket : String
  pub trust : String
  pub guarded : String
  pub replay : String
  pub runner : RunnerProfile
  pub receipt_required : Bool

abbrev replaced : String → String → List String → List String
replaced old new [] = []
replaced old new (v ∷ vs) = (if strip v == old then new else strip v) ∷ replaced old new vs

-- `_replace_or_append`
unfoldable pub replace_or_append : List String → String → String → List String
replace_or_append values old new =
    if any (λ v. strip v == old) values
    then replaced old new values
    else replaced old new values ++ (new ∷ [])

-- The replacement of a general blocker by a special one, where there is one.
abbrev pub replace_if : String → List String → String → String → List String
replace_if blocker values old new =
    if blocker == "" then values else replace_or_append values old new

-- `_dedupe`
unfoldable pub dedupe : List String → List String
dedupe values = from_keys (non_empty (map strip values))

-- `gate_input`
abbrev pub gate_input_of : Statuses → Bool → ExecutionGateInput
gate_input_of s runtime_consumable = record {
  has_prepared_execution_contract = s.has_prepared_contract;
  policy_decision_status = or_text s.policy "missing";
  execution_ticket_status = or_text s.ticket "missing";
  trust_decision_status = or_text s.trust "missing";
  runner_profile = s.runner;
  runtime_consumable_bundle = runtime_consumable;
  guarded_bundle_status = or_text s.guarded "missing";
  replay_status = or_text s.replay "missing";
}

-- `blockers` before the test of the receipt
unfoldable pub gate_blockers : Statuses → Fields → Bool → TransitionDecision → List String
gate_blockers s runner live gate =
    let policy = policy_runtime_blocker s.policy in
    let ticket = ticket_runtime_blocker s.ticket in
    let trust = trust_runtime_blocker s.trust in
    let runner_blocker = runner_runtime_blocker runner s.runner live in
    let b₁ = replace_if policy gate.blockers "missing_or_invalid_policy_decision" policy in
    let b₂ = replace_if ticket b₁ "missing_or_invalid_execution_ticket" ticket in
    let b₃ = replace_if trust b₂ "missing_or_invalid_trust_decision" trust in
    replace_if runner_blocker b₃ "runner_profile_not_allowed" runner_blocker

-- `blockers` before `_dedupe`
unfoldable pub admission_blockers : Statuses → Fields → Bool → TransitionDecision → List String
admission_blockers s runner live gate =
    if s.receipt_required
    then gate_blockers s runner live gate
    else gate_blockers s runner live gate ++ ("receipt_obligation_required" ∷ [])

-- `required_next_actions` before `_dedupe`
unfoldable pub admission_actions : Statuses → Fields → Bool → TransitionDecision → List String
admission_actions s runner live gate =
    let policy = policy_runtime_blocker s.policy in
    let ticket = ticket_runtime_blocker s.ticket in
    let trust = trust_runtime_blocker s.trust in
    let runner_blocker = runner_runtime_blocker runner s.runner live in
    let a₁ =
      replace_if policy gate.next_actions "obtain_policy_decision"
        (table_get policy_runtime_actions policy "") in
    let a₂ =
      replace_if ticket a₁ "approve_execution_ticket"
        (table_get ticket_runtime_actions ticket "") in
    let a₃ =
      replace_if trust a₂ "verify_trust_decision" (table_get trust_runtime_actions trust "") in
    let a₄ =
      replace_if runner_blocker a₃ "select_allowed_runner_profile"
        (table_get runner_runtime_actions runner_blocker "") in
    if s.receipt_required then a₄ else a₄ ++ ("require_runner_receipt_obligation" ∷ [])

abbrev first_of : List String → String
first_of [] = ""
first_of (v ∷ vs) = v

-- `reason_code` of an admission that is not allowed
unfoldable pub blocked_reason : Statuses → Fields → Bool → TransitionDecision → List String → String
blocked_reason s runner live gate blockers = or_text (policy_runtime_blocker s.policy) (
    or_text (ticket_runtime_blocker s.ticket) (
      or_text (trust_runtime_blocker s.trust) (
        or_text (runner_runtime_blocker runner s.runner live) (
          or_text (if s.receipt_required then "" else "receipt_obligation_required")
            (if is_allowed gate then first_of blockers else gate.reason_code)))))

-- The result that `compose_runtime_admission_result` validates.
unfoldable pub composed_admission :
    AdmissionInput → Summaries → Statuses → Fields → Fields → RuntimeAdmissionResult
composed_admission input sums s refs metadata =
    let gate = evaluate_gate (gate_input_of s input.runtime_consumable) input.live in
    let blockers = dedupe (admission_blockers s sums.runner input.live gate) in
    let allowed = is_allowed gate && is_empty blockers in
    record {
      admission_id = input.admission_id;
      subject_ref = input.subject_ref;
      schema_version = runtime_admission_schema_version;
      status = if allowed then "allowed" else policy_runtime_status s.policy;
      allowed = allowed;
      reason_code =
          if allowed
          then "all_required_gates_passed"
          else blocked_reason s sums.runner input.live gate blockers;
      blockers = blockers;
      required_next_actions = dedupe (admission_actions s sums.runner input.live gate);
      prepared_execution_contract = sums.prepared;
      policy_decision = sums.policy;
      execution_ticket = sums.ticket;
      trust_decision = sums.trust;
      sclite_guarded_strict = sums.guarded;
      replay_freshness = sums.replay;
      runner_profile = runner_as_dict s.runner;
      receipt_obligation = sums.receipt;
      artifact_refs = refs;
      metadata = metadata;
    }

module _ (py : Runtime) where
  -- `runner`
  unfoldable pub read_runner : Fields → Result RunnerProfile
  read_runner payload = do
    allowed ← bool_value py (get_or_null "allowed" payload) false
    live_backend_enabled ← bool_value py (get_or_null "live_backend_enabled" payload) false
    metadata ← admission_metadata py (get_or_null "metadata" payload)
    ok (record {
      name =
          or_text
            (strip (
              text_of py (
                or_value (or_value (get_or_null "name" payload) (get_or_null "profile" payload))
                  (str ""))))
            "missing";
      allowed = allowed;
      live_backend_enabled = live_backend_enabled;
      metadata = metadata;
    })

  -- The statuses, in the order in which they are read.
  unfoldable pub read_statuses : Summaries → Bool → Result Statuses
  read_statuses sums runtime_consumable = do
    refused ← explicit_false py sums.prepared "allowed"
    policy ← policy_signal_status py sums.policy
    ticket ← ticket_signal_status py sums.ticket
    trust ← trust_signal_status py sums.trust
    guarded ← guarded_runtime_status py sums.guarded
    runner ← read_runner sums.runner
    receipt_required ← receipt_obligation_required py sums.receipt
    ok (record {
      has_prepared_contract =
          not refused
          && in_texts (signal_status py sums.prepared ("status" ∷ "contract_status" ∷ []))
              ("prepared" ∷ "passed" ∷ "ok" ∷ "allowed" ∷ []);
      policy = policy;
      ticket = ticket;
      trust = trust;
      guarded = guarded;
      replay = replay_runtime_status py sums.replay sums.guarded runtime_consumable;
      runner = runner;
      receipt_required = receipt_required;
    })

  module _ (as_dict : Value → Option Value) where
    unfoldable pub read_summaries : AdmissionInput → Result Summaries
    read_summaries input = do
      prepared ← runtime_signal py as_dict input.prepared_execution_contract
      policy ← runtime_signal py as_dict input.policy_decision
      ticket ← runtime_signal py as_dict input.execution_ticket
      trust ← runtime_signal py as_dict input.trust_decision
      runner ← runtime_signal py as_dict input.runner_profile
      receipt ← runtime_signal py as_dict input.receipt_obligation
      guarded ← runtime_signal py as_dict input.sclite_guarded_strict
      replay ← runtime_signal py as_dict input.replay_freshness
      ok (record {
        prepared = prepared;
        policy = policy;
        ticket = ticket;
        trust = trust;
        runner = runner;
        receipt = receipt;
        guarded = guarded;
        replay = replay;
      })

    -- The references of the summaries, by their roles.
    unfoldable pub read_references : Summaries → Value → Result Fields
    read_references sums explicit =
        references_from_summaries py
          (("prepared_execution_contract", sums.prepared)
            ∷ ("policy_decision", sums.policy)
            ∷ ("execution_ticket", sums.ticket)
            ∷ ("trust_decision", sums.trust)
            ∷ ("sclite_guarded_strict", sums.guarded)
            ∷ ("replay_freshness", sums.replay)
            ∷ ("runner_profile", sums.runner)
            ∷ ("receipt_obligation", sums.receipt)
            ∷ [])
          (artifact_reference_signal py as_dict explicit)

    -- `compose_runtime_admission_result`
    unfoldable pub compose_runtime_admission : AdmissionInput → Result RuntimeAdmissionResult
    compose_runtime_admission input = do
      sums ← read_summaries input
      refs ← read_references sums input.artifact_refs
      s ← read_statuses sums input.runtime_consumable
      metadata ← admission_metadata py input.metadata
      validate_runtime_admission py (composed_admission input sums s refs metadata)
