-- ===== src/Admission/Composition/Completeness.antt =====
-- govengine/admission.py: summaries that pass every gate of an admission.
use gov_engine.Prelude.{
  String, Bool, true, false, not, ◌&&◌, List, [], ◌∷◌, ◌≡◌, refl, is_empty, Option, ap, ◌∙◌,
  both_true,
}
use gov_engine.Python.Text.{in_texts}
use gov_engine.Python.Sorting.{from_keys, non_empty}
use gov_engine.Python.Value.{Value, Fields, is_end, Runtime}
use gov_engine.Errors.{ok, >>=-eq-ok, checked-eq-ok}
use gov_engine.Core.{TransitionDecision}
use gov_engine.Core.Gate.{evaluate_gate}
use gov_engine.Core.Gate.Laws.{Passing, no_backend_blocker, evaluate_gate_iff}
use gov_engine.Admission.{admission_metadata}
use gov_engine.Admission.Blockers.{passing_policy, passing_ticket, passing_trust}
use gov_engine.Admission.RuntimeResult.{
  RuntimeAdmissionResult, check_runtime_admission, validate_runtime_admission,
}
use gov_engine.Admission.Composition.{
  AdmissionInput, Summaries, Statuses, gate_input_of, admission_blockers, gate_blockers,
  composed_admission, dedupe, read_statuses, read_summaries, read_references,
  compose_runtime_admission,
}
use gov_engine.Admission.Composition.Laws.{passing_of_or}

empty_of : (values : List String) → is_empty values ≡ true → values ≡ []
empty_of [] h = refl
empty_of (v ∷ values) h = cc

quiet-blockers :
    (s : Statuses) (runner : Fields) (live : Bool) (gate : TransitionDecision)
    → in_texts s.policy passing_policy ≡ true
    → in_texts s.ticket passing_ticket ≡ true
    → in_texts s.trust passing_trust ≡ true
    → is_end runner ≡ false
    → s.runner.allowed ≡ true
    → (live && not s.runner.live_backend_enabled) ≡ false
    → s.receipt_required ≡ true
    → gate.blockers ≡ []
    → is_empty (dedupe (admission_blockers s runner live gate)) ≡ true
unfolding admission_blockers gate_blockers dedupe from_keys non_empty
quiet-blockers s runner live gate policy ticket trust given allowed backend required none =
    rw (required, policy, ticket, trust, given, allowed, backend, none) refl

module _ (py : Runtime) where
  -- A composed admission allows the runtime where its gate passes on the statuses that are read from the
  -- summaries, a runner profile is given and a receipt is required.
  pub compose_runtime_admission_complete :
      (as_dict : Value → Option Value) (input : AdmissionInput) (r : RuntimeAdmissionResult)
      (sums : Summaries) (s : Statuses)
      → compose_runtime_admission py as_dict input ≡ ok r
      → read_summaries py as_dict input ≡ ok sums
      → read_statuses py sums input.runtime_consumable ≡ ok s
      → Passing (gate_input_of s input.runtime_consumable) input.live
      → is_end sums.runner ≡ false
      → s.receipt_required ≡ true
      → r.allowed ≡ true
  unfolding compose_runtime_admission validate_runtime_admission composed_admission
  compose_runtime_admission_complete as_dict input r sums s h read_sums read_s passing given
        required =
      let (refs, e₁, h₁) =
        >>=-eq-ok (read_references py as_dict sums input.artifact_refs) _ (rw (read_sums) at h) in
      let (metadata, e₃, h₃) =
        >>=-eq-ok (admission_metadata py input.metadata) _ (rw (read_s) at h₁) in
      let (tests, same) =
        checked-eq-ok (check_runtime_admission py (composed_admission input sums s refs metadata))
          (composed_admission input sums s refs metadata) h₃ in
      let gate = evaluate_gate (gate_input_of s input.runtime_consumable) input.live in
      let passes =
        (evaluate_gate_iff (gate_input_of s input.runtime_consumable) input.live).1 passing in
      let (_, none) = both_true (in_texts gate.status ("allowed" ∷ "ok" ∷ [])) _ passes in
      let quiet =
        quiet-blockers s sums.runner input.live gate
          (passing_of_or s.policy passing_policy refl passing.policy)
          (passing_of_or s.ticket passing_ticket refl passing.ticket)
          (passing_of_or s.trust passing_trust refl passing.trust) given passing.runner
          (no_backend_blocker input.live s.runner.live_backend_enabled passing.backend) required
          (empty_of gate.blockers none) in
      ap (λ x. x.allowed) same ∙ rw (passes, quiet) refl
