-- ===== src/Admission/Composition/Laws.antt =====
-- govengine/admission.py: what an admission that allows has read.
use mathlib.Core.Path.{subst}
use gov_engine.Prelude.{
  String, Bool, true, false, not, ◌&&◌, ◌||◌, List, [], ◌∷◌, ◌++◌, ◌==◌, ◌≡◌, refl, inl, inr,
  if◌then◌else◌, is_empty, map, Option, Bool-cases, ap, sym, ◌∙◌, both_true, not-eq-true,
}
use gov_engine.Python.Text.{strip, in_texts, or_text}
use gov_engine.Python.Sorting.{from_keys, non_empty}
use gov_engine.Python.Value.{Value, Fields, Runtime}
use gov_engine.Errors.{ok, >>=-eq-ok, checked-eq-ok, ok-injective}
use gov_engine.Core.{is_allowed}
use gov_engine.Core.Gate.{RunnerProfile, runner_as_dict, evaluate_gate}
use gov_engine.Core.Gate.Laws.{evaluate_gate_iff}
use gov_engine.Admission.{admission_metadata}
use gov_engine.Admission.Blockers.{passing_policy, passing_ticket, passing_trust}
use gov_engine.Admission.Signals.{
  signal_status, explicit_false, policy_signal_status, ticket_signal_status, trust_signal_status,
  guarded_runtime_status, replay_runtime_status, receipt_obligation_required,
}
use gov_engine.Admission.RuntimeResult.{
  RuntimeAdmissionResult, check_runtime_admission, validate_runtime_admission,
}
use gov_engine.Admission.Composition.{
  AdmissionInput, Summaries, Statuses, gate_input_of, admission_blockers, gate_blockers,
  composed_admission, dedupe, read_runner, read_statuses, read_summaries, read_references,
  compose_runtime_admission,
}

pub passing_of_or :
    (s : String) (passing : List String)
    → in_texts "missing" passing ≡ false
    → in_texts (or_text s "missing") passing ≡ true
    → in_texts s passing ≡ true
passing_of_or s passing absent h = elim (Bool-cases (s == "")) [
  | inl blank ↦ (let clash = rw (blank) at h in cc)
  | inr given ↦ rw (given) at h
]

-- A list that ends in a word is not empty without its repetitions.
from_keys-is_empty : (values : List String) → is_empty (from_keys values) ≡ is_empty values
unfolding from_keys
from_keys-is_empty [] = refl
from_keys-is_empty (v ∷ values) = refl

words-filled :
    (values : List String) (last : String)
    → (strip last == "") ≡ false
    → is_empty (non_empty (map strip (values ++ (last ∷ [])))) ≡ false
unfolding non_empty
words-filled [] last h = rw (h) refl
words-filled (v ∷ values) last h = elim (Bool-cases (strip v == "")) [
  | inl blank ↦ rw (blank) (words-filled values last h)
  | inr given ↦ rw (given) refl
]

dedupe-filled :
    (values : List String) (last : String)
    → (strip last == "") ≡ false
    → is_empty (dedupe (values ++ (last ∷ []))) ≡ false
unfolding dedupe
dedupe-filled values last h =
    from_keys-is_empty (non_empty (map strip (values ++ (last ∷ [])))) ∙ words-filled values last h

receipt_word : (strip "receipt_obligation_required" == "") ≡ false
unfolding strip
receipt_word = refl

-- Where no blocker is left, the receipt was required.
receipt_of_quiet :
    (required : Bool) (blockers : List String)
    → is_empty
        (dedupe (if required then blockers else blockers ++ ("receipt_obligation_required" ∷ [])))
      ≡ true
    → required ≡ true
receipt_of_quiet true blockers h = refl
receipt_of_quiet false blockers h =
    sym (dedupe-filled blockers "receipt_obligation_required" receipt_word) ∙ h

either_true : {b : Bool} → b ≡ true → (b || false) ≡ true
either_true {b} h = rw (h) refl

module _ (py : Runtime) where
  -- What the statuses are, by the summaries that they are read from.
  record Read (sums : Summaries) (runtime_consumable : Bool) (s : Statuses) : Type 0 where
    contract :
        (refused : Bool) × (explicit_false py sums.prepared "allowed" ≡ ok refused)
        × (s.has_prepared_contract ≡ (
            not refused
            && in_texts
                (signal_status py sums.prepared ("status" ∷ "contract_status" ∷ []))
                ("prepared" ∷ "passed" ∷ "ok" ∷ "allowed" ∷ [])))
    policy : policy_signal_status py sums.policy ≡ ok s.policy
    ticket : ticket_signal_status py sums.ticket ≡ ok s.ticket
    trust : trust_signal_status py sums.trust ≡ ok s.trust
    guarded : guarded_runtime_status py sums.guarded ≡ ok s.guarded
    replay : s.replay ≡ replay_runtime_status py sums.replay sums.guarded runtime_consumable
    receipt : receipt_obligation_required py sums.receipt ≡ ok s.receipt_required

  read_statuses-Read :
      (sums : Summaries) (runtime_consumable : Bool) {s : Statuses}
      → read_statuses py sums runtime_consumable ≡ ok s
      → Read sums runtime_consumable s
  unfolding read_statuses
  read_statuses-Read sums runtime_consumable h =
      let (refused, e₀, h₀) = >>=-eq-ok (explicit_false py sums.prepared "allowed") _ h in
      let (policy, e₁, h₁) = >>=-eq-ok (policy_signal_status py sums.policy) _ h₀ in
      let (ticket, e₂, h₂) = >>=-eq-ok (ticket_signal_status py sums.ticket) _ h₁ in
      let (trust, e₃, h₃) = >>=-eq-ok (trust_signal_status py sums.trust) _ h₂ in
      let (guarded, e₄, h₄) = >>=-eq-ok (guarded_runtime_status py sums.guarded) _ h₃ in
      let (runner, e₅, h₅) = >>=-eq-ok (read_runner py sums.runner) _ h₄ in
      let (receipt, e₆, h₆) = >>=-eq-ok (receipt_obligation_required py sums.receipt) _ h₅ in
      let same = ok-injective h₆ in
      record {
        contract = (refused, e₀, sym (ap (λ x. x.has_prepared_contract) same));
        policy = e₁ ∙ ap (λ x. ok x.policy) same;
        ticket = e₂ ∙ ap (λ x. ok x.ticket) same;
        trust = e₃ ∙ ap (λ x. ok x.trust) same;
        guarded = e₄ ∙ ap (λ x. ok x.guarded) same;
        replay = sym (ap (λ x. x.replay) same);
        receipt = e₆ ∙ ap (λ x. ok x.receipt_required) same;
      }

  -- What a result shows to have been read where it allows the runtime.
  pub record Admitted (input : AdmissionInput) (r : RuntimeAdmissionResult) : Type 0 where
    pub contract : explicit_false py r.prepared_execution_contract "allowed" ≡ ok false
    pub prepared :
        in_texts
          (signal_status py r.prepared_execution_contract ("status" ∷ "contract_status" ∷ []))
          ("prepared" ∷ "passed" ∷ "ok" ∷ "allowed" ∷ [])
        ≡ true
    pub policy :
        (status : String) × (policy_signal_status py r.policy_decision ≡ ok status)
        × (in_texts status passing_policy ≡ true)
    pub ticket :
        (status : String) × (ticket_signal_status py r.execution_ticket ≡ ok status)
        × (in_texts status passing_ticket ≡ true)
    pub trust :
        (status : String) × (trust_signal_status py r.trust_decision ≡ ok status)
        × (in_texts status passing_trust ≡ true)
    pub runner :
        (profile : RunnerProfile) × (r.runner_profile ≡ runner_as_dict profile)
        × (profile.allowed ≡ true)
        × (input.live ≡ true → profile.live_backend_enabled ≡ true)
    pub guard :
        input.runtime_consumable ≡ true
        → (status : String) × (guarded_runtime_status py r.sclite_guarded_strict ≡ ok status)
          × (in_texts status ("passed" ∷ "ok" ∷ "allowed" ∷ []) ≡ true)
    pub fresh :
        input.runtime_consumable ≡ true
        → in_texts
            (replay_runtime_status py r.replay_freshness r.sclite_guarded_strict
              input.runtime_consumable)
            ("fresh" ∷ [])
          ≡ true
    pub receipt : receipt_obligation_required py r.receipt_obligation ≡ ok true
    pub quiet : is_empty r.blockers ≡ true

  composed-Admitted :
      (input : AdmissionInput) (sums : Summaries) (s : Statuses) (refs metadata : Fields)
      → Read sums input.runtime_consumable s
      → (composed_admission input sums s refs metadata).allowed ≡ true
      → Admitted input (composed_admission input sums s refs metadata)
  unfolding composed_admission admission_blockers
  composed-Admitted input sums s refs metadata read allowed =
      let gate = evaluate_gate (gate_input_of s input.runtime_consumable) input.live in
      let (passes, quiet) = both_true (is_allowed gate) _ allowed in
      let passing =
        (evaluate_gate_iff (gate_input_of s input.runtime_consumable) input.live).0 passes in
      let (refused, e, shape) = read.contract in
      let (kept, prepared) = both_true (not refused) _ (sym shape ∙ passing.contract) in
      record {
        contract = e ∙ ap ok (not-eq-true kept);
        prepared = prepared;
        policy = (s.policy, read.policy, passing_of_or s.policy passing_policy refl passing.policy);
        ticket = (s.ticket, read.ticket, passing_of_or s.ticket passing_ticket refl passing.ticket);
        trust = (s.trust, read.trust, passing_of_or s.trust passing_trust refl passing.trust);
        runner = (s.runner, refl, passing.runner, passing.backend);
        guard = λ bundle. (
          s.guarded,
          read.guarded,
          passing_of_or s.guarded ("passed" ∷ "ok" ∷ "allowed" ∷ []) refl (passing.guard bundle),
        );
        fresh = λ bundle.
            ap (λ x. in_texts x ("fresh" ∷ [])) (sym read.replay)
            ∙ passing_of_or s.replay ("fresh" ∷ []) refl (either_true (passing.fresh bundle));
        receipt =
            read.receipt
            ∙ ap ok (
                receipt_of_quiet s.receipt_required (gate_blockers s sums.runner input.live gate)
                  quiet);
        quiet = quiet;
      }

  -- A composed admission that allows the runtime shows in its own records that the contract is
  -- prepared, that the policy decision, the ticket and the trust decision have passing statuses, that
  -- the runner profile is allowed, with a live backend where the run is live, that a bundle for the
  -- runtime is guarded and fresh, and that a receipt is required; and it has no blockers.
  pub compose_runtime_admission-Admitted :
      (as_dict : Value → Option Value) (input : AdmissionInput) (r : RuntimeAdmissionResult)
      → compose_runtime_admission py as_dict input ≡ ok r
      → r.allowed ≡ true
      → Admitted input r
  unfolding compose_runtime_admission validate_runtime_admission
  compose_runtime_admission-Admitted as_dict input r h allowed =
      let (sums, e₀, h₀) = >>=-eq-ok (read_summaries py as_dict input) _ h in
      let (refs, e₁, h₁) = >>=-eq-ok (read_references py as_dict sums input.artifact_refs) _ h₀ in
      let (s, e₂, h₂) = >>=-eq-ok (read_statuses py sums input.runtime_consumable) _ h₁ in
      let (metadata, e₃, h₃) = >>=-eq-ok (admission_metadata py input.metadata) _ h₂ in
      let (tests, same) =
        checked-eq-ok (check_runtime_admission py (composed_admission input sums s refs metadata))
          (composed_admission input sums s refs metadata) h₃ in
      let read = read_statuses-Read sums input.runtime_consumable e₂ in
      subst (Admitted input) (sym same)
        (composed-Admitted input sums s refs metadata read (rw (same) at allowed))
