-- ===== src/Core/Gate/Laws.antt =====
-- govengine/execution/gate.py: when the gate lets a request pass.
use gov_engine.Prelude.{
  String, Bool, true, false, not, ◌&&◌, List, [], ◌∷◌, ◌==◌, ◌≡◌, ◌↔◌, refl, inl, inr,
  if◌then◌else◌, is_empty, Bool-cases, sym, ◌∙◌, not-eq-false, both_true, arith,
}
use gov_engine.Python.Text.{in_texts}
use gov_engine.Core.{is_allowed, append_if, missing_reasons, transition_decision}
use gov_engine.Core.Gate.{ExecutionGateInput, prerequisites, guarded_blockers, evaluate_gate}

-- What a request needs to pass the gate.
pub record Passing (item : ExecutionGateInput) (live : Bool) : Type 0 where
  pub contract : item.has_prepared_execution_contract ≡ true
  pub policy :
      in_texts item.policy_decision_status ("allow" ∷ "allowed" ∷ "passed" ∷ "ok" ∷ []) ≡ true
  pub ticket :
      in_texts item.execution_ticket_status
        ("approve" ∷ "approved" ∷ "approved_for_dry_run" ∷ "passed" ∷ "ok" ∷ [])
      ≡ true
  pub trust : in_texts item.trust_decision_status ("trusted" ∷ "passed" ∷ "ok" ∷ []) ≡ true
  pub runner : item.runner_profile.allowed ≡ true
  pub backend : live ≡ true → item.runner_profile.live_backend_enabled ≡ true
  pub guard :
      item.runtime_consumable_bundle ≡ true
      → in_texts item.guarded_bundle_status ("passed" ∷ "ok" ∷ "allowed" ∷ []) ≡ true
  pub fresh : item.runtime_consumable_bundle ≡ true → (item.replay_status == "fresh") ≡ true

-- The part of it that `missing_reasons` tests.
abbrev Prerequisites : ExecutionGateInput → Bool → Type 0
Prerequisites item live =
    (item.has_prepared_execution_contract ≡ true)
    × (in_texts item.policy_decision_status ("allow" ∷ "allowed" ∷ "passed" ∷ "ok" ∷ []) ≡ true)
    × (in_texts item.execution_ticket_status
          ("approve" ∷ "approved" ∷ "approved_for_dry_run" ∷ "passed" ∷ "ok" ∷ [])
        ≡ true)
    × (in_texts item.trust_decision_status ("trusted" ∷ "passed" ∷ "ok" ∷ []) ≡ true)
    × (item.runner_profile.allowed ≡ true)
    × ((live && not item.runner_profile.live_backend_enabled) ≡ false)

append_if-empty :
    (b : Bool) (reason : String) (rest : List String)
    → is_empty (if b then reason ∷ rest else rest) ≡ true
    → (b ≡ false) × (is_empty rest ≡ true)
append_if-empty true reason rest h = cc
append_if-empty false reason rest h = (refl, h)

guarded_blockers-empty :
    (item : ExecutionGateInput)
    → is_empty (guarded_blockers item) ≡ true
    → item.runtime_consumable_bundle ≡ true
    → (in_texts item.guarded_bundle_status ("passed" ∷ "ok" ∷ "allowed" ∷ []) ≡ true)
      × ((item.replay_status == "fresh") ≡ true)
unfolding guarded_blockers
guarded_blockers-empty item h bundle =
    let (guard, rest) = append_if-empty _ _ _ (rw (bundle) at h) in
    let (fresh, _) = append_if-empty _ _ _ rest in (not-eq-false guard, not-eq-false fresh)

both_quiet :
    (a b : Bool) (r s : String)
    → a ≡ true
    → b ≡ true
    → is_empty (append_if (not a) r (append_if (not b) s [])) ≡ true
both_quiet a b r s h k = rw (h, k) refl

guarded_blockers-passed :
    (item : ExecutionGateInput)
    → (item.runtime_consumable_bundle ≡ true
        → in_texts item.guarded_bundle_status ("passed" ∷ "ok" ∷ "allowed" ∷ []) ≡ true)
    → (item.runtime_consumable_bundle ≡ true → (item.replay_status == "fresh") ≡ true)
    → is_empty (guarded_blockers item) ≡ true
unfolding guarded_blockers
guarded_blockers-passed item guard fresh = elim (Bool-cases item.runtime_consumable_bundle) [
  | inl bundle ↦ rw (bundle) (
      both_quiet (in_texts item.guarded_bundle_status ("passed" ∷ "ok" ∷ "allowed" ∷ []))
        (item.replay_status == "fresh") _ _ (guard bundle) (fresh bundle))
  | inr plain ↦ rw (plain) refl
]

missing_reasons-empty :
    (item : ExecutionGateInput) (live : Bool)
    → is_empty (missing_reasons (prerequisites item) live) ≡ true
    → Prerequisites item live
unfolding missing_reasons
missing_reasons-empty item live h =
    let (contract, h₁) = append_if-empty _ _ _ h in
    let (policy, h₂) = append_if-empty _ _ _ h₁ in
    let (ticket, h₃) = append_if-empty _ _ _ h₂ in
    let (trust, h₄) = append_if-empty _ _ _ h₃ in
    let (runner, h₅) = append_if-empty _ _ _ h₄ in
    let (backend, _) = append_if-empty _ _ _ h₅ in
    (
      not-eq-false contract,
      not-eq-false policy,
      not-eq-false ticket,
      not-eq-false trust,
      not-eq-false runner,
      backend,
    )

missing_reasons-passed :
    (item : ExecutionGateInput) (live : Bool)
    → Prerequisites item live
    → is_empty (missing_reasons (prerequisites item) live) ≡ true
unfolding missing_reasons
missing_reasons-passed item live (contract, policy, ticket, trust, runner, backend) =
    rw (contract, policy, ticket, trust, runner, backend) refl

-- The decision is the conjunction of its two lists of blockers.
evaluate_gate-is_allowed :
    (item : ExecutionGateInput) (live : Bool)
    → is_allowed (evaluate_gate item live)
      ≡ (is_empty (guarded_blockers item) && is_empty (missing_reasons (prerequisites item) live))
unfolding evaluate_gate transition_decision
evaluate_gate-is_allowed item live = elim (Bool-cases (is_empty (guarded_blockers item))) [
  | inr blocked ↦ rw (blocked) refl
  | inl quiet ↦ elim (Bool-cases (is_empty (missing_reasons (prerequisites item) live))) [
    | inl ready ↦ rw (quiet, ready) refl
    | inr missing ↦ rw (quiet, missing) refl
  ]
]

backend_of : (live enabled : Bool) → (live && not enabled) ≡ false → live ≡ true → enabled ≡ true
backend_of live enabled h on = ground arith

pub no_backend_blocker :
    (live enabled : Bool) → (live ≡ true → enabled ≡ true) → (live && not enabled) ≡ false
no_backend_blocker true enabled h = rw (h refl) refl
no_backend_blocker false enabled h = refl

-- The execution gate allows a request exactly if the contract is prepared, the policy, ticket and
-- trust statuses are passing ones, the runner profile is allowed, with a live backend where the
-- request is live, and a bundle for the runtime is guarded and fresh.
pub evaluate_gate_iff :
    (item : ExecutionGateInput) (live : Bool)
    → (is_allowed (evaluate_gate item live) ≡ true) ↔ Passing item live
evaluate_gate_iff item live = (
  λ allowed.
      (let (guarded, ready) =
          both_true (is_empty (guarded_blockers item))
            (is_empty (missing_reasons (prerequisites item) live))
            (sym (evaluate_gate-is_allowed item live) ∙ allowed) in
        let (contract, policy, ticket, trust, runner, backend) =
          missing_reasons-empty item live ready in
        record {
          contract = contract;
          policy = policy;
          ticket = ticket;
          trust = trust;
          runner = runner;
          backend = backend_of live item.runner_profile.live_backend_enabled backend;
          guard = λ bundle. (guarded_blockers-empty item guarded bundle).0;
          fresh = λ bundle. (guarded_blockers-empty item guarded bundle).1;
        }),
  λ passing.
      (let guarded = guarded_blockers-passed item passing.guard passing.fresh in
        let backend =
          no_backend_blocker live item.runner_profile.live_backend_enabled passing.backend in
        let ready = missing_reasons-passed item live (
          passing.contract, passing.policy, passing.ticket, passing.trust, passing.runner, backend,
        ) in
        evaluate_gate-is_allowed item live ∙ rw (guarded, ready) refl),
)
