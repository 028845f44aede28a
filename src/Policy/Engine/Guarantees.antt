-- ===== src/Policy/Engine/Guarantees.antt =====
-- govengine/policy/runtime: unsafe requests, permitting decisions, and theorems on them.
use mathlib.Core.Bool.{false≢true}
use gov_engine.Prelude.{
  ℕ, zero, suc, ◌≤◌, String, Bool, true, ◌&&◌, ◌||◌, ◌≡◌, ◌≢◌, ◌↔◌, sym, ap, ◌∙◌, ◌⊎◌, inl, inr,
  none, some, ◌==◌, arith, eq_iff, Bool-cases, not-eq-false, not, Option-cases, In,
}
use gov_engine.Python.Text.{in_texts}
use gov_engine.Python.Value.{Fields, Runtime}
use gov_engine.Errors.{ok, if-err-eq-ok}
use gov_engine.Policy.Model.{PolicyRequest, PolicyVerdict, policy_verdict_decisions, check_verdict}
use gov_engine.Policy.Rule.{PolicyRule, CompiledPolicyPack}
use gov_engine.Policy.Condition.{bool_path}
use gov_engine.Policy.Engine.{is_mutating, is_critical, Ruling, invariant_ruling, evaluate_snapshot}
use gov_engine.Policy.Engine.Precedence.{severity, Applies}
use gov_engine.Policy.Engine.Decisions.{
  DeniedByDefault, DecidedBy, evaluate_snapshot_strictest, evaluate_snapshot_by_invariant,
  evaluate_snapshot_checked,
}

abbrev pub is_unsafe : PolicyRequest → Bool
is_unsafe request =
    bool_path request.action "unsafe_execution_shape"
    || bool_path request.context "execution.unsafe_execution_shape"

-- The invariants of the kernel never permit.
invariant_ruling-decision :
    (py : Runtime) (request : PolicyRequest) (ruling : Ruling)
    → invariant_ruling py request ≡ some ruling
    → (ruling.decision ≡ "deny") ⊎ (ruling.decision ≡ "approval_required")
unfolding invariant_ruling
invariant_ruling-decision py request ruling e = ground arith

invariant_ruling_strict :
    (py : Runtime) (request : PolicyRequest) (ruling : Ruling)
    → invariant_ruling py request ≡ some ruling
    → 2 ≤ severity ruling.decision
invariant_ruling_strict py request ruling e = elim (invariant_ruling-decision py request ruling e) [
  | inl same ↦ rw same (omega arith)
  | inr same ↦ rw same (omega arith)
]

-- The two invariants that deny.
invariant_ruling_denies :
    (py : Runtime) (request : PolicyRequest) (ruling : Ruling)
    → (is_unsafe request || bool_path request.action "destructive") ≡ true
    → invariant_ruling py request ≡ some ruling
    → ruling.decision ≡ "deny"
unfolding invariant_ruling
invariant_ruling_denies py request ruling h e = ground arith

invariant_ruling_decides :
    (py : Runtime) (request : PolicyRequest)
    → (is_unsafe request || bool_path request.action "destructive") ≡ true
    → invariant_ruling py request ≢ none
unfolding invariant_ruling
invariant_ruling_decides py request h = ground arith

invariant_ruling_restrains :
    (py : Runtime) (request : PolicyRequest)
    → (is_mutating py request.action && is_critical py request.resource) ≡ true
    → invariant_ruling py request ≢ none
unfolding invariant_ruling
invariant_ruling_restrains py request h = ground arith

abbrev pub Permits : String → Type 0
Permits decision = (decision ≡ "allow") ⊎ (decision ≡ "allow_with_obligations")

severity_of_Permits : (decision : String) → Permits decision → severity decision ≤ 1
severity_of_Permits decision (inl e) = rw e (omega arith)
severity_of_Permits decision (inr e) = rw e (omega arith)

-- A verdict that permits is made by a rule of the pack that applies; no invariant of the kernel
-- holds against the request, and no rule that applies denies it or wants approval.
pub permitted_by_rule :
    (py : Runtime) (request : PolicyRequest) (pack : CompiledPolicyPack) (context : Fields)
    (v : PolicyVerdict)
    → evaluate_snapshot py request pack context ≡ ok v
    → Permits v.decision
    → (invariant_ruling py request ≡ none)
      × ((r : PolicyRule) × DecidedBy request pack context v r)
      × ((s : PolicyRule) → In s pack.rules → Applies request context s → severity s.effect ≤ 1)
permitted_by_rule py request pack context v e p =
    elim (Option-cases (invariant_ruling py request)) [
      | inr (ruling, loud) ↦
          let c = evaluate_snapshot_by_invariant py request pack context v ruling loud e in
          absurd (
            omega (
              arith,
              invariant_ruling_strict py request ruling loud,
              severity_of_Permits v.decision p,
              ap severity c.decision,
            ))
      | inl quiet ↦ elim (evaluate_snapshot_strictest py request pack context v quiet e) [
        | inl d ↦ absurd (omega (arith, severity_of_Permits v.decision p, ap severity d.decision))
        | inr (r, d) ↦ (
          quiet,
          (r, d),
          λ s h a. omega (arith, d.strictest s h a, severity_of_Permits v.decision p),
        )
      ]
    ]

-- Whatever the pack holds, a verdict on an unsafe execution shape, in the action or the context, or
-- on a destructive action is a denial.
pub unsafe_denied :
    (py : Runtime) (request : PolicyRequest) (pack : CompiledPolicyPack) (context : Fields)
    (v : PolicyVerdict)
    → evaluate_snapshot py request pack context ≡ ok v
    → (is_unsafe request || bool_path request.action "destructive") ≡ true
    → v.decision ≡ "deny"
unsafe_denied py request pack context v e h = elim (Option-cases (invariant_ruling py request)) [
  | inl quiet ↦ absurd (invariant_ruling_decides py request h quiet)
  | inr (ruling, loud) ↦
      let c = evaluate_snapshot_by_invariant py request pack context v ruling loud e in
      c.decision ∙ invariant_ruling_denies py request ruling h loud
]

-- Whatever the pack holds, a verdict on a mutation of a critical resource is a denial or a demand
-- for approval.
pub critical_mutation_restrained :
    (py : Runtime) (request : PolicyRequest) (pack : CompiledPolicyPack) (context : Fields)
    (v : PolicyVerdict)
    → evaluate_snapshot py request pack context ≡ ok v
    → (is_mutating py request.action && is_critical py request.resource) ≡ true
    → (v.decision ≡ "deny") ⊎ (v.decision ≡ "approval_required")
critical_mutation_restrained py request pack context v e h =
    elim (Option-cases (invariant_ruling py request)) [
      | inl quiet ↦ absurd (invariant_ruling_restrains py request h quiet)
      | inr (ruling, loud) ↦
          let c = evaluate_snapshot_by_invariant py request pack context v ruling loud e in
          rw (c.decision) (invariant_ruling-decision py request ruling loud)
    ]

of_severity : ℕ → String
of_severity zero = "allow"
of_severity (suc zero) = "allow_with_obligations"
of_severity (suc (suc zero)) = "approval_required"
of_severity _ = "deny"

of_severity-severity :
    (d : String) → in_texts d policy_verdict_decisions ≡ true → of_severity (severity d) ≡ d
unfolding of_severity
of_severity-severity d h = elim (Bool-cases (d == "allow")) [
  | inl e ↦ let same = (eq_iff d "allow").0 e in rw same
  | inr a ↦ elim (Bool-cases (d == "allow_with_obligations")) [
    | inl e ↦ let same = (eq_iff d "allow_with_obligations").0 e in rw same
    | inr b ↦ elim (Bool-cases (d == "approval_required")) [
      | inl e ↦ let same = (eq_iff d "approval_required").0 e in rw same
      | inr c ↦ elim (Bool-cases (d == "deny")) [
        | inl e ↦ let same = (eq_iff d "deny").0 e in rw same
        | inr e ↦ absurd (false≢true (sym (rw (a, b, c, e)) ∙ h))
      ]
    ]
  ]
]

check_verdict-decision :
    (v : PolicyVerdict)
    → check_verdict v ≡ ok tt
    → in_texts v.decision policy_verdict_decisions ≡ true
unfolding check_verdict
check_verdict-decision v e =
    let (_, known) = if-err-eq-ok (not (v.schema_version == "v0.1")) _ _ e in
    let (valid, _) = if-err-eq-ok (not (in_texts v.decision policy_verdict_decisions)) _ _ known in
    not-eq-false valid

severity_inj :
    (a b : String)
    → in_texts a policy_verdict_decisions ≡ true
    → in_texts b policy_verdict_decisions ≡ true
    → severity a ≡ severity b
    → a ≡ b
severity_inj a b h k e =
    sym (of_severity-severity a h) ∙ ap of_severity e ∙ of_severity-severity b k

-- Two packs with the same rules, in any order and however often.
abbrev pub SameRules : CompiledPolicyPack → CompiledPolicyPack → Type 0
SameRules p q = (r : PolicyRule) → In r p.rules ↔ In r q.rules

same_decision :
    (request : PolicyRequest) (p q : CompiledPolicyPack) (context : Fields) (v w : PolicyVerdict)
    → SameRules p q
    → DeniedByDefault request p context v ⊎ ((r : PolicyRule) × DecidedBy request p context v r)
    → DeniedByDefault request q context w ⊎ ((r : PolicyRule) × DecidedBy request q context w r)
    → severity v.decision ≡ severity w.decision
same_decision request p q context v w same (inl d) (inl f) =
    ap severity (d.decision ∙ sym f.decision)
same_decision request p q context v w same (inl d) (inr (r, f)) =
    absurd (d.none_apply r ((same r).1 f.listed) f.matches)
same_decision request p q context v w same (inr (r, d)) (inl f) =
    absurd (f.none_apply r ((same r).0 d.listed) d.matches)
same_decision request p q context v w same (inr (r, d)) (inr (s, f)) = omega (
  arith,
  d.strictest s ((same s).1 f.listed) f.matches,
  f.strictest r ((same r).0 d.listed) d.matches,
  ap severity d.decision,
  ap severity f.decision,
)

-- The decision depends on which rules a pack has, and not on their order: two packs with the same
-- rules give verdicts with one decision on a request and context.
pub decision_order_independent :
    (py : Runtime) (request : PolicyRequest) (p q : CompiledPolicyPack) (context : Fields)
    (v w : PolicyVerdict)
    → SameRules p q
    → evaluate_snapshot py request p context ≡ ok v
    → evaluate_snapshot py request q context ≡ ok w
    → v.decision ≡ w.decision
decision_order_independent py request p q context v w same e f =
    elim (Option-cases (invariant_ruling py request)) [
      | inr (ruling, loud) ↦
          let c = evaluate_snapshot_by_invariant py request p context v ruling loud e in
          let d = evaluate_snapshot_by_invariant py request q context w ruling loud f in
          c.decision ∙ sym d.decision
      | inl quiet ↦
          severity_inj v.decision w.decision
            (check_verdict-decision v (evaluate_snapshot_checked py request p context v e))
            (check_verdict-decision w (evaluate_snapshot_checked py request q context w f))
            (same_decision request p q context v w same
              (evaluate_snapshot_strictest py request p context v quiet e)
              (evaluate_snapshot_strictest py request q context w quiet f))
    ]
