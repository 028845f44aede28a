-- ===== src/Policy/Engine/Decisions.antt =====
-- What a verdict of the engine says about the request and the pack.
use gov_engine.Prelude.{
  ◌≤◌, ◌≡◌, sym, ap, ◌∙◌, ◌⊎◌, inl, inr, List, [], ◌∷◌, none, some, Option-cases, In,
}
use mathlib.Core.Path.{subst}
use gov_engine.Python.Value.{Fields, Runtime}
use gov_engine.Errors.{ok, >>=-eq-ok}
use gov_engine.Policy.Model.{PolicyRequest, PolicyVerdict, check_verdict}
use gov_engine.Policy.Model.Laws.{validate_policy_verdict-eq-ok}
use gov_engine.Policy.Rule.{PolicyRule, CompiledPolicyPack}
use gov_engine.Policy.Engine.{
  matched_rules, Ruling, rule_ruling, matched_ruling, verdict, invariant_ruling, evaluate_snapshot,
}
use gov_engine.Policy.Engine.Precedence.{
  severity, Applies, matched_ruling-Decides, matched_rules_sound, matched_rules_complete,
}

-- A verdict that carries a ruling, and that validation accepts.
pub record Carries (ruling : Ruling) (v : PolicyVerdict) : Type 0 where
  pub decision : v.decision ≡ ruling.decision
  pub reason_code : v.reason_code ≡ ruling.reason_code
  pub blockers : v.blockers ≡ ruling.blockers
  pub risk_class : v.risk_class ≡ ruling.risk_class
  pub risk_score : v.risk_score ≡ ruling.risk_score
  pub obligations : v.obligations ≡ ruling.obligations
  pub constraints : v.constraints ≡ ruling.constraints
  pub checked : check_verdict v ≡ ok tt

module _ (py : Runtime) (request : PolicyRequest) (pack : CompiledPolicyPack) where
  verdict-Carries :
      (ruling : Ruling) (v : PolicyVerdict)
      → verdict py request pack ruling ≡ ok v
      → Carries ruling v
  unfolding verdict
  verdict-Carries ruling v e =
      let (same, checked, clean) = validate_policy_verdict-eq-ok py _ v e in
      record {
        decision = sym (ap (λ (w : PolicyVerdict). w.decision) same);
        reason_code = sym (ap (λ (w : PolicyVerdict). w.reason_code) same);
        blockers = sym (ap (λ (w : PolicyVerdict). w.blockers) same);
        risk_class = sym (ap (λ (w : PolicyVerdict). w.risk_class) same);
        risk_score = sym (ap (λ (w : PolicyVerdict). w.risk_score) same);
        obligations = sym (ap (λ (w : PolicyVerdict). w.obligations) same);
        constraints = sym (ap (λ (w : PolicyVerdict). w.constraints) same);
        checked = rw same at checked;
      }

-- No rule of the pack applies, and the verdict is the default denial.
pub record DeniedByDefault (request : PolicyRequest) (pack : CompiledPolicyPack) (context : Fields)
    (v : PolicyVerdict) : Type 0 where
  pub none_apply : (r : PolicyRule) → In r pack.rules → ¬ Applies request context r
  pub decision : v.decision ≡ "deny"
  pub reason_code : v.reason_code ≡ "no_matching_policy_rule"

-- The verdict has the outcome and the controls of a listed rule that applies, and no rule that
-- applies is stricter.
pub record DecidedBy (request : PolicyRequest) (pack : CompiledPolicyPack) (context : Fields)
    (v : PolicyVerdict) (r : PolicyRule) : Type 0 where
  pub listed : In r pack.rules
  pub matches : Applies request context r
  pub decision : v.decision ≡ r.effect
  pub reason_code : v.reason_code ≡ r.reason_code
  pub risk_class : v.risk_class ≡ r.risk_class
  pub risk_score : v.risk_score ≡ r.risk_score
  pub obligations : v.obligations ≡ r.obligations
  pub constraints : v.constraints ≡ r.constraints
  pub strictest :
      (s : PolicyRule)
      → In s pack.rules
      → Applies request context s
      → severity s.effect ≤ severity v.decision

module _ (py : Runtime) (request : PolicyRequest) (pack : CompiledPolicyPack) (context : Fields)
    (v : PolicyVerdict) where
  ruled_by_matches :
      (ms : List PolicyRule)
      → matched_rules pack.rules request context ≡ ok ms
      → Carries (matched_ruling ms) v
      → DeniedByDefault request pack context v
        ⊎ ((r : PolicyRule) × DecidedBy request pack context v r)
  unfolding matched_ruling rule_ruling
  ruled_by_matches [] e c = inl (record {
    none_apply = λ r h a. matched_rules_complete request context pack.rules [] r e h a;
    decision = c.decision;
    reason_code = c.reason_code;
  })
  ruled_by_matches (m ∷ ms) e c =
      let (r, d) = matched_ruling-Decides m ms in
      let (listed, matches) =
        matched_rules_sound request context pack.rules (m ∷ ms) r e d.listed in
      inr (
        r,
        record {
          listed = listed;
          matches = matches;
          decision = c.decision ∙ ap (λ (x : Ruling). x.decision) d.made;
          reason_code = c.reason_code ∙ ap (λ (x : Ruling). x.reason_code) d.made;
          risk_class = c.risk_class ∙ ap (λ (x : Ruling). x.risk_class) d.made;
          risk_score = c.risk_score ∙ ap (λ (x : Ruling). x.risk_score) d.made;
          obligations = c.obligations ∙ ap (λ (x : Ruling). x.obligations) d.made;
          constraints = c.constraints ∙ ap (λ (x : Ruling). x.constraints) d.made;
          strictest = λ s h a.
              subst (λ x. severity s.effect ≤ severity x)
                (sym (c.decision ∙ ap (λ (x : Ruling). x.decision) d.made))
                (d.strictest s
                  (matched_rules_complete request context pack.rules (m ∷ ms) s e h a));
        },
      )

  -- Where no invariant of the kernel decides, a verdict is either the default denial, and then no
  -- rule of the pack applies, or it takes decision, reason, risk and controls from a rule of the
  -- pack that applies, and no rule that applies has a stricter effect.
  pub evaluate_snapshot_strictest :
      invariant_ruling py request ≡ none
      → evaluate_snapshot py request pack context ≡ ok v
      → DeniedByDefault request pack context v
        ⊎ ((r : PolicyRule) × DecidedBy request pack context v r)
  unfolding evaluate_snapshot
  evaluate_snapshot_strictest quiet e =
      let (ms, matched, ruled) =
        >>=-eq-ok (matched_rules pack.rules request context) _
          (rw (quiet, evaluate_snapshot) at e) in
      ruled_by_matches ms matched (verdict-Carries py request pack (matched_ruling ms) v ruled)

  pub evaluate_snapshot_by_invariant :
      (ruling : Ruling)
      → invariant_ruling py request ≡ some ruling
      → evaluate_snapshot py request pack context ≡ ok v
      → Carries ruling v
  unfolding evaluate_snapshot
  evaluate_snapshot_by_invariant ruling loud e =
      verdict-Carries py request pack ruling v (rw (loud, evaluate_snapshot) at e)

  -- Every verdict has passed the tests of its validation.
  pub evaluate_snapshot_checked :
      evaluate_snapshot py request pack context ≡ ok v → check_verdict v ≡ ok tt
  unfolding evaluate_snapshot
  evaluate_snapshot_checked e = elim (Option-cases (invariant_ruling py request)) [
    | inr (ruling, loud) ↦
        (verdict-Carries py request pack ruling v (rw (loud, evaluate_snapshot) at e)).checked
    | inl quiet ↦
        let (ms, matched, ruled) =
          >>=-eq-ok (matched_rules pack.rules request context) _
            (rw (quiet, evaluate_snapshot) at e) in
        (verdict-Carries py request pack (matched_ruling ms) v ruled).checked
  ]
