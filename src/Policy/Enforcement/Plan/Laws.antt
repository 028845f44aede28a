-- ===== src/Policy/Enforcement/Plan/Laws.antt =====
-- govengine/policy/enforcement.py: lemmas on plans that are ready.
use gov_engine.Prelude.{
  In-append_left, In-append_right, String, Bool, true, false, not, ◌≡◌, ◌≢◌, refl, sym, ◌∙◌, ap,
  inl, inr, List, [], ◌∷◌, ◌++◌, ◌==◌, In, Bool-cases, eq_iff, ne_of_eqb-false, not-eq-false,
  not-eq-true,
}
use mathlib.Core.Path.{subst}
use mathlib.Core.Bool.{false≢true}
use gov_engine.Python.Text.{in_texts, or_text}
use gov_engine.Python.Sorting.{from_keys, non_empty}
use gov_engine.Python.Sorting.Laws.{In-from_keys, In-non_empty}
use gov_engine.Python.Value.{Value, str, get_or_null, Runtime}
use gov_engine.Errors.{Result, ok, err, gov_api, raised, >>=-eq-ok, ok-injective, if-err-eq-ok}
use gov_engine.Policy.Model.{
  PolicyVerdict, check_verdict, validate_policy_verdict, policy_verdict_decisions,
  policy_verdict_schema_version,
}
use gov_engine.Policy.Model.Laws.{validate_policy_verdict-eq-ok}
use gov_engine.Policy.Rule.{CompiledPolicyPack}
use gov_engine.Policy.Enforcement.Projection.{
  RuntimeControls, default_controls, apply_obligations, apply_constraints, sort_controls,
  validate_projection, project_runtime_controls,
}
use gov_engine.Policy.Enforcement.Plan.{
  PolicyEnforcementPlan, validate_plan_shape, names_other, blocker_if, permits, caught, status_of,
  projected, plan_blockers, admit_snapshot,
}
use gov_engine.Policy.Enforcement.Plan.Reasons.{
  is_named, bind_named, obligations_named, constraints_named, projection_named,
}

-- What holds of a verdict where a plan for it is ready.
pub record Ready (py : Runtime) (pack : CompiledPolicyPack) (v : PolicyVerdict)
    (controls : RuntimeControls) : Type 0 where
  pub valid : validate_policy_verdict py v ≡ ok v
  pub permitted : permits v.decision ≡ true
  pub same_pack : get_or_null "policy_pack" v.metadata ≡ str pack.policy_id
  pub same_version : get_or_null "policy_version" v.metadata ≡ str pack.version
  pub projects : project_runtime_controls py v ≡ ok controls

all_blank : (xs : List String) → from_keys (non_empty xs) ≡ [] → (t : String) → In t xs → t ≡ ""
all_blank xs e t h = elim (Bool-cases (t == "")) [
  | inl blank ↦ (eq_iff t "").0 blank
  | inr full ↦ absurd (
      subst (In t) e
        ((In-from_keys t (non_empty xs)).1 ((In-non_empty t xs).1 (ne_of_eqb-false t "" full, h))))
]

-- A blocker that is in place is among the blockers.
no_blocker :
    (b : Bool) (reason : String)
    → (reason == "") ≡ false
    → ((t : String) → In t (blocker_if b reason) → t ≡ "")
    → b ≡ false
no_blocker true reason full blank =
    absurd (ne_of_eqb-false reason "" full (blank reason (inl refl)))
no_blocker false reason full blank = refl

names_other-false :
    (v : Value) (s : String)
    → (elim v as (λ _. Bool) [ str t ↦ not (t == s) | _ ↦ true ]) ≡ false
    → v ≡ str s
names_other-false (str t) s e = ap str ((eq_iff t s).0 (not-eq-false e))
names_other-false _ s e = cc

or_text_filled : (a b : String) → b ≢ "" → or_text a b ≢ ""
or_text_filled a b h = elim (Bool-cases (a == "")) [
  | inl blank ↦ rw blank h
  | inr full ↦ rw full (ne_of_eqb-false a "" full)
]

ready_empty : (blockers : List String) → status_of blockers ≡ "ready" → blockers ≡ []
ready_empty [] e = refl
ready_empty (b ∷ bs) e = absurd (ne_of_eqb-false "blocked" "ready" refl e)

module _ (py : Runtime) where
  plan_blockers-empty :
      (pack : CompiledPolicyPack) (v : PolicyVerdict) (more : List String)
      → plan_blockers py pack v more ≡ []
      → (get_or_null "policy_pack" v.metadata ≡ str pack.policy_id)
        × (get_or_null "policy_version" v.metadata ≡ str pack.version)
        × ((t : String) → In t more → t ≡ "")
  unfolding plan_blockers names_other
  plan_blockers-empty pack v more e =
      let one =
        blocker_if (names_other v.metadata "policy_pack" pack.policy_id)
          "policy_verdict_pack_mismatch" in
      let two =
        blocker_if (names_other v.metadata "policy_version" pack.version)
          "policy_verdict_version_mismatch" in
      let blank = all_blank (v.blockers ++ (one ++ (two ++ more))) e in
      let tail = λ (t : String) (h : In t (one ++ (two ++ more))).
        blank t (In-append_right t v.blockers _ h) in
      (
        names_other-false (get_or_null "policy_pack" v.metadata) pack.policy_id (
            no_blocker (names_other v.metadata "policy_pack" pack.policy_id) _ refl
              (λ t h. tail t (In-append_left t one (two ++ more) h))),
        names_other-false (get_or_null "policy_version" v.metadata) pack.version (
            no_blocker (names_other v.metadata "policy_version" pack.version) _ refl
              (λ t h. tail t (In-append_right t one (two ++ more) (In-append_left t two more h)))),
        λ t h. tail t (In-append_right t one (two ++ more) (In-append_right t two more h)),
      )

  decision_filled : (v : PolicyVerdict) → check_verdict v ≡ ok tt → v.decision ≢ ""
  unfolding check_verdict
  decision_filled v e blank =
      let (_, e1) = if-err-eq-ok (not (v.schema_version == policy_verdict_schema_version)) _ _ e in
      let (known, _) = if-err-eq-ok (not (in_texts v.decision policy_verdict_decisions)) _ _ e1 in
      absurd (false≢true (rw blank at (not-eq-false known)))

  projection_is_named :
      (v : PolicyVerdict)
      → validate_policy_verdict py v ≡ ok v
      → is_named (project_runtime_controls py v) ≡ true
  unfolding project_runtime_controls
  projection_is_named v valid = rw valid (
      bind_named (apply_obligations default_controls v.obligations) _
        (obligations_named default_controls v.obligations)
        (λ s.
          bind_named (apply_constraints py s v.constraints) _ (constraints_named py s v.constraints)
            (λ t.
              bind_named (validate_projection (sort_controls t)) _
                (projection_named (sort_controls t)) (λ _. refl))))

  caught-clean :
      (m : Result RuntimeControls) (reason r : String) (controls : RuntimeControls)
      (more : List String)
      → is_named m ≡ true
      → caught m reason ≡ ok (controls, r, more)
      → ((t : String) → In t more → t ≡ "")
      → m ≡ ok controls
  unfolding caught
  caught-clean (ok c) reason r controls more named e blank =
      ap (λ (x : RuntimeControls × String × List String). ok x.0) (ok-injective e)
  caught-clean (err (gov_api code context)) reason r controls more named e blank =
      let more_is = ap (λ (x : RuntimeControls × String × List String). x.2) (ok-injective e) in
      absurd (
        ne_of_eqb-false code "" (not-eq-true named)
          (blank code (subst (In code) more_is (inl refl))))
  caught-clean (err (raised name)) reason r controls more named e blank = cc

  projected-clean :
      (v : PolicyVerdict) (r : String) (controls : RuntimeControls) (more : List String)
      → validate_policy_verdict py v ≡ ok v
      → projected py v (or_text v.reason_code v.decision) ≡ ok (controls, r, more)
      → ((t : String) → In t more → t ≡ "")
      → (permits v.decision ≡ true) × (project_runtime_controls py v ≡ ok controls)
  unfolding projected
  projected-clean v r controls more valid e blank = elim (Bool-cases (permits v.decision)) [
    | inl allowed ↦ (
      allowed,
      caught-clean (project_runtime_controls py v) _ r controls more (projection_is_named v valid)
          (rw allowed at e) blank,
    )
    | inr refused ↦
        let more_is =
          ap (λ (x : RuntimeControls × String × List String). x.2)
            (ok-injective (rw refused at e)) in
        let reason = or_text v.reason_code v.decision in
        let filled = decision_filled v (validate_policy_verdict-eq-ok py v v valid).1 in
        absurd (
          or_text_filled v.reason_code v.decision filled
            (blank reason (subst (In reason) more_is (inl refl))))
  ]

  -- A plan that is ready rests on a valid verdict that permits, whose metadata names the pack and its
  -- version, and it carries the controls that the verdict's obligations and constraints project to.
  pub admit_snapshot-Ready :
      (pack_digest : CompiledPolicyPack → Result String)
      (verdict_digest : PolicyVerdict → Result String) (pack : CompiledPolicyPack)
      (v : PolicyVerdict) (plan : PolicyEnforcementPlan)
      → admit_snapshot py pack_digest verdict_digest pack v ≡ ok plan
      → plan.status ≡ "ready"
      → Ready py pack v plan.controls
  unfolding admit_snapshot
  admit_snapshot-Ready pack_digest verdict_digest pack v plan e ready =
      let (checked, valid, r1) = >>=-eq-ok (validate_policy_verdict py v) _ e in
      let same = (validate_policy_verdict-eq-ok py v checked valid).0 in
      let ((controls, reason, more), tried, r2) =
        >>=-eq-ok (projected py checked (or_text checked.reason_code checked.decision)) _ r1 in
      let (digest, _, r3) = >>=-eq-ok (pack_digest pack) _ r2 in
      let (verdict_hash, _, r4) = >>=-eq-ok (verdict_digest checked) _ r3 in
      let (_, _, r5) = >>=-eq-ok (validate_plan_shape _) _ r4 in
      let made = ok-injective r5 in
      let status = ap (λ (x : PolicyEnforcementPlan). x.status) made ∙ ready in
      let carried = ap (λ (x : PolicyEnforcementPlan). x.controls) made in
      let none_left = ready_empty (plan_blockers py pack checked more) status in
      let valid_checked = subst (λ w. validate_policy_verdict py w ≡ ok checked) same valid in
      let (pack_same, version_same, blank) = plan_blockers-empty pack checked more none_left in
      let (allowed, projects) =
        projected-clean checked reason controls more valid_checked tried blank in
      subst (λ w. Ready py pack w plan.controls) (sym same)
        (record {
          valid = valid_checked;
          permitted = allowed;
          same_pack = pack_same;
          same_version = version_same;
          projects = projects ∙ ap ok carried;
        })
