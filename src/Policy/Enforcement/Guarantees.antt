-- ===== src/Policy/Enforcement/Guarantees.antt =====
-- What a projection owes to the obligations and constraints of its verdict.
use gov_engine.Prelude.{
  ℕ, ◌≤◌, ◌<◌, String, Bool, true, ◌≡◌, refl, sym, ap, ◌∙◌, ◌⊎◌, inl, inr, List, [], ◌∷◌, ◌==◌,
  ◌||◌, arith, Bool-cases, In,
}
use mathlib.Core.Path.{subst}
use gov_engine.Python.Number.{pos}
use gov_engine.Python.Value.{int, Runtime}
use gov_engine.Errors.{ok, >>=-eq-ok, ok-injective}
use gov_engine.Policy.Model.{
  PolicyObligation, PolicyConstraint, PolicyVerdict, validate_policy_verdict,
}
use gov_engine.Policy.Model.Laws.{validate_policy_verdict-eq-ok}
use gov_engine.Policy.Enforcement.Projection.{
  RuntimeControls, default_controls, Effect, receipt, output_digest, apply_effect, add_control_id,
  obligation_effect, apply_obligations, apply_constraints, sort_controls, validate_projection,
  project_runtime_controls,
}
use gov_engine.Policy.Enforcement.Limits.{
  Limit, step_limit, byte_limit, limit_kind, limit_of, Loop, apply_constraints-Loop,
}

obligation_effect-cases :
    (o : PolicyObligation) (e : Effect)
    → obligation_effect o ≡ ok e
    → (e ≡ receipt) ⊎ (e ≡ output_digest true)
unfolding obligation_effect
obligation_effect-cases o e h =
    elim (Bool-cases (o.kind == "receipt" || o.kind == "receipt_required")) [
      | inl a ↦ inl (sym (ok-injective (rw a at h)))
      | inr a ↦ elim (Bool-cases (o.kind == "output_digest_required")) [
        | inl b ↦ inr (sym (ok-injective (rw (a, b) at h)))
        | inr b ↦ cc
      ]
    ]

receipt_keeps_limits :
    (s : RuntimeControls) (l : Limit) → limit_of l (apply_effect s receipt) ≡ limit_of l s
unfolding apply_effect
receipt_keeps_limits s step_limit = refl
receipt_keeps_limits s byte_limit = refl

digest_keeps_limits :
    (s : RuntimeControls) (b : Bool) (l : Limit)
    → limit_of l (apply_effect s (output_digest b)) ≡ limit_of l s
unfolding apply_effect
digest_keeps_limits s b step_limit = refl
digest_keeps_limits s b byte_limit = refl

id_keeps_limits :
    (s : RuntimeControls) (id : String) (l : Limit)
    → limit_of l (add_control_id s id) ≡ limit_of l s
id_keeps_limits s id step_limit = refl
id_keeps_limits s id byte_limit = refl

obligation_keeps_limits :
    (o : PolicyObligation) (s : RuntimeControls) (l : Limit) (e : Effect)
    → obligation_effect o ≡ ok e
    → limit_of l (apply_effect (add_control_id s o.obligation_id) e) ≡ limit_of l s
obligation_keeps_limits o s l e h =
    let s' = add_control_id s o.obligation_id in
    let same = λ (f : Effect) (q : e ≡ f). ap (λ k. limit_of l (apply_effect s' k)) q in
    elim (obligation_effect-cases o e h) [
      | inl q ↦ same receipt q ∙ receipt_keeps_limits s' l ∙ id_keeps_limits s o.obligation_id l
      | inr q ↦
          same (output_digest true) q
          ∙ digest_keeps_limits s' true l
          ∙ id_keeps_limits s o.obligation_id l
    ]

apply_obligations_keep_limits :
    (os : List PolicyObligation) (s t : RuntimeControls) (l : Limit)
    → apply_obligations s os ≡ ok t
    → limit_of l t ≡ limit_of l s
unfolding apply_obligations
apply_obligations_keep_limits [] s t l h = ap (limit_of l) (sym (ok-injective h))
apply_obligations_keep_limits (o ∷ os) s t l h =
    let (e, made, rest) = >>=-eq-ok (obligation_effect o) _ h in
    apply_obligations_keep_limits os _ t l rest ∙ obligation_keeps_limits o s l e made

-- A limit of the projection: it is within every constraint of its kind, and positive where there
-- is one; and it is either 0, for no limit, or the value of one of them.
pub record IsLeastLimit (l : Limit) (cs : List PolicyConstraint) (p : RuntimeControls)
    : Type 0 where
  pub bound :
      (c : PolicyConstraint)
      → In c cs
      → c.kind ≡ limit_kind l
      → (n : ℕ) × (c.value ≡ int (pos n)) × (0 < limit_of l p) × (limit_of l p ≤ n)
  pub origin :
      (limit_of l p ≡ 0)
      ⊎ ((c : PolicyConstraint) × In c cs
          × (c.kind ≡ limit_kind l)
          × (c.value ≡ int (pos (limit_of l p))))

limit_of-sort_controls :
    (l : Limit) (s : RuntimeControls) → limit_of l (sort_controls s) ≡ limit_of l s
limit_of-sort_controls step_limit s = refl
limit_of-sort_controls byte_limit s = refl

no_default_limit : (l : Limit) → limit_of l default_controls ≡ 0
no_default_limit step_limit = refl
no_default_limit byte_limit = refl

Loop-IsLeastLimit :
    (py : Runtime) (l : Limit) (cs : List PolicyConstraint) (s t p : RuntimeControls)
    → limit_of l s ≡ 0
    → limit_of l p ≡ limit_of l t
    → Loop py l cs s t
    → IsLeastLimit l cs p
Loop-IsLeastLimit py l cs s t p none same loop = record {
  bound =
      λ c h k. let (n, value, more, low) = loop.bound c h k in (n, value, omega arith, omega arith);
  origin = elim loop.origin [
    | inl kept ↦ inl (same ∙ kept ∙ none)
    | inr (c, h, k, value) ↦ inr (c, h, k, value ∙ ap (λ j. int (pos j)) (sym same))
  ];
}

-- The limits on steps and on output bytes that a projection carries are the least of those that the
-- verdict's constraints set, and there is none that no constraint set.
pub project_runtime_controls_limits :
    (py : Runtime) (v : PolicyVerdict) (p : RuntimeControls) (l : Limit)
    → project_runtime_controls py v ≡ ok p
    → IsLeastLimit l v.constraints p
unfolding project_runtime_controls
project_runtime_controls_limits py v p l h =
    let (checked, valid, rest) = >>=-eq-ok (validate_policy_verdict py v) _ h in
    let (same, _, _) = validate_policy_verdict-eq-ok py v checked valid in
    let (s, obliged, rest2) =
      >>=-eq-ok (apply_obligations default_controls checked.obligations) _ rest in
    let (t, constrained, rest3) = >>=-eq-ok (apply_constraints py s checked.constraints) _ rest2 in
    let (_, shaped, done) = >>=-eq-ok (validate_projection (sort_controls t)) _ rest3 in
    let loop = apply_constraints-Loop py l checked.constraints s t constrained in
    let from_sorted = ap (limit_of l) (sym (ok-injective done)) ∙ limit_of-sort_controls l t in
    let unset =
      apply_obligations_keep_limits checked.obligations default_controls s l obliged
      ∙ no_default_limit l in
    subst (λ (w : PolicyVerdict). IsLeastLimit l w.constraints p) (sym same)
      (Loop-IsLeastLimit py l checked.constraints s t p unset from_sorted loop)
