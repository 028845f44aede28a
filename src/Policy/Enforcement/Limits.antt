-- ===== src/Policy/Enforcement/Limits.antt =====
-- The numeric limits that a projection takes from the constraints of a verdict.
use gov_engine.Prelude.{
  ℕ, zero, suc, ◌≤◌, ◌<◌, String, ◌≡◌, ◌≢◌, refl, sym, ap, ◌∙◌, ◌⊎◌, inl, inr, List, [], ◌∷◌, ◌==◌,
  arith, eq_iff, Bool-cases, In, ne_of_eqb-false,
}
use mathlib.Core.Path.{subst}
use gov_engine.Python.Number.{pos}
use gov_engine.Python.Value.{Value, int, Runtime}
use gov_engine.Errors.{ok, >>=-eq-ok, ok-injective}
use gov_engine.Policy.Model.{PolicyConstraint}
use gov_engine.Policy.Enforcement.Kinds.{effect_kind, constraint_effect-kind}
use gov_engine.Policy.Enforcement.Projection.{
  RuntimeControls, Effect, max_steps, output_limit, positive_int, tighter, apply_effect,
  add_control_id, constraint_effect, apply_constraints,
}

-- The two limits that are numbers of steps or bytes.
pub data Limit : Type 0 where
  step_limit byte_limit : Limit

abbrev pub limit_kind : Limit → String
limit_kind step_limit = "max_steps"
limit_kind byte_limit = "output_limit"

abbrev pub limit_of : Limit → RuntimeControls → ℕ
limit_of step_limit p = p.max_steps
limit_of byte_limit p = p.max_output_bytes

tighter-cases : (a b : ℕ) → (tighter a b ≡ b) ⊎ (tighter a b ≡ a)
tighter-cases a b = ground arith

positive_int-eq-ok :
    (value : Value) (kind : String) (n : ℕ)
    → positive_int value kind ≡ ok n
    → (value ≡ int (pos n)) × (0 < n)
unfolding positive_int
positive_int-eq-ok (int (pos (suc m))) kind n e =
    (ap (λ k. int (pos k)) (ok-injective e), ground arith)
positive_int-eq-ok (int (pos zero)) kind n e = cc
positive_int-eq-ok _ kind n e = cc

module _ (py : Runtime) where
  -- A constraint of a limit's kind tightens that limit.
  limit_hit :
      (l : Limit) (s : RuntimeControls) (id : String) (value : Value) (e : Effect)
      → constraint_effect py (limit_kind l) value ≡ ok e
      → (n : ℕ) × (value ≡ int (pos n))
        × (0 < n)
        × (limit_of l (apply_effect (add_control_id s id) e) ≡ tighter (limit_of l s) n)
  unfolding constraint_effect apply_effect
  limit_hit step_limit s id value e h =
      let (n, read, made) = >>=-eq-ok (positive_int value "max_steps") _ h in
      let (same, more) = positive_int-eq-ok value _ n read in
      (n, same, more, rw (← ok-injective made))
  limit_hit byte_limit s id value e h =
      let (n, read, made) = >>=-eq-ok (positive_int value "output_limit") _ h in
      let (same, more) = positive_int-eq-ok value _ n read in
      (n, same, more, rw (← ok-injective made))

  -- An effect of another kind leaves it alone.
  limit_missed :
      (l : Limit) (s : RuntimeControls) (id : String) (e : Effect)
      → effect_kind e ≢ limit_kind l
      → limit_of l (apply_effect (add_control_id s id) e) ≡ limit_of l s
  unfolding apply_effect
  limit_missed step_limit s id (max_steps n) h = absurd (h refl)
  limit_missed byte_limit s id (output_limit n) h = absurd (h refl)
  limit_missed step_limit s id e h = refl
  limit_missed byte_limit s id e h = refl

  module _ (l : Limit) where
    -- One turn of the loop.
    record Turn (c : PolicyConstraint) (s t : RuntimeControls) : Type 0 where
      falls : 0 < limit_of l s → (0 < limit_of l t) × (limit_of l t ≤ limit_of l s)
      bound :
          c.kind ≡ limit_kind l
          → (n : ℕ) × (c.value ≡ int (pos n)) × (0 < limit_of l t) × (limit_of l t ≤ n)
      origin :
          (limit_of l t ≡ limit_of l s)
          ⊎ ((c.kind ≡ limit_kind l) × (c.value ≡ int (pos (limit_of l t))))

    turn :
        (c : PolicyConstraint) (s : RuntimeControls) (e : Effect)
        → constraint_effect py c.kind c.value ≡ ok e
        → Turn c s (apply_effect (add_control_id s c.constraint_id) e)
    turn c s e h = elim (Bool-cases (c.kind == limit_kind l)) [
      | inl b ↦
          let same = (eq_iff c.kind (limit_kind l)).0 b in
          let (n, value, more, tight) =
            limit_hit l s c.constraint_id c.value e
              (subst (λ k. constraint_effect py k c.value ≡ ok e) same h) in
          record {
            falls = λ positive. ground arith;
            bound = λ _. (n, value, ground arith, ground arith);
            origin = elim (tighter-cases (limit_of l s) n) [
              | inl taken ↦ inr (same, value ∙ ap (λ k. int (pos k)) (sym (tight ∙ taken)))
              | inr kept ↦ inl (tight ∙ kept)
            ];
          }
      | inr b ↦
          let other = ne_of_eqb-false c.kind (limit_kind l) b in
          let kept =
            limit_missed l s c.constraint_id e
              (λ q. other (sym (constraint_effect-kind py c.kind c.value e h) ∙ q)) in
          record {
            falls = λ positive. omega arith;
            bound = λ q. absurd (other q);
            origin = inl kept;
          }
    ]

    pub record Loop (cs : List PolicyConstraint) (s t : RuntimeControls) : Type 0 where
      pub falls : 0 < limit_of l s → (0 < limit_of l t) × (limit_of l t ≤ limit_of l s)
      pub bound :
          (c : PolicyConstraint)
          → In c cs
          → c.kind ≡ limit_kind l
          → (n : ℕ) × (c.value ≡ int (pos n)) × (0 < limit_of l t) × (limit_of l t ≤ n)
      pub origin :
          (limit_of l t ≡ limit_of l s)
          ⊎ ((c : PolicyConstraint) × In c cs
              × (c.kind ≡ limit_kind l)
              × (c.value ≡ int (pos (limit_of l t))))

    one_more-Turn :
        {c : PolicyConstraint} {cs : List PolicyConstraint} {s m t : RuntimeControls}
        → Turn c s m
        → Loop cs m t
        → Loop (c ∷ cs) s t
    one_more-Turn {c} {cs} {s} {m} {t} first rest = record {
      falls = λ p. let (a, b) = first.falls p in let (d, f) = rest.falls a in (d, omega arith);
      bound = λ d h k. elim h [
        | inl same ↦
            let (n, value, more, low) =
              first.bound (ap (λ (x : PolicyConstraint). x.kind) same ∙ k) in
            let (a, b) = rest.falls more in
            (n, sym (ap (λ (x : PolicyConstraint). x.value) same) ∙ value, a, omega arith)
        | inr there ↦ rest.bound d there k
      ];
      origin = elim rest.origin [
        | inr (d, there, k, value) ↦ inr (d, inr there, k, value)
        | inl kept ↦ elim first.origin [
          | inl before ↦ inl (kept ∙ before)
          | inr (k, value) ↦ inr (c, inl refl, k, value ∙ ap (λ j. int (pos j)) (sym kept))
        ]
      ];
    }

    pub apply_constraints-Loop :
        (cs : List PolicyConstraint) (s t : RuntimeControls)
        → apply_constraints py s cs ≡ ok t
        → Loop cs s t
    unfolding apply_constraints
    apply_constraints-Loop [] s t e =
        let same = ok-injective e in
        record {
          falls = λ p. rw (← same) (omega arith);
          bound = λ c h. elim h [ ];
          origin = inl (ap (limit_of l) (sym same));
        }
    apply_constraints-Loop (c ∷ cs) s t e =
        let (effect, made, rest) = >>=-eq-ok (constraint_effect py c.kind c.value) _ e in
        one_more-Turn (turn c s effect made) (
          apply_constraints-Loop cs (apply_effect (add_control_id s c.constraint_id) effect) t rest)
