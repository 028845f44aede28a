-- ===== src/Run/Stages.antt =====
-- govengine/state_machine.py: the stages on the way of a run from its first state to its last.
use gov_engine.Prelude.{
  String, Bool, true, false, not, ◌||◌, ◌≡◌, refl, sym, ◌∙◌, ap, ◌⊎◌, inl, inr, List, [], ◌∷◌, ◌==◌,
  In, both_true, Bool-cases, eq_iff, arith, all,
}
use mathlib.Core.Path.{subst}
use mathlib.Core.Bool.{false≢true}
use gov_engine.Python.Text.{in_texts}
use gov_engine.Python.Value.{Runtime}
use gov_engine.Errors.{ok, >>=-eq-ok, ok-injective}
use gov_engine.Run.{allowed_transitions, targets, GovRunState, StateTransition}
use gov_engine.Run.Transition.{moved, apply_state_transition, apply_all}
use gov_engine.Run.Transition.Laws.{apply_state_transition-eq-ok}

-- A set of states that a table leaves only through one stage.
abbrev leaves_through : (before : List String) (stage : String) → List (String × List String) → Bool
leaves_through before stage table =
    all
      (λ (entry : String × List String).
        not (in_texts entry.0 before) || all (λ b. b == stage || in_texts b before) entry.1)
      table

not_or : (a b : Bool) → a ≡ true → (not a || b) ≡ true → b ≡ true
not_or a b h e = ground arith

either : {P : Type 0} (a b : Bool) → (a ≡ true → P) → (a || b) ≡ true → P ⊎ (b ≡ true)
either true b f e = inl (f refl)
either false b f e = inr e

in_all :
    (P : String → Bool) (bs : List String) (b : String)
    → all P bs ≡ true
    → in_texts b bs ≡ true
    → P b ≡ true
in_all P [] b h e = cc
in_all P (c ∷ bs) b h e = elim (Bool-cases (b == c)) [
  | inl same ↦ rw ((eq_iff b c).0 same) (ground arith)
  | inr other ↦ in_all P bs b (ground arith) (rw other at e)
]

leaves :
    (before : List String) (stage : String) (table : List (String × List String)) (a b : String)
    → leaves_through before stage table ≡ true
    → in_texts a before ≡ true
    → in_texts b (targets table a) ≡ true
    → (b ≡ stage) ⊎ (in_texts b before ≡ true)
leaves before stage [] a b h i e = cc
leaves before stage ((c, cs) ∷ table) a b h i e = elim (Bool-cases (a == c)) [
  | inl same ↦
      let (here, _) = both_true _ (leaves_through before stage table) h in
      let c_in = rw ((eq_iff a c).0 same) at i in
      let exits = not_or (in_texts c before) _ c_in here in
      either (b == stage) _ (λ q. (eq_iff b stage).0 q)
        (in_all (λ d. d == stage || in_texts d before) cs b exits (rw same at e))
  | inr other ↦
      leaves before stage table a b (both_true _ (leaves_through before stage table) h).1 i
        (rw other at e)
]

module _ (py : Runtime) where
  -- A run that starts in such a set and ends outside it has made the stage.
  stage_made :
      (before : List String) (stage : String) (ts : List StateTransition) (s t : GovRunState)
      → leaves_through before stage allowed_transitions ≡ true
      → apply_all py s ts ≡ ok t
      → in_texts s.state before ≡ true
      → in_texts t.state before ≡ false
      → (u : StateTransition) × In u ts
        × (u.to_state ≡ stage)
        × (stage ≡ "running_dry_run" → In "runner_gate_decision" u.required_decisions)
  unfolding apply_all moved
  stage_made before stage [] s t closed e i o =
      absurd (false≢true (sym o ∙ rw (ok-injective e) at i))
  stage_made before stage (u ∷ us) s t closed e i o =
      let (m, step, rest) = >>=-eq-ok (apply_state_transition py s u) _ e in
      let (fits, same) = apply_state_transition-eq-ok py s m u step in
      let arrived : u.to_state ≡ m.state = ap (λ (x : GovRunState). x.state) same in
      elim (leaves before stage allowed_transitions u.from_state u.to_state closed
        (rw (fits.from_here) at i) fits.allowed) [
          | inl made ↦ (u, inl refl, made, λ q. fits.gated (made ∙ q))
          | inr inside ↦
              let (w, at, made, gate) =
                stage_made before stage us m t closed rest (rw arrived at inside) o in
              (w, inr at, made, gate)
        ]

  completed_through :
      (before : List String) (stage : String) (ts : List StateTransition) (s t : GovRunState)
      → leaves_through before stage allowed_transitions ≡ true
      → in_texts "new" before ≡ true
      → in_texts "completed" before ≡ false
      → apply_all py s ts ≡ ok t
      → s.state ≡ "new"
      → t.state ≡ "completed"
      → (u : StateTransition) × In u ts
        × (u.to_state ≡ stage)
        × (stage ≡ "running_dry_run" → In "runner_gate_decision" u.required_decisions)
  completed_through before stage ts s t closed i o e h k =
      stage_made before stage ts s t closed e (subst (λ x. in_texts x before ≡ true) (sym h) i)
        (subst (λ x. in_texts x before ≡ false) (sym k) o)

  through_as :
      (ts : List StateTransition) (s t : GovRunState)
      → apply_all py s ts ≡ ok t
      → s.state ≡ "new"
      → t.state ≡ "completed"
      → (before : List String) {stage x : String} → x ≡ stage
      → leaves_through before x allowed_transitions ≡ true
      → in_texts "new" before ≡ true
      → in_texts "completed" before ≡ false
      → (u : StateTransition) × In u ts × (u.to_state ≡ stage)
  through_as ts s t e h k before {x} q closed i o =
      let (u, at, made, _) = completed_through before x ts s t closed i o e h k in (u, at, made ∙ q)

  -- A run from `new` to `completed` has made each of the stages of admission, policy check, trust
  -- check, gate, dry run and receipt.
  pub completed_through_stages :
      (ts : List StateTransition) (s t : GovRunState) (stage : String)
      → apply_all py s ts ≡ ok t
      → s.state ≡ "new"
      → t.state ≡ "completed"
      → In stage (
          "admitted" ∷ "policy_checked" ∷ "trust_checked" ∷ "gated" ∷ "running_dry_run"
          ∷ "receipt_recorded" ∷ [])
      → (u : StateTransition) × In u ts × (u.to_state ≡ stage)
  completed_through_stages ts s t stage e h k i = elim i [
    | inl q ↦ through_as ts s t e h k ("new" ∷ "blocked" ∷ []) q refl refl refl
    | inr i ↦ elim i [
      | inl q ↦ through_as ts s t e h k ("new" ∷ "blocked" ∷ "admitted" ∷ []) q refl refl refl
      | inr i ↦ elim i [
        | inl q ↦
            through_as ts s t e h k ("new" ∷ "blocked" ∷ "admitted" ∷ "policy_checked" ∷ []) q refl
              refl refl
        | inr i ↦ elim i [
          | inl q ↦
              through_as ts s t e h k
                ("new" ∷ "blocked" ∷ "admitted" ∷ "policy_checked" ∷ "trust_checked" ∷ []) q refl
                refl refl
          | inr i ↦ elim i [
            | inl q ↦
                through_as ts s t e h k
                  ("new" ∷ "blocked" ∷ "admitted" ∷ "policy_checked" ∷ "trust_checked" ∷ "gated"
                    ∷ "paused" ∷ [])
                  q refl refl refl
            | inr i ↦ elim i [
              | inl q ↦
                  through_as ts s t e h k
                    ("new" ∷ "blocked" ∷ "admitted" ∷ "policy_checked" ∷ "trust_checked" ∷ "gated"
                      ∷ "paused" ∷ "running_dry_run" ∷ [])
                    q refl refl refl
              | inr none_left ↦ absurd none_left
            ]
          ]
        ]
      ]
    ]
  ]

  -- A run from `new` to `completed` has started a dry run by a transition that carries the decision
  -- of the runner gate.
  pub completed_run_was_gated :
      (ts : List StateTransition) (s t : GovRunState)
      → apply_all py s ts ≡ ok t
      → s.state ≡ "new"
      → t.state ≡ "completed"
      → (u : StateTransition) × In u ts
        × (u.to_state ≡ "running_dry_run")
        × In "runner_gate_decision" u.required_decisions
  completed_run_was_gated ts s t e h k =
      let (u, at, made, gate) =
        completed_through
          ("new" ∷ "blocked" ∷ "admitted" ∷ "policy_checked" ∷ "trust_checked" ∷ "gated" ∷ "paused"
            ∷ [])
          "running_dry_run" ts s t refl refl refl e h k in
      (u, at, made, gate refl)

  -- No transition leads out of `completed`: a run from there has none.
  pub completed_is_final :
      (ts : List StateTransition) (s t : GovRunState)
      → apply_all py s ts ≡ ok t
      → s.state ≡ "completed"
      → ts ≡ []
  unfolding apply_all
  completed_is_final [] s t e h = refl
  completed_is_final (u ∷ us) s t e h =
      let (m, step, rest) = >>=-eq-ok (apply_state_transition py s u) _ e in
      let (fits, same) = apply_state_transition-eq-ok py s m u step in
      absurd (
        false≢true (
          subst (λ x. in_texts u.to_state (targets allowed_transitions x) ≡ true)
            (sym fits.from_here ∙ h) fits.allowed))
