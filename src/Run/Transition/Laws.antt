-- ===== src/Run/Transition/Laws.antt =====
-- govengine/state_machine.py: lemmas on one applied transition, and on runs of them.
use gov_engine.Prelude.{
  In-append_left, String, Bool, true, false, not, ◌&&◌, ◌≡◌, refl, sym, ◌∙◌, ap, List, [], ◌∷◌,
  ◌++◌, ◌==◌, if◌then◌else◌, In, eq_iff, not-eq-false, arith,
}
use mathlib.Core.Path.{subst}
use gov_engine.Python.Text.{in_texts}
use gov_engine.Python.Sorting.{from_keys}
use gov_engine.Python.Sorting.Laws.{In-from_keys, In_of_in_texts}
use gov_engine.Python.Value.{Runtime}
use gov_engine.Errors.{Result, ok, fail_with, ◌>>=◌, >>=-eq-ok, ok-injective, reject_if-eq-ok}
use gov_engine.Run.{
  run_states, allowed_transitions, targets, GovRunState, StateTransition, reject_forbidden_metadata,
}
use gov_engine.Run.Transition.{
  validate_run_state, validate_state_transition, moved, apply_state_transition, apply_all,
}

-- A transition that fits a state.
pub record Fits (s : GovRunState) (t : StateTransition) : Type 0 where
  pub same_run : s.run_id ≡ t.run_id
  pub from_here : s.state ≡ t.from_state
  pub allowed : in_texts t.to_state (targets allowed_transitions t.from_state) ≡ true
  pub gated : t.to_state ≡ "running_dry_run" → In "runner_gate_decision" t.required_decisions

need-eq-ok :
    {A : Type 0} (b : Bool) (reason detail : String) (k : Result A) {a : A}
    → ((if b then ok (tt {0}) else fail_with reason detail) >>= λ _. k) ≡ ok a
    → (b ≡ true) × (k ≡ ok a)
need-eq-ok true reason detail k e = (refl, e)
need-eq-ok false reason detail k e = cc

both : (a b : Bool) → (a && not b) ≡ false → a ≡ true → b ≡ true
both a b e h = ground arith

guard_holds :
    (u : String) (c : Bool)
    → (u == "running_dry_run" && not c) ≡ false
    → u ≡ "running_dry_run"
    → c ≡ true
guard_holds u c e h = both (u == "running_dry_run") c e ((eq_iff u "running_dry_run").1 h)

module _ (py : Runtime) where
  validate_run_state-eq-ok : (s c : GovRunState) → validate_run_state py s ≡ ok c → s ≡ c
  unfolding validate_run_state
  validate_run_state-eq-ok s c e =
      let (_, e1) = need-eq-ok (in_texts s.state run_states) _ _ _ e in
      let (_, _, e2) = >>=-eq-ok (reject_forbidden_metadata py s.metadata) _ e1 in ok-injective e2

  validate_state_transition-eq-ok :
      (t c : StateTransition)
      → validate_state_transition py t ≡ ok c
      → (t ≡ c)
        × (in_texts t.to_state (targets allowed_transitions t.from_state) ≡ true)
        × (t.to_state ≡ "running_dry_run" → In "runner_gate_decision" t.required_decisions)
  unfolding validate_state_transition
  validate_state_transition-eq-ok t c e =
      let (_, e1) = need-eq-ok (in_texts t.from_state run_states) _ _ _ e in
      let (_, e2) = need-eq-ok (in_texts t.to_state run_states) _ _ _ e1 in
      let (listed, e3) =
        need-eq-ok (in_texts t.to_state (targets allowed_transitions t.from_state)) _ _ _ e2 in
      let decided = in_texts "runner_gate_decision" t.required_decisions in
      let (gate, e4) = reject_if-eq-ok (t.to_state == "running_dry_run" && not decided) _ _ e3 in
      let (_, _, e5) = >>=-eq-ok (reject_forbidden_metadata py t.metadata) _ e4 in
      (
        ok-injective e5,
        listed,
        λ h.
            In_of_in_texts "runner_gate_decision" t.required_decisions
              (guard_holds t.to_state decided gate h),
      )

  pub apply_state_transition-eq-ok :
      (s s' : GovRunState) (t : StateTransition)
      → apply_state_transition py s t ≡ ok s'
      → Fits s t × (moved py s t ≡ s')
  unfolding apply_state_transition
  apply_state_transition-eq-ok s s' t e =
      let (c, e1, r1) = >>=-eq-ok (validate_run_state py s) _ e in
      let (u, e2, r2) = >>=-eq-ok (validate_state_transition py t) _ r1 in
      let (ids, r3) = reject_if-eq-ok (not (c.run_id == u.run_id)) _ _ r2 in
      let (froms, r4) = need-eq-ok (c.state == u.from_state) _ _ _ r3 in
      let same_s = validate_run_state-eq-ok s c e1 in
      let (same_t, listed, gate) = validate_state_transition-eq-ok t u e2 in
      (
        record {
          same_run =
              ap (λ (x : GovRunState). x.run_id) same_s
              ∙ (eq_iff c.run_id u.run_id).0 (not-eq-false ids)
              ∙ sym (ap (λ (x : StateTransition). x.run_id) same_t);
          from_here =
              ap (λ (x : GovRunState). x.state) same_s
              ∙ (eq_iff c.state u.from_state).0 froms
              ∙ sym (ap (λ (x : StateTransition). x.from_state) same_t);
          allowed = listed;
          gated = gate;
        },
        ap (λ x. moved py x t) same_s ∙ ap (moved py c) same_t ∙ ok-injective r4,
      )

-- What a run keeps: its identity, and every event and blocker that it has.
pub record Extends (s t : GovRunState) : Type 0 where
  pub same_run : t.run_id ≡ s.run_id
  pub same_profile : t.profile ≡ s.profile
  pub same_artifacts : t.artifact_refs ≡ s.artifact_refs
  pub same_metadata : t.metadata ≡ s.metadata
  pub events : (e : String) → In e s.event_refs → In e t.event_refs
  pub blockers : (b : String) → In b s.blockers → In b t.blockers

blockers_kept :
    (s : GovRunState) (t : StateTransition) (c : Bool) (b : String)
    → In b s.blockers
    → In b (if c then from_keys (s.blockers ++ (t.reason_code ∷ [])) else s.blockers)
blockers_kept s t true b h =
    (In-from_keys b (s.blockers ++ (t.reason_code ∷ []))).1
      (In-append_left b s.blockers (t.reason_code ∷ []) h)
blockers_kept s t false b h = h

module _ (py : Runtime) where
  moved-Extends : (s : GovRunState) (t : StateTransition) → Extends s (moved py s t)
  unfolding moved
  moved-Extends s t = record {
    same_run = refl;
    same_profile = refl;
    same_artifacts = refl;
    same_metadata = refl;
    events =
        λ e h. In-append_left e s.event_refs (if t.event_ref == "" then [] else t.event_ref ∷ []) h;
    blockers =
        λ b h. blockers_kept s t (t.to_state == "blocked" && not (t.reason_code == "ok")) b h;
  }

  -- A run of transitions never changes the run's identity, profile, artifacts or metadata, and never
  -- forgets an event or a blocker.
  pub apply_all-Extends :
      (ts : List StateTransition) (s t : GovRunState) → apply_all py s ts ≡ ok t → Extends s t
  unfolding apply_all
  apply_all-Extends [] s t e = subst (Extends s) (ok-injective e) (record {
    same_run = refl;
    same_profile = refl;
    same_artifacts = refl;
    same_metadata = refl;
    events = λ e h. h;
    blockers = λ b h. h;
  })
  apply_all-Extends (u ∷ us) s t e =
      let (m, step, rest) = >>=-eq-ok (apply_state_transition py s u) _ e in
      let first =
        subst (Extends s) (apply_state_transition-eq-ok py s m u step).1 (moved-Extends s u) in
      let more = apply_all-Extends us m t rest in
      record {
        same_run = more.same_run ∙ first.same_run;
        same_profile = more.same_profile ∙ first.same_profile;
        same_artifacts = more.same_artifacts ∙ first.same_artifacts;
        same_metadata = more.same_metadata ∙ first.same_metadata;
        events = λ e h. more.events e (first.events e h);
        blockers = λ b h. more.blockers b (first.blockers b h);
      }
