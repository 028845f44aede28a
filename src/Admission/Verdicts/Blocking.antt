-- ===== src/Admission/Verdicts/Blocking.antt =====
-- govengine/admission.py: the blockers of a decision that stops.
use gov_engine.Prelude.{
  String, Bool, true, false, ◌&&◌, ◌||◌, List, [], ◌∷◌, ◌==◌, ◌≡◌, refl, if◌then◌else◌, is_empty,
  Option, Bool-cases, inl, inr, ap, sym, ◌∙◌,
}
use mathlib.Core.Bool.{false≢true}
use gov_engine.Python.Text.{in_texts}
use gov_engine.Python.Reading.{read_text}
use gov_engine.Python.Value.{Value, str, Fields, Runtime}
use gov_engine.Errors.{ok, >>=-eq-ok, checked-eq-ok, reject_if-eq-ok, ok-injective, fail_with-ne-ok}
use gov_engine.Admission.{subject_kinds, read_enum, read_sequence}
use gov_engine.Admission.References.{runtime_signal}
use gov_engine.Admission.Records.{GovPolicyDecision, validate_policy_decision}
use gov_engine.Admission.Verdicts.{verdict_decision, verdict_blockers, policy_verdict_to_decision}

abbrev stops : String → Bool
stops decision = decision == "require_approval" || decision == "deny"

chosen-filled :
    (approval denial : Bool) (one two blockers : List String)
    → is_empty one ≡ false
    → is_empty two ≡ false
    → (approval || denial) ≡ true
    → is_empty (
        if approval && is_empty blockers
        then one
        else (if denial && is_empty blockers then two else blockers))
      ≡ false
chosen-filled true denial one two [] h k stop = h
chosen-filled true true one two (b ∷ blockers) h k stop = refl
chosen-filled true false one two (b ∷ blockers) h k stop = refl
chosen-filled false true one two [] h k stop = k
chosen-filled false true one two (b ∷ blockers) h k stop = refl
chosen-filled false false one two blockers h k stop = cc

verdict_blockers-filled :
    (decision reason_code : String) (blockers : List String)
    → stops decision ≡ true
    → is_empty (verdict_blockers decision reason_code blockers) ≡ false
unfolding verdict_blockers
verdict_blockers-filled decision reason_code blockers h =
    chosen-filled (decision == "require_approval") (decision == "deny")
      ("operator_approval_required" ∷ []) (reason_code ∷ []) blockers refl refl h

approval_is_no_allow : ("require_approval" == "allow") ≡ true → ⊥
approval_is_no_allow e = false≢true e

or_true : (a : Bool) → (a || (true || false)) ≡ true
or_true true = refl
or_true false = refl

-- A decision that allows comes from a verdict that allows.
verdict_decision-allow :
    (decision : String) {out : String}
    → verdict_decision decision ≡ ok out
    → (out == "allow") ≡ true
    → in_texts decision ("allow" ∷ "allow_with_obligations" ∷ []) ≡ true
unfolding verdict_decision
verdict_decision-allow decision h allow = elim (Bool-cases (decision == "allow_with_obligations")) [
  | inl obliged ↦ rw (obliged) (or_true (decision == "allow"))
  | inr free ↦ elim (Bool-cases (decision == "approval_required")) [
    | inl approval ↦ absurd (
        approval_is_no_allow
          (ap (λ x. x == "allow") (ok-injective (rw (free, approval) at h)) ∙ allow))
    | inr plain ↦ elim (Bool-cases (in_texts decision ("allow" ∷ "deny" ∷ []))) [
      | inl known ↦
          rw (ap (λ x. x == "allow") (ok-injective (rw (free, plain, known) at h)) ∙ allow) refl
      | inr unknown ↦ absurd (fail_with-ne-ok (rw (free, plain, unknown) at h))
    ]
  ]
]

module _ (py : Runtime) (as_dict : Value → Option Value) where
  -- What a decision keeps of the verdict it is made from.
  pub record Projected (raw : Fields) (d : GovPolicyDecision) : Type 0 where
    pub subject : d.subject_ref ≡ read_text py "subject_ref" raw
    pub decision : verdict_decision (read_text py "decision" raw) ≡ ok d.decision
    pub allows :
        (d.decision == "allow") ≡ true
        → in_texts (read_text py "decision" raw) ("allow" ∷ "allow_with_obligations" ∷ []) ≡ true
    pub stops : stops d.decision ≡ true → is_empty d.blockers ≡ false

  -- A policy decision that is projected from a verdict is on its subject and has the decision that
  -- belongs to the verdict's: it allows only where the verdict does, and it has a blocker where it denies
  -- or requires an approval.
  pub policy_verdict_to_decision-Projected :
      (value : Value) (policy_id subject_kind : String) (raw : Fields) (d : GovPolicyDecision)
      → runtime_signal py as_dict value ≡ ok raw
      → policy_verdict_to_decision py as_dict value policy_id subject_kind ≡ ok d
      → Projected raw d
  unfolding policy_verdict_to_decision validate_policy_decision
  policy_verdict_to_decision-Projected value policy_id subject_kind raw d reads h =
      let (_, h₁) = reject_if-eq-ok _ _ _ (rw (reads) at h) in
      let (_, h₂) = reject_if-eq-ok (read_text py "subject_ref" raw == "") _ _ h₁ in
      let (decision, e₃, h₃) = >>=-eq-ok (verdict_decision (read_text py "decision" raw)) _ h₂ in
      let (blockers, e₄, h₄) = >>=-eq-ok (read_sequence py "blockers" raw) _ h₃ in
      let (kind, e₅, h₅) =
        >>=-eq-ok
          (read_enum py (str subject_kind) subject_kinds "task" "unknown_policy_subject_kind") _
          h₄ in
      let same = (checked-eq-ok _ _ h₅).1 in
      let kept = ap (λ x. x.decision) same in
      record {
        subject = ap (λ x. x.subject_ref) same;
        decision = e₃ ∙ ap ok (sym kept);
        allows = λ allow.
            verdict_decision-allow (read_text py "decision" raw) e₃
              (ap (λ x. x == "allow") (sym kept) ∙ allow);
        stops = λ stop.
            ap (λ x. is_empty x.blockers) same
            ∙ verdict_blockers-filled decision _ blockers (ap stops (sym kept) ∙ stop);
      }
