-- ===== src/Policy/Engine/Precedence.antt =====
-- govengine/policy/runtime: which rules apply, how strict an effect is, and which rule decides.
use gov_engine.Prelude.{
  ℕ, ◌≤◌, String, Bool, true, false, ◌≡◌, refl, sym, inl, inr, List, [], ◌∷◌, none, some, ◌==◌,
  arith, eq_iff, if◌then◌else◌, Bool-cases, Option-cases, In, none-ne-some,
}
use mathlib.Core.Path.{subst}
use gov_engine.Python.Value.{Fields}
use gov_engine.Errors.{Result, ok, >>=-eq-ok}
use gov_engine.Policy.Model.{PolicyRequest}
use gov_engine.Policy.Rule.{PolicyRule}
use gov_engine.Policy.Engine.{
  rule_matches, matched_rules, first_with, Ruling, rule_ruling, matched_ruling,
}

-- How strict an effect is; an unknown one counts as `allow`.
abbrev pub severity : String → ℕ
severity effect =
    if effect == "deny"
    then 3
    else if effect == "approval_required"
    then 2
    else if effect == "allow_with_obligations"
    then 1
    else 0

abbrev pub Applies : PolicyRequest → Fields → PolicyRule → Type 0
Applies request context rule = rule_matches rule request context ≡ ok true

true_not_false : {x : Result Bool} → x ≡ ok false → x ≡ ok true → ⊥
true_not_false e h = cc

module _ (request : PolicyRequest) (context : Fields) where
  -- Which rules of a list apply, in order, where every rule of it is decided.
  data Matching : List PolicyRule → List PolicyRule → Type 0 where
    none_left : Matching [] []
    applies :
        {r : PolicyRule} {rs ms : List PolicyRule}
        → Applies request context r
        → Matching rs ms
        → Matching (r ∷ rs) (r ∷ ms)
    passes :
        {r : PolicyRule} {rs ms : List PolicyRule}
        → rule_matches r request context ≡ ok false
        → Matching rs ms
        → Matching (r ∷ rs) ms

  one_more :
      {r : PolicyRule} {rs ms : List PolicyRule} (b : Bool)
      → rule_matches r request context ≡ ok b
      → Matching rs ms
      → Matching (r ∷ rs) (if b then r ∷ ms else ms)
  one_more true e h = applies e h
  one_more false e h = passes e h

  matched_rules-Matching :
      (rs ms : List PolicyRule) → matched_rules rs request context ≡ ok ms → Matching rs ms
  unfolding matched_rules
  matched_rules-Matching [] ms e = subst (Matching []) (cc) none_left
  matched_rules-Matching (r ∷ rs) ms e =
      let (b, here, rest) = >>=-eq-ok (rule_matches r request context) _ e in
      let (later, there, done) = >>=-eq-ok (matched_rules rs request context) _ rest in
      subst (Matching (r ∷ rs)) (cc) (one_more b here (matched_rules-Matching rs later there))

  Matching-sound :
      {rs ms : List PolicyRule} (r : PolicyRule)
      → Matching rs ms
      → In r ms
      → In r rs × Applies request context r
  Matching-sound r none_left h = elim h [ ]
  Matching-sound r (applies a m) (inl same) = (inl same, subst (Applies request context) same a)
  Matching-sound r (applies a m) (inr h) = let (there, b) = Matching-sound r m h in (inr there, b)
  Matching-sound r (passes n m) h = let (there, b) = Matching-sound r m h in (inr there, b)

  matching_complete :
      {rs ms : List PolicyRule} (r : PolicyRule)
      → Matching rs ms
      → In r rs
      → Applies request context r
      → In r ms
  matching_complete r none_left h k = elim h [ ]
  matching_complete r (applies a m) (inl same) k = inl same
  matching_complete r (applies a m) (inr h) k = inr (matching_complete r m h k)
  matching_complete r (passes n m) (inl same) k =
      absurd (true_not_false (subst (λ s. rule_matches s request context ≡ ok false) same n) k)
  matching_complete r (passes n m) (inr h) k = matching_complete r m h k

-- The rules that the engine collects are listed, and apply.
pub matched_rules_sound :
    (request : PolicyRequest) (context : Fields) (rs ms : List PolicyRule) (r : PolicyRule)
    → matched_rules rs request context ≡ ok ms
    → In r ms
    → In r rs × Applies request context r
matched_rules_sound request context rs ms r e =
    Matching-sound request context r (matched_rules-Matching request context rs ms e)

-- The engine collects every listed rule that applies.
pub matched_rules_complete :
    (request : PolicyRequest) (context : Fields) (rs ms : List PolicyRule) (r : PolicyRule)
    → matched_rules rs request context ≡ ok ms
    → In r rs
    → Applies request context r
    → In r ms
matched_rules_complete request context rs ms r e =
    matching_complete request context r (matched_rules-Matching request context rs ms e)

first_with-some :
    (effect : String) (rs : List PolicyRule) {r : PolicyRule}
    → first_with effect rs ≡ some r
    → In r rs × (r.effect ≡ effect)
unfolding first_with
first_with-some effect [] e = cc
first_with-some effect (s ∷ rs) e = elim (Bool-cases (s.effect == effect)) [
  | inl same ↦ let p = (eq_iff _ _).0 same in ground arith
  | inr other ↦ let (h, p) = first_with-some effect rs (rw other at e) in (inr h, p)
]

first_with-none :
    (effect : String) (rs : List PolicyRule) (r : PolicyRule)
    → first_with effect rs ≡ none
    → In r rs
    → (r.effect == effect) ≡ false
unfolding first_with
first_with-none effect [] r e h = elim h [ ]
first_with-none effect (s ∷ rs) r e h = elim (Bool-cases (s.effect == effect)) [
  | inl same ↦ absurd (none-ne-some (sym (rw same at e)))
  | inr other ↦ elim h [
    | inl here ↦ rw here at other
    | inr there ↦ first_with-none effect rs r (rw other at e) there
  ]
]

-- The ruling on rules that matched is made from one of them, and none of them is stricter.
pub record Decides (rs : List PolicyRule) (ruling : Ruling) (r : PolicyRule) : Type 0 where
  pub listed : In r rs
  pub blockers : List String
  pub made : ruling ≡ rule_ruling r blockers
  pub strictest : (s : PolicyRule) → In s rs → severity s.effect ≤ severity r.effect

severity-le : (a b : String) → a ≡ "deny" → severity b ≤ severity a
severity-le a b e = rw e (ground arith)

severity-le_approval :
    (a b : String) → a ≡ "approval_required" → (b == "deny") ≡ false → severity b ≤ severity a
severity-le_approval a b e h = rw (e, h) (ground arith)

severity-le_obligations :
    (a b : String)
    → a ≡ "allow_with_obligations"
    → (b == "deny") ≡ false
    → (b == "approval_required") ≡ false
    → severity b ≤ severity a
severity-le_obligations a b e h k = rw (e, h, k) (ground arith)

severity_lowest :
    (a b : String)
    → (b == "deny") ≡ false
    → (b == "approval_required") ≡ false
    → (b == "allow_with_obligations") ≡ false
    → severity b ≤ severity a
severity_lowest a b h k l = rw (h, k, l) (ground arith)

module _ (first : PolicyRule) (others : List PolicyRule) where
  abbrev pub all_matched : List PolicyRule
  all_matched = first ∷ others

  pub matched_ruling-Decides : (r : PolicyRule) × Decides all_matched (matched_ruling all_matched) r
  unfolding matched_ruling
  matched_ruling-Decides = elim (Option-cases (first_with "deny" all_matched)) [
    | inr (r, e) ↦
        let (here, is) = first_with-some "deny" all_matched e in
        (
          r,
          record {
            listed = here;
            blockers = r.reason_code ∷ [];
            made = rw (e, matched_ruling);
            strictest = λ s h. severity-le r.effect s.effect is;
          },
        )
    | inl no_denial ↦ elim (Option-cases (first_with "approval_required" all_matched)) [
      | inr (r, e) ↦
          let (here, is) = first_with-some "approval_required" all_matched e in
          (
            r,
            record {
              listed = here;
              blockers = r.reason_code ∷ [];
              made = rw (no_denial, e, matched_ruling);
              strictest = λ s h.
                  severity-le_approval r.effect s.effect is (first_with-none _ _ s no_denial h);
            },
          )
      | inl no_approval ↦ elim (Option-cases (first_with "allow_with_obligations" all_matched)) [
        | inr (r, e) ↦
            let (here, is) = first_with-some "allow_with_obligations" all_matched e in
            (
              r,
              record {
                listed = here;
                blockers = [];
                made = rw (no_denial, no_approval, e, matched_ruling);
                strictest = λ s h.
                    severity-le_obligations r.effect s.effect is (first_with-none _ _ s no_denial h)
                      (first_with-none _ _ s no_approval h);
              },
            )
        | inl no_obligation ↦ (
          first,
          record {
            listed = inl refl;
            blockers = [];
            made = rw (no_denial, no_approval, no_obligation, matched_ruling);
            strictest = λ s h.
                severity_lowest first.effect s.effect (first_with-none _ _ s no_denial h)
                  (first_with-none _ _ s no_approval h) (first_with-none _ _ s no_obligation h);
          },
        )
      ]
    ]
  ]
