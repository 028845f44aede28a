-- ===== src/Policy/Compiler/Ordering.antt =====
-- govengine/policy/compiler: the order of compiled rules.
use Prim.Native.Char.{code}
use Prim.Native.String.{[], ◌∷◌}
use mathlib.Core.List.{[], ◌∷◌}
use gov_engine.Prelude.{
  ℕ, suc, ◌<◌, String, Bool, true, false, ◌&&◌, ◌||◌, List, ◌≡◌, refl, inl, inr, ltb, eqb, length,
  Bool-cases, ◌∙◌, ap, arith,
}
use gov_engine.Python.Sorting.{text_lt}
use gov_engine.Policy.Rule.{PolicyRule}
use gov_engine.Policy.Compiler.Sorting.{insert_by, sort_by}
use gov_engine.Policy.Compiler.Pack.{rule_lt}

module _ {A : Type 0} (lt : A → A → Bool) where
  -- No element is less than the one before it.
  abbrev pub Ordered : List A → Type 0
  Ordered [] = Unit
  Ordered (x ∷ []) = Unit
  Ordered (x ∷ y ∷ ys) = (lt y x ≡ false) × Ordered (y ∷ ys)

  pub length-insert_by : (x : A) (ys : List A) → length (insert_by lt x ys) ≡ suc (length ys)
  unfolding insert_by
  length-insert_by x [] = refl
  length-insert_by x (y ∷ ys) = elim (Bool-cases (lt y x)) [
    | inl less ↦ rw (less) (ap suc (length-insert_by x ys))
    | inr more ↦ rw (more) refl
  ]

  pub length-sort_by : (xs : List A) → length (sort_by lt xs) ≡ length xs
  unfolding sort_by
  length-sort_by [] = refl
  length-sort_by (x ∷ xs) = length-insert_by x (sort_by lt xs) ∙ ap suc (length-sort_by xs)

  module _ (asym : (a b : A) → lt a b ≡ true → lt b a ≡ false) where
    -- What is inserted behind a lesser element.
    insert_behind :
        (x y : A) (ys : List A)
        → lt y x ≡ true
        → Ordered (y ∷ ys)
        → Ordered (insert_by lt x ys)
        → Ordered (y ∷ insert_by lt x ys)
    unfolding insert_by
    insert_behind x y [] less before after = (asym y x less, tt)
    insert_behind x y (z ∷ zs) less (step, before) after = elim (Bool-cases (lt z x)) [
      | inl later ↦ rw (later) (step, rw (later) at after)
      | inr here ↦ rw (here) (asym y x less, rw (here) at after)
    ]

    tail-Ordered : (y : A) (ys : List A) → Ordered (y ∷ ys) → Ordered ys
    tail-Ordered y [] h = tt
    tail-Ordered y (z ∷ zs) (step, rest) = rest

    insert_by-Ordered : (x : A) (ys : List A) → Ordered ys → Ordered (insert_by lt x ys)
    unfolding insert_by
    insert_by-Ordered x [] h = tt
    insert_by-Ordered x (y ∷ ys) h = elim (Bool-cases (lt y x)) [
      | inl less ↦
          rw (less) (insert_behind x y ys less h (insert_by-Ordered x ys (tail-Ordered y ys h)))
      | inr more ↦ rw (more) (more, h)
    ]

    pub sort_by-Ordered : (xs : List A) → Ordered (sort_by lt xs)
    unfolding sort_by
    sort_by-Ordered [] = tt
    sort_by-Ordered (x ∷ xs) = insert_by-Ordered x (sort_by lt xs) (sort_by-Ordered xs)

not_less :
    (a b : ℕ) → (ltb a b || (eqb a b && true)) ≡ true → (ltb b a || (eqb b a && false)) ≡ false
not_less a b h = ground arith

first_less : (a b : ℕ) → (ltb a b || (eqb a b && false)) ≡ true → a < b
first_less a b h = ground arith

head_asym :
    (a b : ℕ) (rest back : Bool)
    → (rest ≡ true → back ≡ false)
    → (ltb a b || (eqb a b && rest)) ≡ true
    → (ltb b a || (eqb b a && back)) ≡ false
head_asym a b true back follow h = let quiet = follow refl in rw (quiet) (not_less a b h)
head_asym a b false back follow h = let less = first_less a b h in ground arith

text_lt_asym : (s t : String) → text_lt s t ≡ true → text_lt t s ≡ false
unfolding text_lt
text_lt_asym [] [] h = refl
text_lt_asym [] (d ∷ t) h = refl
text_lt_asym (c ∷ s) [] h = cc
text_lt_asym (c ∷ s) (d ∷ t) h =
    head_asym (code c) (code d) (text_lt s t) (text_lt t s) (text_lt_asym s t) h

pub rule_lt_asym : (a b : PolicyRule) → rule_lt a b ≡ true → rule_lt b a ≡ false
rule_lt_asym a b h =
    head_asym a.priority b.priority (text_lt a.rule_id b.rule_id) (text_lt b.rule_id a.rule_id)
      (text_lt_asym a.rule_id b.rule_id) h
