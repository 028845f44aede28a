-- ===== src/Governance/Keys/Laws.antt =====
-- govengine/_governance_validation.py: lemmas on the bounded search of keys.
use gov_engine.Prelude.{
  ℕ, zero, suc, ◌+◌, String, Bool, true, false, ◌≡◌, ◌⊎◌, inl, inr, refl, sym, ap, ◌∙◌, Option,
  none, some, List, [], ◌∷◌, ◌++◌, ltb, In, if◌then◌else◌,
}
use mathlib.Core.Bool.{false≢true}
use gov_engine.Python.Text.{in_texts}
use gov_engine.Python.Value.{
  Key, Value, list, tuple, dict, Items, Fields, end, field, item_count, field_count, Runtime,
}
use gov_engine.Errors.{ok, ok-injective, >>=-eq-ok, reject_if-eq-ok}
use gov_engine.JsonBoundary.{default_json_boundary_limits}
use gov_engine.Governance.Keys.{
  Entry, item_entries, field_entries, folded_all, is_forbidden_key, first_forbidden, inspect, scan,
  find_bounded_governance_key,
}
use gov_engine.Policy.Forbidden.Laws.{
  KeyIn, in_list, in_tuple, in_dict, KeyInItems, in_first, in_others, KeyInFields, is_key, in_value,
  in_rest,
}

if_some {ℓ} :
    {A : Type ℓ} (b : Bool) (a : A) (rest : Option A) {x : A}
    → (if b then some a else rest) ≡ some x
    → ((b ≡ true) × (a ≡ x)) ⊎ (rest ≡ some x)
if_some true a rest e = inl (refl, cc)
if_some false a rest e = inr e

if_none {ℓ} :
    {A : Type ℓ} (b : Bool) (a : A) (rest : Option A)
    → (if b then some a else rest) ≡ none
    → (b ≡ false) × (rest ≡ none)
if_none true a rest e = cc
if_none false a rest e = (refl, e)

-- A key of a mapping's own.
data IsKeyOf (k : Key) : Fields → Type 0 where
  here : {v : Value} {m : Fields} → IsKeyOf k (field k v m)
  there : {j : Key} {v : Value} {m : Fields} → IsKeyOf k m → IsKeyOf k (field j v m)

-- A key stands in one of the values of a stack.
abbrev Below : Key → List Entry → Type 0
Below k stack = (v : Value) × (d : ℕ) × In (v, d) stack × KeyIn k v

push : (k : Key) (e : Entry) (es : List Entry) → Below k es → Below k (e ∷ es)
push k e es (v, d, at, h) = (v, d, inr at, h)

Below-append : (k : Key) (es fs : List Entry) → Below k es ⊎ Below k fs → Below k (es ++ fs)
Below-append k [] fs h = elim h [ inl (v, d, at, _) ↦ elim at [ ] | inr b ↦ b ]
Below-append k (e ∷ es) fs h = elim h [
  | inl (v, d, at, h') ↦ elim at [
    | inl first ↦ (v, d, inl first, h')
    | inr later ↦ push k e (es ++ fs) (Below-append k es fs (inl (v, d, later, h')))
  ]
  | inr b ↦ push k e (es ++ fs) (Below-append k es fs (inr b))
]

items-Below : (k : Key) (d : ℕ) {vs : Items} → KeyInItems k vs → Below k (item_entries d vs)
unfolding item_entries
items-Below k d (in_first {v} h) = (v, d, inl refl, h)
items-Below k d (in_others h) = let (v, d', at, h') = items-Below k d h in (v, d', inr at, h')

fields-Below :
    (k : Key) (d : ℕ) {m : Fields} → KeyInFields k m → IsKeyOf k m ⊎ Below k (field_entries d m)
unfolding field_entries
fields-Below k d is_key = inl here
fields-Below k d (in_value {v} h) = inr (v, d, inl refl, h)
fields-Below k d (in_rest h) = elim (fields-Below k d h) [
  | inl own ↦ inl (there own)
  | inr (v, d', at, h') ↦ inr (v, d', inr at, h')
]

module _ (py : Runtime) (forbidden_keys : List String) where
  -- A name that is forbidden, and a search that found none.
  abbrev Bad : String → Type 0
  Bad name = in_texts name (folded_all py forbidden_keys forbidden_keys) ≡ true

  first_forbidden-Bad :
      (m : Fields) (name : String) → first_forbidden py forbidden_keys m ≡ some name → Bad name
  unfolding first_forbidden
  first_forbidden-Bad end name e = cc
  first_forbidden-Bad (field k v m) name e =
      elim (if_some (is_forbidden_key py forbidden_keys k) _ _ e) [
        | inl (bad, same) ↦ rw (← same) bad
        | inr later ↦ first_forbidden-Bad m name later
      ]

  first_forbidden-none :
      (k : Key) {m : Fields}
      → IsKeyOf k m
      → first_forbidden py forbidden_keys m ≡ none
      → is_forbidden_key py forbidden_keys k ≡ false
  unfolding first_forbidden
  first_forbidden-none k here e = (if_none _ _ _ e).0
  first_forbidden-none k (there {j} h) e =
      first_forbidden-none k h (if_none (is_forbidden_key py forbidden_keys j) _ _ e).1

  inspect-some :
      (v : Value) (d : ℕ) (name : String) (children : List Entry)
      → inspect py forbidden_keys v d ≡ ok (some name, children)
      → Bad name
  unfolding inspect
  inspect-some (dict m) d name children e =
      let (_, made) = reject_if-eq-ok _ _ (ok (first_forbidden py forbidden_keys m, _)) e in
      first_forbidden-Bad m name (ap (λ p. p.0) (ok-injective made))
  inspect-some (list m) d name children e =
      let (_, made) = reject_if-eq-ok (ltb 1000 (item_count m)) _ _ e in cc
  inspect-some (tuple m) d name children e =
      let (_, made) = reject_if-eq-ok (ltb 1000 (item_count m)) _ _ e in cc
  inspect-some v d name children e = cc

  inspect-none :
      (k : Key) {v : Value} (d : ℕ) (children : List Entry)
      → KeyIn k v
      → inspect py forbidden_keys v d ≡ ok (none, children)
      → (is_forbidden_key py forbidden_keys k ≡ false) ⊎ Below k children
  unfolding inspect
  inspect-none k d children (in_dict {m} h) e =
      let (_, made) = reject_if-eq-ok (ltb 1000 (field_count m)) _ _ e in
      elim (fields-Below k (d + 1) h) [
        | inl own ↦ inl (first_forbidden-none k own (ap (λ p. p.0) (ok-injective made)))
        | inr b ↦ inr (rw (← ap (λ p. p.1) (ok-injective made)) b)
      ]
  inspect-none k d children (in_list {vs} h) e =
      let (_, made) = reject_if-eq-ok (ltb 1000 (item_count vs)) _ _ e in
      inr (rw (← ap (λ p. p.1) (ok-injective made)) (items-Below k (d + 1) h))
  inspect-none k d children (in_tuple {vs} h) e =
      let (_, made) = reject_if-eq-ok (ltb 1000 (item_count vs)) _ _ e in
      inr (rw (← ap (λ p. p.1) (ok-injective made)) (items-Below k (d + 1) h))

  module _ (named : in_texts "" (folded_all py forbidden_keys forbidden_keys) ≡ false) where
    -- One turn of the loop, given that what it leaves on the stack is clean.
    turn_clean :
        (room : ℕ) (v : Value) (d : ℕ) (stack : List Entry) (k : Key) (found : Option String)
        (children : List Entry)
        → inspect py forbidden_keys v d ≡ ok (found, children)
        → (elim found [
          | some name ↦ ok name
          | none ↦ scan py forbidden_keys room (children ++ stack)
        ])
          ≡ ok ""
        → (scan py forbidden_keys room (children ++ stack) ≡ ok ""
            → Below k (children ++ stack)
            → is_forbidden_key py forbidden_keys k ≡ false)
        → Below k ((v, d) ∷ stack)
        → is_forbidden_key py forbidden_keys k ≡ false
    turn_clean room v d stack k (some name) children seen next ih b =
        absurd
          (false≢true (sym named ∙ rw (ok-injective next) at (inspect-some v d name children seen)))
    turn_clean room v d stack k none children seen next ih (w, d', at, h) = elim at [
      | inr later ↦ ih next (Below-append k children stack (inr (w, d', later, h)))
      | inl first ↦
          elim (inspect-none k d children (rw (← ap (λ (p : Entry). p.0) first) at h) seen) [
            | inl fine ↦ fine
            | inr below ↦ ih next (Below-append k children stack (inl below))
          ]
    ]

    scan_clean :
        (room : ℕ) (stack : List Entry)
        → scan py forbidden_keys room stack ≡ ok ""
        → (k : Key) → Below k stack
        → is_forbidden_key py forbidden_keys k ≡ false
    unfolding scan
    scan_clean room [] e k (v, d, at, h) = elim at [ ]
    scan_clean zero (x ∷ stack) e k b = cc
    scan_clean (suc room) ((v, depth) ∷ stack) e k b =
        let (_, rest) = reject_if-eq-ok (ltb 32 depth) _ _ e in
        let ((found, children), seen, next) =
          >>=-eq-ok (inspect py forbidden_keys v depth) _ rest in
        turn_clean room v depth stack k found children seen next
          (λ e'. scan_clean room (children ++ stack) e' k) b

  -- Where no forbidden name folds to the empty text, a value whose search comes back empty has no
  -- key at any depth that is forbidden once it is stripped and folded.
  pub find_bounded_governance_key_clean :
      (v : Value)
      → in_texts "" (folded_all py forbidden_keys forbidden_keys) ≡ false
      → find_bounded_governance_key py forbidden_keys v ≡ ok ""
      → (k : Key) → KeyIn k v
      → is_forbidden_key py forbidden_keys k ≡ false
  unfolding find_bounded_governance_key
  find_bounded_governance_key_clean v named e k h =
      scan_clean named default_json_boundary_limits.max_nodes ((v, 0) ∷ []) e k (v, 0, inl refl, h)
