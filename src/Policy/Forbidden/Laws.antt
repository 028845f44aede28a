-- ===== src/Policy/Forbidden/Laws.antt =====
-- govengine/policy/model: the keys that stand in a value, and lemmas on the search for forbidden ones.
use gov_engine.Prelude.{
  String, true, false, ◌≡◌, ◌≢◌, ◌↔◌, refl, ◌⊎◌, Bool-cases, inl, inr, ◌==◌, sym, ◌∙◌,
  if◌then◌else◌, eqb-false_of_ne, ne_of_eqb-false,
}
use mathlib.Core.Bool.{false≢true}
use gov_engine.Python.Value.{
  Key, Value, list, tuple, dict, Items, nil, cons, Fields, end, field, Runtime,
}
use gov_engine.Errors.{ok}
use gov_engine.Policy.Forbidden.{
  is_forbidden, normal_key, find_forbidden_key, forbidden_in_items, forbidden_in_fields,
  reject_forbidden_policy_metadata,
}

-- A key that stands in a value, however deep.
mutual
  pub data KeyIn (k : Key) : Value → Type 0 where
    in_list : {vs : Items} → KeyInItems k vs → KeyIn k (list vs)
    in_tuple : {vs : Items} → KeyInItems k vs → KeyIn k (tuple vs)
    in_dict : {m : Fields} → KeyInFields k m → KeyIn k (dict m)

  pub data KeyInItems (k : Key) : Items → Type 0 where
    in_first : {v : Value} {vs : Items} → KeyIn k v → KeyInItems k (cons v vs)
    in_others : {v : Value} {vs : Items} → KeyInItems k vs → KeyInItems k (cons v vs)

  pub data KeyInFields (k : Key) : Fields → Type 0 where
    is_key : {v : Value} {m : Fields} → KeyInFields k (field k v m)
    in_value : {j : Key} {v : Value} {m : Fields} → KeyIn k v → KeyInFields k (field j v m)
    in_rest : {j : Key} {v : Value} {m : Fields} → KeyInFields k m → KeyInFields k (field j v m)

is_forbidden-empty : is_forbidden "" ≡ false
unfolding is_forbidden
is_forbidden-empty = refl

ne_empty_of_left : (a b : String) → a ≢ "" → (if a == "" then b else a) ≢ ""
ne_empty_of_left a b h = rw (eqb-false_of_ne a "" h) h

ne_empty_of_right : (a b : String) → b ≢ "" → (if a == "" then b else a) ≢ ""
ne_empty_of_right a b h = elim (Bool-cases (a == "")) [
  | inl empty ↦ rw empty h
  | inr full ↦ rw full (ne_of_eqb-false a "" full)
]

key_ne_empty : (name later : String) → later ≢ "" → (if is_forbidden name then name else later) ≢ ""
key_ne_empty name later h = elim (Bool-cases (is_forbidden name)) [
  | inl bad ↦ rw bad (λ e. false≢true (sym is_forbidden-empty ∙ rw e at bad))
  | inr fine ↦ rw fine h
]

module _ (py : Runtime) (k : Key) (bad : is_forbidden (normal_key py k) ≡ true) where
  mutual
    unfolding find_forbidden_key

    find_complete : {v : Value} → KeyIn k v → find_forbidden_key py v ≢ ""
    find_complete (in_list h) = items_complete h
    find_complete (in_tuple h) = items_complete h
    find_complete (in_dict h) = fields_complete h

    items_complete : {vs : Items} → KeyInItems k vs → forbidden_in_items py vs ≢ ""
    items_complete (in_first h) = ne_empty_of_left _ _ (find_complete h)
    items_complete (in_others {v} h) =
        ne_empty_of_right (find_forbidden_key py v) _ (items_complete h)

    fields_complete : {m : Fields} → KeyInFields k m → forbidden_in_fields py m ≢ ""
    fields_complete is_key = rw bad (λ e. false≢true (sym is_forbidden-empty ∙ rw e at bad))
    fields_complete (in_value h) = key_ne_empty _ _ (ne_empty_of_left _ _ (find_complete h))
    fields_complete (in_rest {v} h) =
        key_ne_empty _ _ (ne_empty_of_right (find_forbidden_key py v) _ (fields_complete h))

module _ (py : Runtime) where
  -- A forbidden key of the value, with the name that it normalises to.
  abbrev pub Offends : Value → String → Type 0
  Offends v name = (k : Key) × KeyIn k v × (normal_key py k ≡ name) × (is_forbidden name ≡ true)

  abbrev OffendsItems : Items → String → Type 0
  OffendsItems vs name =
      (k : Key) × KeyInItems k vs × (normal_key py k ≡ name) × (is_forbidden name ≡ true)

  abbrev OffendsFields : Fields → String → Type 0
  OffendsFields m name =
      (k : Key) × KeyInFields k m × (normal_key py k ≡ name) × (is_forbidden name ≡ true)

  mutual
    unfolding find_forbidden_key

    find_sound : (v : Value) → (find_forbidden_key py v ≡ "") ⊎ Offends v (find_forbidden_key py v)
    find_sound (list vs) = elim (items_sound vs) [
      | inl clean ↦ inl clean
      | inr (k, h, same, bad) ↦ inr (k, in_list h, same, bad)
    ]
    find_sound (tuple vs) = elim (items_sound vs) [
      | inl clean ↦ inl clean
      | inr (k, h, same, bad) ↦ inr (k, in_tuple h, same, bad)
    ]
    find_sound (dict m) = elim (fields_sound m) [
      | inl clean ↦ inl clean
      | inr (k, h, same, bad) ↦ inr (k, in_dict h, same, bad)
    ]
    find_sound v = inl refl

    items_sound :
        (vs : Items) → (forbidden_in_items py vs ≡ "") ⊎ OffendsItems vs (forbidden_in_items py vs)
    items_sound nil = inl refl
    items_sound (cons v vs) = elim (Bool-cases (find_forbidden_key py v == "")) [
      | inl clean ↦ rw clean (elim (items_sound vs) [
        | inl rest ↦ inl rest
        | inr (k, h, same, bad) ↦ inr (k, in_others h, same, bad)
      ])
      | inr found ↦ rw found (elim (find_sound v) [
        | inl e ↦ absurd (ne_of_eqb-false _ "" found e)
        | inr (k, h, same, bad) ↦ inr (k, in_first h, same, bad)
      ])
    ]

    fields_sound :
        (m : Fields) → (forbidden_in_fields py m ≡ "") ⊎ OffendsFields m (forbidden_in_fields py m)
    fields_sound end = inl refl
    fields_sound (field k v m) = elim (Bool-cases (is_forbidden (normal_key py k))) [
      | inl bad ↦ rw bad (inr (k, is_key, refl, bad))
      | inr fine ↦ rw fine (elim (Bool-cases (find_forbidden_key py v == "")) [
        | inl clean ↦ rw clean (elim (fields_sound m) [
          | inl rest ↦ inl rest
          | inr (k, h, same, bad) ↦ inr (k, in_rest h, same, bad)
        ])
        | inr found ↦ rw found (elim (find_sound v) [
          | inl e ↦ absurd (ne_of_eqb-false _ "" found e)
          | inr (k, h, same, bad) ↦ inr (k, in_value h, same, bad)
        ])
      ])
    ]

  rejected :
      (m : Fields)
      → find_forbidden_key py (dict m) ≢ ""
      → reject_forbidden_policy_metadata py m ≢ ok tt
  unfolding reject_forbidden_policy_metadata
  rejected m h = rw (eqb-false_of_ne _ "" h) (cc)

  -- Metadata passes exactly when no key at any depth, once it is stripped and lowered, is one of
  -- the forbidden names.
  pub reject_forbidden_policy_metadata_iff :
      (m : Fields)
      → (reject_forbidden_policy_metadata py m ≡ ok tt)
        ↔ ((k : Key) → KeyIn k (dict m) → is_forbidden (normal_key py k) ≡ false)
  unfolding reject_forbidden_policy_metadata
  reject_forbidden_policy_metadata_iff m = (
    λ e k h. elim (Bool-cases (is_forbidden (normal_key py k))) [
      | inl bad ↦ absurd (rejected m (find_complete py k bad h) e)
      | inr fine ↦ fine
    ],
    λ all. elim (find_sound (dict m)) [
      | inl clean ↦ rw clean
      | inr (k, h, same, bad) ↦ absurd (false≢true (sym (rw same at (all k h)) ∙ bad))
    ],
  )
