-- ===== src/Deconfliction/Laws.antt =====
-- govengine/deconfliction.py: when a change order is required, and what it covers.
use Prim.Native.String.{◌++◌}
use mathlib.Core.Path.{subst}
use mathlib.Core.List.{◌++◌ as append}
use gov_engine.Prelude.{
  String, false, not, List, [], ◌∷◌, ◌==◌, ◌≡◌, ◌≢◌, ◌⊎◌, ◌↔◌, inl, inr, refl, sym, ap, is_empty,
  map, All, In, In-append_left, In-append_right, In-map, All-of_In, Bool-cases, eqb-false_of_ne,
  eq_iff,
}
use gov_engine.Python.Sorting.Laws.{In-from_keys}
use gov_engine.Core.{ArtifactState}
use gov_engine.Deconfliction.{
  ArtifactConflict, ArtifactChangeOrder, TextMapping, RoleMapping, is_required, digest_for,
  roles_after, role_of, mismatch, blocked, digest_conflicts, detect_digest_conflicts,
  conflict_actions, all_actions, all_invalidated, change_order_for_conflicts, evaluate_conflicts,
}

-- The digest that is expected for an artifact's role.
abbrev pub expected_for : TextMapping → ArtifactState → String
expected_for expected state = digest_for (role_of state) expected

-- An artifact that nothing blocks and whose digest is the expected one, where one is expected.
abbrev pub Settled : TextMapping → ArtifactState → Type 0
Settled expected state =
    (state.blocked_reasons ≡ [])
    × ((expected_for expected state ≡ "") ⊎ (expected_for expected state ≡ state.descriptor.digest))

append-empty : (xs ys : List ArtifactConflict) → append xs ys ≡ [] → (xs ≡ []) × (ys ≡ [])
append-empty [] ys h = (refl, h)
append-empty (x ∷ xs) ys h = cc

one_is_not_none : (c : ArtifactConflict) → ◌≡◌ {A = List ArtifactConflict} (c ∷ []) [] → ⊥
one_is_not_none c h = cc

map-blocked-empty :
    (role actual : String) (rs : List String) → map (blocked role actual) rs ≡ [] → rs ≡ []
map-blocked-empty role actual [] h = refl
map-blocked-empty role actual (r ∷ rs) h = cc

digest_conflicts-empty :
    (role expected actual : String)
    → digest_conflicts role expected actual ≡ []
    → (expected ≡ "") ⊎ (expected ≡ actual)
unfolding digest_conflicts
digest_conflicts-empty role expected actual h = elim (Bool-cases (expected == "")) [
  | inl blank ↦ inl ((eq_iff expected "").0 blank)
  | inr full ↦ elim (Bool-cases (expected == actual)) [
    | inl same ↦ inr ((eq_iff expected actual).0 same)
    | inr other ↦ absurd (one_is_not_none _ (rw (full, other) at h))
  ]
]

digest_conflicts-settled :
    (role expected actual : String)
    → (expected ≡ "") ⊎ (expected ≡ actual)
    → digest_conflicts role expected actual ≡ []
unfolding digest_conflicts
digest_conflicts-settled role expected actual h = elim h [
  | inl blank ↦ rw ((eq_iff expected "").1 blank) refl
  | inr same ↦ elim (Bool-cases (expected == "")) [
    | inl e ↦ rw (e) refl
    | inr e ↦ rw (e, (eq_iff expected actual).1 same) refl
  ]
]

detected-Settled :
    (states : List ArtifactState) (expected : TextMapping)
    → detect_digest_conflicts states expected ≡ []
    → All (Settled expected) states
unfolding detect_digest_conflicts
detected-Settled [] expected h = tt
detected-Settled (state ∷ states) expected h =
    let (digests, rest) = append-empty _ _ h in
    let (blocks, later) = append-empty _ _ rest in
    (
      (map-blocked-empty _ _ _ blocks, digest_conflicts-empty _ _ _ digests),
      detected-Settled states expected later,
    )

Settled-detected :
    (states : List ArtifactState) (expected : TextMapping)
    → All (Settled expected) states
    → detect_digest_conflicts states expected ≡ []
unfolding detect_digest_conflicts
Settled-detected [] expected h = refl
Settled-detected (state ∷ states) expected ((quiet, same), later) =
    rw
      (
        digest_conflicts-settled (role_of state) (expected_for expected state)
            state.descriptor.digest same,
        quiet,
        Settled-detected states expected later,
      )
      refl

none_required : (cs : List ArtifactConflict) → not (is_empty cs) ≡ false → cs ≡ []
none_required [] h = refl
none_required (c ∷ cs) h = cc

-- A change order is not required exactly where no artifact has a reason that blocks it and each
-- artifact for whose role a digest is expected has that digest.
pub evaluate_conflicts_iff :
    (downstream : RoleMapping) (states : List ArtifactState) (expected : TextMapping)
    → (is_required (evaluate_conflicts downstream states expected) ≡ false)
      ↔ All (Settled expected) states
unfolding evaluate_conflicts change_order_for_conflicts
evaluate_conflicts_iff downstream states expected = (
  λ h. detected-Settled states expected (none_required _ h),
  λ h. ap (λ cs. not (is_empty cs)) (Settled-detected states expected h),
)

-- The conflict that a wrong digest leaves.
abbrev conflict_of : TextMapping → ArtifactState → ArtifactConflict
conflict_of expected state =
    mismatch (role_of state) (expected_for expected state) state.descriptor.digest

digest_conflicts-mismatch :
    (role expected actual : String)
    → expected ≢ ""
    → expected ≢ actual
    → digest_conflicts role expected actual ≡ (mismatch role expected actual ∷ [])
unfolding digest_conflicts
digest_conflicts-mismatch role expected actual full other =
    rw (eqb-false_of_ne expected "" full, eqb-false_of_ne expected actual other) refl

conflict_of_digest :
    (state : ArtifactState) (states : List ArtifactState) (expected : TextMapping)
    → In state states
    → expected_for expected state ≢ ""
    → expected_for expected state ≢ state.descriptor.digest
    → In (conflict_of expected state) (detect_digest_conflicts states expected)
unfolding detect_digest_conflicts
conflict_of_digest state [] expected h full other = elim h [ ]
conflict_of_digest state (s ∷ states) expected h full other = elim h [
  | inl here ↦
      In-append_left (conflict_of expected state)
        (digest_conflicts (role_of s) (expected_for expected s) s.descriptor.digest) _
        (subst
          (λ u.
            In (conflict_of expected state)
              (digest_conflicts (role_of u) (expected_for expected u) u.descriptor.digest))
          (sym here)
          (rw
            (digest_conflicts-mismatch (role_of state) (expected_for expected state)
              state.descriptor.digest full other)
            (inl refl)))
  | inr there ↦
      In-append_right _ (digest_conflicts (role_of s) (expected_for expected s) s.descriptor.digest)
        _
        (In-append_right _ (map (blocked (role_of s) s.descriptor.digest) s.blocked_reasons) _
          (conflict_of_digest state states expected there full other))
]

-- What a conflict adds stays to the end of the loop.
In-all_actions :
    (downstream : RoleMapping) (c : ArtifactConflict) (cs : List ArtifactConflict) (t : String)
    → In c cs
    → In t (conflict_actions downstream c)
    → In t (all_actions downstream cs)
unfolding all_actions
In-all_actions downstream c [] t h k = elim h [ ]
In-all_actions downstream c (d ∷ cs) t h k = elim h [
  | inl here ↦
      In-append_left t (conflict_actions downstream d) _
        (subst (λ e. In t (conflict_actions downstream e)) (sym here) k)
  | inr there ↦
      In-append_right t (conflict_actions downstream d) _ (In-all_actions downstream c cs t there k)
]

In-all_invalidated :
    (downstream : RoleMapping) (c : ArtifactConflict) (cs : List ArtifactConflict) (t : String)
    → In c cs
    → In t (roles_after c.role downstream)
    → In t (all_invalidated downstream cs)
unfolding all_invalidated
In-all_invalidated downstream c [] t h k = elim h [ ]
In-all_invalidated downstream c (d ∷ cs) t h k = elim h [
  | inl here ↦
      In-append_left t (roles_after d.role downstream) _
        (subst (λ e. In t (roles_after e.role downstream)) (sym here) k)
  | inr there ↦
      In-append_right t (roles_after d.role downstream) _
        (In-all_invalidated downstream c cs t there k)
]

-- What a change order asks for at a role downstream of a wrong digest.
abbrev pub Invalidated : ArtifactChangeOrder → String → Type 0
Invalidated order role =
    In role order.invalidated_roles × In ("revalidate_artifact:" ++ role) order.required_actions

revalidated :
    (downstream : RoleMapping) (role expected actual t : String)
    → In t (roles_after role downstream)
    → In ("revalidate_artifact:" ++ t) (conflict_actions downstream (mismatch role expected actual))
unfolding conflict_actions
revalidated downstream role expected actual t h =
    inr (inr (In-map (λ r. "revalidate_artifact:" ++ r) t (roles_after role downstream) h))

rebuilt :
    (downstream : RoleMapping) (role expected actual : String)
    → In
        ("rebuild_bindings_for:" ++ role)
        (conflict_actions downstream (mismatch role expected actual))
unfolding conflict_actions
rebuilt downstream role expected actual = inr (inl refl)

repaired :
    (downstream : RoleMapping) (c : ArtifactConflict)
    → In ("repair_artifact:" ++ c.role) (conflict_actions downstream c)
unfolding conflict_actions
repaired downstream c = inl refl

-- Where a digest is expected for the role of an artifact of the list and the artifact has another
-- one, the change order asks for the artifact to be repaired and for its bindings to be rebuilt,
-- whatever roles are downstream of it. Each role downstream of it is invalidated, and the order
-- asks for it to be validated again.
pub evaluate_conflicts-covers :
    (downstream : RoleMapping) (states : List ArtifactState) (expected : TextMapping)
    (state : ArtifactState)
    → In state states
    → expected_for expected state ≢ ""
    → expected_for expected state ≢ state.descriptor.digest
    → In
        ("repair_artifact:" ++ role_of state)
        (evaluate_conflicts downstream states expected).required_actions
      × In
          ("rebuild_bindings_for:" ++ role_of state)
          (evaluate_conflicts downstream states expected).required_actions
      × All
          (Invalidated (evaluate_conflicts downstream states expected))
          (roles_after (role_of state) downstream)
unfolding evaluate_conflicts change_order_for_conflicts
evaluate_conflicts-covers downstream states expected state h full other =
    let c = conflict_of expected state in
    let found = conflict_of_digest state states expected h full other in
    let asked = λ (t : String) (k : In t (conflict_actions downstream c)).
      (In-from_keys t _).1
        (In-all_actions downstream c (detect_digest_conflicts states expected) t found k) in
    (
      asked _ (repaired downstream c),
      asked _ (rebuilt downstream _ _ _),
      All-of_In _ _ (λ role after. (
        (In-from_keys role _).1 (In-all_invalidated downstream c _ role found after),
        asked _ (revalidated downstream _ _ _ role after),
      )),
    )
