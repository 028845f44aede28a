-- ===== src/Deconfliction.antt =====
-- govengine/deconfliction.py: conflicts between artifacts and the change order that resolves them.
pub mod Laws
pub mod Tests
use Prim.Native.String.{◌++◌}
use mathlib.Core.List.{◌++◌ as append}
use gov_engine.Prelude.{
  String, Bool, true, false, not, ◌&&◌, List, [], ◌∷◌, ◌==◌, if◌then◌else◌, is_empty, map,
}
use gov_engine.Python.Text.{or_text}
use gov_engine.Python.Sorting.{from_keys}
use gov_engine.Core.{ArtifactDescriptor, ArtifactState}

pub record ArtifactConflict : Type 0 where
  pub role : String
  pub reason_code : String
  pub message : String
  pub expected_digest : String
  pub actual_digest : String
  pub upstream_role : String

pub record ArtifactChangeOrder : Type 0 where
  pub conflicts : List ArtifactConflict
  pub required_actions : List String
  pub invalidated_roles : List String

-- `ArtifactChangeOrder.required`
abbrev pub is_required : ArtifactChangeOrder → Bool
is_required order = not (is_empty order.conflicts)

-- A mapping from texts to texts, and one from texts to sequences of texts.
abbrev pub TextMapping : Type 0
TextMapping = List (String × String)

abbrev pub RoleMapping : Type 0
RoleMapping = List (String × List String)

-- `expected_digests.get(role) or ""`
unfoldable pub digest_for : String → TextMapping → String
digest_for role [] = ""
digest_for role ((key, digest) ∷ rest) = if key == role then digest else digest_for role rest

-- `self.downstream_roles.get(role, ())`
unfoldable pub roles_after : String → RoleMapping → List String
roles_after role [] = []
roles_after role ((key, roles) ∷ rest) = if key == role then roles else roles_after role rest

-- The default of `ConflictDetector.downstream_roles`.
abbrev pub downstream_roles : RoleMapping
downstream_roles =
    (
      "intent_contract",
      "policy_decision" ∷ "execution_contract" ∷ "execution_ticket" ∷ "execution_receipt"
          ∷ "evidence_contract" ∷ "artifact_chain_manifest" ∷ [],
    )
    ∷ (
      "policy_decision",
      "execution_contract" ∷ "execution_ticket" ∷ "execution_receipt" ∷ "evidence_contract"
          ∷ "artifact_chain_manifest" ∷ [],
    )
    ∷ (
      "execution_contract",
      "execution_ticket" ∷ "execution_receipt" ∷ "evidence_contract" ∷ "artifact_chain_manifest"
          ∷ [],
    )
    ∷ (
      "execution_ticket",
      "execution_receipt" ∷ "evidence_contract" ∷ "artifact_chain_manifest" ∷ [],
    )
    ∷ ("execution_receipt", "evidence_contract" ∷ "artifact_chain_manifest" ∷ [])
    ∷ ("evidence_contract", "artifact_chain_manifest" ∷ [])
    ∷ []

abbrev pub role_of : ArtifactState → String
role_of state = or_text state.descriptor.role state.descriptor.artifact_type

abbrev pub mismatch : String → String → String → ArtifactConflict
mismatch role expected actual = record {
  role = role;
  reason_code = "artifact_digest_mismatch";
  message = role ++ " digest does not match expected binding";
  expected_digest = expected;
  actual_digest = actual;
  upstream_role = "";
}

abbrev pub blocked : String → String → String → ArtifactConflict
blocked role actual reason = record {
  role = role;
  reason_code = "lifecycle_blocked";
  message = reason;
  expected_digest = "";
  actual_digest = actual;
  upstream_role = "";
}

-- The digest test of one turn of the loop.
unfoldable pub digest_conflicts : String → String → String → List ArtifactConflict
digest_conflicts role expected actual =
    if not (expected == "") && not (expected == actual)
    then mismatch role expected actual ∷ []
    else []

-- `ConflictDetector.detect_digest_conflicts`
unfoldable pub detect_digest_conflicts : List ArtifactState → TextMapping → List ArtifactConflict
detect_digest_conflicts [] expected_digests = []
detect_digest_conflicts (state ∷ states) expected_digests =
    append
      (digest_conflicts (role_of state) (digest_for (role_of state) expected_digests)
        state.descriptor.digest)
      (append (map (blocked (role_of state) state.descriptor.digest) state.blocked_reasons)
        (detect_digest_conflicts states expected_digests))

-- What one turn of the loop appends to `actions`.
unfoldable pub conflict_actions : RoleMapping → ArtifactConflict → List String
conflict_actions downstream conflict =
    let revalidations =
      map (λ role. "revalidate_artifact:" ++ role) (roles_after conflict.role downstream) in
    ("repair_artifact:" ++ conflict.role)
    ∷ (if conflict.reason_code == "artifact_digest_mismatch"
        then ("rebuild_bindings_for:" ++ conflict.role) ∷ revalidations
        else revalidations)

-- The lists `actions` and `invalidated` at the end of the loop.
unfoldable pub all_actions : RoleMapping → List ArtifactConflict → List String
all_actions downstream [] = []
all_actions downstream (conflict ∷ conflicts) =
    append (conflict_actions downstream conflict) (all_actions downstream conflicts)

unfoldable pub all_invalidated : RoleMapping → List ArtifactConflict → List String
all_invalidated downstream [] = []
all_invalidated downstream (conflict ∷ conflicts) =
    append (roles_after conflict.role downstream) (all_invalidated downstream conflicts)

-- `ConflictDetector.change_order_for_conflicts`
unfoldable pub change_order_for_conflicts :
    RoleMapping → List ArtifactConflict → ArtifactChangeOrder
change_order_for_conflicts downstream conflicts = record {
  conflicts = conflicts;
  required_actions = from_keys (all_actions downstream conflicts);
  invalidated_roles = from_keys (all_invalidated downstream conflicts);
}

-- `ConflictDetector.evaluate`
unfoldable pub evaluate_conflicts :
    RoleMapping → List ArtifactState → TextMapping → ArtifactChangeOrder
evaluate_conflicts downstream states expected_digests =
    change_order_for_conflicts downstream (detect_digest_conflicts states expected_digests)
