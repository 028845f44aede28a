-- ===== src/Deconfliction/Tests.antt =====
-- Conflicts on a list of two artifacts, one with a wrong digest.
use gov_engine.Prelude.{
  String, false, List, [], ◌∷◌, ◌≡◌, ◌↔◌, refl, inl, inr, All, In, ne_of_eqb-false,
}
use gov_engine.Python.Value.{end}
use gov_engine.Python.Sorting.{from_keys, without}
use gov_engine.Core.{ArtifactState}
use gov_engine.Deconfliction.{
  TextMapping, downstream_roles, is_required, digest_for, roles_after, digest_conflicts,
  detect_digest_conflicts, conflict_actions, all_actions, change_order_for_conflicts,
  evaluate_conflicts,
}
use gov_engine.Deconfliction.Laws.{
  Settled, Invalidated, evaluate_conflicts_iff, evaluate_conflicts-covers,
}

abbrev artifact : String → String → ArtifactState
artifact role digest = record {
  descriptor = record {
    artifact_type = "artifact";
    schema_version = "1";
    digest = digest;
    role = role;
    path = "";
    metadata = end;
  };
  lifecycle_state = "unknown";
  chain_status = "unknown";
  signature_status = "not_required";
  policy_status = "unknown";
  blocked_reasons = [];
  next_actions = [];
}

abbrev artifacts : List ArtifactState
artifacts = artifact "intent_contract" "a" ∷ artifact "execution_receipt" "b" ∷ []

abbrev expected_digests : TextMapping
expected_digests = ("intent_contract", "a") ∷ ("execution_receipt", "c") ∷ []

receipt_is_repaired :
    (evaluate_conflicts downstream_roles artifacts expected_digests).required_actions ≡ (
      "repair_artifact:execution_receipt" ∷ "rebuild_bindings_for:execution_receipt"
      ∷ "revalidate_artifact:evidence_contract" ∷ "revalidate_artifact:artifact_chain_manifest"
      ∷ [])
unfolding evaluate_conflicts change_order_for_conflicts detect_digest_conflicts digest_conflicts
    digest_for conflict_actions all_actions roles_after from_keys without
receipt_is_repaired = refl

evaluate_conflicts_iff_example :
    (is_required (evaluate_conflicts downstream_roles artifacts expected_digests) ≡ false)
    ↔ All (Settled expected_digests) artifacts
evaluate_conflicts_iff_example = evaluate_conflicts_iff downstream_roles artifacts expected_digests

-- The manifest has no role downstream of it, and is rebuilt all the same.
manifest_is_rebuilt :
    (evaluate_conflicts downstream_roles
      (artifact "artifact_chain_manifest" "a" ∷ [])
      (("artifact_chain_manifest", "b") ∷ [])).required_actions
    ≡ ("repair_artifact:artifact_chain_manifest" ∷ "rebuild_bindings_for:artifact_chain_manifest"
        ∷ [])
unfolding evaluate_conflicts change_order_for_conflicts detect_digest_conflicts digest_conflicts
    digest_for conflict_actions all_actions roles_after from_keys without
manifest_is_rebuilt = refl

evaluate_conflicts-covers_example :
    In "repair_artifact:execution_receipt"
      (evaluate_conflicts downstream_roles artifacts expected_digests).required_actions
    × In "rebuild_bindings_for:execution_receipt"
        (evaluate_conflicts downstream_roles artifacts expected_digests).required_actions
    × All
        (Invalidated (evaluate_conflicts downstream_roles artifacts expected_digests))
        ("evidence_contract" ∷ "artifact_chain_manifest" ∷ [])
unfolding digest_for roles_after
evaluate_conflicts-covers_example =
    evaluate_conflicts-covers downstream_roles artifacts expected_digests
      (artifact "execution_receipt" "b") (inr (inl refl)) (ne_of_eqb-false "c" "" refl)
      (ne_of_eqb-false "c" "b" refl)
