-- ===== src/Admission/Blockers.antt =====
-- govengine/admission.py: the tables of blockers and next actions, and the blocker of each status.
use gov_engine.Prelude.{String, Bool, not, ◌&&◌, List, [], ◌∷◌, ◌==◌, if◌then◌else◌}
use gov_engine.Python.Text.{in_texts}
use gov_engine.Python.Value.{Fields, is_end}
use gov_engine.Core.Gate.{RunnerProfile}

-- `POLICY_RUNTIME_BLOCKERS`
abbrev pub policy_runtime_blockers : List (String × String)
policy_runtime_blockers =
    ("deny", "policy_denied")
    ∷ ("denied", "policy_denied")
    ∷ ("defer", "policy_deferred")
    ∷ ("deferred", "policy_deferred")
    ∷ ("require_approval", "policy_requires_approval")
    ∷ ("dry_run_only", "policy_dry_run_only")
    ∷ ("record_only", "policy_record_only")
    ∷ []

-- `POLICY_RUNTIME_ACTIONS`
abbrev pub policy_runtime_actions : List (String × String)
policy_runtime_actions =
    ("policy_denied", "revise_request_or_policy")
    ∷ ("policy_deferred", "resolve_policy_deferral")
    ∷ ("policy_requires_approval", "obtain_operator_approval")
    ∷ ("policy_dry_run_only", "use_dry_run_only_path")
    ∷ ("policy_record_only", "record_without_execution")
    ∷ ("unknown_policy_decision", "obtain_valid_policy_decision")
    ∷ ("missing_or_invalid_policy_decision", "obtain_policy_decision")
    ∷ []

-- `TICKET_RUNTIME_BLOCKERS`
abbrev pub ticket_runtime_blockers : List (String × String)
ticket_runtime_blockers =
    ("invalid", "invalid_execution_ticket")
    ∷ ("malformed", "invalid_execution_ticket")
    ∷ ("denied", "execution_ticket_not_approved")
    ∷ ("deny", "execution_ticket_not_approved")
    ∷ ("rejected", "execution_ticket_not_approved")
    ∷ ("unapproved", "execution_ticket_not_approved")
    ∷ ("pending", "execution_ticket_not_approved")
    ∷ ("mismatch", "execution_ticket_mismatch")
    ∷ ("mismatched", "execution_ticket_mismatch")
    ∷ ("scope_mismatch", "execution_ticket_mismatch")
    ∷ ("digest_mismatch", "execution_ticket_mismatch")
    ∷ ("stale", "execution_ticket_stale")
    ∷ ("expired", "execution_ticket_stale")
    ∷ ("failed", "execution_ticket_failed")
    ∷ ("failure", "execution_ticket_failed")
    ∷ ("error", "execution_ticket_failed")
    ∷ []

-- `TICKET_RUNTIME_ACTIONS`
abbrev pub ticket_runtime_actions : List (String × String)
ticket_runtime_actions =
    ("missing_or_invalid_execution_ticket", "approve_execution_ticket")
    ∷ ("invalid_execution_ticket", "repair_or_reissue_execution_ticket")
    ∷ ("execution_ticket_not_approved", "approve_execution_ticket")
    ∷ ("execution_ticket_mismatch", "reconcile_execution_ticket_scope")
    ∷ ("execution_ticket_stale", "refresh_execution_ticket")
    ∷ ("execution_ticket_failed", "revalidate_execution_ticket")
    ∷ ("unknown_execution_ticket_status", "obtain_valid_execution_ticket")
    ∷ []

-- `TRUST_RUNTIME_BLOCKERS`
abbrev pub trust_runtime_blockers : List (String × String)
trust_runtime_blockers =
    ("denied", "trust_decision_denied")
    ∷ ("deny", "trust_decision_denied")
    ∷ ("untrusted", "trust_decision_denied")
    ∷ ("not_trusted", "trust_decision_denied")
    ∷ ("trust_status_not_allowed", "trust_decision_denied")
    ∷ ("failed", "trust_verification_failed")
    ∷ ("failure", "trust_verification_failed")
    ∷ ("error", "trust_verification_failed")
    ∷ ("signature_value_mismatch", "trust_verification_failed")
    ∷ ("unsupported_signature_mode", "trust_verification_failed")
    ∷ ("signature_digest_mismatch", "signature_digest_mismatch")
    ∷ ("digest_mismatch", "signature_digest_mismatch")
    ∷ ("signer_not_allowed", "trust_signer_not_allowed")
    ∷ ("unknown_signer", "trust_signer_not_allowed")
    ∷ ("wrong_signer", "trust_signer_not_allowed")
    ∷ ("wrong_key", "trust_verification_failed")
    ∷ []

-- `TRUST_RUNTIME_ACTIONS`
abbrev pub trust_runtime_actions : List (String × String)
trust_runtime_actions =
    ("missing_or_invalid_trust_decision", "verify_trust_decision")
    ∷ ("trust_decision_denied", "obtain_trusted_verification")
    ∷ ("trust_verification_failed", "rerun_trust_verification")
    ∷ ("signature_digest_mismatch", "rebind_or_reissue_signature")
    ∷ ("trust_signer_not_allowed", "use_allowed_signer_or_update_trust_policy")
    ∷ ("unknown_trust_decision_status", "obtain_valid_trust_decision")
    ∷ []

-- `RUNNER_RUNTIME_ACTIONS`
abbrev pub runner_runtime_actions : List (String × String)
runner_runtime_actions =
    ("missing_runner_profile", "select_allowed_runner_profile")
    ∷ ("runner_profile_not_allowed", "select_allowed_runner_profile")
    ∷ ("live_backend_disabled", "use_dry_run_or_select_host_enabled_live_profile")
    ∷ []

-- `table.get(key, default)`
abbrev pub table_get : List (String × String) → String → String → String
table_get [] key default = default
table_get ((k, v) ∷ table) key default = if key == k then v else table_get table key default

abbrev pub passing_policy : List String
passing_policy = "allow" ∷ "allowed" ∷ "passed" ∷ "ok" ∷ []

abbrev pub passing_ticket : List String
passing_ticket = "approve" ∷ "approved" ∷ "approved_for_dry_run" ∷ "passed" ∷ "ok" ∷ []

abbrev pub passing_trust : List String
passing_trust = "trusted" ∷ "passed" ∷ "ok" ∷ []

-- `_policy_runtime_blocker`
abbrev pub policy_runtime_blocker : String → String
policy_runtime_blocker status =
    if in_texts status passing_policy
    then ""
    else (if status == "missing"
        then "missing_or_invalid_policy_decision"
        else table_get policy_runtime_blockers status "unknown_policy_decision")

-- `_policy_runtime_status`
abbrev pub policy_runtime_status : String → String
policy_runtime_status status =
    if status == "dry_run_only"
    then "dry_run_only"
    else (if status == "record_only"
        then "record_only"
        else (if in_texts status ("defer" ∷ "deferred" ∷ "require_approval" ∷ [])
            then "needs_review"
            else "blocked"))

-- `_ticket_runtime_blocker`
abbrev pub ticket_runtime_blocker : String → String
ticket_runtime_blocker status =
    if in_texts status passing_ticket
    then ""
    else (if status == "missing"
        then "missing_or_invalid_execution_ticket"
        else table_get ticket_runtime_blockers status "unknown_execution_ticket_status")

-- `_trust_runtime_blocker`
abbrev pub trust_runtime_blocker : String → String
trust_runtime_blocker status =
    if in_texts status passing_trust
    then ""
    else (if status == "missing"
        then "missing_or_invalid_trust_decision"
        else table_get trust_runtime_blockers status "unknown_trust_decision_status")

-- `_runner_runtime_blocker`
abbrev pub runner_runtime_blocker : Fields → RunnerProfile → Bool → String
runner_runtime_blocker payload runner live =
    if is_end payload
    then "missing_runner_profile"
    else (if not runner.allowed
        then "runner_profile_not_allowed"
        else (if live && not runner.live_backend_enabled then "live_backend_disabled" else ""))
