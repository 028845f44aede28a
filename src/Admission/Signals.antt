-- ===== src/Admission/Signals.antt =====
-- govengine/admission.py: the statuses that a runtime admission reads from bounded summaries.
use gov_engine.Prelude.{
  String, Bool, true, false, not, ◌&&◌, ◌||◌, List, [], ◌∷◌, ◌==◌, if◌then◌else◌,
}
use gov_engine.Python.Text.{strip, in_texts, or_text}
use gov_engine.Python.Value.{text, null, Fields, get_or_null, has_key, is_end, Runtime, text_of}
use gov_engine.Errors.{Result, ok, ◌>>=◌}
use gov_engine.Core.{mapping_or_empty}
use gov_engine.Admission.{bool_value}
use gov_engine.Admission.Blockers.{trust_runtime_blockers, table_get}

-- `_REPLAY_FAILURE_STATUSES`
abbrev pub replay_failure_statuses : List String
replay_failure_statuses = "replayed" ∷ "stale" ∷ "expired" ∷ "blocked" ∷ "failed" ∷ []

-- `a or b` of two tests, of which the second may raise.
abbrev pub or_test : Result Bool → Result Bool → Result Bool
or_test first second = first >>= λ b. if b then ok true else second

module _ (py : Runtime) where
  -- `_signal_status`
  unfoldable pub signal_status : Fields → List String → String
  signal_status payload [] = ""
  signal_status payload (key ∷ keys) =
      let rest = signal_status payload keys in
      elim (get_or_null key payload) [ null ↦ rest | v ↦ py.lower (strip (text_of py v)) ]

  -- `_explicit_false`
  unfoldable pub explicit_false : Fields → String → Result Bool
  explicit_false payload key =
      if has_key (text key) payload
      then (bool_value py (get_or_null key payload) false >>= λ b. ok (not b))
      else ok false

  -- `_policy_signal_status`
  unfoldable pub policy_signal_status : Fields → Result String
  policy_signal_status payload =
      if is_end payload
      then ok "missing"
      else (if has_key (text "allowed") payload
          then (bool_value py (get_or_null "allowed" payload) false >>= λ b.
              ok (if b then "allowed" else "denied"))
          else ok (
              or_text
                (signal_status payload
                  ("decision" ∷ "status" ∷ "outcome" ∷ "policy_decision_status" ∷ []))
                "unknown"))

  -- The status of a ticket that is not refused by its `allowed` entry.
  abbrev ticket_status_of : Fields → String
  ticket_status_of payload =
      or_text
        (or_text (signal_status payload ("status" ∷ "approval_status" ∷ "ticket_status" ∷ []))
          (signal_status (mapping_or_empty py "approval" payload) ("status" ∷ [])))
        "unknown"

  -- `_ticket_signal_status`
  unfoldable pub ticket_signal_status : Fields → Result String
  ticket_signal_status payload =
      if is_end payload
      then ok "missing"
      else (explicit_false payload "allowed" >>= λ refused.
          ok (if refused then "denied" else ticket_status_of payload))

  -- `_trust_signal_status`
  unfoldable pub trust_signal_status : Fields → Result String
  trust_signal_status payload =
      if is_end payload
      then ok "missing"
      else (let reason = signal_status payload ("reason_code" ∷ "blocker" ∷ "error_code" ∷ []) in
          if not (table_get trust_runtime_blockers reason "" == "")
          then ok reason
          else (if has_key (text "trusted") payload
              then (bool_value py (get_or_null "trusted" payload) false >>= λ b.
                  ok (if b then "trusted" else "denied"))
              else ok (
                  or_text
                    (signal_status payload ("trust_status" ∷ "status" ∷ "verification_status" ∷ []))
                    "unknown")))

  -- `_guarded_bundle_decision_failed`
  unfoldable pub guarded_bundle_decision_failed : Fields → Result Bool
  guarded_bundle_decision_failed payload =
      if is_end payload
      then ok false
      else (if in_texts (signal_status payload ("status" ∷ []))
            ("blocked" ∷ "failed" ∷ "denied" ∷ [])
          then ok true
          else (if has_key (text "allowed") payload
              then (bool_value py (get_or_null "allowed" payload) true >>= λ b. ok (not b))
              else ok false))

  -- `_guarded_runtime_status`
  unfoldable pub guarded_runtime_status : Fields → Result String
  guarded_runtime_status payload =
      if is_end payload
      then ok ""
      else (or_test (explicit_false payload "guarded")
            (explicit_false payload "kernel_guard_present")
          >>= λ unguarded.
              (if unguarded
                then ok "not_guarded"
                else (or_test (explicit_false payload "strict") (
                      or_test (explicit_false payload "strict_lifecycle")
                        (explicit_false payload "guarded_strict"))
                    >>= λ lenient.
                        (if lenient
                          then ok "not_strict"
                          else (guarded_bundle_decision_failed payload >>= λ failed. ok (
                              if failed
                              then "failed"
                              else signal_status payload
                                  ("verification_status" ∷ "guarded_status" ∷ "status" ∷ [])))))))

  -- `_replay_runtime_status`
  unfoldable pub replay_runtime_status : Fields → Fields → Bool → String
  replay_runtime_status replay_payload guarded_payload runtime_consumable =
      let guarded_replay = signal_status guarded_payload ("replay_status" ∷ []) in
      let replay_only = signal_status replay_payload ("replay_status" ∷ "status" ∷ []) in
      if not runtime_consumable
      then or_text replay_only guarded_replay
      else (if in_texts guarded_replay replay_failure_statuses
          then guarded_replay
          else (if in_texts replay_only replay_failure_statuses
              then replay_only
              else (if not (is_end replay_payload)
                    && not (replay_only == "")
                    && guarded_replay == ""
                  then "missing"
                  else (if not (is_end replay_payload)
                        && not (replay_only == "")
                        && not (guarded_replay == replay_only)
                      then "replayed"
                      else or_text (or_text guarded_replay replay_only) "missing"))))

  -- `_receipt_obligation_required`
  unfoldable pub receipt_obligation_required : Fields → Result Bool
  receipt_obligation_required payload =
      if is_end payload
      then ok false
      else (bool_value py (get_or_null "required" payload) false >>= λ required. ok (
          required
          || in_texts (signal_status payload ("status" ∷ "obligation_status" ∷ []))
              ("required" ∷ "passed" ∷ "ok" ∷ [])))
