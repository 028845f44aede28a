-- ===== src/Replay/Tests.antt =====
-- Claims of concrete records.
use gov_engine.Prelude.{String, Bool, true, false, ◌≡◌, refl, Option, none, List, [], ◌∷◌, any}
use gov_engine.Python.Text.{strip}
use gov_engine.Python.Value.{Value, dict, end, lookup}
use gov_engine.Python.Reading.{read_text}
use gov_engine.Errors.{Result, ok, err, require_mapping}
use gov_engine.Replay.{
  GuardReplayRecord, GuardReplayDecision, is_allowed, is_semantic_replay, is_root_tag_replay,
  seen_decision, evaluate_guard_replay, claim_once, claim_all, replay_record_from_mapping,
  stored_records, records_from_store, store_from_records, record_guard_replay,
}
use gov_engine.Replay.Freshness.{is_replay, Ruled, evaluate_guard_replay-Ruled}
use gov_engine.Replay.Claims.{NoReplays, claim_all-NoReplays, replay_refused, claimed_at_most_once}
use gov_engine.Replay.Loading.{Named}
use gov_engine.Replay.Stored.{WellFormed, replay_store_round_trip, recorded_replay_refused}
use gov_engine.Samples.{plain_runtime}

abbrev record_of : String → String → GuardReplayRecord
record_of root_tag digest = record {
  root_tag = root_tag;
  chain_id = "chain";
  key_id = "key";
  schema_version = "v0.1";
  root_chain_digest = digest;
  ticket_id = "ticket";
  run_id = "";
  guard_profile = "kernel_guard_hmac_v1";
  observed_at = "";
  metadata = end;
}

abbrev first_root : GuardReplayRecord
first_root = record_of "root-1" "digest-1"

-- The same payload, guarded again.
abbrev second_root : GuardReplayRecord
second_root = record_of "root-2" "digest-1"

abbrev other_root : GuardReplayRecord
other_root = record_of "root-3" "digest-3"

claim :
    List GuardReplayRecord → GuardReplayRecord → Bool → GuardReplayDecision × List GuardReplayRecord
unfolding claim_once claim_all evaluate_guard_replay seen_decision is_semantic_replay
    is_root_tag_replay is_allowed
claim records r fresh = claim_once records r fresh

replay_refused_example :
    is_allowed
      (claim_once
        (claim_all (claim_once [] first_root true).1 ((other_root, true) ∷ []))
        second_root
        true).0
    ≡ false
unfolding claim
replay_refused_example =
    replay_refused [] first_root second_root true ((other_root, true) ∷ []) refl refl

claimed_at_most_once_example :
    is_allowed
      (claim_once
        (claim_all (claim_once [] first_root true).1 ((other_root, true) ∷ []))
        first_root
        true).0
    ≡ false
claimed_at_most_once_example = claimed_at_most_once [] first_root true ((other_root, true) ∷ [])

claim_all-NoReplays_example :
    NoReplays (claim_all [] ((first_root, true) ∷ (other_root, true) ∷ []))
claim_all-NoReplays_example =
    claim_all-NoReplays ((first_root, true) ∷ (other_root, true) ∷ []) [] tt

evaluate_guard_replay-Ruled_example :
    Ruled second_root true
      (any (is_replay second_root) (first_root ∷ []))
      (evaluate_guard_replay second_root (first_root ∷ []) true)
evaluate_guard_replay-Ruled_example = evaluate_guard_replay-Ruled second_root (first_root ∷ []) true

first_root-WellFormed : WellFormed first_root
unfolding strip
first_root-WellFormed = record {
  root_tag = (refl, cc);
  chain_id = (refl, cc);
  key_id = (refl, cc);
  schema_version = cc;
  guard_profile = cc;
}

replay_store_round_trip_example :
    records_from_store plain_runtime (store_from_records plain_runtime (first_root ∷ []))
    ≡ ok (first_root ∷ [])
replay_store_round_trip_example =
    replay_store_round_trip plain_runtime (first_root ∷ []) (first_root-WellFormed, tt)

record_it : Value → GuardReplayRecord → Bool → Result (GuardReplayDecision × Option Value)
unfolding record_guard_replay records_from_store store_from_records stored_records
    replay_record_from_mapping require_mapping read_text lookup strip claim
record_it current r fresh = record_guard_replay plain_runtime current r fresh

abbrev first_decision : GuardReplayDecision
first_decision = unfold evaluate_guard_replay in evaluate_guard_replay first_root [] true

abbrev written : Value
written = dict (unfold store_from_records in store_from_records plain_runtime (first_root ∷ []))

first_root-Named : Named first_root
first_root-Named = record {
  root_tag = first_root-WellFormed.root_tag;
  chain_id = first_root-WellFormed.chain_id;
  key_id = first_root-WellFormed.key_id;
}

recorded_replay_refused_example :
    (d' : GuardReplayDecision) × (record_guard_replay plain_runtime written second_root true
      ≡ ok (d', none))
    × (is_allowed d' ≡ false)
unfolding record_it
recorded_replay_refused_example =
    recorded_replay_refused plain_runtime (dict end) written first_root second_root true
      first_decision first_root-Named refl refl

-- A record with a blank before its root tag and no digest: it is stored as it is and read back
-- without the blank, so that the very same record is fresh again.
abbrev blank_root : GuardReplayRecord
blank_root = record_of " root-1" ""

abbrev blank_written : Value
blank_written =
    dict (unfold store_from_records in store_from_records plain_runtime (blank_root ∷ []))

replay_status_of : Result (GuardReplayDecision × Option Value) → String
replay_status_of (ok (d, _)) = d.replay_status
replay_status_of (err _) = ""

blank_is_fresh_again : replay_status_of (record_it blank_written blank_root true) ≡ "fresh"
unfolding record_it replay_status_of
blank_is_fresh_again = refl
