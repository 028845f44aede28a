-- ===== src/Replay.antt =====
-- govengine/replay.py: the freshness of guarded roots, the in-memory claim store and the records that
-- a host's state store keeps.
pub mod Freshness
pub mod Claims
pub mod Loading
pub mod Stored
mod Tests
use Prim.Native.String.{◌++◌}
use gov_engine.Prelude.{
  String, Bool, true, false, not, ◌&&◌, ◌||◌, Option, none, some, List, [], ◌∷◌, ◌==◌,
  if◌then◌else◌,
}
use mathlib.Core.List.{◌++◌ as append}
use gov_engine.Python.Text.{in_texts, or_text}
use gov_engine.Python.Value.{
  Value, str, list, dict, Items, nil, cons, Fields, end, get_or_null, or_value, dict_of, Runtime,
  text_of,
}
use gov_engine.Python.Reading.{read_text}
use gov_engine.Errors.{Result, ok, fail, reject_if, require_mapping, ◌>>=◌, ◌>>◌}

pub record GuardReplayRecord : Type 0 where
  pub root_tag : String
  pub chain_id : String
  pub key_id : String
  pub schema_version : String
  pub root_chain_digest : String
  pub ticket_id : String
  pub run_id : String
  pub guard_profile : String
  pub observed_at : String
  pub metadata : Fields

pub record GuardReplayDecision : Type 0 where
  pub status : String
  pub replay_status : String
  pub replay_record : GuardReplayRecord
  pub first_seen : Option GuardReplayRecord
  pub blocker : String
  pub next_action : String

-- `GuardReplayDecision.allowed`
unfoldable pub is_allowed : GuardReplayDecision → Bool
is_allowed d = d.status == "allowed" && in_texts d.replay_status ("fresh" ∷ "seen" ∷ [])

-- `GuardReplayRecord.as_dict`
abbrev pub replay_record_as_dict : GuardReplayRecord → Fields
replay_record_as_dict r = dict_of (
    ("root_tag", str r.root_tag)
    ∷ ("chain_id", str r.chain_id)
    ∷ ("key_id", str r.key_id)
    ∷ ("schema_version", str r.schema_version)
    ∷ ("root_chain_digest", str r.root_chain_digest)
    ∷ ("ticket_id", str r.ticket_id)
    ∷ ("run_id", str r.run_id)
    ∷ ("guard_profile", str r.guard_profile)
    ∷ ("observed_at", str r.observed_at)
    ∷ ("metadata", dict r.metadata)
    ∷ [])

-- `semantic_replay` and `root_tag_replay`
unfoldable pub is_semantic_replay : GuardReplayRecord → GuardReplayRecord → Bool
is_semantic_replay r prior =
    not (r.root_chain_digest == "")
    && not (prior.root_chain_digest == "")
    && r.root_chain_digest == prior.root_chain_digest
    && or_text r.ticket_id r.chain_id == or_text prior.ticket_id prior.chain_id
    && r.key_id == prior.key_id

unfoldable pub is_root_tag_replay : GuardReplayRecord → GuardReplayRecord → Bool
is_root_tag_replay r prior =
    prior.root_tag == r.root_tag && prior.chain_id == r.chain_id && prior.key_id == r.key_id

-- The two decisions on a record that was seen before.
unfoldable pub seen_decision :
    Bool → GuardReplayRecord → GuardReplayRecord → String → GuardReplayDecision
seen_decision true r prior blocker = record {
  status = "blocked";
  replay_status = "replayed";
  replay_record = r;
  first_seen = some prior;
  blocker = blocker;
  next_action = "reject_or_review_replayed_guarded_bundle";
}
seen_decision false r prior blocker = record {
  status = "allowed";
  replay_status = "seen";
  replay_record = r;
  first_seen = some prior;
  blocker = "";
  next_action = "";
}

-- `evaluate_guard_replay`
unfoldable pub evaluate_guard_replay :
    GuardReplayRecord → List GuardReplayRecord → Bool → GuardReplayDecision
evaluate_guard_replay r [] require_fresh = record {
  status = "allowed";
  replay_status = "fresh";
  replay_record = r;
  first_seen = none;
  blocker = "";
  next_action = "";
}
evaluate_guard_replay r (prior ∷ priors) require_fresh =
    let rest = evaluate_guard_replay r priors require_fresh in
    if is_semantic_replay r prior
    then seen_decision require_fresh r prior ("replayed_guarded_payload:" ++ r.root_chain_digest)
    else if is_root_tag_replay r prior
    then seen_decision require_fresh r prior ("replayed_guard_root:" ++ r.root_tag)
    else rest

-- `InMemoryReplayClaimStore`, by its `_records`, and its `claim_once` on a `GuardReplayRecord`
unfoldable pub claim_once :
    List GuardReplayRecord → GuardReplayRecord → Bool → GuardReplayDecision × List GuardReplayRecord
claim_once records r require_fresh =
    let decision = evaluate_guard_replay r records require_fresh in
    (decision, if decision.replay_status == "fresh" then append records (r ∷ []) else records)

-- Claims one after the other, each with its `require_fresh`.
unfoldable pub claim_all :
    List GuardReplayRecord → List (GuardReplayRecord × Bool) → List GuardReplayRecord
claim_all records [] = records
claim_all records ((r, fresh) ∷ claims) = claim_all (claim_once records r fresh).1 claims

module _ (py : Runtime) where
  abbrev read_or : String → String → Fields → String
  read_or key default raw = text_of py (or_value (get_or_null key raw) (str default))

  abbrev metadata_of : Fields → Fields
  metadata_of raw = elim (get_or_null "metadata" raw) [ dict m ↦ m | _ ↦ end ]

  -- `GuardReplayRecord.from_mapping`
  unfoldable pub replay_record_from_mapping : Value → Result GuardReplayRecord
  replay_record_from_mapping value = do
    raw ← require_mapping value "invalid_guard_replay_record"
    reject_if (read_text py "root_tag" raw == "") "missing_root_tag"
    reject_if (read_text py "chain_id" raw == "") "missing_chain_id"
    reject_if (read_text py "key_id" raw == "") "missing_key_id"
    ok (record {
      root_tag = read_text py "root_tag" raw;
      chain_id = read_text py "chain_id" raw;
      key_id = read_text py "key_id" raw;
      schema_version = read_or "schema_version" "v0.1" raw;
      root_chain_digest = read_or "root_chain_digest" "" raw;
      ticket_id = read_or "ticket_id" "" raw;
      run_id = read_or "run_id" "" raw;
      guard_profile = text_of py (
          or_value (or_value (get_or_null "guard_profile" raw) (get_or_null "profile" raw))
            (str "kernel_guard_hmac_v1"));
      observed_at = read_or "observed_at" "" raw;
      metadata = metadata_of raw;
    })

  -- The loop of `_records_from_store`, which passes over what is no mapping.
  unfoldable pub stored_records : Items → Result (List GuardReplayRecord)
  stored_records nil = ok []
  stored_records (cons (dict m) vs) = do
    r ← replay_record_from_mapping (dict m)
    rest ← stored_records vs
    ok (r ∷ rest)
  stored_records (cons _ vs) = stored_records vs

  -- `_records_from_store`
  unfoldable pub records_from_store : Fields → Result (List GuardReplayRecord)
  records_from_store value = elim (get_or_null "records" value) [
    | list vs ↦ stored_records vs
    | _ ↦ ok []
  ]

  abbrev record_items : List GuardReplayRecord → Items
  record_items [] = nil
  record_items (r ∷ rs) = cons (dict (replay_record_as_dict r)) (record_items rs)

  -- `_store_from_records`
  unfoldable pub store_from_records : List GuardReplayRecord → Fields
  store_from_records records = dict_of (
      ("artifact_type", str "guard_replay_store")
      ∷ ("schema_version", str "v0.1")
      ∷ ("records", list (record_items records))
      ∷ [])

  -- `any(not isinstance(item, Mapping) for item in records)`
  unfoldable pub all_mappings : Items → Bool
  all_mappings nil = true
  all_mappings (cons (dict m) vs) = all_mappings vs
  all_mappings (cons _ vs) = false

  -- `value != text`
  abbrev is_text : String → Value → Bool
  is_text s (str t) = t == s
  is_text s _ = false

  -- The end of `_normalize_file_store`
  unfoldable pub normalize_records : Value → Result Fields
  normalize_records (list vs) = do
    reject_if (not (all_mappings vs)) "invalid_guard_replay_store_record"
    records ← stored_records vs
    ok (store_from_records records)
  normalize_records _ = fail "invalid_guard_replay_store_records"

  -- `_normalize_file_store`
  unfoldable pub normalize_file_store : Value → Result Fields
  normalize_file_store value = do
    raw ← require_mapping value "invalid_guard_replay_store"
    reject_if (not (is_text "guard_replay_store" (get_or_null "artifact_type" raw)))
        "invalid_guard_replay_store_artifact_type"
    reject_if (not (is_text "v0.1" (get_or_null "schema_version" raw)))
        "invalid_guard_replay_store_schema_version"
    normalize_records (get_or_null "records" raw)

  -- `current if isinstance(current, Mapping) else {}`
  abbrev mapping_or_empty : Value → Fields
  mapping_or_empty (dict m) = m
  mapping_or_empty _ = end

  -- `record_guard_replay`: what the host's store holds under the key is given, and what is written
  -- there, if anything is, comes with the decision.
  unfoldable pub record_guard_replay :
      Value → GuardReplayRecord → Bool → Result (GuardReplayDecision × Option Value)
  record_guard_replay current r require_fresh = do
    records ← records_from_store (mapping_or_empty current)
    let decision = evaluate_guard_replay r records require_fresh
    ok (
      decision,
      if decision.replay_status == "fresh"
          then some (dict (store_from_records (append records (r ∷ []))))
          else none,
    )
