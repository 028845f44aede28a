-- ===== src/Replay/Stored.antt =====
-- govengine/replay.py: the records that a host's state store keeps from one call to the next.
use gov_engine.Prelude.{
  Bool, true, false, not, ◌||◌, ◌≡◌, ◌≢◌, refl, ◌∙◌, ap, List, [], ◌∷◌, ◌++◌, if◌then◌else◌, map,
  In, In-map, All, Option, none, some, eqb-false_of_ne,
}
use gov_engine.Python.Text.{strip}
use gov_engine.Python.Value.{Value, dict, Runtime}
use gov_engine.Errors.{ok, ok-injective, >>=-eq-ok}
use gov_engine.Replay.{
  GuardReplayRecord, GuardReplayDecision, is_allowed, is_semantic_replay, is_root_tag_replay,
  evaluate_guard_replay, records_from_store, store_from_records, mapping_or_empty,
  record_guard_replay,
}
use gov_engine.Replay.Claims.{any_of_In, In-append_last}
use gov_engine.Replay.Freshness.{is_replay, evaluate_guard_replay-Ruled}
use gov_engine.Replay.Loading.{Named, reread, records_from_store-reread, records_from_store-Named}

-- A record that reading back does not change: the names are there and have no blanks around them,
-- and the texts that have a default are there.
pub record WellFormed (r : GuardReplayRecord) : Type 0 where
  pub root_tag : (strip r.root_tag ≡ r.root_tag) × (r.root_tag ≢ "")
  pub chain_id : (strip r.chain_id ≡ r.chain_id) × (r.chain_id ≢ "")
  pub key_id : (strip r.key_id ≡ r.key_id) × (r.key_id ≢ "")
  pub schema_version : r.schema_version ≢ ""
  pub guard_profile : r.guard_profile ≢ ""

WellFormed-Named : (r : GuardReplayRecord) → WellFormed r → Named r
WellFormed-Named r h = record { root_tag = h.root_tag; chain_id = h.chain_id; key_id = h.key_id }

-- Nothing of a well-formed record takes a default.
reread-WellFormed : (r : GuardReplayRecord) → WellFormed r → reread r ≡ r
reread-WellFormed r h =
    simp
      (
        eqb-false_of_ne r.schema_version "" h.schema_version,
        eqb-false_of_ne r.guard_profile "" h.guard_profile,
      )
      refl

All-WellFormed-Named : (rs : List GuardReplayRecord) → All WellFormed rs → All Named rs
All-WellFormed-Named [] h = tt
All-WellFormed-Named (r ∷ rs) (first, rest) =
    (WellFormed-Named r first, All-WellFormed-Named rs rest)

map-reread-WellFormed : (rs : List GuardReplayRecord) → All WellFormed rs → map reread rs ≡ rs
map-reread-WellFormed [] h = refl
map-reread-WellFormed (r ∷ rs) (first, rest) =
    rw (reread-WellFormed r first, map-reread-WellFormed rs rest) refl

All-append_last :
    (r : GuardReplayRecord) (rs : List GuardReplayRecord)
    → All Named rs
    → Named r
    → All Named (rs ++ (r ∷ []))
All-append_last r [] h last = (last, tt)
All-append_last r (q ∷ rs) (first, rest) last = (first, All-append_last r rs rest last)

-- Reading a record back keeps what makes another one its replay.
is_replay-reread : (later r : GuardReplayRecord) → is_replay later (reread r) ≡ is_replay later r
unfolding is_semantic_replay is_root_tag_replay
is_replay-reread later r = refl

wrote :
    (b : Bool) (v w : Value) → ◌≡◌ {A = Option Value} (if b then some v else none) (some w) → w ≡ v
wrote true v w e = cc
wrote false v w e = cc

module _ (py : Runtime) where
  -- A store of well-formed records holds, once it is read, those records in their order.
  pub replay_store_round_trip :
      (rs : List GuardReplayRecord)
      → All WellFormed rs
      → records_from_store py (store_from_records py rs) ≡ ok rs
  replay_store_round_trip rs h =
      records_from_store-reread py rs (All-WellFormed-Named rs h)
      ∙ ap ok (map-reread-WellFormed rs h)

  -- What a call of `record_guard_replay` that writes to the store read there, and what it writes.
  record_guard_replay-written :
      (current w : Value) (r : GuardReplayRecord) (fresh : Bool) (d : GuardReplayDecision)
      → record_guard_replay py current r fresh ≡ ok (d, some w)
      → (records : List GuardReplayRecord) × All Named records
        × (w ≡ dict (store_from_records py (records ++ (r ∷ []))))
  unfolding record_guard_replay
  record_guard_replay-written current w r fresh d e =
      let (records, loaded, made) =
        >>=-eq-ok (records_from_store py (mapping_or_empty py current)) _ e in
      (
        records,
        records_from_store-Named py _ records loaded,
        wrote _ _ w (ap (λ (x : GuardReplayDecision × Option Value). x.1) (ok-injective made)),
      )

  -- A call that reads a record which the new one replays.
  record_guard_replay-replayed :
      (current : Value) (records : List GuardReplayRecord) (p later : GuardReplayRecord)
      → records_from_store py (mapping_or_empty py current) ≡ ok records
      → In p records
      → is_replay later p ≡ true
      → (d : GuardReplayDecision) × (record_guard_replay py current later true ≡ ok (d, none))
        × (is_allowed d ≡ false)
  unfolding record_guard_replay
  record_guard_replay-replayed current records p later loaded at e =
      let ruled = evaluate_guard_replay-Ruled later records true in
      let found = any_of_In later p records at e in
      (
        evaluate_guard_replay later records true,
        rw (loaded, ruled.status, found) refl,
        ruled.allowed ∙ ap (λ b. not b || false) found,
      )

  -- Once `record_guard_replay` has written a record whose root tag, chain and key are there and have
  -- no blanks around them, a call on what it wrote that requires freshness of a record that replays
  -- it returns a decision that refuses it, and writes nothing. What the store held before the first
  -- call is arbitrary.
  pub recorded_replay_refused :
      (current w : Value) (r later : GuardReplayRecord) (fresh : Bool) (d : GuardReplayDecision)
      → Named r
      → record_guard_replay py current r fresh ≡ ok (d, some w)
      → is_replay later r ≡ true
      → (d' : GuardReplayDecision) × (record_guard_replay py w later true ≡ ok (d', none))
        × (is_allowed d' ≡ false)
  recorded_replay_refused current w r later fresh d named first e =
      let (records, held, written) = record_guard_replay-written current w r fresh d first in
      let kept = records ++ (r ∷ []) in
      let reloaded =
        ap (λ v. records_from_store py (mapping_or_empty py v)) written
        ∙ records_from_store-reread py kept (All-append_last r records held named) in
      record_guard_replay-replayed w (map reread kept) (reread r) later reloaded
        (In-map reread r kept (In-append_last r records)) (is_replay-reread later r ∙ e)
