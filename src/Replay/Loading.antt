-- ===== src/Replay/Loading.antt =====
-- govengine/replay.py: what reading a record keeps of it, and what a host's state store can hold.
use gov_engine.Prelude.{
  String, ◌≡◌, ◌≢◌, refl, sym, List, [], ◌∷◌, ◌==◌, map, inl, inr, Bool-cases, eq_iff, All,
  eqb-false_of_ne, ne_of_eqb-false,
}
use mathlib.Core.Path.{subst}
use gov_engine.Python.Text.{strip, or_text}
use gov_engine.Python.Text.Stripping.{strip_idem}
use gov_engine.Python.Value.{
  Value, null, bool, int, float, str, list, tuple, dict, object, Items, nil, cons, Fields, lookup,
  get_or_null, or_value, Runtime, text_of,
}
use gov_engine.Python.Reading.{read_text}
use gov_engine.Errors.{ok, ok-injective, require_mapping, >>=-eq-ok, reject_if-eq-ok}
use gov_engine.Replay.{
  GuardReplayRecord, replay_record_as_dict, replay_record_from_mapping, stored_records,
  records_from_store, record_items, store_from_records,
}

-- The three names of a record, as `from_mapping` makes them: they are there and have no blanks
-- around them.
pub record Named (r : GuardReplayRecord) : Type 0 where
  pub root_tag : (strip r.root_tag ≡ r.root_tag) × (r.root_tag ≢ "")
  pub chain_id : (strip r.chain_id ≡ r.chain_id) × (r.chain_id ≢ "")
  pub key_id : (strip r.key_id ≡ r.key_id) × (r.key_id ≢ "")

-- What is read back of a record: empty texts with a default take it.
abbrev pub reread : GuardReplayRecord → GuardReplayRecord
reread r = record r {
  schema_version = or_text r.schema_version "v0.1";
  guard_profile = or_text r.guard_profile "kernel_guard_hmac_v1";
}

module _ (py : Runtime) where
  or_default : (s d : String) → text_of py (or_value (str s) (str d)) ≡ or_text s d
  or_default s d = elim (Bool-cases (s == "")) [ inl e ↦ rw e refl | inr e ↦ rw e refl ]

  or_empty : (s : String) → text_of py (or_value (str s) (str "")) ≡ s
  or_empty s = elim (Bool-cases (s == "")) [
    | inl e ↦ rw e (sym ((eq_iff s "").0 e))
    | inr e ↦ rw e refl
  ]

  or_three : (s d : String) → text_of py (or_value (or_value (str s) null) (str d)) ≡ or_text s d
  or_three s d = elim (Bool-cases (s == "")) [ inl e ↦ rw e refl | inr e ↦ rw (e, e) refl ]

  -- Reading what `as_dict` makes of a record keeps all but empty texts that have a default.
  pub replay_record_from_mapping-reread :
      (r : GuardReplayRecord)
      → Named r
      → replay_record_from_mapping py (dict (replay_record_as_dict r)) ≡ ok (reread r)
  unfolding replay_record_from_mapping require_mapping lookup read_text
  replay_record_from_mapping-reread r h =
      rw
        (
          or_empty r.root_tag,
          or_empty r.chain_id,
          or_empty r.key_id,
          h.root_tag.0,
          h.chain_id.0,
          h.key_id.0,
          eqb-false_of_ne r.root_tag "" h.root_tag.1,
          eqb-false_of_ne r.chain_id "" h.chain_id.1,
          eqb-false_of_ne r.key_id "" h.key_id.1,
          or_default r.schema_version "v0.1",
          or_empty r.root_chain_digest,
          or_empty r.ticket_id,
          or_empty r.run_id,
          or_empty r.observed_at,
          or_three r.guard_profile "kernel_guard_hmac_v1",
        )
        refl

  stored_records-record_items :
      (rs : List GuardReplayRecord)
      → All Named rs
      → stored_records py (record_items py rs) ≡ ok (map reread rs)
  unfolding stored_records
  stored_records-record_items [] h = refl
  stored_records-record_items (r ∷ rs) (first, rest) =
      rw (replay_record_from_mapping-reread r first, stored_records-record_items rs rest) refl

  -- Reading a store of records with names gives what is read back of each, in their order.
  pub records_from_store-reread :
      (rs : List GuardReplayRecord)
      → All Named rs
      → records_from_store py (store_from_records py rs) ≡ ok (map reread rs)
  unfolding records_from_store store_from_records lookup
  records_from_store-reread rs h = stored_records-record_items rs h

  strip-read_text :
      (key : String) (raw : Fields) → strip (read_text py key raw) ≡ read_text py key raw
  unfolding read_text
  strip-read_text key raw = strip_idem (text_of py (or_value (get_or_null key raw) (str "")))

  -- What `from_mapping` returns has its names.
  pub replay_record_from_mapping-Named :
      (v : Value) (r : GuardReplayRecord) → replay_record_from_mapping py v ≡ ok r → Named r
  unfolding replay_record_from_mapping
  replay_record_from_mapping-Named v r h =
      let (raw, _, h₁) = >>=-eq-ok (require_mapping v "invalid_guard_replay_record") _ h in
      let (root, h₂) = reject_if-eq-ok (read_text py "root_tag" raw == "") _ _ h₁ in
      let (chain, h₃) = reject_if-eq-ok (read_text py "chain_id" raw == "") _ _ h₂ in
      let (key, made) = reject_if-eq-ok (read_text py "key_id" raw == "") _ _ h₃ in
      subst Named (ok-injective made) (record {
        root_tag = (strip-read_text "root_tag" raw, ne_of_eqb-false _ "" root);
        chain_id = (strip-read_text "chain_id" raw, ne_of_eqb-false _ "" chain);
        key_id = (strip-read_text "key_id" raw, ne_of_eqb-false _ "" key);
      })

  stored_records-Named :
      (vs : Items) (rs : List GuardReplayRecord) → stored_records py vs ≡ ok rs → All Named rs
  unfolding stored_records
  stored_records-Named nil rs h = subst (All Named) (ok-injective h) tt
  stored_records-Named (cons (dict m) vs) rs h =
      let (r, first, h₁) = >>=-eq-ok (replay_record_from_mapping py (dict m)) _ h in
      let (rest, later, made) = >>=-eq-ok (stored_records py vs) _ h₁ in
      subst (All Named) (ok-injective made)
        (replay_record_from_mapping-Named (dict m) r first, stored_records-Named vs rest later)
  stored_records-Named (cons null vs) rs h = stored_records-Named vs rs h
  stored_records-Named (cons (bool _) vs) rs h = stored_records-Named vs rs h
  stored_records-Named (cons (int _) vs) rs h = stored_records-Named vs rs h
  stored_records-Named (cons (float _) vs) rs h = stored_records-Named vs rs h
  stored_records-Named (cons (str _) vs) rs h = stored_records-Named vs rs h
  stored_records-Named (cons (list _) vs) rs h = stored_records-Named vs rs h
  stored_records-Named (cons (tuple _) vs) rs h = stored_records-Named vs rs h
  stored_records-Named (cons (object _ _) vs) rs h = stored_records-Named vs rs h

  listed-Named :
      (v : Value) (rs : List GuardReplayRecord)
      → (elim v [ list vs ↦ stored_records py vs | _ ↦ ok [] ]) ≡ ok rs
      → All Named rs
  listed-Named (list vs) rs h = stored_records-Named vs rs h
  listed-Named null rs h = subst (All Named) (ok-injective h) tt
  listed-Named (bool _) rs h = subst (All Named) (ok-injective h) tt
  listed-Named (int _) rs h = subst (All Named) (ok-injective h) tt
  listed-Named (float _) rs h = subst (All Named) (ok-injective h) tt
  listed-Named (str _) rs h = subst (All Named) (ok-injective h) tt
  listed-Named (tuple _) rs h = subst (All Named) (ok-injective h) tt
  listed-Named (dict _) rs h = subst (All Named) (ok-injective h) tt
  listed-Named (object _ _) rs h = subst (All Named) (ok-injective h) tt

  -- Whatever a store holds, the records that are read from it have their names.
  pub records_from_store-Named :
      (value : Fields) (rs : List GuardReplayRecord)
      → records_from_store py value ≡ ok rs
      → All Named rs
  unfolding records_from_store
  records_from_store-Named value rs h = listed-Named (get_or_null "records" value) rs h
