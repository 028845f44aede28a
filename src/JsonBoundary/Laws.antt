-- ===== src/JsonBoundary/Laws.antt =====
-- govengine/_json_boundary.py: lemmas on `bounded_json_copy` and the description in Shape.
use gov_engine.Prelude.{ℕ, ◌+◌, ◌≤◌, Bool, true, not, ◌≡◌, ◌↔◌, arith, ltb}
use gov_engine.Python.Number.{is_finite}
use gov_engine.Python.Value.{
  text, other, Value, float, str, list, tuple, dict, object, Items, nil, cons, Fields, end, field,
  item_count, field_count,
}
use gov_engine.Errors.{ok, bind-err-ne-ok, >>=-eq-ok, reject_if-eq-ok}
use gov_engine.JsonBoundary.{
  JsonBoundaryLimits, too_long, visit, walk, walk_items, walk_fields, bounded_json_copy,
}
use gov_engine.JsonBoundary.Shape.{
  node_count, items_nodes, fields_nodes, height, items_height, fields_height, listed, items_listed,
  fields_listed, is_json, items_json, fields_json,
}

module _ (limits : JsonBoundaryLimits) where
  abbrev json_value : Value → Bool
  json_value = is_json limits.max_collection_length limits.max_string_length

  abbrev json_items : Items → Bool
  json_items = items_json limits.max_collection_length limits.max_string_length

  abbrev json_fields : Fields → Bool
  json_fields = fields_json limits.max_collection_length limits.max_string_length

  record Visited (depth nodes n : ℕ) : Type 0 where
    next : n ≡ nodes + 1
    room : nodes + 1 ≤ limits.max_nodes
    deep : depth ≤ limits.max_depth

  visit-eq-ok : (depth nodes n : ℕ) → visit limits true depth nodes ≡ ok n → Visited depth nodes n
  unfolding visit
  visit-eq-ok depth nodes n e = ground arith

  -- What a call of `walk` has established when it returns.
  record Copied (v : Value) (depth nodes : ℕ) (out : Value × ℕ) : Type 0 where
    same : out.0 ≡ listed v
    counted : out.1 ≡ nodes + node_count v
    room : out.1 ≤ limits.max_nodes
    deep : depth + height v ≤ limits.max_depth
    json : json_value v ≡ true

  record CopiedItems (vs : Items) (depth nodes : ℕ) (out : Items × ℕ) : Type 0 where
    same : out.0 ≡ items_listed vs
    counted : out.1 ≡ nodes + items_nodes vs
    room : out.1 ≤ limits.max_nodes
    deep : depth + items_height vs ≤ limits.max_depth + 1
    json : json_items vs ≡ true

  record CopiedFields (m : Fields) (depth nodes : ℕ) (out : Fields × ℕ) : Type 0 where
    same : out.0 ≡ fields_listed m
    counted : out.1 ≡ nodes + fields_nodes m
    room : out.1 ≤ limits.max_nodes
    deep : depth + fields_height m ≤ limits.max_depth + 1
    json : json_fields m ≡ true

  mutual
    unfolding walk node_count height listed is_json

    walk_sound :
        (v : Value) (depth nodes : ℕ) (out : Value × ℕ)
        → walk limits true v depth nodes ≡ ok out
        → Copied v depth nodes out
    walk_sound (str s) depth nodes out e =
        let (n, here, rest) = >>=-eq-ok _ _ e in
        let v = visit-eq-ok depth nodes n here in
        let (short, done) = reject_if-eq-ok (too_long limits true s) _ _ rest in ground arith
    walk_sound (float x) depth nodes out e =
        let (n, here, rest) = >>=-eq-ok _ _ e in
        let v = visit-eq-ok depth nodes n here in
        let (short, done) = reject_if-eq-ok (not (is_finite x)) _ _ rest in ground arith
    walk_sound (list vs) depth nodes out e =
        let (n, here, rest) = >>=-eq-ok _ _ e in
        let v = visit-eq-ok depth nodes n here in
        let (short, inner) =
          reject_if-eq-ok (ltb limits.max_collection_length (item_count vs)) _ _ rest in
        let (copy, copied, done) = >>=-eq-ok _ _ inner in
        let ih = items_sound vs (depth + 1) n copy (omega arith) (omega arith) copied in
        ground arith
    walk_sound (tuple vs) depth nodes out e =
        let (n, here, rest) = >>=-eq-ok _ _ e in
        let v = visit-eq-ok depth nodes n here in
        let (short, inner) =
          reject_if-eq-ok (ltb limits.max_collection_length (item_count vs)) _ _ rest in
        let (copy, copied, done) = >>=-eq-ok _ _ inner in
        let ih = items_sound vs (depth + 1) n copy (omega arith) (omega arith) copied in
        ground arith
    walk_sound (dict m) depth nodes out e =
        let (n, here, rest) = >>=-eq-ok _ _ e in
        let v = visit-eq-ok depth nodes n here in
        let (short, inner) =
          reject_if-eq-ok (ltb limits.max_collection_length (field_count m)) _ _ rest in
        let (copy, copied, done) = >>=-eq-ok _ _ inner in
        let ih = fields_sound m (depth + 1) n copy (omega arith) (omega arith) copied in
        ground arith
    walk_sound (object name id) depth nodes out e =
        absurd (bind-err-ne-ok (visit limits true depth nodes) _ e)
    walk_sound v depth nodes out e =
        let (n, here, done) = >>=-eq-ok _ _ e in
        let v = visit-eq-ok depth nodes n here in ground arith

    items_sound :
        (vs : Items) (depth nodes : ℕ) (out : Items × ℕ)
        → depth ≤ limits.max_depth + 1
        → nodes ≤ limits.max_nodes
        → walk_items limits true vs depth nodes ≡ ok out
        → CopiedItems vs depth nodes out
    items_sound nil depth nodes out deep room e = ground arith
    items_sound (cons v vs) depth nodes out deep room e =
        let (first, here, rest) = >>=-eq-ok _ _ e in
        let (others, there, done) = >>=-eq-ok _ _ rest in
        let a = walk_sound v depth nodes first here in
        let b = items_sound vs depth first.1 others deep a.room there in ground arith

    fields_sound :
        (m : Fields) (depth nodes : ℕ) (out : Fields × ℕ)
        → depth ≤ limits.max_depth + 1
        → nodes ≤ limits.max_nodes
        → walk_fields limits true m depth nodes ≡ ok out
        → CopiedFields m depth nodes out
    fields_sound end depth nodes out deep room e = ground arith
    fields_sound (field (other k) v m) depth nodes out deep room e = cc
    fields_sound (field (text k) v m) depth nodes out deep room e =
        let (short, kept) = reject_if-eq-ok (too_long limits true k) _ _ e in
        let (first, here, rest) = >>=-eq-ok _ _ kept in
        let (others, there, done) = >>=-eq-ok _ _ rest in
        let a = walk_sound v depth nodes first here in
        let b = fields_sound m depth first.1 others deep a.room there in ground arith

  visit-eq :
      (depth nodes : ℕ)
      → nodes + 1 ≤ limits.max_nodes
      → depth ≤ limits.max_depth
      → visit limits true depth nodes ≡ ok (nodes + 1)
  unfolding visit
  visit-eq depth nodes room deep = ground arith

  mutual
    unfolding walk node_count height listed is_json

    walk_complete :
        (v : Value) (depth nodes : ℕ)
        → nodes + node_count v ≤ limits.max_nodes
        → depth + height v ≤ limits.max_depth
        → json_value v ≡ true
        → walk limits true v depth nodes ≡ ok (listed v, nodes + node_count v)
    walk_complete (list vs) depth nodes room deep json =
        rw (visit-eq depth nodes (omega arith) (omega arith))
          (ground (arith, items_complete vs (depth + 1) (nodes + 1)))
    walk_complete (tuple vs) depth nodes room deep json =
        rw (visit-eq depth nodes (omega arith) (omega arith))
          (ground (arith, items_complete vs (depth + 1) (nodes + 1)))
    walk_complete (dict m) depth nodes room deep json =
        rw (visit-eq depth nodes (omega arith) (omega arith))
          (ground (arith, fields_complete m (depth + 1) (nodes + 1)))
    walk_complete (object name id) depth nodes room deep json = cc
    walk_complete v depth nodes room deep json =
        rw (visit-eq depth nodes (omega arith) (omega arith)) (ground arith)

    items_complete :
        (vs : Items) (depth nodes : ℕ)
        → nodes + items_nodes vs ≤ limits.max_nodes
        → depth + items_height vs ≤ limits.max_depth + 1
        → json_items vs ≡ true
        → walk_items limits true vs depth nodes ≡ ok (items_listed vs, nodes + items_nodes vs)
    items_complete nil depth nodes room deep json = ground arith
    items_complete (cons v vs) depth nodes room deep json =
        ground (arith, walk_complete v depth nodes, items_complete vs depth (nodes + node_count v))

    fields_complete :
        (m : Fields) (depth nodes : ℕ)
        → nodes + fields_nodes m ≤ limits.max_nodes
        → depth + fields_height m ≤ limits.max_depth + 1
        → json_fields m ≡ true
        → walk_fields limits true m depth nodes ≡ ok (fields_listed m, nodes + fields_nodes m)
    fields_complete end depth nodes room deep json = ground arith
    fields_complete (field (other k) v m) depth nodes room deep json = cc
    fields_complete (field (text k) v m) depth nodes room deep json =
        ground (arith, walk_complete v depth nodes, fields_complete m depth (nodes + node_count v))

-- The values that fit the limits.
pub record Fits (limits : JsonBoundaryLimits) (v : Value) : Type 0 where
  pub room : node_count v ≤ limits.max_nodes
  pub deep : height v ≤ limits.max_depth
  pub json : json_value limits v ≡ true

-- `bounded_json_copy` returns exactly when the value fits: its nodes and its height are within the
-- limits, every leaf is a JSON scalar with finite numbers, every key is a text, and no text and no
-- collection is over its limit. What it returns is then the value with tuples turned into lists.
pub bounded_json_copy_iff :
    (limits : JsonBoundaryLimits) (v w : Value)
    → (bounded_json_copy limits v ≡ ok w) ↔ (Fits limits v × (w ≡ listed v))
unfolding bounded_json_copy
bounded_json_copy_iff limits v w = (
  λ e.
      let (out, walked, done) = >>=-eq-ok (walk limits true v 0 0) _ e in
      let c = walk_sound limits v 0 0 out walked in
      (record { room = omega arith; deep = omega arith; json = c.json }, ground arith),
  λ (fits, same). rw (walk_complete limits v 0 0 (omega arith) (omega arith) fits.json, same),
)
