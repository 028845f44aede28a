-- ===== src/JsonBoundary/Copies.antt =====
-- govengine/_json_boundary.py: lemmas on the copies that `bounded_json_copy` makes.
use gov_engine.Prelude.{ℕ, ◌≡◌, refl, sym, ap}
use gov_engine.Python.Value.{
  text, other, Value, list, tuple, dict, Items, nil, cons, Fields, end, field, item_count,
  field_count,
}
use gov_engine.Errors.{ok}
use gov_engine.JsonBoundary.{JsonBoundaryLimits, bounded_json_copy}
use gov_engine.JsonBoundary.Shape.{
  node_count, items_nodes, fields_nodes, height, items_height, fields_height, listed, items_listed,
  fields_listed, is_json, items_json, fields_json,
}
use gov_engine.JsonBoundary.Laws.{Fits, bounded_json_copy_iff}

item_count-items_listed : (vs : Items) → item_count (items_listed vs) ≡ item_count vs
unfolding item_count listed
item_count-items_listed nil = refl
item_count-items_listed (cons v vs) = rw (item_count-items_listed vs)

field_count-fields_listed : (m : Fields) → field_count (fields_listed m) ≡ field_count m
unfolding field_count listed
field_count-fields_listed end = refl
field_count-fields_listed (field k v m) = rw (field_count-fields_listed m)

mutual
  unfolding listed node_count

  node_count-listed : (v : Value) → node_count (listed v) ≡ node_count v
  node_count-listed (list vs) = rw (items_nodes-listed vs)
  node_count-listed (tuple vs) = rw (items_nodes-listed vs)
  node_count-listed (dict m) = rw (fields_nodes-listed m)
  node_count-listed v = refl

  items_nodes-listed : (vs : Items) → items_nodes (items_listed vs) ≡ items_nodes vs
  items_nodes-listed nil = refl
  items_nodes-listed (cons v vs) = rw (node_count-listed v, items_nodes-listed vs)

  fields_nodes-listed : (m : Fields) → fields_nodes (fields_listed m) ≡ fields_nodes m
  fields_nodes-listed end = refl
  fields_nodes-listed (field k v m) = rw (node_count-listed v, fields_nodes-listed m)

mutual
  unfolding listed height

  height-listed : (v : Value) → height (listed v) ≡ height v
  height-listed (list vs) = items_height-listed vs
  height-listed (tuple vs) = items_height-listed vs
  height-listed (dict m) = fields_height-listed m
  height-listed v = refl

  items_height-listed : (vs : Items) → items_height (items_listed vs) ≡ items_height vs
  items_height-listed nil = refl
  items_height-listed (cons v vs) = rw (height-listed v, items_height-listed vs)

  fields_height-listed : (m : Fields) → fields_height (fields_listed m) ≡ fields_height m
  fields_height-listed end = refl
  fields_height-listed (field k v m) = rw (height-listed v, fields_height-listed m)

mutual
  unfolding listed

  listed_idem : (v : Value) → listed (listed v) ≡ listed v
  listed_idem (list vs) = ap list (items_listed_idem vs)
  listed_idem (tuple vs) = ap list (items_listed_idem vs)
  listed_idem (dict m) = ap dict (fields_listed_idem m)
  listed_idem v = refl

  items_listed_idem : (vs : Items) → items_listed (items_listed vs) ≡ items_listed vs
  items_listed_idem nil = refl
  items_listed_idem (cons v vs) = rw (listed_idem v, items_listed_idem vs)

  fields_listed_idem : (m : Fields) → fields_listed (fields_listed m) ≡ fields_listed m
  fields_listed_idem end = refl
  fields_listed_idem (field k v m) = rw (listed_idem v, fields_listed_idem m)

module _ (length text_length : ℕ) where
  mutual
    unfolding listed is_json

    is_json-listed :
        (v : Value) → is_json length text_length (listed v) ≡ is_json length text_length v
    is_json-listed (list vs) = rw (item_count-items_listed vs, items_json-listed vs)
    is_json-listed (tuple vs) = rw (item_count-items_listed vs, items_json-listed vs)
    is_json-listed (dict m) = rw (field_count-fields_listed m, fields_json-listed m)
    is_json-listed v = refl

    items_json-listed :
        (vs : Items)
        → items_json length text_length (items_listed vs) ≡ items_json length text_length vs
    items_json-listed nil = refl
    items_json-listed (cons v vs) = rw (is_json-listed v, items_json-listed vs)

    fields_json-listed :
        (m : Fields)
        → fields_json length text_length (fields_listed m) ≡ fields_json length text_length m
    fields_json-listed end = refl
    fields_json-listed (field (other k) v m) = refl
    fields_json-listed (field (text k) v m) = rw (is_json-listed v, fields_json-listed m)

Fits-listed : (limits : JsonBoundaryLimits) (v : Value) → Fits limits v → Fits limits (listed v)
Fits-listed limits v h = record {
  room = rw (node_count-listed v) h.room;
  deep = rw (height-listed v) h.deep;
  json = rw (is_json-listed limits.max_collection_length limits.max_string_length v) h.json;
}

-- Copying a copy returns it unchanged, under the same limits.
pub bounded_json_copy_idem :
    (limits : JsonBoundaryLimits) (v w : Value)
    → bounded_json_copy limits v ≡ ok w
    → bounded_json_copy limits w ≡ ok w
bounded_json_copy_idem limits v w e =
    let (fits, same) = (bounded_json_copy_iff limits v w).0 e in
    (bounded_json_copy_iff limits w w).1
      (rw same (Fits-listed limits v fits), rw same (sym (listed_idem v)))
