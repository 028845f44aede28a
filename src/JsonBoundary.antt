-- ===== src/JsonBoundary.antt =====
-- govengine/_json_boundary.py: `bounded_json_copy`, which copies a value that fits the limits of the
-- JSON boundary and rejects any other. `nodes` is the counter that the nested function updates.
pub mod Shape
pub mod Laws
pub mod Copies
mod Tests
use Prim.Native.String.{count}
use gov_engine.Prelude.{ℕ, ◌+◌, String, Bool, true, not, [], ◌∷◌, ltb, if◌then◌else◌}
use gov_engine.Python.Number.{is_finite}
use gov_engine.Python.Value.{
  Key, text, other, Value, null, bool, int, float, str, list, tuple, dict, object, Items, nil, cons,
  Fields, end, field, item_count, field_count,
}
use gov_engine.Errors.{Result, ok, err, gov_api, fail, reject_if, ◌>>=◌, ◌>>◌}

pub record JsonBoundaryLimits : Type 0 where
  pub max_depth : ℕ
  pub max_nodes : ℕ
  pub max_collection_length : ℕ
  pub max_string_length : ℕ

abbrev pub default_json_boundary_limits : JsonBoundaryLimits
default_json_boundary_limits = record {
  max_depth = 32;
  max_nodes = 10000;
  max_collection_length = 1000;
  max_string_length = 65536;
}

module _ (limits : JsonBoundaryLimits) (allow_tuples : Bool) where
  -- The counter and the two tests at the head of `walk`.
  unfoldable pub visit : ℕ → ℕ → Result ℕ
  visit depth nodes =
      if ltb limits.max_nodes (nodes + 1)
      then fail "json_boundary_max_nodes"
      else if ltb limits.max_depth depth
      then fail "json_boundary_max_depth"
      else ok (nodes + 1)

  abbrev pub too_long : String → Bool
  too_long s = ltb limits.max_string_length (count s)

  abbrev unsupported : String → Result (Value × ℕ)
  unsupported name = err (gov_api "json_boundary_unsupported_type" (("type", name) ∷ []))

  unfoldable mutual
    pub walk : Value → ℕ → ℕ → Result (Value × ℕ)
    walk null depth nodes = do n ← visit depth nodes; ok (null, n)
    walk (bool b) depth nodes = do n ← visit depth nodes; ok (bool b, n)
    walk (str s) depth nodes = do
      n ← visit depth nodes
      reject_if (too_long s) "json_boundary_max_string_length"
      ok (str s, n)
    walk (int z) depth nodes = do n ← visit depth nodes; ok (int z, n)
    walk (float x) depth nodes = do
      n ← visit depth nodes
      reject_if (not (is_finite x)) "json_boundary_non_finite_number"
      ok (float x, n)
    walk (dict m) depth nodes = do
      n ← visit depth nodes
      reject_if (ltb limits.max_collection_length (field_count m))
          "json_boundary_max_collection_length"
      (copy, n') ← walk_fields m (depth + 1) n
      ok (dict copy, n')
    walk (list vs) depth nodes = do
      n ← visit depth nodes
      reject_if (ltb limits.max_collection_length (item_count vs))
          "json_boundary_max_collection_length"
      (copy, n') ← walk_items vs (depth + 1) n
      ok (list copy, n')
    walk (tuple vs) depth nodes = do
      n ← visit depth nodes
      if allow_tuples
          then (do
            reject_if (ltb limits.max_collection_length (item_count vs))
                "json_boundary_max_collection_length"
            (copy, n') ← walk_items vs (depth + 1) n
            ok (list copy, n'))
          else unsupported "tuple"
    walk (object name id) depth nodes = do n ← visit depth nodes; unsupported name

    pub walk_items : Items → ℕ → ℕ → Result (Items × ℕ)
    walk_items nil depth nodes = ok (nil, nodes)
    walk_items (cons v vs) depth nodes = do
      (v', n) ← walk v depth nodes
      (vs', n') ← walk_items vs depth n
      ok (cons v' vs', n')

    pub walk_fields : Fields → ℕ → ℕ → Result (Fields × ℕ)
    walk_fields end depth nodes = ok (end, nodes)
    walk_fields (field (other k) v m) depth nodes = fail "json_boundary_non_string_key"
    walk_fields (field (text k) v m) depth nodes = do
      reject_if (too_long k) "json_boundary_max_string_length"
      (v', n) ← walk v depth nodes
      (m', n') ← walk_fields m depth n
      ok (field (text k) v' m', n')

-- `bounded_json_copy(value, limits=limits)`
unfoldable pub bounded_json_copy : JsonBoundaryLimits → Value → Result Value
bounded_json_copy limits value = do (copy, nodes) ← walk limits true value 0 0; ok copy
