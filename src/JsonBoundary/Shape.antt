-- ===== src/JsonBoundary/Shape.antt =====
-- An independent description of what the JSON boundary accepts: the number of nodes of a value, its
-- height, what its leaves and keys may be, and the value with every tuple read as a list.
use Prim.Native.Nat.{max}
use Prim.Native.String.{count}
use gov_engine.Prelude.{ℕ, ◌+◌, Bool, true, false, ◌&&◌, leb}
use gov_engine.Python.Number.{is_finite}
use gov_engine.Python.Value.{
  text, other, Value, null, bool, int, float, str, list, tuple, dict, object, Items, nil, cons,
  Fields, end, field, item_count, field_count,
}

unfoldable mutual
  pub node_count : Value → ℕ
  node_count null = 1
  node_count (bool b) = 1
  node_count (int z) = 1
  node_count (float x) = 1
  node_count (str s) = 1
  node_count (list vs) = 1 + items_nodes vs
  node_count (tuple vs) = 1 + items_nodes vs
  node_count (dict m) = 1 + fields_nodes m
  node_count (object t n) = 1

  pub items_nodes : Items → ℕ
  items_nodes nil = 0
  items_nodes (cons v vs) = node_count v + items_nodes vs

  pub fields_nodes : Fields → ℕ
  fields_nodes end = 0
  fields_nodes (field k v m) = node_count v + fields_nodes m

-- How far below a value its deepest part lies.
unfoldable mutual
  pub height : Value → ℕ
  height null = 0
  height (bool b) = 0
  height (int z) = 0
  height (float x) = 0
  height (str s) = 0
  height (list vs) = items_height vs
  height (tuple vs) = items_height vs
  height (dict m) = fields_height m
  height (object t n) = 0

  pub items_height : Items → ℕ
  items_height nil = 0
  items_height (cons v vs) = max (1 + height v) (items_height vs)

  pub fields_height : Fields → ℕ
  fields_height end = 0
  fields_height (field k v m) = max (1 + height v) (fields_height m)

unfoldable mutual
  pub listed : Value → Value
  listed null = null
  listed (bool b) = bool b
  listed (int z) = int z
  listed (float x) = float x
  listed (str s) = str s
  listed (list vs) = list (items_listed vs)
  listed (tuple vs) = list (items_listed vs)
  listed (dict m) = dict (fields_listed m)
  listed (object t n) = object t n

  pub items_listed : Items → Items
  items_listed nil = nil
  items_listed (cons v vs) = cons (listed v) (items_listed vs)

  pub fields_listed : Fields → Fields
  fields_listed end = end
  fields_listed (field k v m) = field k (listed v) (fields_listed m)

module _ (max_length max_text : ℕ) where
  -- JSON leaves, text keys, and no text or collection over its limit.
  unfoldable mutual
    pub is_json : Value → Bool
    is_json null = true
    is_json (bool b) = true
    is_json (int z) = true
    is_json (float x) = is_finite x
    is_json (str s) = leb (count s) max_text
    is_json (list vs) = leb (item_count vs) max_length && items_json vs
    is_json (tuple vs) = leb (item_count vs) max_length && items_json vs
    is_json (dict m) = leb (field_count m) max_length && fields_json m
    is_json (object t n) = false

    pub items_json : Items → Bool
    items_json nil = true
    items_json (cons v vs) = is_json v && items_json vs

    pub fields_json : Fields → Bool
    fields_json end = true
    fields_json (field (other k) v m) = false
    fields_json (field (text k) v m) = leb (count k) max_text && is_json v && fields_json m
