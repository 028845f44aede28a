-- ===== src/Policy/Equality.antt =====
-- `_strict_equal` of govengine/policy/runtime: equality that never joins two types.
use gov_engine.Prelude.{Bool, true, false, ◌&&◌, none, some, ◌==◌, eqb}
use gov_engine.Python.Number.{eqb_ℤ, float_eq}
use gov_engine.Python.Value.{
  Value, null, bool, int, float, str, list, tuple, dict, object, Items, nil, cons, Fields, end,
  field, lookup, keys_within,
}

abbrev pub bool_eq : Bool → Bool → Bool
bool_eq true true = true
bool_eq false false = true
bool_eq _ _ = false

unfoldable mutual
  pub strict_equal : Value → Value → Bool
  strict_equal (dict m) (dict n) = keys_within m n && (keys_within n m && fields_equal m n)
  strict_equal (list vs) (list ws) = items_equal vs ws
  strict_equal (tuple vs) (tuple ws) = items_equal vs ws
  strict_equal null null = true
  strict_equal (bool a) (bool b) = bool_eq a b
  strict_equal (int a) (int b) = eqb_ℤ a b
  strict_equal (float a) (float b) = float_eq a b
  strict_equal (str a) (str b) = a == b
  strict_equal (object t a) (object u b) = t == u && eqb a b
  strict_equal _ _ = false

  -- The loop over the keys of the left mapping.
  pub fields_equal : Fields → Fields → Bool
  fields_equal end n = true
  fields_equal (field k v m) n =
      elim (lookup k n) [ none ↦ false | some w ↦ strict_equal v w ] && fields_equal m n

  -- Equal lengths, and equal items in order.
  pub items_equal : Items → Items → Bool
  items_equal nil nil = true
  items_equal (cons v vs) (cons w ws) = strict_equal v w && items_equal vs ws
  items_equal _ _ = false
