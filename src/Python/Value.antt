-- ===== src/Python/Value.antt =====
-- The values that Python code can be handed, with truth, equality by type and dictionary lookup.
use gov_engine.Prelude.{
  ℕ, String, Bool, true, false, not, ◌&&◌, Option, none, some, List, [], ◌∷◌, ◌==◌, ◌+◌,
  if◌then◌else◌,
}
use gov_engine.Python.Number.{ℤ, pos, Float, finite, eqb_ℤ, float_eq}

-- A key of a mapping: a text, or another hashable value, named by what `str` makes of it.
pub data Key : Type 0 where
  text other : String → Key

mutual
  -- `object` is a value of any other type, with the type's name and the object's identity.
  pub data Value : Type 0 where
    null : Value
    bool : Bool → Value
    int : ℤ → Value
    float : Float → Value
    str : String → Value
    list tuple : Items → Value
    dict : Fields → Value
    object : String → ℕ → Value

  pub data Items : Type 0 where
    nil : Items
    cons : Value → Items → Items

  pub data Fields : Type 0 where
    end : Fields
    field : Key → Value → Fields → Fields

abbrev pub key_text : Key → String
key_text (text s) = s
key_text (other s) = s

abbrev pub key_eq : Key → Key → Bool
key_eq (text a) (text b) = a == b
key_eq (other a) (other b) = a == b
key_eq _ _ = false

-- `m.get(key)`, with `none` where the key is missing.
unfoldable pub lookup : Key → Fields → Option Value
lookup k end = none
lookup k (field j v m) = if key_eq j k then some v else lookup k m

abbrev pub get : String → Fields → Option Value
get k m = lookup (text k) m

-- `m.get(key)`, with `None` where the key is missing.
abbrev pub get_or_null : String → Fields → Value
get_or_null k m = elim (get k m) [ none ↦ null | some v ↦ v ]

abbrev pub has_key : Key → Fields → Bool
has_key k m = elim (lookup k m) [ none ↦ false | some v ↦ true ]

abbrev pub is_nil : Items → Bool
is_nil nil = true
is_nil (cons v vs) = false

abbrev pub is_end : Fields → Bool
is_end end = true
is_end (field k v m) = false

-- `len` of a list, a tuple and a mapping.
unfoldable pub item_count : Items → ℕ
item_count nil = 0
item_count (cons v vs) = 1 + item_count vs

unfoldable pub field_count : Fields → ℕ
field_count end = 0
field_count (field k v m) = 1 + field_count m

-- `bool(v)`
abbrev pub truthy : Value → Bool
truthy null = false
truthy (bool b) = b
truthy (int z) = not (eqb_ℤ z (pos 0))
truthy (float x) = not (float_eq x (finite (pos 0)))
truthy (str s) = not (s == "")
truthy (list vs) = not (is_nil vs)
truthy (tuple vs) = not (is_nil vs)
truthy (dict m) = not (is_end m)
truthy (object t n) = true

-- `a or b`
abbrev pub or_value : Value → Value → Value
or_value a b = if truthy a then a else b

abbrev pub items : Items → List Value
items nil = []
items (cons v vs) = v ∷ items vs

abbrev pub fields : Fields → List (Key × Value)
fields end = []
fields (field k v m) = (k, v) ∷ fields m

-- Every key of the first mapping is one of the second.
unfoldable pub keys_within : Fields → Fields → Bool
keys_within end n = true
keys_within (field k v m) n = has_key k n && keys_within m n

abbrev pub type_name : Value → String
type_name null = "NoneType"
type_name (bool b) = "bool"
type_name (int z) = "int"
type_name (float x) = "float"
type_name (str s) = "str"
type_name (list vs) = "list"
type_name (tuple vs) = "tuple"
type_name (dict m) = "dict"
type_name (object t n) = t

-- What the source takes of Python's runtime and this development does not define: the case
-- mappings of Unicode, `str` of a value that is no text, and `float` of an integer, which rounds and
-- is `none` where Python raises `OverflowError`.
pub record Runtime : Type 0 where
  pub lower : String → String
  pub casefold : String → String
  pub show : Value → String
  pub float_of_int : ℤ → Option Float

-- `str(v)`
abbrev pub text_of : Runtime → Value → String
text_of py (str s) = s
text_of py v = py.show v

-- Literals: `{'k': v, ...}`, and a list of texts.
abbrev pub dict_of : List (String × Value) → Fields
dict_of [] = end
dict_of ((k, v) ∷ m) = field (text k) v (dict_of m)

abbrev pub items_of : List Value → Items
items_of [] = nil
items_of (v ∷ vs) = cons v (items_of vs)

abbrev pub text_items : List String → Items
text_items [] = nil
text_items (s ∷ ss) = cons (str s) (text_items ss)
