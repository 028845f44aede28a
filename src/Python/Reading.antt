-- ===== src/Python/Reading.antt =====
-- The readings of a mapping's entries that the `from_mapping` methods share.
use gov_engine.Prelude.{String, List, [], ◌∷◌, ◌==◌, if◌then◌else◌}
use gov_engine.Python.Text.{strip}
use gov_engine.Python.Value.{
  Value, str, list, tuple, Items, nil, cons, Fields, get_or_null, or_value, Runtime, text_of,
}

module _ (py : Runtime) where
  -- `str(raw.get(key) or '').strip()`
  unfoldable pub read_text : String → Fields → String
  read_text key raw = strip (text_of py (or_value (get_or_null key raw) (str "")))

  -- `str(raw.get(key) or raw.get(alias) or '').strip()`
  unfoldable pub read_text_alias : String → String → Fields → String
  read_text_alias key alias raw =
      strip
        (text_of py (or_value (or_value (get_or_null key raw) (get_or_null alias raw)) (str "")))

  -- `str(raw.get(key) or default).strip()`
  unfoldable pub read_text_or : String → String → Fields → String
  read_text_or key default raw = strip (text_of py (or_value (get_or_null key raw) (str default)))

  -- `tuple(str(value).strip() for value in values if str(value).strip())`
  unfoldable pub stripped_texts : Items → List String
  stripped_texts nil = []
  stripped_texts (cons v vs) =
      let rest = stripped_texts vs in
      let s = strip (text_of py v) in if s == "" then rest else s ∷ rest

  -- `_tuple`: a text is one entry, and what is no list or tuple has none.
  unfoldable pub text_entries : Value → List String
  text_entries (str s) = s ∷ []
  text_entries (list vs) = stripped_texts vs
  text_entries (tuple vs) = stripped_texts vs
  text_entries _ = []
