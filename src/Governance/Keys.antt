-- ===== src/Governance/Keys.antt =====
-- govengine/_governance_validation.py: `find_bounded_governance_key` and the scan of governance inputs.
pub mod Laws
use gov_engine.Prelude.{
  ℕ, zero, suc, ◌+◌, String, Bool, Option, none, some, List, [], ◌∷◌, ◌++◌, ◌==◌, ltb,
  if◌then◌else◌,
}
use gov_engine.Python.Text.{strip, in_texts}
use gov_engine.Python.Value.{
  Key, key_text, Value, list, tuple, dict, Items, nil, cons, Fields, end, field, item_count,
  field_count, Runtime,
}
use gov_engine.Errors.{Result, ok, fail, fail_with, reject_if, ◌>>=◌, ◌>>◌}
use gov_engine.JsonBoundary.{default_json_boundary_limits}

-- An entry of the traversal's stack: a value and its depth.
abbrev pub Entry : Type 0
Entry = Value × ℕ

-- The children of a list or a tuple, and of a mapping, in order.
unfoldable pub item_entries : ℕ → Items → List Entry
item_entries depth nil = []
item_entries depth (cons v vs) = (v, depth) ∷ item_entries depth vs

unfoldable pub field_entries : ℕ → Fields → List Entry
field_entries depth end = []
field_entries depth (field k v m) = (v, depth) ∷ field_entries depth m

module _ (py : Runtime) (forbidden_keys : List String) where
  -- `str(key).strip().casefold()`
  abbrev pub folded : Key → String
  folded k = py.casefold (strip (key_text k))

  -- `frozenset(key.strip().casefold() for key in forbidden_keys)`
  abbrev pub folded_all : List String → List String
  folded_all [] = []
  folded_all (s ∷ ss) = py.casefold (strip s) ∷ folded_all ss

  abbrev pub is_forbidden_key : Key → Bool
  is_forbidden_key k = in_texts (folded k) (folded_all forbidden_keys)

  -- The loop over a mapping's keys: the first forbidden one, if there is one.
  unfoldable pub first_forbidden : Fields → Option String
  first_forbidden end = none
  first_forbidden (field k v m) =
      let rest = first_forbidden m in if is_forbidden_key k then some (folded k) else rest

  -- The children that one popped value pushes, or the key that ends the search.
  unfoldable pub inspect : Value → ℕ → Result (Option String × List Entry)
  inspect (dict m) depth = do
    reject_if (ltb default_json_boundary_limits.max_collection_length (field_count m))
        "json_boundary_max_collection_length"
    ok (first_forbidden m, field_entries (depth + 1) m)
  inspect (list vs) depth = do
    reject_if (ltb default_json_boundary_limits.max_collection_length (item_count vs))
        "json_boundary_max_collection_length"
    ok (none, item_entries (depth + 1) vs)
  inspect (tuple vs) depth = do
    reject_if (ltb default_json_boundary_limits.max_collection_length (item_count vs))
        "json_boundary_max_collection_length"
    ok (none, item_entries (depth + 1) vs)
  inspect _ depth = ok (none, [])

  -- `while stack`, with its top first. The first number is how many more nodes may be popped.
  unfoldable pub scan : ℕ → List Entry → Result String
  scan room [] = ok ""
  scan zero (e ∷ stack) = fail "json_boundary_max_nodes"
  scan (suc room) ((v, depth) ∷ stack) = do
    reject_if (ltb default_json_boundary_limits.max_depth depth) "json_boundary_max_depth"
    (found, children) ← inspect v depth
    elim found [ some name ↦ ok name | none ↦ scan room (children ++ stack) ]

  -- `find_bounded_governance_key`
  unfoldable pub find_bounded_governance_key : Value → Result String
  find_bounded_governance_key value = scan default_json_boundary_limits.max_nodes ((value, 0) ∷ [])

abbrev pub forbidden_governance_input_keys : List String
forbidden_governance_input_keys =
    "access_key" ∷ "api_key" ∷ "authorization" ∷ "cookie" ∷ "credential" ∷ "password"
    ∷ "private_key" ∷ "raw_output" ∷ "raw_target" ∷ "secret" ∷ "stderr" ∷ "stdout" ∷ "target_url"
    ∷ "token" ∷ []

-- `reject_forbidden_governance_input`
unfoldable pub reject_forbidden_governance_input : Runtime → Value → Result (Unit {0})
reject_forbidden_governance_input py value = do
  forbidden ← find_bounded_governance_key py forbidden_governance_input_keys value
  if forbidden == "" then ok tt else fail_with "forbidden_governance_input" forbidden
