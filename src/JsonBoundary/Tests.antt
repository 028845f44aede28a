-- ===== src/JsonBoundary/Tests.antt =====
-- Runs of `bounded_json_copy`, and its theorems at concrete values.
use gov_engine.Prelude.{◌≡◌, ◌↔◌, refl, true, [], ◌∷◌}
use gov_engine.Python.Value.{
  Value, bool, str, list, tuple, dict, field_count, item_count, dict_of, items_of,
}
use gov_engine.Errors.{Result, ok, fail}
use gov_engine.JsonBoundary.{
  JsonBoundaryLimits, default_json_boundary_limits, visit, walk, bounded_json_copy,
}
use gov_engine.JsonBoundary.Shape.{listed}
use gov_engine.JsonBoundary.Laws.{Fits, bounded_json_copy_iff}
use gov_engine.JsonBoundary.Copies.{bounded_json_copy_idem}

run : JsonBoundaryLimits → Value → Result Value
unfolding bounded_json_copy walk visit field_count item_count
run limits v = bounded_json_copy limits v

abbrev given : Value
given = dict (dict_of (("tags", tuple (items_of (str "a" ∷ bool true ∷ []))) ∷ []))

abbrev copied : Value
copied = dict (dict_of (("tags", list (items_of (str "a" ∷ bool true ∷ []))) ∷ []))

abbrev one_node : JsonBoundaryLimits
one_node = record default_json_boundary_limits { max_nodes = 1 }

too_many_nodes : bounded_json_copy one_node given ≡ fail "json_boundary_max_nodes"
unfolding run
too_many_nodes = refl

bounded_json_copy_iff_example :
    (bounded_json_copy default_json_boundary_limits given ≡ ok copied)
    ↔ (Fits default_json_boundary_limits given × (copied ≡ listed given))
bounded_json_copy_iff_example = bounded_json_copy_iff default_json_boundary_limits given copied

bounded_json_copy_idem_example : bounded_json_copy default_json_boundary_limits copied ≡ ok copied
unfolding run
bounded_json_copy_idem_example =
    bounded_json_copy_idem default_json_boundary_limits given copied refl
