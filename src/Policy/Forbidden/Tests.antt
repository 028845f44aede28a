-- ===== src/Policy/Forbidden/Tests.antt =====
-- The search for forbidden keys at concrete metadata.
use gov_engine.Prelude.{◌≡◌, ◌↔◌, refl, false, [], ◌∷◌}
use gov_engine.Python.Text.{strip}
use gov_engine.Python.Value.{Key, str, list, dict, Fields, dict_of, items_of}
use gov_engine.Errors.{Result, ok, fail_with}
use gov_engine.Policy.Forbidden.{
  is_forbidden, normal_key, find_forbidden_key, reject_forbidden_policy_metadata,
}
use gov_engine.Policy.Forbidden.Laws.{KeyIn, reject_forbidden_policy_metadata_iff}
use gov_engine.Samples.{plain_runtime}

run : Fields → Result (Unit {0})
unfolding reject_forbidden_policy_metadata find_forbidden_key is_forbidden strip
run m = reject_forbidden_policy_metadata plain_runtime m

abbrev nested : Fields
nested = dict_of (("notes", list (items_of (dict (dict_of ((" token ", str "x") ∷ [])) ∷ []))) ∷ [])

nested_is_rejected :
    reject_forbidden_policy_metadata plain_runtime nested
    ≡ fail_with "forbidden_policy_metadata" "token"
unfolding run
nested_is_rejected = refl

reject_forbidden_policy_metadata_iff_example :
    (reject_forbidden_policy_metadata plain_runtime nested ≡ ok tt)
    ↔ ((k : Key) → KeyIn k (dict nested) → is_forbidden (normal_key plain_runtime k) ≡ false)
reject_forbidden_policy_metadata_iff_example =
    reject_forbidden_policy_metadata_iff plain_runtime nested
