-- ===== src/Policy/Model/Laws.antt =====
-- What validation returns, and what it has established.
use gov_engine.Prelude.{◌≡◌}
use gov_engine.Python.Value.{Runtime}
use gov_engine.Errors.{ok, >>=-eq-ok}
use gov_engine.Policy.Forbidden.{reject_forbidden_policy_metadata}
use gov_engine.Policy.Model.{PolicyVerdict, check_verdict, validate_policy_verdict}

module _ (py : Runtime) where
  -- Validation returns the verdict that it was given.
  pub validate_policy_verdict-eq-ok :
      (item v : PolicyVerdict)
      → validate_policy_verdict py item ≡ ok v
      → (item ≡ v)
        × (check_verdict item ≡ ok tt)
        × (reject_forbidden_policy_metadata py item.metadata ≡ ok tt)
  unfolding validate_policy_verdict
  validate_policy_verdict-eq-ok item v e =
      let (_, checked, rest) = >>=-eq-ok (check_verdict item) _ e in
      let (_, clean, done) = >>=-eq-ok (reject_forbidden_policy_metadata py item.metadata) _ rest in
      (cc, checked, clean)
