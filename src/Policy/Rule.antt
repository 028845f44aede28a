-- ===== src/Policy/Rule.antt =====
-- The records of govengine/policy/compiler: conditions, rules and compiled packs.
use gov_engine.Prelude.{ℕ, String, List}
use gov_engine.Python.Number.{Float}
use gov_engine.Python.Value.{Value, Fields}
use gov_engine.Policy.Model.{PolicyObligation, PolicyConstraint}

pub record PolicyCondition : Type 0 where
  pub path : String
  pub operator : String
  pub value : Value

-- `priority` is not negative: no rule is made with another.
pub record PolicyRule : Type 0 where
  pub rule_id : String
  pub effect : String
  pub conditions : List PolicyCondition
  pub priority : ℕ
  pub reason_code : String
  pub risk_class : String
  pub risk_score : Float
  pub obligations : List PolicyObligation
  pub constraints : List PolicyConstraint

pub record CompiledPolicyPack : Type 0 where
  pub policy_id : String
  pub version : String
  pub schema_version : String
  pub rules : List PolicyRule
  pub metadata : Fields
  pub issuer_ref : String
  pub policy_epoch : ℕ
  pub not_before : String
  pub expires_at : String
  pub supersedes : List String
