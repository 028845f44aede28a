-- ===== src/Samples.antt =====
-- Concrete data that the tests share: a runtime for texts in lower case, a request, rules and packs.
use gov_engine.Prelude.{String, List, [], ◌∷◌, some}
use gov_engine.Python.Number.{float_zero}
use gov_engine.Python.Value.{str, end, dict_of, Runtime, type_name}
use gov_engine.Policy.Model.{PolicyRequest}
use gov_engine.Policy.Rule.{PolicyCondition, PolicyRule, CompiledPolicyPack}

abbrev pub plain_runtime : Runtime
plain_runtime = record {
  lower = λ s. s;
  casefold = λ s. s;
  show = type_name;
  float_of_int = λ z. some float_zero;
}

abbrev pub read_request : PolicyRequest
read_request = record {
  request_id = "request-1";
  subject_ref = "governance:op:step:attempt";
  schema_version = "v0.1";
  principal = end;
  action = dict_of (("mode", str "read") ∷ []);
  resource = end;
  context = end;
  evidence_refs = [];
  metadata = end;
}

abbrev pub mode_is : String → PolicyCondition
mode_is mode = record { path = "action.mode"; operator = "eq"; value = str mode }

abbrev pub rule_of : String → String → PolicyCondition → PolicyRule
rule_of rule_id effect condition = record {
  rule_id = rule_id;
  effect = effect;
  conditions = condition ∷ [];
  priority = 100;
  reason_code = rule_id;
  risk_class = "low";
  risk_score = float_zero;
  obligations = [];
  constraints = [];
}

abbrev pub pack_of : List PolicyRule → CompiledPolicyPack
pack_of rules = record {
  policy_id = "policy-1";
  version = "1.0.0";
  schema_version = "v1";
  rules = rules;
  metadata = end;
  issuer_ref = "organization:example";
  policy_epoch = 1;
  not_before = "2026-01-01T00:00:00Z";
  expires_at = "2099-01-01T00:00:00Z";
  supersedes = [];
}

abbrev pub allow_read : PolicyRule
allow_read = rule_of "allow_read" "allow" (mode_is "read")

abbrev pub deny_read : PolicyRule
deny_read = rule_of "deny_read" "deny" (mode_is "read")
