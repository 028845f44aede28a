-- ===== src/Policy/Model/Parse.antt =====
-- The `from_mapping` methods of govengine/policy/model.
use gov_engine.Prelude.{String, List, [], ◌∷◌, none, some, ◌==◌, if◌then◌else◌}
use gov_engine.Python.Number.{Float, float_zero, is_finite}
use gov_engine.Python.Text.{strip}
use gov_engine.Python.Value.{
  Value, null, int, float, str, list, tuple, dict, Items, nil, cons, Fields, end, get, get_or_null,
  or_value, Runtime, text_of,
}
use gov_engine.Python.Reading.{read_text, read_text_alias, read_text_or, text_entries}
use gov_engine.Errors.{Result, ok, err, raised, fail, reject_if, require_mapping, ◌>>=◌, ◌>>◌}
use gov_engine.JsonBoundary.{default_json_boundary_limits, bounded_json_copy}
use gov_engine.Policy.Forbidden.{reject_forbidden_policy_metadata}
use gov_engine.Policy.Model.{
  PolicyRequest, PolicyObligation, PolicyConstraint, PolicyVerdict, policy_request_schema_version,
  policy_verdict_schema_version, validate_policy_request, validate_policy_verdict,
}

-- A copy of a mapping is a mapping.
abbrev pub mapping_of : Value → Fields
mapping_of (dict m) = m
mapping_of _ = end

-- `_safe_mapping`
unfoldable pub safe_mapping : Value → String → Result Fields
safe_mapping null reason = ok end
safe_mapping value reason = do
  raw ← require_mapping value reason
  copy ← bounded_json_copy default_json_boundary_limits (dict raw)
  ok (mapping_of copy)

-- `_json_safe`
abbrev pub json_safe : Value → Result Value
json_safe = bounded_json_copy default_json_boundary_limits

module _ (py : Runtime) where
  -- The finiteness test of `_risk_score`.
  abbrev pub finite_score : Float → Result Float
  finite_score x = if is_finite x then ok x else fail "invalid_policy_risk_score"

  -- `_risk_score`
  unfoldable pub risk_score : Value → Result Float
  risk_score (int z) = elim (py.float_of_int z) [
    | none ↦ err (raised "OverflowError")
    | some x ↦ finite_score x
  ]
  risk_score (float x) = finite_score x
  risk_score _ = fail "invalid_policy_risk_score"

  -- `PolicyRequest.from_mapping`
  unfoldable pub request_from_mapping : Value → Result PolicyRequest
  request_from_mapping value = do
    raw ← require_mapping value "invalid_policy_request"
    let request_id = read_text_alias py "request_id" "id" raw
    reject_if (request_id == "") "missing_policy_request_id"
    let subject_ref = read_text py "subject_ref" raw
    reject_if (subject_ref == "") "missing_policy_request_subject_ref"
    principal ← safe_mapping (get_or_null "principal" raw) "invalid_policy_request_principal"
    action ← safe_mapping (get_or_null "action" raw) "invalid_policy_request_action"
    resource ← safe_mapping (get_or_null "resource" raw) "invalid_policy_request_resource"
    context ← safe_mapping (get_or_null "context" raw) "invalid_policy_request_context"
    metadata ← safe_mapping (get_or_null "metadata" raw) "invalid_policy_request_metadata"
    validate_policy_request py (record {
      request_id = request_id;
      subject_ref = subject_ref;
      schema_version = read_text_or py "schema_version" policy_request_schema_version raw;
      principal = principal;
      action = action;
      resource = resource;
      context = context;
      evidence_refs = text_entries py (
          or_value (or_value (get_or_null "evidence_refs" raw) (get_or_null "evidence" raw))
            (tuple nil));
      metadata = metadata;
    })

  -- `PolicyObligation.from_mapping`
  unfoldable pub obligation_from_mapping : Value → Result PolicyObligation
  obligation_from_mapping value = do
    raw ← require_mapping value "invalid_policy_obligation"
    let obligation_id = read_text_alias py "obligation_id" "id" raw
    let kind = read_text_alias py "kind" "type" raw
    reject_if (obligation_id == "") "missing_policy_obligation_id"
    reject_if (kind == "") "missing_policy_obligation_kind"
    metadata ← safe_mapping (get_or_null "metadata" raw) "invalid_policy_obligation_metadata"
    reject_forbidden_policy_metadata py metadata
    ok (record {
      obligation_id = obligation_id;
      kind = kind;
      description = read_text py "description" raw;
      metadata = metadata;
    })

  -- `PolicyConstraint.from_mapping`
  unfoldable pub constraint_from_mapping : Value → Result PolicyConstraint
  constraint_from_mapping value = do
    raw ← require_mapping value "invalid_policy_constraint"
    let constraint_id = read_text_alias py "constraint_id" "id" raw
    let kind = read_text_alias py "kind" "type" raw
    reject_if (constraint_id == "") "missing_policy_constraint_id"
    reject_if (kind == "") "missing_policy_constraint_kind"
    limit ← json_safe (get_or_null "value" raw)
    metadata ← safe_mapping (get_or_null "metadata" raw) "invalid_policy_constraint_metadata"
    reject_forbidden_policy_metadata py metadata
    ok (record { constraint_id = constraint_id; kind = kind; value = limit; metadata = metadata })

  -- `tuple(PolicyObligation.from_mapping(value) for value in values)`
  unfoldable pub obligation_items : Items → Result (List PolicyObligation)
  obligation_items nil = ok []
  obligation_items (cons v vs) = do
    o ← obligation_from_mapping v
    os ← obligation_items vs
    ok (o ∷ os)

  unfoldable pub constraint_items : Items → Result (List PolicyConstraint)
  constraint_items nil = ok []
  constraint_items (cons v vs) = do
    c ← constraint_from_mapping v
    cs ← constraint_items vs
    ok (c ∷ cs)

  -- `_obligations`, with the reason code of the module that calls it
  unfoldable pub parse_obligations : String → Value → Result (List PolicyObligation)
  parse_obligations reason (list vs) = obligation_items vs
  parse_obligations reason (tuple vs) = obligation_items vs
  parse_obligations reason _ = fail reason

  -- `_constraints`
  unfoldable pub parse_constraints : String → Value → Result (List PolicyConstraint)
  parse_constraints reason (list vs) = constraint_items vs
  parse_constraints reason (tuple vs) = constraint_items vs
  parse_constraints reason _ = fail reason

  -- `str(raw.get('verdict_id') or raw.get('policy_id') or raw.get('id') or '').strip()`
  abbrev read_verdict_id : Fields → String
  read_verdict_id raw = strip (
      text_of py (
        or_value
          (or_value (or_value (get_or_null "verdict_id" raw) (get_or_null "policy_id" raw))
            (get_or_null "id" raw))
          (str "")))

  -- `PolicyVerdict.from_mapping`
  unfoldable pub verdict_from_mapping : Value → Result PolicyVerdict
  verdict_from_mapping value = do
    raw ← require_mapping value "invalid_policy_verdict"
    let verdict_id = read_verdict_id raw
    let request_id = read_text py "request_id" raw
    let subject_ref = read_text py "subject_ref" raw
    reject_if (verdict_id == "") "missing_policy_verdict_id"
    reject_if (request_id == "") "missing_policy_verdict_request_id"
    reject_if (subject_ref == "") "missing_policy_verdict_subject_ref"
    score ← risk_score (elim (get "risk_score" raw) [ none ↦ float float_zero | some v ↦ v ])
    obligations ←
        parse_obligations "invalid_policy_obligations"
          (or_value (get_or_null "obligations" raw) (tuple nil))
    constraints ←
        parse_constraints "invalid_policy_constraints"
          (or_value (get_or_null "constraints" raw) (tuple nil))
    metadata ← safe_mapping (get_or_null "metadata" raw) "invalid_policy_verdict_metadata"
    validate_policy_verdict py (record {
      verdict_id = verdict_id;
      request_id = request_id;
      subject_ref = subject_ref;
      decision = read_text py "decision" raw;
      schema_version = read_text_or py "schema_version" policy_verdict_schema_version raw;
      reason_code = read_text_alias py "reason_code" "decision" raw;
      risk_class = read_text_or py "risk_class" "low" raw;
      risk_score = score;
      obligations = obligations;
      constraints = constraints;
      blockers = text_entries py (or_value (get_or_null "blockers" raw) (tuple nil));
      evidence_refs = text_entries py (
          or_value (or_value (get_or_null "evidence_refs" raw) (get_or_null "evidence" raw))
            (tuple nil));
      metadata = metadata;
    })
