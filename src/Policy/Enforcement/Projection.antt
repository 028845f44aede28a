-- ===== src/Policy/Enforcement/Projection.antt =====
-- `project_runtime_controls`. The branches of its loops over the obligations and the constraints are
-- read in two steps: what a branch takes from the item (an `Effect`), and what it then does to the
-- loop's variables.
use Prim.Native.Nat.{min}
use gov_engine.Prelude.{
  ℕ, suc, String, Bool, true, false, not, ◌&&◌, ◌||◌, List, [], ◌∷◌, ◌++◌, none, some, ◌==◌,
  if◌then◌else◌, is_empty, eqb,
}
use gov_engine.Python.Number.{pos, Float, is_finite, float_lt, float_eq, float_zero}
use gov_engine.Python.Text.{strip, in_texts}
use gov_engine.Python.Sorting.{sorted_set, all_distinct}
use gov_engine.Python.Value.{Value, bool, int, float, str, list, tuple, Items, nil, cons, Runtime}
use gov_engine.Errors.{Result, ok, fail_with, reject_if, ◌>>=◌, ◌>>◌}
use gov_engine.Policy.Model.{
  PolicyObligation, PolicyConstraint, PolicyVerdict, validate_policy_verdict,
}

-- `RuntimeControlProjection`, and the variables of the loops before the sets are sorted.
pub record RuntimeControls : Type 0 where
  pub timeout_seconds : Float
  pub max_steps : ℕ
  pub max_output_bytes : ℕ
  pub receipt_required : Bool
  pub output_digest_required : Bool
  pub read_only_required : Bool
  pub no_raw_shell : Bool
  pub mutation_requires_approval : Bool
  pub allowed_network_egress : List String
  pub allowed_backend_classes : List String
  pub typed_execution_control_ids : List String
  pub control_ids : List String

-- `RuntimeControlProjection()`
abbrev pub default_controls : RuntimeControls
default_controls = record {
  timeout_seconds = float_zero;
  max_steps = 0;
  max_output_bytes = 0;
  receipt_required = true;
  output_digest_required = false;
  read_only_required = false;
  no_raw_shell = false;
  mutation_requires_approval = false;
  allowed_network_egress = [];
  allowed_backend_classes = [];
  typed_execution_control_ids = [];
  control_ids = [];
}

-- What the branch of one obligation or constraint sets.
pub data Effect : Type 0 where
  timeout : Float → Effect
  max_steps output_limit : ℕ → Effect
  receipt : Effect
  output_digest : Bool → Effect
  read_only no_shell approval : Effect
  network backends : List String → Effect

-- The loop of `text_tuple`: the stripped texts, where none is blank.
unfoldable pub stripped_items : String → String → Items → Result (List String)
stripped_items reason detail nil = ok []
stripped_items reason detail (cons (str s) vs) =
    if strip s == ""
    then fail_with reason detail
    else (do rest ← stripped_items reason detail vs; ok (strip s ∷ rest))
stripped_items reason detail (cons _ vs) = fail_with reason detail

-- `text_tuple`
unfoldable pub text_tuple : String → String → Value → Result (List String)
text_tuple reason detail (list vs) = do
  texts ← stripped_items reason detail vs
  if all_distinct texts then ok texts else fail_with reason detail
text_tuple reason detail (tuple vs) = do
  texts ← stripped_items reason detail vs
  if all_distinct texts then ok texts else fail_with reason detail
text_tuple reason detail _ = fail_with reason detail

abbrev pub invalid_constraint {ℓ} : {A : Type ℓ} → String → Result A
invalid_constraint kind = fail_with "invalid_policy_constraint" kind

-- `_string_list`
unfoldable pub string_list : Value → String → Result (List String)
string_list value kind = do
  texts ← text_tuple "invalid_policy_constraint" kind value
  if is_empty texts then invalid_constraint kind else ok texts

-- The candidate of `_minimum_positive_int`
unfoldable pub positive_int : Value → String → Result ℕ
positive_int (int (pos (suc n))) kind = ok (suc n)
positive_int _ kind = invalid_constraint kind

-- `x <= 0`
abbrev pub not_positive : Float → Bool
not_positive x = float_lt x float_zero || float_eq x float_zero

-- The candidate of `_minimum_positive_float`, once it is a float
abbrev pub positive_finite : Float → Result Float
positive_finite x =
    if is_finite x && not (not_positive x) then ok x else invalid_constraint "timeout"

-- `if constraint.value is not True: raise`
unfoldable pub require_true : Value → String → Effect → Result Effect
require_true (bool true) kind effect = ok effect
require_true _ kind effect = invalid_constraint kind

-- `isinstance(constraint.value, bool)`
unfoldable pub require_bool : Value → String → Result Bool
require_bool (bool b) kind = ok b
require_bool _ kind = invalid_constraint kind

-- The branch of one obligation.
unfoldable pub obligation_effect : PolicyObligation → Result Effect
obligation_effect o =
    if o.kind == "receipt" || o.kind == "receipt_required"
    then ok receipt
    else if o.kind == "output_digest_required"
    then ok (output_digest true)
    else fail_with "unsupported_policy_obligation" o.kind

-- `_minimum_positive_float` and `_minimum_positive_int`
abbrev pub tighter_float : Float → Float → Float
tighter_float current candidate =
    if not_positive current
    then candidate
    else if float_lt candidate current
    then candidate
    else current

abbrev pub tighter : ℕ → ℕ → ℕ
tighter current candidate = if eqb current 0 then candidate else min current candidate

unfoldable pub apply_effect : RuntimeControls → Effect → RuntimeControls
apply_effect s (timeout x) = record s { timeout_seconds = tighter_float s.timeout_seconds x }
apply_effect s (max_steps n) = record s { max_steps = tighter s.max_steps n }
apply_effect s (output_limit n) = record s { max_output_bytes = tighter s.max_output_bytes n }
apply_effect s receipt = record s {
  receipt_required = true;
  typed_execution_control_ids = s.typed_execution_control_ids ++ "receipt_required" ∷ [];
}
apply_effect s (output_digest b) = record s {
  output_digest_required = s.output_digest_required || b;
  typed_execution_control_ids =
      if b
      then s.typed_execution_control_ids ++ "output_digest_required" ∷ []
      else s.typed_execution_control_ids;
}
apply_effect s read_only = record s {
  read_only_required = true;
  typed_execution_control_ids = s.typed_execution_control_ids ++ "read_only_posture" ∷ [];
}
apply_effect s no_shell = record s {
  no_raw_shell = true;
  typed_execution_control_ids = s.typed_execution_control_ids ++ "no_raw_shell" ∷ [];
}
apply_effect s approval = record s {
  mutation_requires_approval = true;
  typed_execution_control_ids = s.typed_execution_control_ids ++ "mutation_requires_approval" ∷ [];
}
apply_effect s (network hosts) = record s {
  allowed_network_egress = s.allowed_network_egress ++ hosts;
  typed_execution_control_ids = s.typed_execution_control_ids ++ "network_boundary_match" ∷ [];
}
apply_effect s (backends classes) = record s {
  allowed_backend_classes = s.allowed_backend_classes ++ classes;
  typed_execution_control_ids = s.typed_execution_control_ids ++ "backend_class_supported" ∷ [];
}

abbrev pub add_control_id : RuntimeControls → String → RuntimeControls
add_control_id s control_id = record s { control_ids = s.control_ids ++ control_id ∷ [] }

-- `for obligation in checked.obligations`
unfoldable pub apply_obligations : RuntimeControls → List PolicyObligation → Result RuntimeControls
apply_obligations s [] = ok s
apply_obligations s (o ∷ os) = do
  effect ← obligation_effect o
  apply_obligations (apply_effect (add_control_id s o.obligation_id) effect) os

-- The tests of `text_tuple` on a tuple of texts.
abbrev pub strip_all : List String → List String
strip_all [] = []
strip_all (s ∷ ts) = strip s ∷ strip_all ts

unfoldable pub is_text_tuple : List String → Bool
is_text_tuple texts = not (in_texts "" (strip_all texts)) && all_distinct (strip_all texts)

-- `_validate_projection`, where the fields have the types that are declared
unfoldable pub validate_projection : RuntimeControls → Result (Unit {0})
validate_projection p = do
  reject_if (not (is_finite p.timeout_seconds) || float_lt p.timeout_seconds float_zero)
      "invalid_runtime_control_timeout"
  reject_if (not (is_text_tuple p.allowed_network_egress))
      "invalid_runtime_control_allowed_network_egress"
  reject_if (not (is_text_tuple p.allowed_backend_classes))
      "invalid_runtime_control_allowed_backend_classes"
  reject_if (not (is_text_tuple p.typed_execution_control_ids))
      "invalid_runtime_control_typed_execution_control_ids"
  reject_if (not (is_text_tuple p.control_ids)) "invalid_runtime_control_ids"
  reject_if (not p.receipt_required) "runtime_receipt_required"

-- The projection that is made of the loops' variables.
abbrev pub sort_controls : RuntimeControls → RuntimeControls
sort_controls s = record s {
  allowed_network_egress = sorted_set s.allowed_network_egress;
  allowed_backend_classes = sorted_set s.allowed_backend_classes;
  typed_execution_control_ids = sorted_set s.typed_execution_control_ids;
  control_ids = sorted_set s.control_ids;
}

module _ (py : Runtime) where
  unfoldable pub timeout_value : Value → Result Float
  timeout_value (int z) = elim (py.float_of_int z) [
    | none ↦ invalid_constraint "timeout"
    | some x ↦ positive_finite x
  ]
  timeout_value (float x) = positive_finite x
  timeout_value _ = invalid_constraint "timeout"

  -- The branch of a constraint of one kind.
  unfoldable pub constraint_effect : String → Value → Result Effect
  constraint_effect kind value =
      if kind == "timeout"
      then (do x ← timeout_value value; ok (timeout x))
      else if kind == "max_steps"
      then (do n ← positive_int value "max_steps"; ok (max_steps n))
      else if kind == "output_limit"
      then (do n ← positive_int value "output_limit"; ok (output_limit n))
      else if kind == "receipt_required"
      then require_true value "receipt_required" receipt
      else if kind == "output_digest_required"
      then (do b ← require_bool value "output_digest_required"; ok (output_digest b))
      else if kind == "read_only_required"
      then require_true value "read_only_required" read_only
      else if kind == "no_raw_shell"
      then require_true value "no_raw_shell" no_shell
      else if kind == "mutation_requires_approval"
      then require_true value "mutation_requires_approval" approval
      else if kind == "allowed_network_egress"
      then (do hosts ← string_list value "allowed_network_egress"; ok (network hosts))
      else if kind == "allowed_backend_classes"
      then (do classes ← string_list value "allowed_backend_classes"; ok (backends classes))
      else fail_with "unsupported_policy_constraint" kind

  -- `for constraint in checked.constraints`
  unfoldable pub apply_constraints :
      RuntimeControls → List PolicyConstraint → Result RuntimeControls
  apply_constraints s [] = ok s
  apply_constraints s (c ∷ cs) = do
    effect ← constraint_effect c.kind c.value
    apply_constraints (apply_effect (add_control_id s c.constraint_id) effect) cs

  -- `project_runtime_controls`, of a `PolicyVerdict`
  unfoldable pub project_runtime_controls : PolicyVerdict → Result RuntimeControls
  project_runtime_controls verdict = do
    checked ← validate_policy_verdict py verdict
    s ← apply_obligations default_controls checked.obligations
    s' ← apply_constraints s checked.constraints
    validate_projection (sort_controls s')
    ok (sort_controls s')
