-- ===== src/Policy/Enforcement/Plan/Reasons.antt =====
-- govengine/policy/enforcement.py: lemmas on the reasons of the errors of a projection.
use gov_engine.Prelude.{
  String, Bool, true, false, not, ◌≡◌, refl, List, [], ◌∷◌, ◌==◌, if◌then◌else◌, Option, none, some,
  is_empty, ◌||◌, ◌&&◌,
}
use gov_engine.Python.Number.{Float, is_finite, float_lt, float_zero}
use gov_engine.Python.Text.{strip}
use gov_engine.Python.Sorting.{all_distinct}
use gov_engine.Python.Value.{Value, bool, int, float, str, list, tuple, Items, nil, cons, Runtime}
use gov_engine.Errors.{Result, ok, err, gov_api, raised, reject_if, ◌>>=◌, ◌>>◌}
use gov_engine.Policy.Model.{PolicyObligation, PolicyConstraint}
use gov_engine.Policy.Enforcement.Projection.{
  RuntimeControls, Effect, receipt, read_only, no_shell, approval, stripped_items, text_tuple,
  string_list, positive_int, positive_finite, invalid_constraint, not_positive, require_true,
  require_bool, obligation_effect, apply_effect, add_control_id, apply_obligations, is_text_tuple,
  validate_projection, timeout_value, constraint_effect, apply_constraints,
}
use gov_engine.Python.Number.{pos}
use gov_engine.Prelude.{zero, suc}

abbrev pub is_named {ℓ} : {A : Type ℓ} → Result A → Bool
is_named (ok a) = true
is_named (err (gov_api reason context)) = not (reason == "")
is_named (err (raised name)) = true

pub bind_named {ℓ κ} :
    {A : Type ℓ} {B : Type κ} (m : Result A) (f : A → Result B)
    → is_named m ≡ true
    → ((a : A) → is_named (f a) ≡ true)
    → is_named (m >>= f) ≡ true
bind_named (ok a) f h all = all a
bind_named (err e) f h all = h

if_named {ℓ} :
    {A : Type ℓ} (b : Bool) (m k : Result A)
    → is_named m ≡ true
    → is_named k ≡ true
    → is_named (if b then m else k) ≡ true
if_named true m k h g = h
if_named false m k h g = g

reject_named :
    (b : Bool) (reason : String) → not (reason == "") ≡ true → is_named (reject_if b reason) ≡ true
reject_named true reason h = h
reject_named false reason h = refl

then_named {ℓ} :
    {A : Type ℓ} (b : Bool) (reason : String) (k : Result A)
    → not (reason == "") ≡ true
    → is_named k ≡ true
    → is_named (reject_if b reason >> k) ≡ true
then_named true reason k h g = h
then_named false reason k h g = g

effect_named {ℓ} :
    {A : Type ℓ} (m : Result A) (f : A → Effect)
    → is_named m ≡ true
    → is_named (m >>= λ a. ok (f a)) ≡ true
effect_named m f h = bind_named m (λ a. ok (f a)) h (λ a. refl)

obligation_named : (o : PolicyObligation) → is_named (obligation_effect o) ≡ true
unfolding obligation_effect
obligation_named o =
    if_named (o.kind == "receipt" || o.kind == "receipt_required") _ _ refl
      (if_named (o.kind == "output_digest_required") _ _ refl refl)

pub obligations_named :
    (s : RuntimeControls) (os : List PolicyObligation) → is_named (apply_obligations s os) ≡ true
unfolding apply_obligations
obligations_named s [] = refl
obligations_named s (o ∷ os) =
    bind_named (obligation_effect o) _ (obligation_named o)
      (λ e. obligations_named (apply_effect (add_control_id s o.obligation_id) e) os)

stripped_named :
    (kind : String) (vs : Items)
    → is_named (stripped_items "invalid_policy_constraint" kind vs) ≡ true
unfolding stripped_items
stripped_named kind nil = refl
stripped_named kind (cons (str s) vs) = if_named (strip s == "") _ _ refl (
    bind_named (stripped_items "invalid_policy_constraint" kind vs) _ (stripped_named kind vs)
      (λ a. refl))
stripped_named kind (cons _ vs) = refl

texts_named :
    (kind : String) (v : Value) → is_named (text_tuple "invalid_policy_constraint" kind v) ≡ true
unfolding text_tuple
texts_named kind (list vs) =
    bind_named (stripped_items "invalid_policy_constraint" kind vs) _ (stripped_named kind vs)
      (λ a. if_named (all_distinct a) _ _ refl refl)
texts_named kind (tuple vs) =
    bind_named (stripped_items "invalid_policy_constraint" kind vs) _ (stripped_named kind vs)
      (λ a. if_named (all_distinct a) _ _ refl refl)
texts_named kind _ = refl

list_named : (v : Value) (kind : String) → is_named (string_list v kind) ≡ true
unfolding string_list
list_named v kind =
    bind_named (text_tuple "invalid_policy_constraint" kind v) _ (texts_named kind v)
      (λ a. if_named (is_empty a) _ _ refl refl)

int_named : (v : Value) (kind : String) → is_named (positive_int v kind) ≡ true
unfolding positive_int
int_named (int (pos (suc n))) kind = refl
int_named (int (pos zero)) kind = refl
int_named _ kind = refl

true_named : (v : Value) (kind : String) (e : Effect) → is_named (require_true v kind e) ≡ true
unfolding require_true
true_named (bool true) kind e = refl
true_named (bool false) kind e = refl
true_named _ kind e = refl

bool_named : (v : Value) (kind : String) → is_named (require_bool v kind) ≡ true
unfolding require_bool
bool_named (bool b) kind = refl
bool_named _ kind = refl

finite_named : (x : Float) → is_named (positive_finite x) ≡ true
finite_named x =
    if_named (is_finite x && not (not_positive x)) (ok x) (invalid_constraint "timeout") refl refl

float_named :
    (o : Option Float)
    → is_named {A = Float}
        (elim o [ none ↦ invalid_constraint "timeout" | some x ↦ positive_finite x ])
      ≡ true
float_named none = refl
float_named (some x) = finite_named x

pub projection_named : (p : RuntimeControls) → is_named (validate_projection p) ≡ true
unfolding validate_projection
projection_named p =
    then_named (not (is_finite p.timeout_seconds) || float_lt p.timeout_seconds float_zero)
      "invalid_runtime_control_timeout" _ refl
      (then_named (not (is_text_tuple p.allowed_network_egress))
        "invalid_runtime_control_allowed_network_egress" _ refl
        (then_named (not (is_text_tuple p.allowed_backend_classes))
          "invalid_runtime_control_allowed_backend_classes" _ refl
          (then_named (not (is_text_tuple p.typed_execution_control_ids))
            "invalid_runtime_control_typed_execution_control_ids" _ refl
            (then_named (not (is_text_tuple p.control_ids)) "invalid_runtime_control_ids" _ refl
              (reject_named (not p.receipt_required) "runtime_receipt_required" refl)))))

module _ (py : Runtime) where
  timeout_named : (v : Value) → is_named (timeout_value py v) ≡ true
  unfolding timeout_value
  timeout_named (int z) = float_named (py.float_of_int z)
  timeout_named (float x) = finite_named x
  timeout_named _ = refl

  constraint_named : (kind : String) (v : Value) → is_named (constraint_effect py kind v) ≡ true
  unfolding constraint_effect
  constraint_named kind v =
      if_named (kind == "timeout") _ _ (effect_named (timeout_value py v) _ (timeout_named v)) (
        if_named (kind == "max_steps") _ _
          (effect_named (positive_int v "max_steps") _ (int_named v _))
          (if_named (kind == "output_limit") _ _
            (effect_named (positive_int v "output_limit") _ (int_named v _))
            (if_named (kind == "receipt_required") _ _ (true_named v "receipt_required" receipt) (
              if_named (kind == "output_digest_required") _ _
                (effect_named (require_bool v "output_digest_required") _ (bool_named v _))
                (if_named (kind == "read_only_required") _ _
                  (true_named v "read_only_required" read_only)
                  (if_named (kind == "no_raw_shell") _ _ (true_named v "no_raw_shell" no_shell) (
                    if_named (kind == "mutation_requires_approval") _ _
                      (true_named v "mutation_requires_approval" approval)
                      (if_named (kind == "allowed_network_egress") _ _
                        (effect_named (string_list v "allowed_network_egress") _ (list_named v _))
                        (if_named (kind == "allowed_backend_classes") _ _
                          (effect_named (string_list v "allowed_backend_classes") _
                            (list_named v _))
                          refl)))))))))

  pub constraints_named :
      (s : RuntimeControls) (cs : List PolicyConstraint)
      → is_named (apply_constraints py s cs) ≡ true
  unfolding apply_constraints
  constraints_named s [] = refl
  constraints_named s (c ∷ cs) =
      bind_named (constraint_effect py c.kind c.value) _ (constraint_named c.kind c.value)
        (λ e. constraints_named (apply_effect (add_control_id s c.constraint_id) e) cs)
