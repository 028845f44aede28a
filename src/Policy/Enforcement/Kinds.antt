-- ===== src/Policy/Enforcement/Kinds.antt =====
-- Which constraints have which effect on a projection.
use gov_engine.Prelude.{
  String, true, false, ◌≡◌, refl, sym, ap, ◌∙◌, inl, inr, ◌==◌, eq_iff, Bool-cases, if◌then◌else◌,
}
use gov_engine.Python.Value.{Value, bool, Runtime}
use gov_engine.Errors.{Result, ok, ◌>>=◌, >>=-eq-ok, ok-injective}
use gov_engine.Policy.Enforcement.Projection.{
  Effect, timeout, max_steps, output_limit, receipt, output_digest, read_only, no_shell, approval,
  network, backends, positive_int, require_true, require_bool, timeout_value, string_list,
  constraint_effect,
}

-- The kind of the constraints that have an effect.
abbrev pub effect_kind : Effect → String
effect_kind (timeout x) = "timeout"
effect_kind (max_steps n) = "max_steps"
effect_kind (output_limit n) = "output_limit"
effect_kind receipt = "receipt_required"
effect_kind (output_digest b) = "output_digest_required"
effect_kind read_only = "read_only_required"
effect_kind no_shell = "no_raw_shell"
effect_kind approval = "mutation_requires_approval"
effect_kind (network hosts) = "allowed_network_egress"
effect_kind (backends classes) = "allowed_backend_classes"

branch_kind :
    (kind name : String) (m rest : Result Effect) {e : Effect}
    → (if kind == name then m else rest) ≡ ok e
    → (m ≡ ok e → effect_kind e ≡ name)
    → (rest ≡ ok e → effect_kind e ≡ kind)
    → effect_kind e ≡ kind
branch_kind kind name m rest h here there = elim (Bool-cases (kind == name)) [
  | inl same ↦ here (rw same at h) ∙ sym ((eq_iff kind name).0 same)
  | inr other ↦ there (rw other at h)
]

made_kind {ℓ} :
    {A : Type ℓ} (m : Result A) (f : A → Effect) (name : String) {e : Effect}
    → ((a : A) → effect_kind (f a) ≡ name)
    → (m >>= λ a. ok (f a)) ≡ ok e
    → effect_kind e ≡ name
made_kind m f name all h =
    let (a, _, made) = >>=-eq-ok m _ h in sym (ap effect_kind (ok-injective made)) ∙ all a

true_kind :
    (value : Value) (name : String) (f : Effect) {e : Effect}
    → effect_kind f ≡ name
    → require_true value name f ≡ ok e
    → effect_kind e ≡ name
unfolding require_true
true_kind (bool true) name f k h = sym (ap effect_kind (ok-injective h)) ∙ k
true_kind (bool false) name f k h = cc
true_kind _ name f k h = cc

module _ (py : Runtime) where
  pub constraint_effect-kind :
      (kind : String) (value : Value) (e : Effect)
      → constraint_effect py kind value ≡ ok e
      → effect_kind e ≡ kind
  unfolding constraint_effect
  constraint_effect-kind kind value e h =
      branch_kind kind "timeout" _ _ h (made_kind (timeout_value py value) timeout _ (λ _. refl))
        λ h.
          branch_kind kind "max_steps" _ _ h
            (made_kind (positive_int value _) max_steps _ (λ _. refl))
            λ h.
              branch_kind kind "output_limit" _ _ h
                (made_kind (positive_int value _) output_limit _ (λ _. refl))
                λ h. branch_kind kind "receipt_required" _ _ h (true_kind value _ receipt refl) λ h.
                  branch_kind kind "output_digest_required" _ _ h
                    (made_kind (require_bool value _) output_digest _ (λ _. refl))
                    λ h.
                      branch_kind kind "read_only_required" _ _ h (true_kind value _ read_only refl)
                        λ h.
                          branch_kind kind "no_raw_shell" _ _ h (true_kind value _ no_shell refl)
                            λ h.
                              branch_kind kind "mutation_requires_approval" _ _ h
                                (true_kind value _ approval refl)
                                λ h.
                                  branch_kind kind "allowed_network_egress" _ _ h
                                    (made_kind (string_list value _) network _ (λ _. refl))
                                    λ h.
                                      branch_kind kind "allowed_backend_classes" _ _ h
                                        (made_kind (string_list value _) backends _ (λ _. refl))
                                        λ h. cc
