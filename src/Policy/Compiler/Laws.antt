-- ===== src/Policy/Compiler/Laws.antt =====
-- govengine/policy/compiler: what a compiled pack is.
use mathlib.Core.Path.{subst}
use gov_engine.Prelude.{
  ℕ, ◌≤◌, String, Bool, true, false, ◌||◌, List, [], ◌∷◌, some, ◌==◌, ◌≡◌, refl, ltb, length,
  is_empty, sym, ◌∙◌, ap, eqb-false_of_ne, ne_of_eqb-false, either_false, none-ne-some,
  if◌then◌else◌, arith,
}
use gov_engine.Python.Text.{in_texts, or_text}
use gov_engine.Python.Sorting.{all_distinct}
use gov_engine.Python.Value.{
  Value, null, bool, int, float, str, object, list, tuple, dict, Items, nil, cons, get_or_null,
  item_count, Runtime,
}
use gov_engine.Python.Reading.{read_text, read_text_alias, read_text_or}
use gov_engine.Errors.{
  Result, ok, err, gov_api, raised, require_mapping, expect, >>=-eq-ok, reject_if-eq-ok,
  ok-injective,
}
use gov_engine.Governance.Scope.{RecordDigest}
use gov_engine.Governance.Timestamps.{Timestamps}
use gov_engine.Policy.Forbidden.{reject_forbidden_policy_metadata}
use gov_engine.Policy.Model.Parse.{safe_mapping, json_safe}
use gov_engine.Policy.Rule.{PolicyRule, CompiledPolicyPack}
use gov_engine.Policy.Compiler.Sorting.{sort_by}
use gov_engine.Policy.Compiler.Rules.{rule_from_mapping}
use gov_engine.Policy.Compiler.Pack.{
  CompileResult, rule_lt, total_conditions, seen_get, reject_rule_conflicts,
  reject_control_conflicts, all_controls, rule_items, listed_rules, compile_rules,
  check_pack_fields, read_issue, no_issue, compile_or_raise, compile_result, compile,
  max_policy_rules, max_total_conditions,
}
use gov_engine.Policy.Compiler.Ordering.{Ordered, sort_by-Ordered, length-sort_by, rule_lt_asym}

abbrev pub rule_ids : List PolicyRule → List String
rule_ids [] = []
rule_ids (r ∷ rs) = r.rule_id ∷ rule_ids rs

-- None of the texts is in a list.
abbrev Apart : List String → List String → Type 0
Apart [] seen = Unit
Apart (s ∷ ss) seen = (in_texts s seen ≡ false) × Apart ss seen

some_injective : {a b : CompiledPolicyPack} → some a ≡ some b → a ≡ b
some_injective e = cc

neither : (a b : Bool) → (a || b) ≡ false → (a ≡ false) × (b ≡ false)
neither a b h = (ground arith, ground arith)

other_way : (s t : String) → (s == t) ≡ false → (t == s) ≡ false
other_way s t h = eqb-false_of_ne t s (λ e. ne_of_eqb-false s t h (sym e))

filled_of_length : (rules : List PolicyRule) → 1 ≤ length rules → is_empty rules ≡ false
filled_of_length [] h = absurd (omega (arith, h))
filled_of_length (r ∷ rs) h = refl

count_within : (n m : ℕ) → m ≡ n → ltb 256 n ≡ false → m ≤ 256
count_within n m e h = ground arith

conditions_within : (n : ℕ) → ltb 4096 n ≡ false → n ≤ 4096
conditions_within n h = ground arith

Apart-of_more :
    (s : String) (ss seen : List String)
    → Apart ss (s ∷ seen)
    → (in_texts s ss ≡ false) × Apart ss seen
Apart-of_more s [] seen h = (refl, tt)
Apart-of_more s (t ∷ ts) seen (first, rest) =
    let (absent, apart) = Apart-of_more s ts seen rest in
    let (differs, fresh) = neither (t == s) (in_texts t seen) first in
    (either_false (s == t) (in_texts s ts) (other_way t s differs) absent, (fresh, apart))

-- What the rules of a compiled pack satisfy.
pub record Compiled (rules : List PolicyRule) : Type 0 where
  pub ordered : Ordered rule_lt rules
  pub distinct : all_distinct (rule_ids rules) ≡ true
  pub filled : is_empty rules ≡ false
  pub count : length rules ≤ 256
  pub conditions : total_conditions rules ≤ 4096

module _ (py : Runtime) (digests : RecordDigest) (clock : Timestamps) where
  reject_rule_conflicts-distinct :
      (rules : List PolicyRule) (seen_ids : List String) (seen : List (String × String))
      → reject_rule_conflicts digests rules seen_ids seen ≡ ok tt
      → Apart (rule_ids rules) seen_ids × (all_distinct (rule_ids rules) ≡ true)
  unfolding reject_rule_conflicts all_distinct
  reject_rule_conflicts-distinct [] seen_ids seen h = (tt, refl)
  reject_rule_conflicts-distinct (rule ∷ rules) seen_ids seen h =
      let (fresh, h₁) = reject_if-eq-ok (in_texts rule.rule_id seen_ids) _ _ h in
      let (fingerprint, e₂, h₂) = >>=-eq-ok (digests.record_digest _ _) _ h₁ in
      let (_, h₃) = reject_if-eq-ok _ _ _ h₂ in
      let (_, h₄) = reject_if-eq-ok (seen_get seen fingerprint == rule.effect) _ _ h₃ in
      let (apart, distinct) =
        reject_rule_conflicts-distinct rules (rule.rule_id ∷ seen_ids)
          ((fingerprint, rule.effect) ∷ seen) h₄ in
      let (absent, rest) = Apart-of_more rule.rule_id (rule_ids rules) seen_ids apart in
      ((fresh, rest), rw (absent, distinct) refl)

  length-rule_items :
      (vs : Items) (is_v1 : Bool) {rules : List PolicyRule}
      → rule_items py digests clock vs is_v1 ≡ ok rules
      → length rules ≡ item_count vs
  unfolding rule_items item_count
  length-rule_items nil is_v1 h = ap length (sym (ok-injective h))
  length-rule_items (cons v vs) is_v1 h =
      let (first, e₁, h₁) = >>=-eq-ok (rule_from_mapping py digests v is_v1) _ h in
      let (rest, e₂, h₂) = >>=-eq-ok (rule_items py digests clock vs is_v1) _ h₁ in
      let counted = length-rule_items vs is_v1 e₂ in
      ap length (sym (ok-injective h₂)) ∙ omega (arith, counted)

  sorted-Compiled :
      (vs : Items) (is_v1 : Bool) (parsed : List PolicyRule)
      → 1 ≤ item_count vs
      → ltb max_policy_rules (item_count vs) ≡ false
      → rule_items py digests clock vs is_v1 ≡ ok parsed
      → ltb max_total_conditions (total_conditions (sort_by rule_lt parsed)) ≡ false
      → reject_rule_conflicts digests (sort_by rule_lt parsed) [] [] ≡ ok tt
      → Compiled (sort_by rule_lt parsed)
  sorted-Compiled vs is_v1 parsed some_rule few read room quiet =
      let counted = length-sort_by rule_lt parsed ∙ length-rule_items vs is_v1 read in
      record {
        ordered = sort_by-Ordered rule_lt rule_lt_asym parsed;
        distinct = (reject_rule_conflicts-distinct (sort_by rule_lt parsed) [] [] quiet).1;
        filled = filled_of_length (sort_by rule_lt parsed) (omega (arith, counted, some_rule));
        count = count_within (item_count vs) _ counted few;
        conditions = conditions_within (total_conditions (sort_by rule_lt parsed)) room;
      }

  ap_count : (vs : Items) {ws : Items} → vs ≡ ws → 1 ≤ item_count vs → 1 ≤ item_count ws
  ap_count vs same h = subst (λ ws. 1 ≤ item_count ws) same h

  listed_rules-filled :
      (value : Value) {vs : Items} → listed_rules py digests clock value ≡ ok vs → 1 ≤ item_count vs
  unfolding item_count
  listed_rules-filled (list (cons v vs)) h = ap_count (cons v vs) (ok-injective h) (omega arith)
  listed_rules-filled (tuple (cons v vs)) h = ap_count (cons v vs) (ok-injective h) (omega arith)
  listed_rules-filled (list nil) h = cc
  listed_rules-filled (tuple nil) h = cc
  listed_rules-filled null h = cc
  listed_rules-filled (bool b) h = cc
  listed_rules-filled (int z) h = cc
  listed_rules-filled (float x) h = cc
  listed_rules-filled (str s) h = cc
  listed_rules-filled (dict m) h = cc
  listed_rules-filled (object t n) h = cc

  compile_rules-Compiled :
      (value : Value) (is_v1 : Bool) {rules : List PolicyRule}
      → compile_rules py digests clock value is_v1 ≡ ok rules
      → Compiled rules
  unfolding compile_rules
  compile_rules-Compiled value is_v1 h =
      let (vs, e₀, h₀) = >>=-eq-ok (listed_rules py digests clock value) _ h in
      let (few, h₁) = reject_if-eq-ok (ltb max_policy_rules (item_count vs)) _ _ h₀ in
      let (parsed, e₂, h₂) = >>=-eq-ok (rule_items py digests clock vs is_v1) _ h₁ in
      let (room, h₃) =
        reject_if-eq-ok (ltb max_total_conditions (total_conditions (sort_by rule_lt parsed))) _ _
          h₂ in
      let (done, e₄, h₄) =
        >>=-eq-ok (reject_rule_conflicts digests (sort_by rule_lt parsed) [] []) _ h₃ in
      let (_, e₅, h₅) =
        >>=-eq-ok (reject_control_conflicts digests (all_controls (sort_by rule_lt parsed)) []) _
          h₄ in
      subst Compiled (ok-injective h₅)
        (sorted-Compiled vs is_v1 parsed (listed_rules-filled value e₀) few e₂ room e₄)

  compile_or_raise-Compiled :
      (value : Value) {pack : CompiledPolicyPack}
      → compile_or_raise py digests clock value ≡ ok pack
      → Compiled pack.rules
  unfolding compile_or_raise
  compile_or_raise-Compiled value h =
      let (copy, e₀, h₀) = >>=-eq-ok (json_safe value) _ h in
      let (raw, e₁, h₁) = >>=-eq-ok (require_mapping copy "invalid_policy_pack") _ h₀ in
      let (_, h₂) = reject_if-eq-ok (read_text_alias py "policy_id" "id" raw == "") _ _ h₁ in
      let (_, h₃) = reject_if-eq-ok (read_text py "version" raw == "") _ _ h₂ in
      let version = read_text_or py "schema_version" "v0.1" raw in
      let (_, e₄, h₄) =
        >>=-eq-ok
          (expect (in_texts version ("v0.1" ∷ "v1" ∷ [])) "unknown_policy_pack_schema_version"
            (or_text version "missing"))
          _ h₃ in
      let (_, e₅, h₅) = >>=-eq-ok (check_pack_fields py digests clock raw (version == "v1")) _ h₄ in
      let (issue, e₆, h₆) =
        >>=-eq-ok
          (if version == "v1"
            then read_issue py digests clock raw
            else ok (no_issue py digests clock))
          _ h₅ in
      let (rules, e₇, h₇) =
        >>=-eq-ok (compile_rules py digests clock (get_or_null "rules" raw) (version == "v1")) _
          h₆ in
      let (metadata, e₈, h₈) =
        >>=-eq-ok (safe_mapping (get_or_null "metadata" raw) "invalid_policy_pack_metadata") _ h₇ in
      let (_, e₉, h₉) = >>=-eq-ok (reject_forbidden_policy_metadata py metadata) _ h₈ in
      subst Compiled (ap (λ p. p.rules) (ok-injective h₉)) (compile_rules-Compiled _ _ e₇)

  compile_result-Compiled :
      (compiled : Result CompiledPolicyPack) (r : CompileResult) (pack : CompiledPolicyPack)
      → ((made : CompiledPolicyPack) → compiled ≡ ok made → Compiled made.rules)
      → compile_result py digests clock compiled ≡ ok r
      → r.policy_pack ≡ some pack
      → Compiled pack.rules
  compile_result-Compiled (ok made) r pack follow h given =
      let same = ap (λ x. x.policy_pack) (ok-injective h) ∙ given in
      subst Compiled (ap (λ p. p.rules) (some_injective same)) (follow made refl)
  compile_result-Compiled (err (gov_api reason context)) r pack follow h given =
      absurd (none-ne-some (ap (λ x. x.policy_pack) (ok-injective h) ∙ given))
  compile_result-Compiled (err (raised name)) r pack follow h given = cc

  -- The pack of a compilation has between one and 256 rules, with 4096 conditions at most; they are
  -- ordered by priority and identifier, and no two have one identifier.
  pub compile-Compiled :
      (value : Value) (r : CompileResult) (pack : CompiledPolicyPack)
      → compile py digests clock value ≡ ok r
      → r.policy_pack ≡ some pack
      → Compiled pack.rules
  unfolding compile
  compile-Compiled value r pack h given =
      compile_result-Compiled (compile_or_raise py digests clock value) r pack
        (λ made e. compile_or_raise-Compiled value e) h given
