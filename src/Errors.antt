-- ===== src/Errors.antt =====
-- govengine/api.py: `GovApiError`, and the results of code that may raise.
use gov_engine.Prelude.{
  String, Bool, true, false, List, [], ◌∷◌, ◌≡◌, ◌≢◌, refl, sym, if◌then◌else◌,
}
use gov_engine.Python.Value.{Value, dict, Fields}

-- `gov_api` is `GovApiError` with its reason code and the entries of its context. `raised` is any
-- other exception, by its type's name.
pub data Error : Type 0 where
  gov_api : String → List (String × String) → Error
  raised : String → Error

pub data Result {ℓ} (A : Type ℓ) : Type ℓ where
  ok : A → Result A
  err : Error → Result A

pub ok-injective {ℓ} : {A : Type ℓ} {a b : A} → ok a ≡ ok b → a ≡ b
ok-injective e = cc

infixl 5 ◌>>=◌
abbrev pub ◌>>=◌ {ℓ κ} : {A : Type ℓ} {B : Type κ} → Result A → (A → Result B) → Result B
ok a >>= next = next a
err e >>= next = err e

-- Inversion of a successful bind.
pub >>=-eq-ok {ℓ κ} :
    {A : Type ℓ} {B : Type κ} (first : Result A) (next : A → Result B) {out : B}
    → (first >>= next) ≡ ok out
    → (mid : A) × (first ≡ ok mid) × (next mid ≡ ok out)
>>=-eq-ok (err _) next failed = cc
>>=-eq-ok (ok mid) next done = (mid, refl, done)

infixl 5 ◌>>◌
abbrev pub ◌>>◌ {ℓ} : {B : Type ℓ} → Result (Unit {0}) → Result B → Result B
first >> rest = first >>= λ _. rest

-- `raise GovApiError(reason)`
abbrev pub fail {ℓ} : {A : Type ℓ} → String → Result A
fail reason = err (gov_api reason [])

-- `raise GovApiError(f'{reason}:{detail}')`: the part behind the colon becomes the detail.
abbrev pub fail_with {ℓ} : {A : Type ℓ} → String → String → Result A
fail_with reason detail = err (gov_api reason (("detail", detail) ∷ []))

-- `if not b: raise e`
abbrev pub ensure : Bool → Error → Result (Unit {0})
ensure true e = ok tt
ensure false e = err e

-- `if b: raise GovApiError(reason)`
abbrev pub reject_if : Bool → String → Result (Unit {0})
reject_if true reason = fail reason
reject_if false reason = ok tt

-- `if not b: raise GovApiError(f'{reason}:{detail}')`
abbrev pub expect : Bool → String → String → Result (Unit {0})
expect true reason detail = ok tt
expect false reason detail = fail_with reason detail

-- `require_mapping`
unfoldable pub require_mapping : Value → String → Result Fields
require_mapping (dict m) reason = ok m
require_mapping _ reason = fail reason

-- A test that did not raise has passed.
pub reject_if-eq-ok {ℓ} :
    {B : Type ℓ} (b : Bool) (reason : String) (k : Result B) {x : B}
    → (reject_if b reason >> k) ≡ ok x
    → (b ≡ false) × (k ≡ ok x)
reject_if-eq-ok true reason k h = cc
reject_if-eq-ok false reason k h = (refl, h)

pub ensure-eq-ok {ℓ} :
    {B : Type ℓ} (b : Bool) (e : Error) (k : Result B) {x : B}
    → (ensure b e >> k) ≡ ok x
    → (b ≡ true) × (k ≡ ok x)
ensure-eq-ok true e k h = (refl, h)
ensure-eq-ok false e k h = cc

pub bind-err-ne-ok {ℓ κ} :
    {A : Type ℓ} {B : Type κ} (m : Result A) (e : Error) {b : B} → (m >>= λ _. err e) ≢ ok b
bind-err-ne-ok (ok a) e = cc
bind-err-ne-ok (err d) e = cc

pub rejected-eq-ok : (b : Bool) (reason : String) → reject_if b reason ≡ ok tt → b ≡ false
rejected-eq-ok true reason h = cc
rejected-eq-ok false reason h = refl

-- A validation that returns the value it was given.
pub checked-eq-ok {ℓ} :
    {A : Type ℓ} (check : Result (Unit {0})) (item : A) {x : A}
    → (check >> ok item) ≡ ok x
    → (check ≡ ok tt) × (x ≡ item)
checked-eq-ok (ok tt) item h = (refl, sym (ok-injective h))
checked-eq-ok (err e) item h = cc

-- A test that raises has failed, where the code went on.
pub if-err-eq-ok {ℓ} :
    {B : Type ℓ} (b : Bool) (e : Error) (k : Result B) {x : B}
    → (if b then err e else k) ≡ ok x
    → (b ≡ false) × (k ≡ ok x)
if-err-eq-ok true e k h = cc
if-err-eq-ok false e k h = (refl, h)

-- An error is no result.
pub fail-ne-ok : {A : Type 0} {reason : String} {a : A} → fail {A = A} reason ≢ ok a
fail-ne-ok e = cc

pub fail_with-ne-ok :
    {A : Type 0} {reason detail : String} {a : A} → fail_with {A = A} reason detail ≢ ok a
fail_with-ne-ok e = cc
