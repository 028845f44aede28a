-- ===== src/Python/Number.antt =====
-- Python's `int` and `float` as the source compares them. A finite float is the integer number of
-- multiples of 2 ^ -1074 that it is, so that comparison is exact; 0.0 and -0.0 are one value, as
-- for `==`. The type also holds multiples that no double has.
use Prim.Native.Nat.{◌^◌}
use gov_engine.Prelude.{ℕ, ◌*◌, Bool, true, false, not, ltb, eqb}

-- `negsuc n` is -(n + 1).
pub data ℤ : Type 0 where
  pos : ℕ → ℤ
  negsuc : ℕ → ℤ

abbrev pub ltb_ℤ : ℤ → ℤ → Bool
ltb_ℤ (pos a) (pos b) = ltb a b
ltb_ℤ (pos a) (negsuc b) = false
ltb_ℤ (negsuc a) (pos b) = true
ltb_ℤ (negsuc a) (negsuc b) = ltb b a

abbrev pub leb_ℤ : ℤ → ℤ → Bool
leb_ℤ a b = not (ltb_ℤ b a)

abbrev pub eqb_ℤ : ℤ → ℤ → Bool
eqb_ℤ (pos a) (pos b) = eqb a b
eqb_ℤ (negsuc a) (negsuc b) = eqb a b
eqb_ℤ _ _ = false

pub data Float : Type 0 where
  nan : Float
  plus_infinity : Float
  minus_infinity : Float
  finite : ℤ → Float

abbrev pub is_finite : Float → Bool
is_finite (finite z) = true
is_finite _ = false

-- `a < b`
abbrev pub float_lt : Float → Float → Bool
float_lt nan b = false
float_lt plus_infinity b = false
float_lt minus_infinity nan = false
float_lt minus_infinity minus_infinity = false
float_lt minus_infinity _ = true
float_lt (finite a) (finite b) = ltb_ℤ a b
float_lt (finite a) plus_infinity = true
float_lt (finite a) _ = false

-- `a == b`
abbrev pub float_eq : Float → Float → Bool
float_eq plus_infinity plus_infinity = true
float_eq minus_infinity minus_infinity = true
float_eq (finite a) (finite b) = eqb_ℤ a b
float_eq _ _ = false

-- The float literals of the policy code: a double is its 53 bits times a power of two.
abbrev pub float_zero : Float
float_zero = finite (pos 0)

abbrev pub float_half : Float
float_half = finite (pos (2 ^ 1073))

abbrev pub float_085 : Float
float_085 = finite (pos (0x1B333333333333 * 2 ^ 1021))

abbrev pub float_one : Float
float_one = finite (pos (2 ^ 1074))
