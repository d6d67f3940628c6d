-- ===== src/Settings/Numbers.antt =====
-- The numbers of a configuration, as pydantic parses them, and its bounds on them.
-- `negsuc n` is -(n + 1).
use pyfr_m8_verify.Base.{ℕ, Bool, ◌^◌, leb, false, true, ltb}

pub data ℤ : Type 0 where
  pos : ℕ → ℤ
  negsuc : ℕ → ℤ

-- A double that is not NaN. A finite one that is not negative is a whole number of 2^-1074, the
-- smallest double.
pub data Float : Type 0 where
  below_zero : Float
  finite : ℕ → Float
  infinite : Float

unfoldable pub one : ℕ
one = 2 ^ 1074

-- Field(ge=n)
abbrev pub at_least : ℕ → ℤ → Bool
at_least n (pos m) = leb n m
at_least n (negsuc m) = false

-- Field(le=n)
abbrev pub at_most : ℕ → ℤ → Bool
at_most n (pos m) = leb m n
at_most n (negsuc m) = true

-- Field(gt=0): infinity passes.
abbrev pub positive : Float → Bool
positive below_zero = false
positive (finite n) = ltb 0 n
positive infinite = true

-- Field(ge=0.0)
abbrev pub not_negative : Float → Bool
not_negative below_zero = false
not_negative _ = true

-- Field(le=1.0)
unfoldable pub at_most_one : Float → Bool
at_most_one below_zero = true
at_most_one (finite n) = leb n one
at_most_one infinite = false
