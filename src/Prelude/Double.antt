-- ===== src/Prelude/Double.antt =====
-- Go's float64 as the 64 bits of IEEE 754 binary64 (`math.Float64bits`), with its comparisons.
-- The magnitude bits of two numbers of one sign compare as the numbers do.
use Prim.Native.Nat.{ℕ, ◌-◌, ◌%◌}
use mathlib.Core.Bool.{Bool, not, ◌&&◌}
use genji.Prelude.Tests.{ltb, if◌then◌else◌}
use genji.Prelude.Int.{ℤ, pos, sub_ℕ, half64, ltb_ℤ, leb_ℤ, eqb_ℤ}

-- The bits of +Inf, the largest magnitude that is a number.
abbrev pub infinity : ℕ
infinity = 0x7ff0_0000_0000_0000

abbrev pub negative_zero : ℕ
negative_zero = 0x8000_0000_0000_0000

abbrev pub is_nan : ℕ → Bool
is_nan b = ltb infinity (b % half64)

-- A signed count that orders the numbers; the two zeros share 0.
abbrev pub rank : ℕ → ℤ
rank b = if ltb b half64 then pos b else sub_ℕ 0 (b - half64)

abbrev pub numbers : ℕ → ℕ → Bool
numbers a b = not (is_nan a) && not (is_nan b)

-- `a == b`, `a < b` and `a <= b`; all are false at a NaN.
abbrev pub double_eq : ℕ → ℕ → Bool
double_eq a b = numbers a b && eqb_ℤ (rank a) (rank b)

abbrev pub double_lt : ℕ → ℕ → Bool
double_lt a b = numbers a b && ltb_ℤ (rank a) (rank b)

abbrev pub double_le : ℕ → ℕ → Bool
double_le a b = numbers a b && leb_ℤ (rank a) (rank b)
