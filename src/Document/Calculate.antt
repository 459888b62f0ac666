-- ===== src/Document/Calculate.antt =====
-- document/value.go: the arithmetic of values (Add to BitwiseXor, calculateValues and below).
-- No error arises; the operators are the bytes that the callers pass.
pub mod Integers
pub mod Division
mod Samples
use Prim.Native.Nat.{bit_and, bit_or, bit_xor}
use genji.Prelude.{ℕ, ◌+◌, ◌-◌, ◌/◌, ◌%◌, Bool, true, false, not, ◌||◌, if◌then◌else◌, ◌==◌}
use genji.Prelude.Int.{ℤ, pos, sub_ℕ, pos_part, neg_part, ◌+ℤ◌, ◌-ℤ◌, ◌*ℤ◌, ltb_ℤ, eqb_ℤ}
use genji.Prelude.Int.{to_uint64, of_uint64, wrap}
use genji.Prelude.Double.{is_nan, double_eq}
use genji.Document.{Value, null, bool, integer, double}
use genji.Document.Floats.{Floats}

pub data Arithmetic : Type 0 where
  plus minus times over modulo bitwise_and bitwise_or bitwise_xor : Arithmetic

-- |a|
abbrev pub magnitude : ℤ → ℕ
magnitude a = pos_part a + neg_part a

abbrev pub is_negative : ℤ → Bool
is_negative a = ltb_ℤ a (pos 0)

-- `x != y` and `x == y` on bools.
abbrev pub differ : Bool → Bool → Bool
differ true b = not b
differ false b = b

-- Go's `a / b` and `a % b` on int64, `b` not 0: the quotient is truncated towards 0 and wraps
-- around, the remainder has the sign of `a`.
unfoldable pub quotient : ℤ → ℤ → ℤ
quotient a b =
    let q = magnitude a / magnitude b in
    if differ (is_negative a) (is_negative b) then sub_ℕ 0 q else pos q

unfoldable pub divide : ℤ → ℤ → ℤ
unfolding quotient
divide a b = wrap (quotient a b)

unfoldable pub remainder : ℤ → ℤ → ℤ
remainder a b = let r = magnitude a % magnitude b in if is_negative a then sub_ℕ 0 r else pos r

bits : (ℕ → ℕ → ℕ) → ℤ → ℤ → ℤ
bits f a b = of_uint64 (f (to_uint64 a) (to_uint64 b))

module _ (fl : Floats) where
  open fl use {of_int64, to_int64, add_float, sub_float, mul_float, div_float, mod_float}

  -- The case '+'. The test tells whether the sum has wrapped around.
  unfoldable pub add_integers : ℤ → ℤ → Value
  add_integers a b =
      let r = wrap (a +ℤ b) in
      if differ (ltb_ℤ a r) (ltb_ℤ (pos 0) b)
      then double (add_float (of_int64 a) (of_int64 b))
      else integer r

  -- The case '*'.
  unfoldable pub mul_integers : ℤ → ℤ → Value
  mul_integers a b =
      let r = wrap (a *ℤ b) in
      if eqb_ℤ a (pos 0) || eqb_ℤ b (pos 0)
      then integer (pos 0)
      else if differ (is_negative r) (differ (is_negative a) (is_negative b))
      then double (mul_float (of_int64 a) (of_int64 b))
      else if eqb_ℤ (divide r b) a
      then integer r
      else double (mul_float (of_int64 a) (of_int64 b))

  -- calculateIntegers
  unfoldable pub calculate_integers : Arithmetic → ℤ → ℤ → Value
  unfolding bits
  calculate_integers plus a b = add_integers a b
  calculate_integers minus a b = add_integers a (wrap (pos 0 -ℤ b))
  calculate_integers times a b = mul_integers a b
  calculate_integers over a b = if eqb_ℤ b (pos 0) then null else integer (divide a b)
  calculate_integers modulo a b = if eqb_ℤ b (pos 0) then null else integer (remainder a b)
  calculate_integers bitwise_and a b = integer (bits bit_and a b)
  calculate_integers bitwise_or a b = integer (bits bit_or a b)
  calculate_integers bitwise_xor a b = integer (bits bit_xor a b)

  -- calculateFloats
  unfoldable pub calculate_floats : Arithmetic → ℕ → ℕ → Value
  unfolding bits
  calculate_floats plus a b = double (add_float a b)
  calculate_floats minus a b = double (sub_float a b)
  calculate_floats times a b = double (mul_float a b)
  calculate_floats over a b = if double_eq b 0 then null else double (div_float a b)
  calculate_floats modulo a b = let m = mod_float a b in if is_nan m then null else double m
  calculate_floats bitwise_and a b = integer (bits bit_and (to_int64 a) (to_int64 b))
  calculate_floats bitwise_or a b = integer (bits bit_or (to_int64 a) (to_int64 b))
  calculate_floats bitwise_xor a b = integer (bits bit_xor (to_int64 a) (to_int64 b))

  -- calculateValues: two numbers are calculated as integers if both are, else as doubles; all
  -- other values give null.
  unfoldable pub calculate_values : Arithmetic → Value → Value → Value
  calculate_values op (integer a) (integer b) = calculate_integers op a b
  calculate_values op (integer a) (double b) = calculate_floats op (of_int64 a) b
  calculate_values op (double a) (integer b) = calculate_floats op a (of_int64 b)
  calculate_values op (double a) (double b) = calculate_floats op a b
  calculate_values op a b = null
