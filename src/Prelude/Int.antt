-- ===== src/Prelude/Int.antt =====
-- Signed integers over the native numbers, under the library's names, and Go's `int64`:
-- an integer in range, with the wrap-around of its operations written out.
use Prim.Native.Nat.{ℕ, suc, compare, Ordering, ◌+◌, ◌-◌, ◌*◌, ◌%◌, ◌≤◌, ◌<◌}
use mathlib.Core.Path.{◌≡◌}
use mathlib.Core.Bool.{Bool}
use native.Mathlib.Omega.{arith}
use genji.Prelude.Tests.{ltb, leb, ◌==◌, if◌then◌else◌}

-- `negsuc n` is -(n + 1).
pub data ℤ : Type 0 where
  pos : ℕ → ℤ
  negsuc : ℕ → ℤ

abbrev pub pos_part : ℤ → ℕ
pos_part (pos n) = n
pos_part (negsuc n) = 0

abbrev pub neg_part : ℤ → ℕ
neg_part (pos n) = 0
neg_part (negsuc n) = suc n

-- a - b, as an integer.
abbrev pub sub_ℕ : ℕ → ℕ → ℤ
sub_ℕ a b = if leb b a then pos (a - b) else negsuc (b - a - 1)

infixl 65 ◌+ℤ◌ ◌-ℤ◌
infixl 70 ◌*ℤ◌
infix 50 ◌≤ℤ◌ ◌<ℤ◌
unfoldable pub ◌+ℤ◌ : ℤ → ℤ → ℤ
a +ℤ b = sub_ℕ (pos_part a + pos_part b) (neg_part a + neg_part b)

unfoldable pub ◌-ℤ◌ : ℤ → ℤ → ℤ
a -ℤ b = sub_ℕ (pos_part a + neg_part b) (neg_part a + pos_part b)

unfoldable pub ◌*ℤ◌ : ℤ → ℤ → ℤ
a *ℤ b =
    sub_ℕ (pos_part a * pos_part b + neg_part a * neg_part b)
      (pos_part a * neg_part b + neg_part a * pos_part b)

abbrev pub ◌≤ℤ◌ : ℤ → ℤ → Type 0
a ≤ℤ b = pos_part a + neg_part b ≤ pos_part b + neg_part a

abbrev pub ◌<ℤ◌ : ℤ → ℤ → Type 0
a <ℤ b = pos_part a + neg_part b < pos_part b + neg_part a

abbrev pub ltb_ℤ : ℤ → ℤ → Bool
ltb_ℤ a b = ltb (pos_part a + neg_part b) (pos_part b + neg_part a)

abbrev pub leb_ℤ : ℤ → ℤ → Bool
leb_ℤ a b = leb (pos_part a + neg_part b) (pos_part b + neg_part a)

abbrev pub eqb_ℤ : ℤ → ℤ → Bool
eqb_ℤ a b = (pos_part a + neg_part b) == (pos_part b + neg_part a)

pub +ℤ_parts :
    (a b : ℤ)
    → pos_part (a +ℤ b) + neg_part a + neg_part b ≡ neg_part (a +ℤ b) + pos_part a + pos_part b
unfolding ◌+ℤ◌
+ℤ_parts a b = ground arith

pub -ℤ_parts :
    (a b : ℤ)
    → pos_part (a -ℤ b) + neg_part a + pos_part b ≡ neg_part (a -ℤ b) + pos_part a + neg_part b
unfolding ◌-ℤ◌
-ℤ_parts a b = ground arith

pub *ℤ_parts :
    (a b : ℤ)
    → pos_part (a *ℤ b) + (pos_part a * neg_part b + neg_part a * pos_part b)
      ≡ neg_part (a *ℤ b) + (pos_part a * pos_part b + neg_part a * neg_part b)
unfolding ◌*ℤ◌
*ℤ_parts a b = ground arith

pub eq_of_parts : (a b : ℤ) → pos_part a + neg_part b ≡ pos_part b + neg_part a → a ≡ b
eq_of_parts a b h = ground arith

pub ruleset int_laws = (arith, +ℤ_parts, -ℤ_parts, eq_of_parts)

-- 2 ^ 63 and 2 ^ 64.
abbrev pub half64 : ℕ
half64 = 9223372036854775808

abbrev pub mod64 : ℕ
mod64 = 18446744073709551616

abbrev pub max_int64 : ℤ
max_int64 = pos 9223372036854775807

abbrev pub min_int64 : ℤ
min_int64 = negsuc 9223372036854775807

-- The values of Go's `int64`.
abbrev pub InInt64 : ℤ → Type 0
InInt64 a = (pos_part a < half64) × (neg_part a ≤ half64)

-- `uint64(x)` of an integer, and `int64(n)` of a uint64: two's complement.
unfoldable pub to_uint64 : ℤ → ℕ
to_uint64 a = (pos_part a % mod64 + (mod64 - neg_part a % mod64)) % mod64

unfoldable pub of_uint64 : ℕ → ℤ
of_uint64 n = if ltb n half64 then pos n else negsuc (mod64 - 1 - n)

-- The `int64` to which an integer wraps around.
unfoldable pub wrap : ℤ → ℤ
unfolding to_uint64 of_uint64
wrap a = of_uint64 (to_uint64 a)

pub wrap-InInt64 : (a : ℤ) → InInt64 (wrap a)
unfolding wrap
wrap-InInt64 a = ground arith

pub of_uint64-InInt64 : (n : ℕ) → n < mod64 → InInt64 (of_uint64 n)
unfolding of_uint64
of_uint64-InInt64 n h = ground arith

-- A value in range is kept.
pub wrap_in_range : (a : ℤ) → InInt64 a → wrap a ≡ a
unfolding wrap
wrap_in_range a h = ground arith

-- Wrapping moves by a multiple of 2 ^ 64.
pub wrap_low :
    (a : ℤ) → neg_part a ≤ half64 + half64 → half64 < neg_part a → wrap a ≡ a +ℤ pos mod64
unfolding wrap ◌+ℤ◌
wrap_low a h k = ground arith

pub wrap_high : (a : ℤ) → pos_part a < mod64 → half64 ≤ pos_part a → wrap a ≡ a -ℤ pos mod64
unfolding wrap ◌-ℤ◌
wrap_high a h k = ground arith

abbrev pub compare_ℤ : ℤ → ℤ → Ordering
compare_ℤ a b = compare (pos_part a + neg_part b) (pos_part b + neg_part a)
