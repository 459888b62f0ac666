-- ===== src/Binarysort/Order.antt =====
-- The byte order of the encodings against the order of the values.
use genji.Prelude.{
  ℕ, zero, suc, ◌+◌, ◌/◌, ◌%◌, ◌^◌, ◌<◌, ◌≡◌, ◌≢◌, refl, ◌∙◌, compare, Ordering, arith,
}
use genji.Prelude.{Bool, true, false, [], Bytes, compare_bytes, compare_bytes-append, then_compare}
use genji.Prelude.Int.{ℤ, InInt64, to_uint64, compare_ℤ, half64, mod64}
use genji.Prelude.Double.{is_nan, rank, negative_zero}
use genji.Binarysort.{
  big_endian, append_bool, append_uint64, append_int64, append_float64, float_bits,
}
use native.Mathlib.Nat.{pow-suc}

big_endian-compare :
    (n x y : ℕ) (s t : Bytes)
    → x < 256 ^ n
    → y < 256 ^ n
    → compare_bytes (big_endian n x s) (big_endian n y t)
      ≡ then_compare (compare x y) (compare_bytes s t)
unfolding big_endian
big_endian-compare zero x y s t hx hy = ground arith
big_endian-compare (suc n) x y s t hx hy =
    big_endian-compare n (x / 256) (y / 256) _ _ (omega (arith, pow-suc 256 n))
      (omega (arith, pow-suc 256 n))
    ∙ unfold compare_bytes in ground arith

-- On uint64s the encodings behind one prefix compare as the numbers do.
pub append_uint64-compare :
    (buf : Bytes) (x y : ℕ)
    → x < mod64
    → y < mod64
    → compare_bytes (append_uint64 buf x) (append_uint64 buf y) ≡ compare x y
unfolding append_uint64
append_uint64-compare buf x y hx hy =
    compare_bytes-append buf _ _
    ∙ big_endian-compare 8 x y [] [] (omega arith) (omega arith)
    ∙ unfold compare_bytes in ground arith

uint64_of_int : (a : ℤ) → InInt64 a → (to_uint64 a + half64) % mod64 < mod64
unfolding to_uint64
uint64_of_int a h = omega arith

shifted-compare :
    (a b : ℤ)
    → InInt64 a
    → InInt64 b
    → compare ((to_uint64 a + half64) % mod64) ((to_uint64 b + half64) % mod64) ≡ compare_ℤ a b
unfolding to_uint64
shifted-compare a b ha hb = ground arith

-- The encodings of two int64s behind one prefix compare as the signed integers do.
pub append_int64-compare :
    (buf : Bytes) (a b : ℤ)
    → InInt64 a
    → InInt64 b
    → compare_bytes (append_int64 buf a) (append_int64 buf b) ≡ compare_ℤ a b
unfolding append_int64
append_int64-compare buf a b ha hb =
    append_uint64-compare buf _ _ (uint64_of_int a ha) (uint64_of_int b hb)
    ∙ shifted-compare a b ha hb

-- false comes before true.
abbrev pub compare_bool : Bool → Bool → Ordering
compare_bool false true = Ordering.lt
compare_bool true false = Ordering.gt
compare_bool _ _ = Ordering.eq

-- The encodings of two bools behind one prefix compare with false before true.
pub append_bool-compare :
    (buf : Bytes) (a b : Bool)
    → compare_bytes (append_bool buf a) (append_bool buf b) ≡ compare_bool a b
unfolding append_bool
append_bool-compare buf true true = compare_bytes-append buf _ _ ∙ unfold compare_bytes in refl
append_bool-compare buf true false = compare_bytes-append buf _ _ ∙ unfold compare_bytes in refl
append_bool-compare buf false true = compare_bytes-append buf _ _ ∙ unfold compare_bytes in refl
append_bool-compare buf false false = compare_bytes-append buf _ _ ∙ unfold compare_bytes in refl

-- A float64 that is a number and not -0.0.
abbrev pub IsOrdered : ℕ → Type 0
IsOrdered x = (x < mod64) × (is_nan x ≡ false) × (x ≢ negative_zero)

float_bits-lt : (x : ℕ) → x < mod64 → float_bits x < mod64
unfolding float_bits
float_bits-lt x h = ground arith

float_bits-compare :
    (x y : ℕ)
    → IsOrdered x
    → IsOrdered y
    → compare (float_bits x) (float_bits y) ≡ compare_ℤ (rank x) (rank y)
unfolding float_bits
float_bits-compare x y hx hy = ground arith

-- The encodings of two float64s that are no NaN and not -0.0, behind one prefix, compare as the
-- numbers do.
pub append_float64-compare :
    (buf : Bytes) (x y : ℕ)
    → IsOrdered x
    → IsOrdered y
    → compare_bytes (append_float64 buf x) (append_float64 buf y) ≡ compare_ℤ (rank x) (rank y)
unfolding append_float64
append_float64-compare buf x y hx hy =
    append_uint64-compare buf _ _ (float_bits-lt x hx.0) (float_bits-lt y hy.0)
    ∙ float_bits-compare x y hx hy

negative_zero-first :
    (x : ℕ) → IsOrdered x → compare (float_bits negative_zero) (float_bits x) ≡ Ordering.lt
unfolding float_bits
negative_zero-first x h = ground arith

-- -0.0 is encoded before every other number, the negative ones and -Inf included.
pub append_float64-negative_zero :
    (buf : Bytes) (x : ℕ)
    → IsOrdered x
    → compare_bytes (append_float64 buf negative_zero) (append_float64 buf x) ≡ Ordering.lt
unfolding append_float64
append_float64-negative_zero buf x h =
    append_uint64-compare buf _ _ (float_bits-lt negative_zero (omega arith)) (float_bits-lt x h.0)
    ∙ negative_zero-first x h
