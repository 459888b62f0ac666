-- ===== src/Binarysort/RoundTrip.antt =====
-- Decoding what was encoded (internal/binarysort/binarysort.go).
use genji.Prelude.{
  ℕ, zero, suc, ◌+◌, ◌-◌, ◌*◌, ◌/◌, ◌%◌, ◌^◌, ◌<◌, ◌≤◌, ◌≡◌, ◌≢◌, ◌↔◌, ◌⊎◌, refl, sym, ◌∙◌, arith,
}
use genji.Prelude.{Bool, true, false, [], ◌∷◌, ◌++◌, Bytes, length, length-append, ap, ap₂}
use genji.Prelude.Int.{ℤ, InInt64, to_uint64, of_uint64, half64, mod64}
use genji.Prelude.Double.{is_nan, negative_zero}
use genji.Prelude.Results.{ok, ok-injective}
use genji.Binarysort.{big_endian, uint_of, append_bool, decode_bool, append_uint64, decode_uint64}
use genji.Binarysort.{
  append_int64, decode_int64, decode_int64_of, append_float64, decode_float64, float_bits,
  float_bits_back,
}
use native.Mathlib.Nat.{pow-suc}

-- `k` counts the bytes of `x` and the `m` bytes that follow.
uint_of-big_endian :
    (n m k acc x : ℕ) (s : Bytes)
    → k ≡ n + m
    → x < 256 ^ n
    → uint_of k acc (big_endian n x s) ≡ uint_of m (acc * 256 ^ n + x) s
unfolding big_endian
uint_of-big_endian zero m k acc x s e h = ap₂ (λ i a. uint_of i a s) (omega arith) (omega arith)
uint_of-big_endian (suc n) m k acc x s e h =
    uint_of-big_endian n (suc m) k acc (x / 256) _ (omega arith) (omega (arith, pow-suc 256 n))
    ∙ unfold uint_of in
      ap (λ a. uint_of m a s) (omega (arith, ap (λ (t : ℕ). acc * t) (pow-suc 256 n)))

big_endian-append : (n x : ℕ) (s t : Bytes) → big_endian n x s ++ t ≡ big_endian n x (s ++ t)
unfolding big_endian
big_endian-append zero x s t = refl
big_endian-append (suc n) x s t = big_endian-append n (x / 256) ((x % 256) ∷ s) t

pub length-big_endian : (n x : ℕ) (s : Bytes) → length (big_endian n x s) ≡ n + length s
unfolding big_endian
length-big_endian zero x s = omega arith
length-big_endian (suc n) x s = omega (arith, length-big_endian n (x / 256) ((x % 256) ∷ s))

uint_of-append_uint64 :
    (x : ℕ) (rest : Bytes) → x < mod64 → uint_of 8 0 (append_uint64 [] x ++ rest) ≡ x
unfolding append_uint64
uint_of-append_uint64 x rest h =
    ap (λ s. uint_of 8 0 s) (big_endian-append 8 x [] rest)
    ∙ uint_of-big_endian 8 0 8 0 x rest refl (omega arith)
    ∙ unfold uint_of in omega arith

length-append_uint64 : (x : ℕ) (rest : Bytes) → 8 ≤ length (append_uint64 [] x ++ rest)
unfolding append_uint64
length-append_uint64 x rest =
    omega (arith, length-append (big_endian 8 x []) rest, length-big_endian 8 x [])

-- `DecodeUint64` reads back the uint64 that `AppendUint64` wrote, whatever follows it.
pub decode_uint64-append_uint64 :
    (x : ℕ) (rest : Bytes) → x < mod64 → decode_uint64 (append_uint64 [] x ++ rest) ≡ ok x
unfolding decode_uint64
decode_uint64-append_uint64 x rest h =
    ground (arith, length-append_uint64 x rest, uint_of-append_uint64 x rest h)

unshift :
    (a : ℤ) → InInt64 a → of_uint64 (((to_uint64 a + half64) % mod64 + mod64 - half64) % mod64) ≡ a
unfolding of_uint64 to_uint64
unshift a h = ground arith

-- `DecodeInt64` reads back the int64 that `AppendInt64` wrote, whatever follows it.
pub decode_int64-append_int64 :
    (a : ℤ) (rest : Bytes) → InInt64 a → decode_int64 (append_int64 [] a ++ rest) ≡ ok a
unfolding decode_int64 append_int64
decode_int64-append_int64 a rest h =
    ap decode_int64_of (decode_uint64-append_uint64 _ rest (omega arith)) ∙ ap ok (unshift a h)

pub decode_bool-append_bool :
    (b : Bool) (rest : Bytes) → decode_bool (append_bool [] b ++ rest) ≡ ok b
unfolding decode_bool append_bool
decode_bool-append_bool true rest = refl
decode_bool-append_bool false rest = refl

-- The float64s that survive: not -0.0, and no NaN with a clear sign bit.
abbrev pub Survives : ℕ → Type 0
Survives x = (x ≢ negative_zero) × ((is_nan x ≡ false) ⊎ (half64 ≤ x))

float_bits-lt : (x : ℕ) → x < mod64 → float_bits x < mod64
unfolding float_bits
float_bits-lt x h = ground arith

decode_float64-bits :
    (x : ℕ) (rest : Bytes)
    → x < mod64
    → decode_float64 (append_float64 [] x ++ rest) ≡ ok (float_bits_back (float_bits x))
unfolding decode_float64 append_float64
decode_float64-bits x rest h = ground (
  arith,
  length-append_uint64 (float_bits x) rest,
  uint_of-append_uint64 (float_bits x) rest (float_bits-lt x h),
)

back_iff : (x : ℕ) → x < mod64 → (float_bits_back (float_bits x) ≡ x) ↔ Survives x
unfolding float_bits
back_iff x h = (λ e. (λ p. ground arith, ground arith), λ s. ground arith)

-- `DecodeFloat64` reads back the bits that `AppendFloat64` wrote, whatever follows them, exactly
-- when the float64 is not -0.0 and no NaN with a clear sign bit.
pub decode_float64-append_float64 :
    (x : ℕ) (rest : Bytes)
    → x < mod64
    → (decode_float64 (append_float64 [] x ++ rest) ≡ ok x) ↔ Survives x
decode_float64-append_float64 x rest h = (
  λ e. (back_iff x h).0 (ok-injective (sym (decode_float64-bits x rest h) ∙ e)),
  λ s. decode_float64-bits x rest h ∙ ap ok ((back_iff x h).1 s),
)
