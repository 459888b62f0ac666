-- ===== src/Document/Calculate/Integers.antt =====
-- The arithmetic of two int64s against the integers.
use genji.Prelude.{
  ℕ, ◌*◌, ◌/◌, ◌≤◌, ◌<◌, Bool, true, false, ◌&&◌, ◌||◌, ◌≡◌, ◌≢◌, refl, ap, ◌∙◌, arith,
}
use genji.Prelude.{ltb, leb, if◌then◌else◌, Bool-cases, inl, inr}
use genji.Prelude.Int.{
  ℤ, pos, negsuc, sub_ℕ, pos_part, neg_part, ◌+ℤ◌, ◌-ℤ◌, ◌*ℤ◌, eqb_ℤ, eq_of_parts,
}
use genji.Prelude.Int.{wrap, half64, min_int64, ◌≤ℤ◌, ◌<ℤ◌, InInt64, wrap_in_range, wrap-InInt64}
use genji.Document.{Value, integer, double}
use genji.Document.Floats.{Floats}
use native.Mathlib.Nat.{mul-div_cancel, div-le_self, le-div_iff_mul-le}
use genji.Document.Calculate.{
  minus, magnitude, is_negative, differ, divide, add_integers, mul_integers, calculate_integers,
}

-- Is the integer an int64?
abbrev pub fits : ℤ → Bool
fits a = ltb (pos_part a) half64 && leb (neg_part a) half64

module _ (fl : Floats) where
  -- A sum of two int64s is exact where it is an int64, and else the sum of the two doubles.
  pub add_integers_exact :
      (a b : ℤ)
      → InInt64 a
      → InInt64 b
      → add_integers fl a b ≡ (
          if fits (a +ℤ b)
          then integer (a +ℤ b)
          else double (fl.add_float (fl.of_int64 a) (fl.of_int64 b)))
  unfolding add_integers wrap ◌+ℤ◌
  add_integers_exact a b ha hb = ground arith

negate_lem : (b : ℤ) → InInt64 b → b ≢ min_int64 → wrap (pos 0 -ℤ b) ≡ pos 0 -ℤ b
unfolding wrap ◌-ℤ◌
negate_lem b h n = ground arith

negate-InInt64 : (b : ℤ) → InInt64 b → b ≢ min_int64 → InInt64 (pos 0 -ℤ b)
unfolding ◌-ℤ◌
negate-InInt64 b h n = ground arith

add-negate : (a b : ℤ) → a +ℤ (pos 0 -ℤ b) ≡ a -ℤ b
unfolding ◌+ℤ◌ ◌-ℤ◌
add-negate a b = ground arith

negate_min : wrap (pos 0 -ℤ min_int64) ≡ min_int64
unfolding wrap ◌-ℤ◌
negate_min = refl

module _ (fl : Floats) where
  -- A difference of two int64s is exact where it is an int64 and the second number is not the least int64, and
  -- else the sum of the first double and the negated second.
  pub calculate_integers-minus :
      (a b : ℤ)
      → InInt64 a
      → InInt64 b
      → b ≢ min_int64
      → calculate_integers fl minus a b ≡ (
          if fits (a -ℤ b)
          then integer (a -ℤ b)
          else double (fl.add_float (fl.of_int64 a) (fl.of_int64 (pos 0 -ℤ b))))
  unfolding calculate_integers
  calculate_integers-minus a b ha hb n =
      rw (negate_lem b hb n, ← add-negate a b)
        (add_integers_exact fl a _ ha (negate-InInt64 b hb n))

  -- Taking the least int64 from an int64 that is not negative gives an integer below that number,
  -- though the difference is above it and no int64.
  pub calculate_integers-minus_min :
      (a : ℤ)
      → InInt64 a
      → pos 0 ≤ℤ a
      → (r : ℤ) × (calculate_integers fl minus a min_int64 ≡ integer r)
        × (r <ℤ a)
        × (fits (a -ℤ min_int64) ≡ false)
  unfolding calculate_integers add_integers wrap ◌+ℤ◌ ◌-ℤ◌
  calculate_integers-minus_min a h k =
      (wrap (a +ℤ min_int64), ground arith, ground arith, ground arith)

*ℤ_signed :
    (a b : ℤ)
    → a *ℤ b ≡ (
        if differ (is_negative a) (is_negative b)
        then sub_ℕ 0 (magnitude a * magnitude b)
        else pos (magnitude a * magnitude b))
unfolding ◌*ℤ◌
*ℤ_signed (pos a) (pos b) = ground arith
*ℤ_signed (pos a) (negsuc b) = ground arith
*ℤ_signed (negsuc a) (pos b) = ground arith
*ℤ_signed (negsuc a) (negsuc b) = ground arith

-- The product `m` of two magnitudes, as the tests of the code see it: `x` is |a| and `y` is |b|.
product-div : (x y : ℕ) → 0 < y → x * y / y ≡ x
product-div x y h = mul-div_cancel x h

quotient-ge : (r x y : ℕ) → 0 < y → r / y ≡ x → x * y ≤ r
quotient-ge r x y h e = (le-div_iff_mul-le h).0 (omega arith)

product-pos : (x y : ℕ) → 0 < x → 0 < y → 0 < x * y
product-pos x y h k = grind arith

-- A quotient that passes both tests of the code has the magnitude of `a`.
passed-quotient :
    (a b r : ℤ) (q : ℕ)
    → InInt64 r
    → 0 < magnitude a
    → q ≤ magnitude r
    → differ (is_negative r) (differ (is_negative a) (is_negative b)) ≡ false
    → wrap (if differ (is_negative r) (is_negative b) then sub_ℕ 0 q else pos q) ≡ a
    → q ≡ magnitude a
unfolding wrap
passed-quotient a b r q hr na le sign e = ground arith

exact-quotient :
    (a b p : ℤ) (q : ℕ)
    → InInt64 a
    → 0 < magnitude a
    → q ≡ magnitude a
    → is_negative p ≡ differ (is_negative a) (is_negative b)
    → wrap (if differ (is_negative p) (is_negative b) then sub_ℕ 0 q else pos q) ≡ a
unfolding wrap
exact-quotient a b p q ha na e sign = ground arith

signed_product :
    (a b p : ℤ) (m : ℕ)
    → 0 < m
    → p ≡ (if differ (is_negative a) (is_negative b) then sub_ℕ 0 m else pos m)
    → (is_negative p ≡ differ (is_negative a) (is_negative b)) × (magnitude p ≡ m)
signed_product a b p m nm e = ground arith

module _ (fl : Floats) (a b p : ℤ) where
  abbrev rounded : Value
  rounded = double (fl.mul_float (fl.of_int64 a) (fl.of_int64 b))

  -- The tests of the code, for the wrapped product `r`.
  abbrev tested : ℤ → Value
  tested r =
      if differ (is_negative r) (differ (is_negative a) (is_negative b))
      then rounded
      else if eqb_ℤ (divide r b) a
      then integer r
      else rounded

  product_fits :
      InInt64 a
      → 0 < magnitude a
      → is_negative p ≡ differ (is_negative a) (is_negative b)
      → magnitude p / magnitude b ≡ magnitude a
      → tested p ≡ integer p
  unfolding divide
  product_fits ha na sign e = ground (arith, exact-quotient a b p _ ha na e sign)

  product_wraps :
      (r : ℤ)
      → InInt64 r
      → 0 < magnitude a
      → (magnitude r / magnitude b ≡ magnitude a → magnitude p ≤ magnitude r)
      → is_negative p ≡ differ (is_negative a) (is_negative b)
      → fits p ≡ false
      → tested r ≡ rounded
  unfolding divide
  product_wraps r hr na least sign big =
      ground
        (arith, passed-quotient a b r (magnitude r / magnitude b) hr na (div-le_self _ _), least)

zero-*ℤ : (b : ℤ) → pos 0 *ℤ b ≡ pos 0
unfolding ◌*ℤ◌
zero-*ℤ b = ground arith

*ℤ-zero : (a : ℤ) → a *ℤ pos 0 ≡ pos 0
unfolding ◌*ℤ◌
*ℤ-zero a = ground arith

zero_product : (a b : ℤ) → (eqb_ℤ a (pos 0) || eqb_ℤ b (pos 0)) ≡ true → a *ℤ b ≡ pos 0
zero_product a b h =
    ground (arith, zero-*ℤ b, *ℤ-zero a, eq_of_parts a (pos 0), eq_of_parts b (pos 0))

module _ (fl : Floats) (a b : ℤ) (ha : InInt64 a) (hb : InInt64 b) where
  nonzero_product :
      0 < magnitude a
      → 0 < magnitude b
      → tested fl a b (a *ℤ b) (wrap (a *ℤ b))
        ≡ (if fits (a *ℤ b) then integer (a *ℤ b) else rounded fl a b (a *ℤ b))
  nonzero_product na nb = elim (Bool-cases (fits (a *ℤ b))) [
    | inl inside ↦
        rw (inside, wrap_in_range (a *ℤ b) (ground arith))
          (product_fits fl a b (a *ℤ b) ha na sign
            (ap (λ m. m / magnitude b) size ∙ product-div _ _ nb))
    | inr outside ↦ rw outside (
        product_wraps fl a b (a *ℤ b) (wrap (a *ℤ b)) (wrap-InInt64 (a *ℤ b)) na
          (λ e. rw size (quotient-ge _ _ _ nb e)) sign outside)
  ]
    where
      parts :
          (is_negative (a *ℤ b) ≡ differ (is_negative a) (is_negative b))
          × (magnitude (a *ℤ b) ≡ magnitude a * magnitude b)
      parts = signed_product a b (a *ℤ b) _ (product-pos _ _ na nb) (*ℤ_signed a b)

      sign : is_negative (a *ℤ b) ≡ differ (is_negative a) (is_negative b)
      sign = parts.0

      size : magnitude (a *ℤ b) ≡ magnitude a * magnitude b
      size = parts.1

  -- A product of two int64s is exact where it is an int64, and else the product of the two doubles.
  pub mul_integers_exact : mul_integers fl a b ≡ (
      if fits (a *ℤ b)
      then integer (a *ℤ b)
      else double (fl.mul_float (fl.of_int64 a) (fl.of_int64 b)))
  unfolding mul_integers
  mul_integers_exact = elim (Bool-cases (eqb_ℤ a (pos 0) || eqb_ℤ b (pos 0))) [
    | inl z ↦ rw (z, zero_product a b z) refl
    | inr z ↦ rw z (nonzero_product (ground arith) (ground arith))
  ]
