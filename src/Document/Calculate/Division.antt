-- ===== src/Document/Calculate/Division.antt =====
-- Division and remainder of two int64s.
use genji.Prelude.{
  ℕ, ◌+◌, ◌*◌, ◌/◌, ◌%◌, ◌≤◌, ◌<◌, Bool, false, ◌&&◌, ◌≡◌, ◌≢◌, refl, ap, ◌∙◌, arith,
}
use genji.Prelude.{if◌then◌else◌}
use genji.Prelude.Int.{ℤ, pos, negsuc, sub_ℕ, ◌+ℤ◌, ◌*ℤ◌, eqb_ℤ, eq_of_parts}
use genji.Prelude.Int.{min_int64, InInt64, wrap_in_range}
use genji.Document.{null, integer}
use genji.Document.Floats.{Floats}
use genji.Document.Calculate.{
  over, modulo, magnitude, is_negative, differ, quotient, divide, remainder, calculate_integers,
}
use native.Mathlib.Nat.{div-add-mod', mod-lt, div-le_self}

-- The signs of the quotient `q` and the remainder `r` of the magnitudes.
signed_division :
    (a b : ℤ) (q r t : ℕ)
    → t + r ≡ magnitude a
    → (if is_negative a then sub_ℕ 0 t else pos t) +ℤ (if is_negative a then sub_ℕ 0 r else pos r)
      ≡ a
unfolding ◌+ℤ◌
signed_division a b q r t e = ground arith

signed_quotient :
    (a b : ℤ) (q : ℕ)
    → 0 < magnitude b
    → (if differ (is_negative a) (is_negative b) then sub_ℕ 0 q else pos q) *ℤ b
      ≡ (if is_negative a then sub_ℕ 0 (q * magnitude b) else pos (q * magnitude b))
unfolding ◌*ℤ◌
signed_quotient a (pos b) q h = grind arith
signed_quotient a (negsuc b) q h = grind arith

pub quotient-remainder : (a b : ℤ) → 0 < magnitude b → quotient a b *ℤ b +ℤ remainder a b ≡ a
unfolding quotient remainder
quotient-remainder a b h =
    ap (λ t. t +ℤ remainder a b) (signed_quotient a b (magnitude a / magnitude b) h)
    ∙ signed_division a b (magnitude a / magnitude b) (magnitude a % magnitude b) _
        (div-add-mod' _ _)

magnitude-remainder : (a b : ℤ) → 0 < magnitude b → magnitude (remainder a b) < magnitude b
unfolding remainder
magnitude-remainder a b h = ground (arith, mod-lt (magnitude a) h)

-- Only -2^63 / -1 leaves the range.
abbrev pub overflows : ℤ → ℤ → Bool
overflows a b = eqb_ℤ a min_int64 && eqb_ℤ b (negsuc 0)

div-small : (m n : ℕ) → 1 < n → m ≤ 9223372036854775808 → m / n < 9223372036854775808
div-small m n h k = grind arith

quotient_range :
    (a b : ℤ) (q : ℕ)
    → InInt64 a
    → 0 < magnitude b
    → overflows a b ≡ false
    → q ≤ magnitude a
    → (1 < magnitude b → q < 9223372036854775808)
    → InInt64 (if differ (is_negative a) (is_negative b) then sub_ℕ 0 q else pos q)
quotient_range a b q h n o le small = ground (arith, small)

quotient-InInt64 :
    (a b : ℤ) → InInt64 a → 0 < magnitude b → overflows a b ≡ false → InInt64 (quotient a b)
unfolding quotient
quotient-InInt64 a b h n o =
    quotient_range a b (magnitude a / magnitude b) h n o (div-le_self _ _)
      (λ k. div-small (magnitude a) (magnitude b) k (ground arith))

eqb-ne : (b : ℤ) → b ≢ pos 0 → eqb_ℤ b (pos 0) ≡ false
eqb-ne b n = ground (arith, eq_of_parts b (pos 0))

module _ (fl : Floats) where
  -- Division and modulo by an int64 that is not 0, other than -2^63 / -1, give integers: the
  -- quotient times the divisor plus the remainder is the dividend, and the remainder is smaller
  -- than the divisor.
  pub calculate_integers-over :
      (a b : ℤ)
      → InInt64 a
      → b ≢ pos 0
      → overflows a b ≡ false
      → (q r : ℤ) × (calculate_integers fl over a b ≡ integer q)
        × (calculate_integers fl modulo a b ≡ integer r)
        × (q *ℤ b +ℤ r ≡ a)
        × (magnitude r < magnitude b)
  unfolding calculate_integers divide
  calculate_integers-over a b h n o =
      let apart = eqb-ne b n in
      (
        quotient a b,
        remainder a b,
        rw (apart, wrap_in_range (quotient a b) (quotient-InInt64 a b h (ground arith) o)) refl,
        rw apart refl,
        quotient-remainder a b (ground arith),
        magnitude-remainder a b (ground arith),
      )

  -- Division and modulo by 0 give null.
  pub calculate_integers-over_zero :
      (a : ℤ)
      → (calculate_integers fl over a (pos 0) ≡ null)
        × (calculate_integers fl modulo a (pos 0) ≡ null)
  unfolding calculate_integers
  calculate_integers-over_zero a = (refl, refl)
