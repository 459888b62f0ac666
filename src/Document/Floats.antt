-- ===== src/Document/Floats.antt =====
-- The float64 arithmetic of the language, over bit patterns. It is a parameter; the comparisons of
-- float64s are those of Prelude/Double.
use genji.Prelude.{ℕ}
use genji.Prelude.Int.{ℤ}

pub record Floats : Type 0 where
  -- float64(i) and int64(f)
  pub of_int64 : ℤ → ℕ
  pub to_int64 : ℕ → ℤ
  -- x + y, x - y, x * y, x / y and math.Mod
  pub add_float : ℕ → ℕ → ℕ
  pub sub_float : ℕ → ℕ → ℕ
  pub mul_float : ℕ → ℕ → ℕ
  pub div_float : ℕ → ℕ → ℕ
  pub mod_float : ℕ → ℕ → ℕ
