-- ===== src/Document/Calculate/Samples.antt =====
-- The arithmetic of a few integers.
use genji.Prelude.{◌≡◌, arith}
use genji.Prelude.Int.{pos, negsuc, ◌*ℤ◌}
use genji.Document.{integer}
use genji.Document.Floats.{Floats}
use genji.Document.Calculate.{mul_integers}
use genji.Document.Calculate.Integers.{mul_integers_exact}

-- An arithmetic of doubles in which every result is 0.
abbrev no_floats : Floats
no_floats = record {
  of_int64 = λ i. 0;
  to_int64 = λ d. pos 0;
  add_float = λ x y. 0;
  sub_float = λ x y. 0;
  mul_float = λ x y. 0;
  div_float = λ x y. 0;
  mod_float = λ x y. 0;
}

mul_integers_exact_example : mul_integers no_floats (pos 3) (negsuc 4) ≡ integer (negsuc 14)
unfolding ◌*ℤ◌
mul_integers_exact_example =
    mul_integers_exact no_floats (pos 3) (negsuc 4) (omega arith, omega arith)
      (omega arith, omega arith)
