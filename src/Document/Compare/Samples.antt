-- ===== src/Document/Compare/Samples.antt =====
-- The comparison of a few values.
use genji.Prelude.{◌≡◌, true, [], ◌∷◌}
use genji.Prelude.Int.{pos}
use genji.Document.{Value, null, bool, integer, text, array, document, nil, cons, end, field}
use genji.Document.Floats.{Floats}
use genji.Document.Compare.{operator_gt, operator_lt, compare_value}
use genji.Document.Compare.Mirror.{compare_value-mirror}
use genji.Document.Compare.Consistent.{IsConsistent, compare_value-IsConsistent}

abbrev no_floats : Floats
no_floats = record {
  of_int64 = λ i. 0;
  to_int64 = λ d. pos 0;
  add_float = λ x y. 0;
  sub_float = λ x y. 0;
  mul_float = λ x y. 0;
  div_float = λ x y. 0;
  mod_float = λ x y. 0;
}

-- {a: 1, b: [true, null]}
abbrev sample : Value
sample = document (
    field (97 ∷ []) (integer (pos 1))
      (field (98 ∷ []) (array (cons (bool true) (cons null nil))) end))

compare_value-mirror_example :
    compare_value no_floats (integer (pos 2)) operator_lt sample
    ≡ compare_value no_floats sample operator_gt (integer (pos 2))
compare_value-mirror_example = compare_value-mirror no_floats operator_gt sample (integer (pos 2))

compare_value-IsConsistent_example :
    IsConsistent (λ op. compare_value no_floats sample op (text (97 ∷ [])))
compare_value-IsConsistent_example = compare_value-IsConsistent no_floats sample (text (97 ∷ []))
