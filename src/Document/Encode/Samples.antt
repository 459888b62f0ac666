-- ===== src/Document/Encode/Samples.antt =====
-- Encodings of small values.
use genji.Prelude.{◌≡◌, refl, [], ◌∷◌, compare_bytes, Ordering, arith}
use genji.Document.{null, integer, text, array, nil, cons}
use genji.Prelude.Int.{negsuc}
use genji.Binarysort.{letters, sextets}
use genji.Document.Encode.{Base64, append_value}
use genji.Document.Encode.Natural.{IsSortable, natural_order}
use genji.Document.Encode.Sorts.{append_value-compare}

abbrev pub signs : Base64
signs = record {
  encode = λ alphabet s. letters alphabet (sextets s);
  encode-sextets = λ alphabet s h. refl;
}

append_value-compare_example :
    compare_bytes
      (append_value signs (array (cons (integer (negsuc 0)) (cons (text (97 ∷ [])) nil))))
      (append_value signs
        (array (cons (integer (negsuc 0)) (cons (text (97 ∷ 98 ∷ [])) (cons null nil)))))
    ≡ Ordering.lt
unfolding natural_order compare_bytes IsSortable
append_value-compare_example =
    append_value-compare signs (array (cons (integer (negsuc 0)) (cons (text (97 ∷ [])) nil)))
      (array (cons (integer (negsuc 0)) (cons (text (97 ∷ 98 ∷ [])) (cons null nil))))
      ((omega arith, omega arith), ((omega arith, tt), tt))
      ((omega arith, omega arith), ((omega arith, (omega arith, tt)), (tt, tt)))
