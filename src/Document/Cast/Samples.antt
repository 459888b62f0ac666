-- ===== src/Document/Cast/Samples.antt =====
-- A few casts.
use genji.Prelude.{◌≡◌, ◌⊎◌, refl, none, some, [], ◌∷◌}
use genji.Prelude.Int.{pos}
use genji.Document.{null, integer, text, integer_value, type_of, same_type, type_code}
use genji.Document.Floats.{Floats}
use genji.Document.Cast.{Texts, cast_as, cast_to, cast_as_integer, integer_of_text}
use genji.Document.Cast.Laws.{cast_as-type_of}

abbrev zero_floats : Floats
zero_floats = record {
  of_int64 = λ i. 0;
  to_int64 = λ d. pos 0;
  add_float = λ x y. 0;
  sub_float = λ x y. 0;
  mul_float = λ x y. 0;
  div_float = λ x y. 0;
  mod_float = λ x y. 0;
}

-- A library that parses every text as 7 and nothing else.
abbrev sevens : Texts
sevens = record {
  parse_bool = λ s. none;
  parse_int = λ s. some (pos 7);
  parse_float = λ s. none;
  unquote = λ s. none;
  decode_base64 = λ s. none;
  marshal_json = λ v. none;
  array_of_json = λ s. none;
  document_of_json = λ s. none;
}

cast_as-type_of_example :
    (type_of (integer (pos 7)) ≡ integer_value)
    ⊎ ((text (55 ∷ []) ≡ null) × (integer (pos 7) ≡ null))
unfolding cast_as cast_to cast_as_integer integer_of_text same_type type_of type_code
cast_as-type_of_example =
    cast_as-type_of zero_floats sevens integer_value (text (55 ∷ [])) (integer (pos 7)) refl
