-- ===== src/Document/Buffer/Samples.antt =====
-- Paths into a small document.
use genji.Prelude.{◌≡◌, refl, List, [], ◌∷◌, bytes_eq}
use genji.Prelude.Int.{pos}
use genji.Prelude.Results.{ok}
use genji.Document.{Fields, integer, array, nil, cons, end, field}
use genji.Document.Buffer.{
  PathFragment, get_by_field, set, get_value_from_document, get_value_from_value, get_by_index,
}
use genji.Document.Buffer.PathLaws.{get_value-set}

-- {b: [1, 2], a: 3}
abbrev nested : Fields
nested =
    field (98 ∷ []) (array (cons (integer (pos 1)) (cons (integer (pos 2)) nil)))
      (field (97 ∷ []) (integer (pos 3)) end)

abbrev second_of_b : List PathFragment
second_of_b =
    record { field_name = 98 ∷ []; array_index = 0 }
    ∷ record { field_name = []; array_index = 1 }
    ∷ []

get_value-set_example :
    (fs' : Fields) × (set nested second_of_b (integer (pos 7)) ≡ ok fs')
    × (get_value_from_document fs' second_of_b ≡ ok (integer (pos 7)))
unfolding get_value_from_document get_value_from_value get_by_field get_by_index bytes_eq
get_value-set_example = get_value-set nested second_of_b (integer (pos 7)) (integer (pos 2)) refl
