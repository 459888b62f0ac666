-- ===== src/Document/Compare/Equal.antt =====
-- When two values compare equal: reflexivity, and documents of different lengths.
use genji.Prelude.{Ordering, Bool, true, false, ◌||◌, some, List, [], ◌∷◌, ◌++◌, Bytes, arith}
use genji.Prelude.{◌≡◌, ◌≢◌, refl, ◌∙◌, sym, bytes_eq_self, compare_bytes, compare_bytes_self, All}
use genji.Prelude.{All-map, ◌⊎◌, inl, inr}
use genji.Prelude.Double.{is_nan}
use genji.Document.{Value, null, bool, integer, double, text, blob, array, document}
use genji.Document.{Items, nil, cons, Fields, end, field}
use genji.Document.Floats.{Floats}
use genji.Document.Buffer.{get_by_field, fields, field_names, add}
use genji.Document.Buffer.Sorting.{fields-HasField, fields-ne-nil, fields-add_last}
use genji.Document.Buffer.Lookup.{get_by_field-add}
use genji.Document.Compare.Mirror.{compare_field-get}
use mathlib.Core.List.{append-nil}
use genji.Document.Compare.{
  Operator, operator_eq, by_ordering, compare_with_null, compare_booleans, compare_texts,
  compare_integers, compare_doubles, comparable, compare_pair, compare_found, compare_round,
  compare_fields, compare_names, compare_documents, compare_value, compare_items, compare_field,
}

unfoldable mutual
  pub has_nan : Value → Bool
  has_nan (double d) = is_nan d
  has_nan (array vs) = has_nan_items vs
  has_nan (document fs) = has_nan_fields fs
  has_nan null = false
  has_nan (bool b) = false
  has_nan (integer i) = false
  has_nan (text s) = false
  has_nan (blob s) = false

  pub has_nan_items : Items → Bool
  has_nan_items nil = false
  has_nan_items (cons v vs) = has_nan v || has_nan_items vs

  pub has_nan_fields : Fields → Bool
  has_nan_fields end = false
  has_nan_fields (field f v rest) = has_nan v || has_nan_fields rest

-- Both documents have the same value at `f`.
abbrev SameAt : Fields → Fields → Bytes → Type 0
SameAt l r f = (v : Value) × (get_by_field l f ≡ some v) × (get_by_field r f ≡ some v)

comparable_self : (v : Value) → comparable v v ≡ true
unfolding comparable
comparable_self v = ground arith

compare_pair_eq :
    (against : Operator → Value → Bool) (v : Value) (rest : Bool)
    → against operator_eq v ≡ true
    → rest ≡ true
    → compare_pair against operator_eq v v rest ≡ true
unfolding compare_pair
compare_pair_eq against v rest h k = rw (comparable_self v, h, k)

module _ (against : Bytes → Operator → Value → Bool) (l r : Fields)
    (at : (f : Bytes) (v : Value)
      → get_by_field l f ≡ some v
      → against f operator_eq v ≡ true) where
  compare_fields-prefix :
      (lf extra : List Bytes)
      → All (SameAt l r) lf
      → compare_fields against l r operator_eq lf (lf ++ extra) ≡ true
  unfolding compare_fields by_ordering compare_round compare_found compare_pair
  compare_fields-prefix [] extra h = refl
  compare_fields-prefix (f ∷ lf) extra ((v, hl, hr), h) =
      rw (compare_bytes_self f, hl, hr, comparable_self v, at f v hl)
        (compare_fields-prefix lf extra h)

fields-SameAt_self : (l : Fields) → All (SameAt l l) (fields l)
fields-SameAt_self l = All-map (fields l) (λ f (v, h). (v, h, h)) (fields-HasField l)

compare_names-prefix :
    (against : Bytes → Operator → Value → Bool) (l r : Fields) (lf extra : List Bytes)
    → (extra ≡ []) ⊎ (lf ≢ [])
    → compare_fields against l r operator_eq lf (lf ++ extra) ≡ true
    → compare_names against l r operator_eq lf (lf ++ extra) ≡ true
unfolding compare_names
compare_names-prefix against l r [] [] c h = h
compare_names-prefix against l r [] (g ∷ extra) (inl e) h = cc
compare_names-prefix against l r [] (g ∷ extra) (inr n) h = absurd (n refl)
compare_names-prefix against l r (f ∷ lf) extra c h = h

documents_eq :
    (against : Bytes → Operator → Value → Bool) (l r : Fields) (extra : List Bytes)
    → fields r ≡ fields l ++ extra
    → (extra ≡ []) ⊎ (fields l ≢ [])
    → All (SameAt l r) (fields l)
    → ((f : Bytes) (v : Value) → get_by_field l f ≡ some v → against f operator_eq v ≡ true)
    → compare_documents against operator_eq l r ≡ true
unfolding compare_documents
documents_eq against l r extra e c same at = rw e (
    compare_names-prefix against l r (fields l) extra c
      (compare_fields-prefix against l r at (fields l) extra same))

module _ (fl : Floats) where
  mutual
    unfolding compare_value has_nan get_by_field compare_with_null compare_booleans compare_integers
        compare_doubles compare_texts by_ordering

    value_self : (v : Value) → has_nan v ≡ false → compare_value fl v operator_eq v ≡ true
    value_self null h = refl
    value_self (bool b) h = ground arith
    value_self (integer i) h = ground arith
    value_self (double d) h = ground arith
    value_self (text s) h = bytes_eq_self s
    value_self (blob s) h = bytes_eq_self s
    value_self (array vs) h = items_self vs h
    value_self (document l) h =
        documents_eq (compare_field fl l) l l [] (sym (append-nil (fields l))) (inl refl)
          (fields-SameAt_self l)
          (λ f v g. compare_field-get fl l f v operator_eq v g ∙ field_self l f v h g)

    items_self : (vs : Items) → has_nan_items vs ≡ false → compare_items fl vs operator_eq vs ≡ true
    items_self nil h = refl
    items_self (cons v vs) h =
        compare_pair_eq (compare_value fl v) v _ (value_self v (ground arith))
          (items_self vs (ground arith))

    field_self :
        (l : Fields) (f : Bytes) (v : Value)
        → has_nan_fields l ≡ false
        → get_by_field l f ≡ some v
        → compare_value fl v operator_eq v ≡ true
    field_self end f v n h = cc
    field_self (field g u rest) f v n h = ground (arith, value_self u, field_self rest f v)

  -- A value that holds no NaN equals itself.
  pub compare_value_self : (v : Value) → has_nan v ≡ false → compare_value fl v operator_eq v ≡ true
  compare_value_self v h = value_self v h

  add-SameAt : (l : Fields) (k : Bytes) (w : Value) → All (SameAt l (add l k w)) (fields l)
  add-SameAt l k w =
      All-map (fields l) (λ f (v, h). (v, h, ground (arith, h, get_by_field-add l k f w)))
        (fields-HasField l)

  -- A document that holds no NaN and is not empty equals the document with one field more, whose
  -- name sorts behind all others: the lengths are not compared.
  pub compare_value-add :
      (g : Bytes) (u : Value) (rest : Fields) (k : Bytes) (w : Value)
      → has_nan_fields (field g u rest) ≡ false
      → All (λ f. compare_bytes f k ≡ Ordering.lt) (field_names (field g u rest))
      → compare_value fl
          (document (field g u rest))
          operator_eq
          (document (add (field g u rest) k w))
        ≡ true
  unfolding compare_value
  compare_value-add g u rest k w n h =
      let l = field g u rest in
      documents_eq (compare_field fl l) l (add l k w) (k ∷ []) (fields-add_last l k w h)
        (inr (fields-ne-nil g u rest)) (add-SameAt l k w)
        (λ f v e. compare_field-get fl l f v operator_eq v e ∙ field_self l f v n e)
