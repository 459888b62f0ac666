-- ===== src/Document/Compare.antt =====
-- document/compare.go: the five comparison operators on two values. No error arises: only
-- documents and arrays that are decoded lazily return one.
pub mod Mirror
pub mod Consistent
pub mod Equal
mod Samples
use genji.Prelude.{ℕ, Ordering, compare, Bool, true, false, not, ◌&&◌, ◌||◌, Option, none, some}
use genji.Prelude.{List, [], ◌∷◌, Bytes, bytes_eq, compare_bytes, ltb, if◌then◌else◌}
use genji.Prelude.Int.{ℤ, ltb_ℤ, leb_ℤ, eqb_ℤ}
use genji.Prelude.Double.{double_eq, double_lt, double_le}
use genji.Document.{Value, null, bool, integer, double, text, blob, array, document}
use genji.Document.{Items, nil, cons, Fields, end, field}
use genji.Document.{type_code, type_of, same_type, is_number}
use genji.Document.Floats.{Floats}
use genji.Document.Buffer.{get_by_field, fields}

pub data Operator : Type 0 where
  operator_eq operator_gt operator_gte operator_lt operator_lte : Operator

-- The answer of an operator for the result of a three-way comparison.
unfoldable pub by_ordering : Operator → Ordering → Bool
by_ordering operator_eq Ordering.eq = true
by_ordering operator_eq _ = false
by_ordering operator_gt Ordering.gt = true
by_ordering operator_gt _ = false
by_ordering operator_gte Ordering.lt = false
by_ordering operator_gte _ = true
by_ordering operator_lt Ordering.lt = true
by_ordering operator_lt _ = false
by_ordering operator_lte Ordering.gt = false
by_ordering operator_lte _ = true

-- compareWithNull, where one of the two is null: are both?
unfoldable pub compare_with_null : Operator → Bool → Bool
compare_with_null operator_eq same = same
compare_with_null operator_gte same = same
compare_with_null operator_lte same = same
compare_with_null operator_gt same = false
compare_with_null operator_lt same = false

bool_eq : Bool → Bool → Bool
bool_eq true b = b
bool_eq false b = not b

unfoldable pub compare_booleans : Operator → Bool → Bool → Bool
unfolding bool_eq
compare_booleans operator_eq a b = bool_eq a b
compare_booleans operator_gt a b = a && not b
compare_booleans operator_gte a b = bool_eq a b || a
compare_booleans operator_lt a b = not a && b
compare_booleans operator_lte a b = bool_eq a b || not a

-- compareTexts and compareBlobs
unfoldable pub compare_texts : Operator → Bytes → Bytes → Bool
unfolding by_ordering
compare_texts operator_eq l r = bytes_eq l r
compare_texts op l r = by_ordering op (compare_bytes l r)

unfoldable pub compare_integers : Operator → ℤ → ℤ → Bool
compare_integers operator_eq l r = eqb_ℤ l r
compare_integers operator_gt l r = ltb_ℤ r l
compare_integers operator_gte l r = leb_ℤ r l
compare_integers operator_lt l r = ltb_ℤ l r
compare_integers operator_lte l r = leb_ℤ l r

unfoldable pub compare_doubles : Operator → ℕ → ℕ → Bool
compare_doubles operator_eq a b = double_eq a b
compare_doubles operator_gt a b = double_lt b a
compare_doubles operator_gte a b = double_le b a
compare_doubles operator_lt a b = double_lt a b
compare_doubles operator_lte a b = double_le a b

-- Values of two types that are not both numbers: the order of the types.
unfoldable pub compare_types : Operator → Value → Value → Bool
unfolding type_code type_of
compare_types operator_eq l r = false
compare_types operator_gt l r = ltb (type_code (type_of r)) (type_code (type_of l))
compare_types operator_gte l r = ltb (type_code (type_of r)) (type_code (type_of l))
compare_types operator_lt l r = ltb (type_code (type_of l)) (type_code (type_of r))
compare_types operator_lte l r = ltb (type_code (type_of l)) (type_code (type_of r))

-- `lv.Type == rv.Type || (lv.Type.IsNumber() && rv.Type.IsNumber())`
unfoldable pub comparable : Value → Value → Bool
unfolding same_type type_of is_number
comparable l r =
    same_type (type_of l) (type_of r) || (is_number (type_of l) && is_number (type_of r))

-- One round of the loops over two arrays or documents: `against` compares `lv` with a value, and
-- `rest` is what the next rounds answer.
unfoldable pub compare_pair : (Operator → Value → Bool) → Operator → Value → Value → Bool → Bool
unfolding comparable compare_types
compare_pair against operator_eq lv rv rest =
    if comparable lv rv
    then if against operator_eq rv then rest else false
    else compare_types operator_eq lv rv
compare_pair against op lv rv rest =
    if comparable lv rv
    then if against operator_eq rv then rest else against op rv
    else compare_types op lv rv

-- A round over two documents at the fields `lf[i]` and `rf[j]`, which are equal. Where a look-up
-- fails the loop breaks, and the index of the other side has moved on.
unfoldable pub compare_found :
    (Operator → Value → Bool) → Operator → Option Value → Option Value → Bool → Bool
unfolding compare_pair by_ordering
compare_found against op none none rest = by_ordering op Ordering.eq
compare_found against op none (some rv) rest = by_ordering op Ordering.lt
compare_found against op (some lv) none rest = by_ordering op Ordering.gt
compare_found against op (some lv) (some rv) rest = compare_pair against op lv rv rest

-- A round of the loop of compareDocuments at the names `f` and `g`, for their comparison.
unfoldable pub compare_round :
    (Bytes → Operator → Value → Bool)
    → Fields
    → Fields
    → Operator
    → Bytes
    → Bytes
    → Ordering
    → Bool
    → Bool
unfolding compare_found by_ordering
compare_round against l r op f g Ordering.lt rest = by_ordering op Ordering.lt
compare_round against l r op f g Ordering.gt rest = by_ordering op Ordering.gt
compare_round against l r op f g Ordering.eq rest =
    compare_found (against f) op (get_by_field l f) (get_by_field r g) rest

-- The loop over the sorted names. It ends with `i == j`.
unfoldable pub compare_fields :
    (Bytes → Operator → Value → Bool) → Fields → Fields → Operator → List Bytes → List Bytes → Bool
unfolding compare_round by_ordering
compare_fields against l r op [] rf = by_ordering op Ordering.eq
compare_fields against l r op (f ∷ lf) [] = by_ordering op Ordering.eq
compare_fields against l r op (f ∷ lf) (g ∷ rf) =
    compare_round against l r op f g (compare_bytes f g) (compare_fields against l r op lf rf)

-- The two tests on an empty document, and the loop.
unfoldable pub compare_names :
    (Bytes → Operator → Value → Bool) → Fields → Fields → Operator → List Bytes → List Bytes → Bool
unfolding compare_fields by_ordering
compare_names against l r op [] (g ∷ rf) = by_ordering op Ordering.lt
compare_names against l r op (f ∷ lf) [] = by_ordering op Ordering.gt
compare_names against l r op lf rf = compare_fields against l r op lf rf

-- compareDocuments, `against f` comparing the field `f` of `l` with a value.
unfoldable pub compare_documents :
    (Bytes → Operator → Value → Bool) → Operator → Fields → Fields → Bool
unfolding compare_names fields
compare_documents against op l r = compare_names against l r op (fields l) (fields r)

module _ (fl : Floats) where
  open fl use {of_int64}

  -- compare. Two integers are compared as such, other numbers as doubles.
  unfoldable mutual
    pub compare_value : Value → Operator → Value → Bool
    compare_value null op null = compare_with_null op true
    compare_value null op _ = compare_with_null op false
    compare_value (bool a) op null = compare_with_null op false
    compare_value (bool a) op (bool b) = compare_booleans op a b
    compare_value (bool a) op _ = false
    compare_value (integer a) op null = compare_with_null op false
    compare_value (integer a) op (integer b) = compare_integers op a b
    compare_value (integer a) op (double b) = compare_doubles op (of_int64 a) b
    compare_value (integer a) op _ = false
    compare_value (double a) op null = compare_with_null op false
    compare_value (double a) op (integer b) = compare_doubles op a (of_int64 b)
    compare_value (double a) op (double b) = compare_doubles op a b
    compare_value (double a) op _ = false
    compare_value (text a) op null = compare_with_null op false
    compare_value (text a) op (text b) = compare_texts op a b
    compare_value (text a) op _ = false
    compare_value (blob a) op null = compare_with_null op false
    compare_value (blob a) op (blob b) = compare_texts op a b
    compare_value (blob a) op _ = false
    compare_value (array vs) op null = compare_with_null op false
    compare_value (array vs) op (array ws) = compare_items vs op ws
    compare_value (array vs) op _ = false
    compare_value (document l) op null = compare_with_null op false
    compare_value (document l) op (document r) = compare_documents (compare_field l) op l r
    compare_value (document l) op _ = false

    -- compareArrays from one index on.
    pub compare_items : Items → Operator → Items → Bool
    compare_items nil op nil = by_ordering op Ordering.eq
    compare_items nil op (cons w ws) = by_ordering op Ordering.lt
    compare_items (cons v vs) op nil = by_ordering op Ordering.gt
    compare_items (cons v vs) op (cons w ws) =
        compare_pair (compare_value v) op v w (compare_items vs op ws)

    -- `compare(op, l.GetByField(f), v)`; false where there is no such field.
    pub compare_field : Fields → Bytes → Operator → Value → Bool
    compare_field end f op w = false
    compare_field (field g v rest) f op w =
        if bytes_eq g f then compare_value v op w else compare_field rest f op w

  -- IsNotEqual
  unfoldable pub is_not_equal : Value → Value → Bool
  is_not_equal v w = not (compare_value v operator_eq w)
