-- ===== src/Document/Encode/Natural.antt =====
-- What order the encodings of document/value_encoding.go have, said of the values themselves.
use genji.Prelude.{
  Bool, true, false, [], ◌∷◌, Bytes, compare_bytes, then_compare, flip, compare, Ordering,
}
use genji.Document.{
  Value, Items, Fields, bool, integer, double, text, blob, array, document, nil, cons, end, field,
  type_code, type_of,
}
use genji.Prelude.Int.{InInt64, compare_ℤ}
use genji.Prelude.Double.{rank}
use genji.Binarysort.{IsBytes}
use genji.Binarysort.Order.{IsOrdered, compare_bool}

-- No field, against a first one: it comes first unless the name of the other is empty.
unfoldable pub no_field_order : Bytes → Ordering
no_field_order [] = Ordering.gt
no_field_order (c ∷ k) = Ordering.lt

-- Values sort by their types; of one type, false before true, numbers as numbers, texts and blobs as
-- bytes, arrays and documents value by value. An array comes before a longer one that it begins, but a document behind one, unless it is
-- empty.
unfoldable mutual
  unfolding type_code type_of no_field_order

  pub natural_order : Value → Value → Ordering
  natural_order (bool a) (bool b) = compare_bool a b
  natural_order (integer a) (integer b) = compare_ℤ a b
  natural_order (double a) (double b) = compare_ℤ (rank a) (rank b)
  natural_order (text a) (text b) = compare_bytes a b
  natural_order (blob a) (blob b) = compare_bytes a b
  natural_order (array vs) (array ws) = items_order vs ws
  natural_order (document fs) (document gs) = fields_order false fs gs
  natural_order v w = compare (type_code (type_of v)) (type_code (type_of w))

  pub items_order : Items → Items → Ordering
  items_order nil nil = Ordering.eq
  items_order nil (cons w ws) = Ordering.lt
  items_order (cons v vs) nil = Ordering.gt
  items_order (cons v vs) (cons w ws) = then_compare (natural_order v w) (items_order vs ws)

  pub fields_order : Bool → Fields → Fields → Ordering
  fields_order later end end = Ordering.eq
  fields_order false end (field k w gs) = no_field_order k
  fields_order true end (field k w gs) = Ordering.gt
  fields_order false (field k v fs) end = flip (no_field_order k)
  fields_order true (field k v fs) end = Ordering.lt
  fields_order later (field k v fs) (field j w gs) =
      then_compare (compare_bytes k j) (then_compare (natural_order v w) (fields_order true fs gs))

-- An int64, a float64 that is a number and not -0.0, and bytes, all the way down.
unfoldable mutual
  pub IsSortable : Value → Type 0
  IsSortable (integer i) = InInt64 i
  IsSortable (double d) = IsOrdered d
  IsSortable (text s) = IsBytes s
  IsSortable (blob s) = IsBytes s
  IsSortable (array vs) = ItemsAreSortable vs
  IsSortable (document fs) = FieldsAreSortable fs
  IsSortable _ = Unit

  pub ItemsAreSortable : Items → Type 0
  ItemsAreSortable nil = Unit
  ItemsAreSortable (cons v vs) = IsSortable v × ItemsAreSortable vs

  pub FieldsAreSortable : Fields → Type 0
  FieldsAreSortable end = Unit
  FieldsAreSortable (field k v fs) = IsBytes k × (IsSortable v × FieldsAreSortable fs)
