-- ===== src/Document/Buffer.antt =====
-- document/document.go and document/array.go: the buffers FieldBuffer and ValueBuffer, with the
-- look-up, replacement and removal of the values at a path. A buffer is the list of its fields or
-- values; it shares no part with another one, so a nested buffer that is changed in place is
-- rebuilt.
pub mod Sorting
pub mod Lookup
pub mod PathLaws
mod Samples
use genji.Prelude.{
  ℕ, zero, suc, Bool, true, false, Option, none, some, List, [], ◌∷◌, Bytes, bytes_eq,
}
use mathlib.Core.Option
use genji.Prelude.{compare_bytes, if◌then◌else◌, Ordering, not}
use genji.Prelude.Results.{Result, ok, err, or_error, ◌>>=◌}
use genji.Document.{Value, document, array, Items, nil, cons, Fields, end, field}

-- `ErrFieldNotFound`, which stands for `ErrValueNotFound` too, and the run-time panic of an index
-- into an empty path.
pub data PathError : Type 0 where
  field_not_found index_panic : PathError

pub record PathFragment : Type 0 where
  pub field_name : Bytes
  pub array_index : ℕ

is_empty : Bytes → Bool
is_empty [] = true
is_empty (c ∷ s) = false

-- The type `Path` of the source.
abbrev pub DocumentPath : Type 0
DocumentPath = List PathFragment

-- FieldBuffer.Add
unfoldable pub add : Fields → Bytes → Value → Fields
add end f v = field f v end
add (field g w rest) f v = field g w (add rest f v)

-- FieldBuffer.GetByField: the first field of that name.
unfoldable pub get_by_field : Fields → Bytes → Option Value
get_by_field end f = none
get_by_field (field g v rest) f = if bytes_eq g f then some v else get_by_field rest f

-- FieldBuffer.Replace
unfoldable pub replace : Fields → Bytes → Value → Option Fields
replace end f v = none
replace (field g w rest) f v =
    if bytes_eq g f then some (field g v rest) else Option.map (field g w) (replace rest f v)

-- setFieldValue
unfoldable pub set_field_value : Fields → Bytes → Value → Fields
set_field_value fs f v = elim (get_by_field fs f) [
  | none ↦ add fs f v
  | some _ ↦ Option.get_or (replace fs f v) fs
]

-- ValueBuffer.GetByIndex and Replace
unfoldable pub get_by_index : Items → ℕ → Option Value
get_by_index nil i = none
get_by_index (cons v vs) zero = some v
get_by_index (cons v vs) (suc i) = get_by_index vs i

unfoldable pub replace_at : Items → ℕ → Value → Option Items
replace_at nil i v = none
replace_at (cons w vs) zero v = some (cons v vs)
replace_at (cons w vs) (suc i) v = Option.map (cons w) (replace_at vs i v)

-- setValueAtPath: a scalar on the way is left as it is, with no error.
unfoldable pub set_value_at_path : Value → DocumentPath → Value → Result PathError Value
set_value_at_path (document fs) [] v = err index_panic
set_value_at_path (document fs) (p ∷ []) v = ok (document (set_field_value fs p.field_name v))
set_value_at_path (document fs) (p ∷ q ∷ path) v = do
  old ← or_error field_not_found (get_by_field fs p.field_name)
  new ← set_value_at_path old (q ∷ path) v
  ok (document (set_field_value fs p.field_name new))
set_value_at_path (array vs) [] v = err index_panic
set_value_at_path (array vs) (p ∷ []) v = do
  old ← or_error field_not_found (get_by_index vs p.array_index)
  vs' ← or_error field_not_found (replace_at vs p.array_index v)
  ok (array vs')
set_value_at_path (array vs) (p ∷ q ∷ path) v = do
  old ← or_error field_not_found (get_by_index vs p.array_index)
  new ← set_value_at_path old (q ∷ path) v
  vs' ← or_error field_not_found (replace_at vs p.array_index new)
  ok (array vs')
set_value_at_path w path v = ok w

-- FieldBuffer.Set. Where the first field of a longer path is missing, it is created with `v`.
unfoldable pub set : Fields → DocumentPath → Value → Result PathError Fields
set fs [] v = err index_panic
set fs (p ∷ []) v = ok (set_field_value fs p.field_name v)
set fs (p ∷ q ∷ path) v = elim (get_by_field fs p.field_name) [
  | none ↦ ok (add fs p.field_name v)
  | some old ↦ do new ← set_value_at_path old (q ∷ path) v; ok (set_field_value fs p.field_name new)
]

-- getValueFromValue; at the end of the path, what `len(p) == 1` returns.
unfoldable pub get_value_from_value : Value → DocumentPath → Result PathError Value
unfolding is_empty
get_value_from_value w [] = ok w
get_value_from_value (document fs) (p ∷ path) =
    if is_empty p.field_name
    then err field_not_found
    else or_error field_not_found (get_by_field fs p.field_name) >>= λ v.
        get_value_from_value v path
get_value_from_value (array vs) (p ∷ path) =
    if is_empty p.field_name
    then (or_error field_not_found (get_by_index vs p.array_index) >>= λ v.
        get_value_from_value v path)
    else err field_not_found
get_value_from_value w (p ∷ path) = err field_not_found

-- Path.GetValueFromDocument
unfoldable pub get_value_from_document : Fields → DocumentPath → Result PathError Value
get_value_from_document fs [] = err field_not_found
get_value_from_document fs (p ∷ path) = get_value_from_value (document fs) (p ∷ path)

-- `append(fields[0:i], fields[i+1:]...)` at the first field of that name.
unfoldable pub remove_field : Fields → Bytes → Option Fields
remove_field end f = none
remove_field (field g w rest) f =
    if bytes_eq g f then some rest else Option.map (field g w) (remove_field rest f)

unfoldable pub remove_at : Items → ℕ → Option Items
remove_at nil i = none
remove_at (cons w vs) zero = some vs
remove_at (cons w vs) (suc i) = Option.map (cons w) (remove_at vs i)

-- FieldBuffer.Delete: down to the parent, by the rules of GetValueFromDocument, and the removal
-- of the last fragment there.
unfoldable pub delete_from_value : Value → DocumentPath → Result PathError Value
unfolding is_empty
delete_from_value (document fs) (p ∷ []) = do
  fs' ← or_error field_not_found (remove_field fs p.field_name)
  ok (document fs')
delete_from_value (array vs) (p ∷ []) = do
  vs' ← or_error field_not_found (remove_at vs p.array_index)
  ok (array vs')
delete_from_value (document fs) (p ∷ q ∷ path) =
    if is_empty p.field_name then err field_not_found else do
      old ← or_error field_not_found (get_by_field fs p.field_name)
      new ← delete_from_value old (q ∷ path)
      ok (document (set_field_value fs p.field_name new))
delete_from_value (array vs) (p ∷ q ∷ path) =
    if not (is_empty p.field_name) then err field_not_found else do
      old ← or_error field_not_found (get_by_index vs p.array_index)
      new ← delete_from_value old (q ∷ path)
      vs' ← or_error field_not_found (replace_at vs p.array_index new)
      ok (array vs')
delete_from_value w path = err field_not_found

document_fields : Value → Result PathError Fields
document_fields (document fs) = ok fs
document_fields w = err field_not_found

unfoldable pub delete : Fields → DocumentPath → Result PathError Fields
unfolding delete_from_value document_fields
delete fs [] = err index_panic
delete fs path = delete_from_value (document fs) path >>= λ w. document_fields w

unfoldable pub field_names : Fields → List Bytes
field_names end = []
field_names (field f v rest) = f ∷ field_names rest

-- The place of `f` before the sorted list `g ∷ gs`, by the comparison of `f` and `g`.
place : Ordering → Bytes → Bytes → List Bytes → List Bytes → List Bytes
place Ordering.gt f g gs rest = g ∷ rest
place Ordering.eq f g gs rest = f ∷ g ∷ gs
place Ordering.lt f g gs rest = f ∷ g ∷ gs

insert_string : Bytes → List Bytes → List Bytes
unfolding place
insert_string f [] = f ∷ []
insert_string f (g ∷ gs) = place (compare_bytes f g) f g gs (insert_string f gs)

-- sort.Strings
unfoldable pub sort_strings : List Bytes → List Bytes
unfolding insert_string
sort_strings [] = []
sort_strings (f ∷ fs) = insert_string f (sort_strings fs)

-- FieldBuffer.Fields: the names at the root, sorted.
unfoldable pub fields : Fields → List Bytes
unfolding sort_strings field_names
fields fs = sort_strings (field_names fs)
