-- ===== src/Document.antt =====
-- document/value.go, document/array.go and document/document.go: values, and the in-memory
-- documents and arrays (FieldBuffer, ValueBuffer) as lists in the order of insertion.
pub mod Floats
pub mod Buffer
pub mod Compare
pub mod Calculate
pub mod Cast
pub mod Encode
use genji.Prelude.{ℕ, Bool, true, false, ◌||◌, ◌==◌, Bytes}
use genji.Prelude.Int.{ℤ}

-- A double is the bits of its float64.
mutual
  pub data Value : Type 0 where
    null : Value
    bool : Bool → Value
    integer : ℤ → Value
    double : ℕ → Value
    text : Bytes → Value
    blob : Bytes → Value
    array : Items → Value
    document : Fields → Value

  pub data Items : Type 0 where
    nil : Items
    cons : Value → Items → Items

  pub data Fields : Type 0 where
    end : Fields
    field : Bytes → Value → Fields → Fields

pub data ValueType : Type 0 where
  any_type null_value bool_value integer_value double_value text_value blob_value : ValueType
  array_value document_value : ValueType

-- The byte that stands for the type.
unfoldable pub type_code : ValueType → ℕ
type_code any_type = 0x0
type_code null_value = 0x80
type_code bool_value = 0x81
type_code integer_value = 0x90
type_code double_value = 0xa0
type_code text_value = 0xc0
type_code blob_value = 0xd0
type_code array_value = 0xe0
type_code document_value = 0xf0

unfoldable pub type_of : Value → ValueType
type_of null = null_value
type_of (bool b) = bool_value
type_of (integer i) = integer_value
type_of (double d) = double_value
type_of (text s) = text_value
type_of (blob s) = blob_value
type_of (array vs) = array_value
type_of (document fs) = document_value

-- `t == u` on value types.
unfoldable pub same_type : ValueType → ValueType → Bool
unfolding type_code
same_type t u = type_code t == type_code u

unfoldable pub is_number : ValueType → Bool
is_number integer_value = true
is_number double_value = true
is_number _ = false
