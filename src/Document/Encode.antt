-- ===== src/Document/Encode.antt =====
-- document/value_encoding.go: ValueEncoder, which writes a value so that the bytes sort. The writer is
-- a buffer, whose writes do not fail; the bytes that a call writes are its result. The base64 of the
-- standard library is the record Base64 of Binarysort.
pub mod Parts
pub mod Natural
pub mod Ends
pub mod Sorts
pub mod Samples
use genji.Prelude.{
  ℕ, suc, ◌+◌, ◌≤◌, ◌≡◌, Bool, true, false, List, [], ◌∷◌, ◌++◌, Bytes, compare_bytes, then_compare,
  compare, Ordering, All,
}
use genji.Document.{
  Value, Items, Fields, null, bool, integer, double, text, blob, array, document, nil, cons, end,
  field, type_code, type_of,
}
use genji.Binarysort.{append_bool, append_int64, append_float64, append_base64}
pub use genji.Binarysort.{Base64}

abbrev pub array_value_delim : ℕ
array_value_delim = 0x1f

abbrev pub array_end : ℕ
array_end = 0x1e

abbrev pub document_value_delim : ℕ
document_value_delim = 0x1c

abbrev pub document_end : ℕ
document_end = 0x1d

module _ (b64 : Base64) where
  -- appendValue, with what follows the byte of the type; appendArray and appendDocument, where the flag
  -- says whether a value stands before (i > 0).
  unfoldable mutual
    unfolding type_code type_of append_bool append_int64 append_float64 append_base64

    pub append_value : Value → Bytes
    append_value null = type_code (type_of null) ∷ []
    append_value (bool b) = type_code (type_of (bool b)) ∷ append_bool [] b
    append_value (integer i) = type_code (type_of (integer i)) ∷ append_int64 [] i
    append_value (double d) = type_code (type_of (double d)) ∷ append_float64 [] d
    append_value (text s) = type_code (type_of (text s)) ∷ append_base64 b64 [] s
    append_value (blob s) = type_code (type_of (blob s)) ∷ append_base64 b64 [] s
    append_value (array vs) = type_code (type_of (array vs)) ∷ append_array false vs
    append_value (document fs) = type_code (type_of (document fs)) ∷ append_document false fs

    pub append_array : Bool → Items → Bytes
    append_array later nil = array_end ∷ []
    append_array false (cons v vs) = append_value v ++ append_array true vs
    append_array true (cons v vs) = array_value_delim ∷ (append_value v ++ append_array true vs)

    pub append_document : Bool → Fields → Bytes
    append_document later end = document_end ∷ []
    append_document false (field k v fs) =
        append_base64 b64 [] k ++ document_value_delim ∷ (append_value v ++ append_document true fs)
    append_document true (field k v fs) =
        document_value_delim
        ∷ (append_base64 b64 [] k
            ++ document_value_delim ∷ (append_value v ++ append_document true fs))
