-- ===== src/Document/Cast.antt =====
-- document/cast.go, and IsTruthy and IsZeroValue of document/value.go. Parsing and printing text is
-- the standard library's and the JSON library's; it is the parameter `Texts`.
pub mod Laws
mod Samples
use genji.Prelude.{ℕ, Bool, true, false, not, Option, none, some, Bytes, [], ◌∷◌, if◌then◌else◌}
use genji.Prelude.Int.{ℤ, pos, eqb_ℤ}
use genji.Prelude.Double.{double_eq}
use genji.Prelude.Results.{Result, ok, err, or_error, ◌>>=◌}
use genji.Document.{
  Value, Items, Fields, null, bool, integer, double, text, blob, array, document, nil, cons, end,
  field,
}
use genji.Document.{
  ValueType, any_type, null_value, bool_value, integer_value, double_value, text_value, blob_value,
  array_value, document_value, type_of, same_type,
}
use genji.Document.Floats.{Floats}

pub record Texts : Type 0 where
  -- strconv.ParseBool, ParseInt(s, 10, 64), ParseFloat and Unquote, without their errors
  pub parse_bool : Bytes → Option Bool
  pub parse_int : Bytes → Option ℤ
  pub parse_float : Bytes → Option ℕ
  pub unquote : Bytes → Option Bytes
  -- base64.StdEncoding.DecodeString, and the JSON of values, arrays and documents
  pub decode_base64 : Bytes → Option Bytes
  pub marshal_json : Value → Option Bytes
  pub array_of_json : Bytes → Option Items
  pub document_of_json : Bytes → Option Fields

pub data CastError : Type 0 where
  cannot_cast not_parsed no_json field_not_found : CastError

-- IsZeroValue. `v.V == nil` is false of every blob, and GetByIndex(0) of an empty ValueBuffer
-- returns ErrFieldNotFound, which is not the error that the code looks for.
unfoldable pub is_zero_value : Value → Result CastError Bool
is_zero_value null = ok false
is_zero_value (bool b) = ok (not b)
is_zero_value (integer i) = ok (eqb_ℤ i (pos 0))
is_zero_value (double d) = ok (double_eq d 0)
is_zero_value (blob s) = ok false
is_zero_value (text []) = ok true
is_zero_value (text (c ∷ s)) = ok false
is_zero_value (array nil) = err field_not_found
is_zero_value (array (cons v vs)) = ok false
is_zero_value (document end) = ok true
is_zero_value (document (field f v fs)) = ok false

-- IsTruthy
unfoldable pub is_truthy : Value → Result CastError Bool
is_truthy null = ok false
is_truthy v = do b ← is_zero_value v; ok (not b)

module _ (fl : Floats) (tx : Texts) where
  open fl use {of_int64, to_int64}
  open tx use {
    parse_bool, parse_int, parse_float, unquote, decode_base64, marshal_json, array_of_json,
    document_of_json,
  }

  unfoldable pub cast_as_bool : Value → Result CastError Value
  cast_as_bool (bool b) = ok (bool b)
  cast_as_bool (integer i) = ok (bool (not (eqb_ℤ i (pos 0))))
  cast_as_bool (text s) = do b ← or_error not_parsed (parse_bool s); ok (bool b)
  cast_as_bool _ = err cannot_cast

  -- A text that is no integer is read as a float64.
  unfoldable pub integer_of_text : Bytes → Option ℤ → Result CastError Value
  integer_of_text s (some i) = ok (integer i)
  integer_of_text s none = do f ← or_error not_parsed (parse_float s); ok (integer (to_int64 f))

  unfoldable pub cast_as_integer : Value → Result CastError Value
  cast_as_integer (integer i) = ok (integer i)
  cast_as_integer (bool b) = ok (integer (if b then pos 1 else pos 0))
  cast_as_integer (double d) = ok (integer (to_int64 d))
  cast_as_integer (text s) = integer_of_text s (parse_int s)
  cast_as_integer _ = err cannot_cast

  unfoldable pub cast_as_double : Value → Result CastError Value
  cast_as_double (double d) = ok (double d)
  cast_as_double (integer i) = ok (double (of_int64 i))
  cast_as_double (text s) = do f ← or_error not_parsed (parse_float s); ok (double f)
  cast_as_double _ = err cannot_cast

  unfoldable pub cast_as_text : Value → Result CastError Value
  cast_as_text (text s) = ok (text s)
  cast_as_text (blob b) = do
    d ← or_error no_json (marshal_json (blob b))
    s ← or_error not_parsed (unquote d)
    ok (text s)
  cast_as_text v = do d ← or_error no_json (marshal_json v); ok (text d)

  unfoldable pub cast_as_blob : Value → Result CastError Value
  cast_as_blob (blob b) = ok (blob b)
  cast_as_blob (text s) = do b ← or_error not_parsed (decode_base64 s); ok (blob b)
  cast_as_blob _ = err cannot_cast

  unfoldable pub cast_as_array : Value → Result CastError Value
  cast_as_array (array vs) = ok (array vs)
  cast_as_array (text s) = do vs ← or_error not_parsed (array_of_json s); ok (array vs)
  cast_as_array _ = err cannot_cast

  unfoldable pub cast_as_document : Value → Result CastError Value
  cast_as_document (document fs) = ok (document fs)
  cast_as_document (text s) = do fs ← or_error not_parsed (document_of_json s); ok (document fs)
  cast_as_document _ = err cannot_cast

  unfoldable pub cast_to : ValueType → Value → Result CastError Value
  cast_to bool_value v = cast_as_bool v
  cast_to integer_value v = cast_as_integer v
  cast_to double_value v = cast_as_double v
  cast_to blob_value v = cast_as_blob v
  cast_to text_value v = cast_as_text v
  cast_to array_value v = cast_as_array v
  cast_to document_value v = cast_as_document v
  cast_to _ v = err cannot_cast

  -- CastAs: null stays null.
  unfoldable pub cast_as : ValueType → Value → Result CastError Value
  cast_as t null = ok null
  cast_as t v = if same_type (type_of v) t then ok v else cast_to t v
