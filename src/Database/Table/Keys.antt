-- ===== src/Database/Table/Keys.antt =====
-- internal/database/table.go: the key of a document (generateKey), and what EncodeValue makes of a value for
-- the scans of a table.
use genji.Prelude.{
  ℕ, ◌≡◌, ◌≢◌, refl, sym, ap, ◌∙◌, ◌⊎◌, inl, inr, true, false, not, Option, none, some, [], ◌∷◌,
  Bytes, if◌then◌else◌, arith,
}
use genji.Prelude.Int.{ℤ, to_uint64}
use genji.Prelude.Results.{Result, ok, err, ok-injective, ◌>>=◌}
use genji.Document.{
  Value, null, bool, integer, double, text, blob, array, document, Fields, ValueType, integer_value,
  type_of, type_code, same_type,
}
use genji.Document.Floats.{Floats}
use genji.Document.Cast.{Texts, CastError, cannot_cast, cast_as, cast_as_integer, cast_as_double}
use genji.Document.Buffer.{get_value_from_document}
use genji.Document.Encode.{Base64, append_value}
use genji.Database.Index.{is_any, marshal_binary}
use genji.Database.Table.{FieldConstraint, primary_key, or_missing}

abbrev first_byte : Bytes → ℕ
first_byte [] = 0
first_byte (b ∷ s) = b

module _ (fl : Floats) (tx : Texts) (b64 : Base64) where
  -- The docid of a value that was cast to an integer.
  unfoldable pub docid_of : (ℕ → Bytes) → Value → Result CastError Bytes
  unfolding to_uint64
  docid_of put_uvarint (integer i) = ok (put_uvarint (to_uint64 i))
  docid_of put_uvarint v = err cannot_cast

  unfoldable pub integer_to_double : Value → Result CastError Value
  unfolding cast_as_double
  integer_to_double (integer i) = cast_as_double fl tx (integer i)
  integer_to_double v = ok v

  -- encodeValueToKey
  unfoldable pub encode_value_to_key :
      (ℕ → Bytes) → Option FieldConstraint → Value → Result CastError Bytes
  unfolding docid_of cast_as_integer cast_as marshal_binary append_value is_any integer_to_double
  encode_value_to_key put_uvarint none v = do i ← cast_as_integer fl tx v; docid_of put_uvarint i
  encode_value_to_key put_uvarint (some pk) v =
      if not (is_any pk.type)
      then (do w ← cast_as fl tx pk.type v; ok (marshal_binary b64 w))
      else (do w ← integer_to_double v; ok (append_value b64 w))

  -- The value has the type of the primary key, or there is none and it is no integer.
  abbrev pub IsConverted : FieldConstraint → Value → Type 0
  IsConverted pk v =
      ((is_any pk.type ≡ false) × (same_type (type_of v) pk.type ≡ true))
      ⊎ ((is_any pk.type ≡ true) × (same_type (type_of v) integer_value ≡ false))

  same_cast :
      (t : ValueType) (v : Value) → same_type (type_of v) t ≡ true → cast_as fl tx t v ≡ ok v
  unfolding cast_as
  same_cast t null h = refl
  same_cast t (bool b) h = rw h refl
  same_cast t (integer i) h = rw h refl
  same_cast t (double d) h = rw h refl
  same_cast t (text s) h = rw h refl
  same_cast t (blob s) h = rw h refl
  same_cast t (array vs) h = rw h refl
  same_cast t (document fs) h = rw h refl

  no_integer :
      (v : Value) → same_type (type_of v) integer_value ≡ false → integer_to_double v ≡ ok v
  unfolding integer_to_double same_type type_of type_code
  no_integer (integer i) h = absurd (cc h)
  no_integer null h = refl
  no_integer (bool b) h = refl
  no_integer (double d) h = refl
  no_integer (text s) h = refl
  no_integer (blob s) h = refl
  no_integer (array vs) h = refl
  no_integer (document fs) h = refl

  -- The key of a document is the bytes that EncodeValue gives for the value at the path of the primary key, where
  -- that value has the type of the key, or the key has none and the value is no integer.
  pub primary_key-encode_value_to_key :
      (put_uvarint : ℕ → Bytes) (pk : FieldConstraint) (d : Fields) (v : Value)
      → get_value_from_document d pk.path ≡ ok v
      → IsConverted pk v
      → (k : Bytes) × ((primary_key b64 pk d ≡ ok k)
          × (encode_value_to_key put_uvarint (some pk) v ≡ ok k))
  unfolding primary_key encode_value_to_key or_missing
  primary_key-encode_value_to_key put_uvarint pk d v g (inl (t, s)) =
      (marshal_binary b64 v, (rw (g, t) refl, rw (t, same_cast pk.type v s) refl))
  primary_key-encode_value_to_key put_uvarint pk d v g (inr (t, s)) =
      (append_value b64 v, (rw (g, t) refl, rw (t, no_integer v s) refl))

  codes_differ : (i : ℤ) (x : ℕ) → append_value b64 (integer i) ≢ append_value b64 (double x)
  unfolding append_value type_code type_of
  codes_differ i x h = (let z = ap first_byte h in omega (arith, z))

  -- The key of a document with an integer for a primary key without a type differs from the bytes that EncodeValue
  -- gives for that integer.
  pub primary_key-integer :
      (put_uvarint : ℕ → Bytes) (pk : FieldConstraint) (d : Fields) (i : ℤ) (k k' : Bytes)
      → is_any pk.type ≡ true
      → get_value_from_document d pk.path ≡ ok (integer i)
      → primary_key b64 pk d ≡ ok k
      → encode_value_to_key put_uvarint (some pk) (integer i) ≡ ok k'
      → k ≢ k'
  unfolding primary_key encode_value_to_key or_missing integer_to_double cast_as_double
  primary_key-integer put_uvarint pk d i k k' t g p q e =
      let as_integer : primary_key b64 pk d ≡ ok (append_value b64 (integer i)) = rw (g, t) refl in
      let as_double : encode_value_to_key put_uvarint (some pk) (integer i)
          ≡ ok (append_value b64 (double (fl.of_int64 i))) =
        rw t refl in
      codes_differ i (fl.of_int64 i)
        (ok-injective (sym as_integer ∙ p) ∙ e ∙ ok-injective (sym q ∙ as_double))
