-- ===== src/Database/Index.antt =====
-- internal/database/index.go: an index, whose store has the encoded values and the key of a document
-- for keys, and the length of the encoded values for values, which binary.PutUvarint writes. A typed
-- value without content is not a value of documents, so a pivot has content wherever it is not null.
pub mod Search
pub mod Changes
pub mod Consistent
pub mod Unique
pub mod Exists
pub mod Typed
use genji.Prelude.{
  ℕ, zero, suc, ◌+◌, Bool, true, false, not, ◌&&◌, Option, none, some, List, [], ◌∷◌, ◌++◌, Bytes,
  bytes_eq, ltb, leb, ◌==◌, length, take, drop, if◌then◌else◌,
}
use genji.Prelude.Results.{Result, ok, err, or_error, check, ◌>>=◌}
use genji.Document.{
  Value, null, bool, integer, double, text, blob, array, document, ValueType, any_type, null_value,
  bool_value, integer_value, double_value, text_value, blob_value, array_value, document_value,
  type_code, type_of, same_type,
}
use genji.Binarysort.{append_bool, append_int64, append_float64}
use genji.Document.Encode.{Base64, append_array, append_document, array_value_delim}
use genji.Database.Store.{Store, put, remove, items_from}

-- The last two are the panics "incompatible index type" and of an index into an empty slice.
pub data IndexError : Type 0 where
  no_key no_value wrong_arity wrong_type duplicate_value key_not_found incompatible_type :
      IndexError

-- The fields Types and Unique of IndexInfo.
pub record IndexInfo : Type 0 where
  pub types : List ValueType
  pub unique : Bool

unfoldable pub is_any : ValueType → Bool
is_any any_type = true
is_any _ = false

-- The search of exists, in the items from the values on: the key behind the first item that begins
-- with the values.
unfoldable pub exists_from : Bytes → Store ℕ → Option Bytes
exists_from seek [] = none
exists_from seek ((k, n) ∷ items) =
    let rest = exists_from seek items in
    if ltb (length k) (length seek)
    then none
    else if bytes_eq seek (take (length seek) k)
    then some (drop (length seek) k)
    else rest

-- The test of the types in Set.
unfoldable pub types_match : List ValueType → List Value → Bool
unfolding is_any same_type type_of
types_match [] vs = true
types_match (t ∷ ts) [] = true
types_match (t ∷ ts) (v ∷ vs) =
    let rest = types_match ts vs in
    if not (is_any t) && not (same_type t (type_of v)) then false else rest

-- The store with the new entry, unless the index is unique and has the values already.
unfoldable pub unless_duplicate : Bool → Option Bytes → Store ℕ → Result IndexError (Store ℕ)
unless_duplicate true (some j) st = err duplicate_value
unless_duplicate true none st = ok st
unless_duplicate false o st = ok st

-- The part of Set behind its first tests.
unfoldable pub set_encoded : IndexInfo → Bytes → Bytes → Store ℕ → Result IndexError (Store ℕ)
unfolding exists_from items_from put unless_duplicate
set_encoded i e k st =
    unless_duplicate i.unique (exists_from e (items_from e st)) (put (e ++ k) (length e) st)

-- The type that the first value fixes, in an index whose first type is any.
unfoldable pub scope : IndexInfo → List Value → Option ℕ
unfolding is_any type_code type_of
scope i [] = none
scope i (v ∷ vs) = elim i.types [
  | [] ↦ none
  | t ∷ ts ↦ if is_any t then some (type_code (type_of v)) else none
]

unfoldable pub in_scope : Option ℕ → Bytes → Bool
in_scope none k = true
in_scope (some c) [] = false
in_scope (some c) (b ∷ k) = b == c

-- The search of Delete: the first item in scope that ends with the key.
unfoldable pub find_entry : Option ℕ → Bytes → Store ℕ → Option Bytes
unfolding in_scope
find_entry sc k [] = none
find_entry sc k ((j, n) ∷ items) =
    let rest = find_entry sc k items in
    if in_scope sc j then (if bytes_eq (drop n j) k then some j else rest) else none

module _ (b64 : Base64) where
  -- Value.MarshalBinary
  unfoldable pub marshal_binary : Value → Bytes
  unfolding append_bool append_int64 append_float64 append_array append_document
  marshal_binary null = []
  marshal_binary (bool b) = append_bool [] b
  marshal_binary (integer i) = append_int64 [] i
  marshal_binary (double d) = append_float64 [] d
  marshal_binary (text s) = s
  marshal_binary (blob s) = s
  marshal_binary (array vs) = append_array b64 false vs
  marshal_binary (document fs) = append_document b64 false fs

  -- indexValueEncoder.EncodeValue
  unfoldable pub encode_value : ValueType → Value → Result IndexError Bytes
  unfolding marshal_binary type_code type_of is_any same_type
  encode_value t v =
      if is_any t
      then ok (type_code (type_of v) ∷ marshal_binary v)
      else if same_type (type_of v) t
      then ok (marshal_binary v)
      else err incompatible_type

  -- The values one after the other, with a delimiter between them.
  unfoldable pub encode_each : List ValueType → List Value → Result IndexError Bytes
  unfolding encode_value
  encode_each ts [] = ok []
  encode_each [] (v ∷ vs) = err wrong_arity
  encode_each (t ∷ ts) (v ∷ []) = encode_value t v
  encode_each (t ∷ ts) (v ∷ w ∷ vs) = do
    b ← encode_value t v
    rest ← encode_each ts (w ∷ vs)
    ok (b ++ array_value_delim ∷ rest)

  -- EncodeValueBuffer
  unfoldable pub encode_value_buffer : IndexInfo → List Value → Result IndexError Bytes
  unfolding encode_each
  encode_value_buffer i vs =
      check (leb (length vs) (length i.types)) wrong_arity (encode_each i.types vs)

  -- Index.Exists
  unfoldable pub exists : IndexInfo → List Value → Store ℕ → Result IndexError (Option Bytes)
  unfolding encode_value_buffer exists_from items_from
  exists i vs st =
      check (length vs == length i.types) wrong_arity
        (do seek ← encode_value_buffer i vs; ok (exists_from seek (items_from seek st)))

  -- Index.Set
  unfoldable pub set : IndexInfo → List Value → Bytes → Store ℕ → Result IndexError (Store ℕ)
  unfolding set_encoded encode_value_buffer types_match
  set i vs [] st = err no_key
  set i [] (c ∷ k) st = err no_value
  set i (v ∷ vs) (c ∷ k) st = check (length (v ∷ vs) == length i.types) wrong_arity (
      check (types_match i.types (v ∷ vs)) wrong_type
        (do e ← encode_value_buffer i (v ∷ vs); set_encoded i e (c ∷ k) st))

  -- buildSeek, forwards, for a pivot of values.
  unfoldable pub build_seek : IndexInfo → List Value → Result IndexError Bytes
  unfolding encode_value_buffer scope type_code type_of
  build_seek i [] = ok []
  build_seek i (null ∷ vs) = elim (scope i (null ∷ vs)) [
    | some c ↦ ok (c ∷ [])
    | none ↦ encode_value_buffer i (null ∷ vs)
  ]
  build_seek i (v ∷ vs) = encode_value_buffer i (v ∷ vs)

  -- Index.Delete
  unfoldable pub delete : IndexInfo → List Value → Bytes → Store ℕ → Result IndexError (Store ℕ)
  unfolding build_seek find_entry scope items_from remove
  delete i vs k st = do
    seek ← build_seek i vs
    j ← or_error key_not_found (find_entry (scope i vs) k (items_from seek st))
    ok (remove j st)
