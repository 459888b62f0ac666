-- ===== src/Database/Table.antt =====
-- internal/database/table.go and conflict.go: a table is the store of its encoded documents and the
-- stores of its indexes. What ValidateDocument does with a document, the codec, and the unsigned
-- varints of the standard library are parameters. The transaction is writable, and an error is what a
-- transaction rolls back, so that it has no state.
pub mod Indexes
pub mod Invariant
pub mod Insert
pub mod Checks
pub mod Keys
use genji.Prelude.{
  ℕ, ◌≡◌, Bool, true, false, not, Option, none, some, List, [], ◌∷◌, Bytes, if◌then◌else◌,
}
use genji.Prelude.Int.{ℤ, to_uint64}
use genji.Prelude.Results.{Result, ok, err, or_error, check, ◌>>=◌}
use genji.Document.{Value, null, Fields, ValueType}
use genji.Document.Buffer.{
  DocumentPath, PathError, field_not_found, index_panic, get_value_from_document,
}
use genji.Document.Encode.{Base64, append_value}
use genji.Sequence.{Sequence, SequenceError, next}
use genji.Database.Store.{Store, get, put, remove}
use genji.Database.Index.{IndexError, duplicate_value, IndexInfo, is_any, marshal_binary, exists}
use genji.Database.Index as Index

pub data TableError : Type 0 where
  read_only_table not_null_violation invalid_document missing_primary_key duplicate_document :
      TableError
  document_not_found encoding_failed no_sequence : TableError
  path_failed : PathError → TableError
  sequence_failed : SequenceError → TableError
  index_failed : IndexError → TableError

-- The fields of FieldConstraint that the table reads.
pub record FieldConstraint : Type 0 where
  pub path : DocumentPath
  pub type : ValueType
  pub is_primary_key : Bool

pub record TableInfo : Type 0 where
  pub read_only : Bool
  pub field_constraints : List FieldConstraint

-- An index with its store.
pub record TableIndex : Type 0 where
  pub info : IndexInfo
  pub paths : List DocumentPath
  pub entries : Store ℕ

pub record Table : Type 0 where
  pub info : TableInfo
  pub docs : Store Bytes
  pub indexes : List TableIndex
  pub docid : Option Sequence

-- What an insertion returns: nil, a document, or a documentWithKey, less the primary key of the table.
pub data Inserted : Type 0 where
  nothing : Inserted
  plain : Fields → Inserted
  with_key : Bytes → Fields → Inserted

pub record Services : Type 0 where
  -- ValidateDocument, of the constraints of the table
  pub validate : Fields → Result TableError Fields
  -- EncodeDocument, and the document that NewDecoder reads
  pub encode : Fields → Option Bytes
  pub decode : Bytes → Fields
  pub decode-encode : (d : Fields) (b : Bytes) → encode d ≡ some b → decode b ≡ d
  -- binary.PutUvarint
  pub put_uvarint : ℕ → Bytes

-- OnInsertConflictAction; there is a key, or an error, where they are not nil.
abbrev pub OnInsertConflictAction : Type 0
OnInsertConflictAction =
    Option Bytes → Fields → Option TableError → Table → Result TableError (Inserted × Table)

-- GetPrimaryKey
unfoldable pub get_primary_key : List FieldConstraint → Option FieldConstraint
get_primary_key [] = none
get_primary_key (fc ∷ fcs) =
    let rest = get_primary_key fcs in if fc.is_primary_key then some fc else rest

-- The values of an index, with null for what is missing: `v = document.NewNullValue()`.
unfoldable pub or_null : Result PathError Value → Value
or_null (ok v) = v
or_null (err e) = null

unfoldable pub values_of : List DocumentPath → Fields → List Value
unfolding or_null
values_of [] d = []
values_of (p ∷ ps) d = or_null (get_value_from_document d p) ∷ values_of ps d

-- The values of an index in Delete, where an error other than ErrFieldNotFound is returned.
unfoldable pub null_if_missing : Result PathError Value → Result TableError Value
null_if_missing (ok v) = ok v
null_if_missing (err field_not_found) = ok null
null_if_missing (err index_panic) = err (path_failed index_panic)

unfoldable pub found_values : List DocumentPath → Fields → Result TableError (List Value)
unfolding null_if_missing
found_values [] d = ok []
found_values (p ∷ ps) d = do
  v ← null_if_missing (get_value_from_document d p)
  vs ← found_values ps d
  ok (v ∷ vs)

-- An error of an index, in the table.
unfoldable pub or_table_error {ℓ} :
    {A : Type ℓ} → (IndexError → TableError) → Result IndexError A → Result TableError A
or_table_error f (ok a) = ok a
or_table_error f (err e) = err (f e)

-- replace returns ErrDuplicateDocument for ErrIndexDuplicateValue.
unfoldable pub replace_error : IndexError → TableError
replace_error duplicate_value = duplicate_document
replace_error e = index_failed e

-- The key from the sequence of the table.
unfoldable pub docid_key :
    (ℕ → Bytes) → Result SequenceError ℤ × Sequence → Result TableError (Bytes × Option Sequence)
unfolding to_uint64
docid_key put_uvarint (ok n, s) = ok (put_uvarint (to_uint64 n), some s)
docid_key put_uvarint (err e, s) = err (sequence_failed e)

unfoldable pub or_missing : Result PathError Value → Result TableError Value
or_missing (ok v) = ok v
or_missing (err field_not_found) = err missing_primary_key
or_missing (err index_panic) = err (path_failed index_panic)

-- `onConflict`, if it is not nil; else the error is returned.
unfoldable pub on_conflict_or :
    TableError
    → Option OnInsertConflictAction
    → Option Bytes
    → Fields
    → Option TableError
    → Table
    → Result TableError (Inserted × Table)
on_conflict_or e none k d err' t = err e
on_conflict_or e (some f) k d err' t = f k d err' t

unfoldable pub is_not_null_violation : TableError → Bool
is_not_null_violation not_null_violation = true
is_not_null_violation _ = false

-- The first answer that is a key.
unfoldable pub or_next :
    Option Bytes → Result TableError (Option Bytes) → Result TableError (Option Bytes)
or_next (some k) rest = ok (some k)
or_next none rest = rest

module _ (b64 : Base64) where
  -- generateKey behind the look-up of the primary key.
  unfoldable pub primary_key : FieldConstraint → Fields → Result TableError Bytes
  unfolding is_any or_missing append_value marshal_binary
  primary_key pk d = do
    v ← or_missing (get_value_from_document d pk.path)
    ok (if not (is_any pk.type) then marshal_binary b64 v else append_value b64 v)

  unfoldable pub key_of :
      (ℕ → Bytes)
      → Option FieldConstraint
      → Option Sequence
      → Fields
      → Result TableError (Bytes × Option Sequence)
  unfolding primary_key docid_key next
  key_of put_uvarint (some pk) docid d = do k ← primary_key pk d; ok (k, docid)
  key_of put_uvarint none none d = err no_sequence
  key_of put_uvarint none (some s) d = docid_key put_uvarint (next true true s)

  -- The key of a document that has the values of a unique index already.
  unfoldable pub find_duplicate : Fields → List TableIndex → Result TableError (Option Bytes)
  unfolding exists or_table_error values_of or_next
  find_duplicate fb [] = ok none
  find_duplicate fb (i ∷ is) =
      let rest = find_duplicate fb is in
      if not i.info.unique
      then rest
      else or_table_error index_failed (exists b64 i.info (values_of i.paths fb) i.entries) >>= λ k.
          or_next k rest

  -- The loops over the indexes that call Set and Delete.
  unfoldable pub set_all :
      (IndexError → TableError)
      → Fields
      → Bytes
      → List TableIndex
      → Result TableError (List TableIndex)
  unfolding Index.set or_table_error values_of
  set_all f d key [] = ok []
  set_all f d key (i ∷ is) = do
    st ← or_table_error f (Index.set b64 i.info (values_of i.paths d) key i.entries)
    rest ← set_all f d key is
    ok (record i { entries = st } ∷ rest)

  unfoldable pub delete_all :
      (List DocumentPath → Result TableError (List Value))
      → Bytes
      → List TableIndex
      → Result TableError (List TableIndex)
  unfolding Index.delete or_table_error
  delete_all values key [] = ok []
  delete_all values key (i ∷ is) = do
    vs ← values i.paths
    st ← or_table_error index_failed (Index.delete b64 i.info vs key i.entries)
    rest ← delete_all values key is
    ok (record i { entries = st } ∷ rest)

  module _ (sv : Services) where
    -- GetDocument
    unfoldable pub get_document : Bytes → Table → Result TableError Fields
    unfolding get
    get_document key t = do b ← or_error document_not_found (get key t.docs); ok (sv.decode b)

    -- The part of the insertion that writes.
    unfoldable pub write : Bytes → Fields → Table → Result TableError (Inserted × Table)
    unfolding set_all put
    write key fb t = do
      b ← or_error encoding_failed (sv.encode fb)
      is ← set_all index_failed fb key t.indexes
      ok (with_key key fb, record t { docs = put key b t.docs; indexes = is })

    unfoldable pub write_unless :
        Option OnInsertConflictAction
        → Fields
        → Bytes
        → Fields
        → Table
        → Option Bytes
        → Result TableError (Inserted × Table)
    unfolding write on_conflict_or
    write_unless on_conflict d key fb t (some k) =
        on_conflict_or duplicate_document on_conflict (some k) d none t
    write_unless on_conflict d key fb t none = write key fb t

    -- The tests for the key and for the unique indexes.
    unfoldable pub insert_at :
        Option OnInsertConflictAction
        → Fields
        → Bytes
        → Fields
        → Table
        → Option Bytes
        → Result TableError (Inserted × Table)
    unfolding write_unless find_duplicate on_conflict_or
    insert_at on_conflict d key fb t (some b) =
        on_conflict_or duplicate_document on_conflict (some key) d none t
    insert_at on_conflict d key fb t none = do
      dup ← find_duplicate fb t.indexes
      write_unless on_conflict d key fb t dup

    unfoldable pub insert_valid :
        Option OnInsertConflictAction
        → Fields
        → Table
        → Result TableError Fields
        → Result TableError (Inserted × Table)
    unfolding insert_at key_of get_primary_key get on_conflict_or is_not_null_violation
    insert_valid on_conflict d t (err e) =
        if is_not_null_violation e then on_conflict_or e on_conflict none d (some e) t else err e
    insert_valid on_conflict d t (ok fb) = do
      k ← key_of sv.put_uvarint (get_primary_key t.info.field_constraints) t.docid d
      insert_at on_conflict d k.0 fb (record t { docid = k.1 }) (get k.0 t.docs)

    -- InsertWithConflictResolution
    unfoldable pub insert_with_conflict_resolution :
        Option OnInsertConflictAction → Fields → Table → Result TableError (Inserted × Table)
    unfolding insert_valid
    insert_with_conflict_resolution on_conflict d t =
        check (not t.info.read_only) read_only_table (insert_valid on_conflict d t (sv.validate d))

    -- Delete
    unfoldable pub delete_document : Bytes → Table → Result TableError Table
    unfolding get_document delete_all found_values remove
    delete_document key t = check (not t.info.read_only) read_only_table (do
      d ← get_document key t
      is ← delete_all (λ ps. found_values ps d) key t.indexes
      ok (record t { docs = remove key t.docs; indexes = is }))

    -- replace
    unfoldable pub replace_valid : Bytes → Fields → Table → Result TableError Table
    unfolding get_document delete_all set_all put values_of replace_error
    replace_valid key d t = do
      old ← get_document key t
      is ← delete_all (λ ps. ok (values_of ps old)) key t.indexes
      b ← or_error encoding_failed (sv.encode d)
      is' ← set_all replace_error d key is
      ok (record t { docs = put key b t.docs; indexes = is' })

    -- Replace
    unfoldable pub replace_document : Bytes → Fields → Table → Result TableError (Fields × Table)
    unfolding replace_valid
    replace_document key d t =
        check (not t.info.read_only) read_only_table
          (do d' ← sv.validate d; t' ← replace_valid key d' t; ok (d', t'))

    -- OnInsertConflictDoReplace
    unfoldable pub on_insert_conflict_do_replace : OnInsertConflictAction
    unfolding replace_document
    on_insert_conflict_do_replace none d none t = ok (plain d, t)
    on_insert_conflict_do_replace none d (some e) t = err e
    on_insert_conflict_do_replace (some key) d e t = do
      r ← replace_document key d t
      ok (with_key key r.0, r.1)

-- OnInsertConflictDoNothing
unfoldable pub on_insert_conflict_do_nothing : OnInsertConflictAction
on_insert_conflict_do_nothing key d e t = ok (nothing, t)

-- Truncate
unfoldable pub truncate_table : Table → Table
truncate_table t = record t { docs = [] }
