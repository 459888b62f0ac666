-- ===== src/Database/Samples.antt =====
-- A table with a unique index of integers, and a codec for its documents.
use genji.Prelude.{
  ℕ, ◌≡◌, ◌≢◌, ◌⊎◌, refl, ap, subst, true, false, Option, none, some, [], ◌∷◌, ◌++◌, Bytes,
  bytes_eq, compare_bytes,
}
use genji.Prelude.Int.{pos, negsuc, to_uint64, of_uint64, wrap, ◌-ℤ◌, ◌+ℤ◌}
use genji.Prelude.Results.{ok, err}
use genji.Document.{
  Value, Fields, null, bool, integer, double, text, blob, array, document, end, field, type_of,
  type_code, same_type, integer_value,
}
use genji.Document.Buffer.{
  DocumentPath, get_value_from_document, get_value_from_value, get_by_field,
}
use genji.Binarysort.{append_int64, append_uint64, big_endian}
use genji.Sequence.{
  Sequence, SequenceInfo, next, handed, new_value, hand_out, candidate, above_min, below_max,
  new_lease, has_value,
}
use genji.Database.Store.{get, put, remove, items_from}
use genji.Database.Index.{
  duplicate_value, is_any, exists, exists_from, types_match, unless_duplicate, set_encoded, scope,
  in_scope, find_entry, marshal_binary, encode_value, encode_each, encode_value_buffer, set,
  build_seek, delete,
}
use genji.Database.Index.Consistent.{with_document, without_document}
use genji.Database.Index.Exists.{Answers, exists-Answers, set-longer_text, unique_text}
use genji.Database.Index.Typed.{integer_index, integer-Separate}
use genji.Database.Table.{
  Table, Services, with_key, OnInsertConflictAction, get_primary_key, or_null, values_of,
  or_table_error, replace_error, docid_key, on_conflict_or, key_of, or_next, find_duplicate,
  set_all, delete_all, get_document, write, write_unless, insert_at, insert_valid,
  insert_with_conflict_resolution, delete_document, replace_valid, replace_document,
  on_insert_conflict_do_replace, index_failed,
}
use genji.Database.Table.Invariant.{lookup, IsTable, Became, delete_document-Became}
use genji.Database.Table.Insert.{
  Wrote, Resolved, insert-cases, insert-IsTable, do_replace-KeepsTables, replace_document-Became,
  KeepsTables,
}
use genji.Database.Table.{FieldConstraint, primary_key, or_missing}
use genji.Document.{any_type}
use genji.Prelude.{inl}
use genji.Document.Floats.{Floats}
use genji.Document.Cast.{Texts, cast_as_double}
use genji.Document.Encode.{append_value}
use genji.Database.Table.Keys.{
  encode_value_to_key, integer_to_double, primary_key-encode_value_to_key, primary_key-integer,
}
use genji.Database.Table.Checks.{write-checked}
use genji.Document.Encode.Samples.{signs}

-- Documents with one field, a natural number.
encode_number : Bytes → Value → Option Bytes
encode_number k (integer (pos n)) = some (n ∷ k)
encode_number k _ = none

encode_one : Fields → Option Bytes
unfolding encode_number
encode_one end = none
encode_one (field k v end) = encode_number k v
encode_one (field k v (field l w fs)) = none

decode_one : Bytes → Fields
decode_one [] = end
decode_one (n ∷ k) = field k (integer (pos n)) end

decode_number :
    (k b : Bytes) (v : Value) → encode_number k v ≡ some b → decode_one b ≡ field k v end
unfolding encode_number decode_one
decode_number k b (integer (pos n)) h = ap decode_one (let z : b ≡ n ∷ k = cc h in z)
decode_number k b (integer (negsuc n)) h = absurd (cc h)
decode_number k b null h = absurd (cc h)
decode_number k b (bool x) h = absurd (cc h)
decode_number k b (double x) h = absurd (cc h)
decode_number k b (text x) h = absurd (cc h)
decode_number k b (blob x) h = absurd (cc h)
decode_number k b (array x) h = absurd (cc h)
decode_number k b (document x) h = absurd (cc h)

decode_one-encode_one : (d : Fields) (b : Bytes) → encode_one d ≡ some b → decode_one b ≡ d
unfolding encode_one
decode_one-encode_one end b h = absurd (cc h)
decode_one-encode_one (field k v end) b h = decode_number k b v h
decode_one-encode_one (field k v (field l w fs)) b h = absurd (cc h)

abbrev services : Services
services = record {
  validate = λ d. ok d;
  encode = encode_one;
  decode = decode_one;
  decode-encode = decode_one-encode_one;
  put_uvarint = λ n. n ∷ [];
}

abbrev path_a : DocumentPath
path_a = record { field_name = 97 ∷ []; array_index = 0 } ∷ []

abbrev docids : SequenceInfo
docids = record {
  increment_by = pos 1;
  min = pos 1;
  max = pos 9;
  start = pos 1;
  cache = 9;
  cycle = false;
}

abbrev empty_table : Table
empty_table = record {
  info = record { read_only = false; field_constraints = [] };
  docs = [];
  indexes = record { info = integer_index true; paths = path_a ∷ []; entries = [] } ∷ [];
  docid = some (record { info = docids; current_value = none; cached = 0; lease = none });
}

-- {a: 7}, and the key of its entry before the key 1 of the document.
abbrev seven : Fields
seven = field (97 ∷ []) (integer (pos 7)) end

abbrev code_7 : Bytes
code_7 = 128 ∷ 0 ∷ 0 ∷ 0 ∷ 0 ∷ 0 ∷ 0 ∷ 7 ∷ []

abbrev one_row : Option Sequence → Table
one_row s = record {
  info = record { read_only = false; field_constraints = [] };
  docs = (1 ∷ [], 7 ∷ 97 ∷ []) ∷ [];
  indexes =
      record {
        info = integer_index true;
        paths = path_a ∷ [];
        entries = (code_7 ++ 1 ∷ [], 8) ∷ [];
      }
      ∷ [];
  docid = s;
}

abbrev after : ℕ → Option Sequence
after n =
    some (record { info = docids; current_value = some (pos n); cached = n; lease = some (pos 9) })

insert_seven :
    insert_with_conflict_resolution signs services none seven empty_table
    ≡ ok (with_key (1 ∷ []) seven, one_row (after 1))
unfolding insert_with_conflict_resolution insert_valid key_of docid_key get_primary_key insert_at
    write_unless write set_all find_duplicate or_next or_table_error values_of or_null
    get_value_from_document get_value_from_value get_by_field exists set set_encoded types_match
    encode_value_buffer encode_each encode_value marshal_binary append_int64 append_uint64
    big_endian is_any same_type type_of type_code exists_from items_from put get unless_duplicate
    next handed new_value hand_out candidate above_min below_max new_lease has_value to_uint64
    of_uint64 wrap encode_one encode_number compare_bytes bytes_eq ◌-ℤ◌ ◌+ℤ◌
insert_seven = refl

empty-IsTable : IsTable signs services empty_table
unfolding get values_of
empty-IsTable = record {
  ordered = tt;
  indexed = (
    record {
      separate = integer-Separate signs true (λ d. or_null (get_value_from_document d path_a));
      consistent = record {
        ordered = tt;
        indexed = λ k d h. absurd (cc h);
        sound = λ j n h. absurd (cc h);
      };
      no_duplicates = λ u k k' d d' e h h' q q'. absurd (cc h);
    },
    tt,
  );
}

one-IsTable : IsTable signs services (one_row (after 1))
one-IsTable =
    insert-IsTable signs services none seven empty_table (with_key (1 ∷ []) seven)
      (one_row (after 1)) (λ f h. absurd (cc h)) empty-IsTable insert_seven

insert_again :
    insert_with_conflict_resolution signs services
      (some (on_insert_conflict_do_replace signs services))
      seven
      (one_row (after 1))
    ≡ ok (with_key (1 ∷ []) seven, one_row (after 2))
unfolding insert_with_conflict_resolution insert_valid key_of docid_key get_primary_key insert_at
    write_unless write set_all find_duplicate or_next or_table_error values_of or_null
    get_value_from_document get_value_from_value get_by_field exists set set_encoded types_match
    encode_value_buffer encode_each encode_value marshal_binary append_int64 append_uint64
    big_endian is_any same_type type_of type_code exists_from items_from put get unless_duplicate
    next handed new_value hand_out candidate above_min below_max new_lease has_value to_uint64
    of_uint64 wrap encode_one encode_number compare_bytes bytes_eq ◌-ℤ◌ ◌+ℤ◌ replace_document
    replace_valid get_document delete_all delete build_seek scope in_scope find_entry remove
    replace_error decode_one on_conflict_or on_insert_conflict_do_replace
insert_again = refl

only_action :
    (f : OnInsertConflictAction)
    → some (on_insert_conflict_do_replace signs services) ≡ some f
    → KeepsTables signs services f
only_action f h =
    subst (KeepsTables signs services)
      (let z : on_insert_conflict_do_replace signs services ≡ f = cc h in z)
      (do_replace-KeepsTables signs services)

insert-IsTable_example : IsTable signs services (one_row (after 2))
insert-IsTable_example =
    insert-IsTable signs services (some (on_insert_conflict_do_replace signs services)) seven
      (one_row (after 1)) (with_key (1 ∷ []) seven) (one_row (after 2)) only_action one-IsTable
      insert_again

insert-cases_example :
    Wrote signs services seven empty_table (with_key (1 ∷ []) seven) (one_row (after 1))
    ⊎ Resolved signs services none seven empty_table (with_key (1 ∷ []) seven) (one_row (after 1))
insert-cases_example =
    insert-cases signs services none seven empty_table (with_key (1 ∷ []) seven) (one_row (after 1))
      empty-IsTable insert_seven

delete_document-Became_example :
    (t' : Table) × ((delete_document signs services (1 ∷ []) (one_row (after 1)) ≡ ok t')
      × Became signs services
          (without_document (lookup decode_one (one_row (after 1)).docs) (1 ∷ []))
          t')
unfolding get bytes_eq decode_one
delete_document-Became_example =
    delete_document-Became signs services (1 ∷ []) seven (one_row (after 1)) one-IsTable refl refl

replace_seven :
    replace_document signs services (1 ∷ []) seven (one_row (after 1))
    ≡ ok (seven, one_row (after 1))
unfolding insert_with_conflict_resolution insert_valid key_of docid_key get_primary_key insert_at
    write_unless write set_all find_duplicate or_next or_table_error values_of or_null
    get_value_from_document get_value_from_value get_by_field exists set set_encoded types_match
    encode_value_buffer encode_each encode_value marshal_binary append_int64 append_uint64
    big_endian is_any same_type type_of type_code exists_from items_from put get unless_duplicate
    next handed new_value hand_out candidate above_min below_max new_lease has_value to_uint64
    of_uint64 wrap encode_one encode_number compare_bytes bytes_eq ◌-ℤ◌ ◌+ℤ◌ replace_document
    replace_valid get_document delete_all delete build_seek scope in_scope find_entry remove
    replace_error decode_one on_conflict_or on_insert_conflict_do_replace
replace_seven = refl

replace_document-Became_example :
    (services.validate seven ≡ ok seven)
    × Became signs services
        (with_document (lookup decode_one (one_row (after 1)).docs) (1 ∷ []) seven)
        (one_row (after 1))
replace_document-Became_example =
    replace_document-Became signs services (1 ∷ []) seven seven (one_row (after 1))
      (one_row (after 1)) one-IsTable replace_seven

write-checked_example :
    write signs services (2 ∷ []) seven empty_table ≢ err (index_failed duplicate_value)
unfolding insert_with_conflict_resolution insert_valid key_of docid_key get_primary_key insert_at
    write_unless write set_all find_duplicate or_next or_table_error values_of or_null
    get_value_from_document get_value_from_value get_by_field exists set set_encoded types_match
    encode_value_buffer encode_each encode_value marshal_binary append_int64 append_uint64
    big_endian is_any same_type type_of type_code exists_from items_from put get unless_duplicate
    next handed new_value hand_out candidate above_min below_max new_lease has_value to_uint64
    of_uint64 wrap encode_one encode_number compare_bytes bytes_eq ◌-ℤ◌ ◌+ℤ◌
write-checked_example = write-checked signs services (2 ∷ []) seven empty_table refl

exists-Answers_example :
    (e : Bytes) × ((encode_value_buffer signs unique_text (text (97 ∷ []) ∷ []) ≡ ok e)
      × Answers e (some (98 ∷ 1 ∷ [])) ((97 ∷ 98 ∷ 1 ∷ [], 2) ∷ []))
unfolding insert_with_conflict_resolution insert_valid key_of docid_key get_primary_key insert_at
    write_unless write set_all find_duplicate or_next or_table_error values_of or_null
    get_value_from_document get_value_from_value get_by_field exists set set_encoded types_match
    encode_value_buffer encode_each encode_value marshal_binary append_int64 append_uint64
    big_endian is_any same_type type_of type_code exists_from items_from put get unless_duplicate
    next handed new_value hand_out candidate above_min below_max new_lease has_value to_uint64
    of_uint64 wrap encode_one encode_number compare_bytes bytes_eq ◌-ℤ◌ ◌+ℤ◌
exists-Answers_example =
    exists-Answers signs unique_text (text (97 ∷ []) ∷ []) ((97 ∷ 98 ∷ 1 ∷ [], 2) ∷ [])
      (some (98 ∷ 1 ∷ [])) (tt, tt) refl

set-longer_text_example :
    set signs unique_text (text (97 ∷ []) ∷ []) (2 ∷ []) ((97 ∷ 98 ∷ 1 ∷ [], 2) ∷ [])
    ≡ err duplicate_value
unfolding insert_with_conflict_resolution insert_valid key_of docid_key get_primary_key insert_at
    write_unless write set_all find_duplicate or_next or_table_error values_of or_null
    get_value_from_document get_value_from_value get_by_field exists set set_encoded types_match
    encode_value_buffer encode_each encode_value marshal_binary append_int64 append_uint64
    big_endian is_any same_type type_of type_code exists_from items_from put get unless_duplicate
    next handed new_value hand_out candidate above_min below_max new_lease has_value to_uint64
    of_uint64 wrap encode_one encode_number compare_bytes bytes_eq ◌-ℤ◌ ◌+ℤ◌
set-longer_text_example =
    set-longer_text signs (97 ∷ []) (98 ∷ []) [] (1 ∷ []) 2 2 ((97 ∷ 98 ∷ 1 ∷ [], 2) ∷ []) (tt, tt)
      refl

-- Casts of which no test here depends on the library.
abbrev no_floats : Floats
no_floats = record {
  of_int64 = λ i. 0;
  to_int64 = λ d. pos 0;
  add_float = λ x y. 0;
  sub_float = λ x y. 0;
  mul_float = λ x y. 0;
  div_float = λ x y. 0;
  mod_float = λ x y. 0;
}

abbrev no_texts : Texts
no_texts = record {
  parse_bool = λ s. none;
  parse_int = λ s. none;
  parse_float = λ s. none;
  unquote = λ s. none;
  decode_base64 = λ s. none;
  marshal_json = λ v. none;
  array_of_json = λ s. none;
  document_of_json = λ s. none;
}

abbrev integer_key : FieldConstraint
integer_key = record { path = path_a; type = integer_value; is_primary_key = true }

abbrev any_key : FieldConstraint
any_key = record { path = path_a; type = any_type; is_primary_key = true }

primary_key-encode_value_to_key_example :
    (k : Bytes) × ((primary_key signs integer_key seven ≡ ok k)
      × (encode_value_to_key no_floats no_texts signs services.put_uvarint
            (some integer_key)
            (integer (pos 7))
          ≡ ok k))
unfolding get_value_from_document get_value_from_value get_by_field bytes_eq is_any same_type
    type_of type_code
primary_key-encode_value_to_key_example =
    primary_key-encode_value_to_key no_floats no_texts signs services.put_uvarint integer_key seven
      (integer (pos 7)) refl (inl (refl, refl))

primary_key-integer_example : append_value signs (integer (pos 7)) ≢ append_value signs (double 0)
unfolding get_value_from_document get_value_from_value get_by_field bytes_eq is_any primary_key
    or_missing encode_value_to_key integer_to_double cast_as_double
primary_key-integer_example =
    primary_key-integer no_floats no_texts signs services.put_uvarint any_key seven (pos 7)
      (append_value signs (integer (pos 7))) (append_value signs (double 0)) refl refl refl refl
