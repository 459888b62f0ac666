-- ===== src/Database/Table/Checks.antt =====
-- The tests before the writes of an insertion (internal/database/table.go), which leave no conflict for the
-- indexes to find.
use genji.Prelude.{
  ℕ, ◌≡◌, ◌≢◌, refl, sym, ap, ◌∙◌, inl, inr, Bool, true, false, not, Option, none, some, List, [],
  ◌∷◌, Bytes, length, leb, ◌==◌, if◌then◌else◌,
}
use genji.Prelude.Results.{Result, ok, err, bind-err, check-err, ◌>>=◌, or_error}
use genji.Document.{Value, Fields, ValueType, type_of, same_type}
use genji.Document.Encode.{Base64}
use genji.Database.Store.{Store, items_from}
use genji.Database.Index.{
  IndexInfo, IndexError, wrong_arity, wrong_type, duplicate_value, incompatible_type, is_any,
  encode_value, encode_each, encode_value_buffer, exists_from, exists, set, set_encoded,
  types_match, unless_duplicate,
}
use genji.Database.Table.{
  TableError, TableIndex, Table, Services, index_failed, encoding_failed, or_table_error, values_of,
  or_next, find_duplicate, set_all, write,
}

-- An error other than that of a duplicate.
abbrev NoDuplicateError {ℓ} : {A : Type ℓ} → Result IndexError A → Type ℓ
NoDuplicateError r = (r ≡ err duplicate_value) → ⊥

encode_value-NoDuplicateError :
    (b64 : Base64) (t : ValueType) (v : Value) → NoDuplicateError (encode_value b64 t v)
unfolding encode_value
encode_value-NoDuplicateError b64 t v = either (is_any t) (same_type (type_of v) t) _ _
  where
    either :
        (b c : Bool) (x y : Bytes)
        → NoDuplicateError (if b then ok x else if c then ok y else err incompatible_type)
    either true c x y e = cc e
    either false true x y e = cc e
    either false false x y e = cc e

encode_each-NoDuplicateError :
    (b64 : Base64) (ts : List ValueType) (vs : List Value)
    → NoDuplicateError (encode_each b64 ts vs)
unfolding encode_each
encode_each-NoDuplicateError b64 ts [] e = cc e
encode_each-NoDuplicateError b64 [] (v ∷ vs) e = cc e
encode_each-NoDuplicateError b64 (t ∷ ts) (v ∷ []) e = encode_value-NoDuplicateError b64 t v e
encode_each-NoDuplicateError b64 (t ∷ ts) (v ∷ w ∷ vs) h =
    elim (bind-err (encode_value b64 t v) _ h) [
      | inl p ↦ encode_value-NoDuplicateError b64 t v p
      | inr q ↦ elim (bind-err (encode_each b64 ts (w ∷ vs)) _ q.1.1) [
        | inl p ↦ encode_each-NoDuplicateError b64 ts (w ∷ vs) p
        | inr p ↦ (let z = p.1.1 in cc z)
      ]
    ]

encode_value_buffer-NoDuplicateError :
    (b64 : Base64) (i : IndexInfo) (vs : List Value)
    → NoDuplicateError (encode_value_buffer b64 i vs)
unfolding encode_value_buffer
encode_value_buffer-NoDuplicateError b64 i vs h =
    elim (check-err (leb (length vs) (length i.types)) wrong_arity _ h) [
      | inl p ↦ cc p
      | inr q ↦ encode_each-NoDuplicateError b64 i.types vs q.1
    ]

reported :
    (u : Bool) (o : Option Bytes) (st : Store ℕ)
    → unless_duplicate u o st ≡ err duplicate_value
    → (u ≡ true) × ((d : Bytes) × (o ≡ some d))
unfolding unless_duplicate
reported true (some d) st h = (refl, (d, refl))
reported true none st h = absurd (cc h)
reported false o st h = absurd (cc h)

-- A duplicate that Set reports is one that Exists finds.
set_duplicate-exists :
    (b64 : Base64) (i : IndexInfo) (vs : List Value) (k : Bytes) (st : Store ℕ)
    → set b64 i vs k st ≡ err duplicate_value
    → (i.unique ≡ true) × ((d : Bytes) × (exists b64 i vs st ≡ ok (some d)))
unfolding set exists set_encoded
set_duplicate-exists b64 i vs [] st h = absurd (cc h)
set_duplicate-exists b64 i [] (c ∷ k) st h = absurd (cc h)
set_duplicate-exists b64 i (v ∷ vs) (c ∷ k) st h =
    elim (check-err (length (v ∷ vs) == length i.types) wrong_arity _ h) [
      | inl p ↦ absurd (cc p)
      | inr q ↦ elim (check-err (types_match i.types (v ∷ vs)) wrong_type _ q.1) [
        | inl p ↦ absurd (cc p)
        | inr t ↦ elim (bind-err (encode_value_buffer b64 i (v ∷ vs)) _ t.1) [
          | inl p ↦ absurd (encode_value_buffer-NoDuplicateError b64 i (v ∷ vs) p)
          | inr e ↦
              (let r = reported i.unique (exists_from e.0 (items_from e.0 st)) _ e.1.1 in
                (r.0, (r.1.0, rw (q.0, e.1.0) (ap ok r.1.1))))
        ]
      ]
    ]

table_error_lem :
    {A : Type 0} (r : Result IndexError A) (e : IndexError)
    → or_table_error index_failed r ≡ err (index_failed e)
    → r ≡ err e
unfolding or_table_error
table_error_lem (ok a) e h = absurd (cc h)
table_error_lem (err x) e h = ap err (let z : x ≡ e = cc h in z)

or_next-none :
    (o : Option Bytes) (rest : Result TableError (Option Bytes))
    → or_next o rest ≡ ok none
    → (o ≡ none) × (rest ≡ ok none)
unfolding or_next
or_next-none none rest h = (refl, h)
or_next-none (some k) rest h = absurd (cc h)

-- What find_duplicate has looked at, index by index.
passed :
    (u : Bool) (r : Result IndexError (Option Bytes)) (rest : Result TableError (Option Bytes))
    → (if not u then rest else or_table_error index_failed r >>= λ k. or_next k rest) ≡ ok none
    → (rest ≡ ok none) × (u ≡ true → r ≡ ok none)
unfolding or_table_error
passed false r rest h = (h, λ q. absurd (cc q))
passed true (ok o) rest h = (let z = or_next-none o rest h in (z.1, λ q. ap ok z.0))
passed true (err x) rest h = absurd (cc h)

pub set_all-checked :
    (b64 : Base64) (d : Fields) (key : Bytes) (is : List TableIndex)
    → find_duplicate b64 d is ≡ ok none
    → set_all b64 index_failed d key is ≡ err (index_failed duplicate_value)
    → ⊥
unfolding find_duplicate set_all
set_all-checked b64 d key [] f h = cc h
set_all-checked b64 d key (i ∷ is) f h =
    let p =
      passed i.info.unique (exists b64 i.info (values_of i.paths d) i.entries)
        (find_duplicate b64 d is) f in
    elim (bind-err
      (or_table_error index_failed (set b64 i.info (values_of i.paths d) key i.entries)) _ h) [
        | inl q ↦
            (let r = set_duplicate-exists b64 i.info (values_of i.paths d) key i.entries (
                table_error_lem (set b64 i.info (values_of i.paths d) key i.entries) duplicate_value
                  q) in
              let z = sym (p.1 r.0) ∙ r.1.1 in cc z)
        | inr q ↦ elim (bind-err (set_all b64 index_failed d key is) _ q.1.1) [
          | inl s ↦ set_all-checked b64 d key is p.0 s
          | inr s ↦ (let z = s.1.1 in cc z)
        ]
      ]

-- Where the search of an insertion has found no duplicate in a unique index, the writes behind it do not
-- fail with the error of an index for a duplicate, whatever the table.
pub write-checked :
    (b64 : Base64) (sv : Services) (key : Bytes) (d : Fields) (t : Table)
    → find_duplicate b64 d t.indexes ≡ ok none
    → write b64 sv key d t ≢ err (index_failed duplicate_value)
unfolding write
write-checked b64 sv key d t f h = elim (bind-err (or_error encoding_failed (sv.encode d)) _ h) [
  | inl p ↦ no_code (sv.encode d) p
  | inr q ↦ elim (bind-err (set_all b64 index_failed d key t.indexes) _ q.1.1) [
    | inl p ↦ set_all-checked b64 d key t.indexes f p
    | inr p ↦ (let z = p.1.1 in cc z)
  ]
]
  where
    no_code :
        (o : Option Bytes) → or_error encoding_failed o ≡ err (index_failed duplicate_value) → ⊥
    no_code none e = cc e
    no_code (some b) e = cc e
