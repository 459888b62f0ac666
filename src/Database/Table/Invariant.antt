-- ===== src/Database/Table/Invariant.antt =====
-- The invariant of a table (internal/database/table.go), and its documents.
use genji.Prelude.{
  ◌≡◌, refl, sym, ap, subst, ◌∙◌, Bool, true, false, Option, none, some, List, Bytes, bytes_eq, All,
  if◌then◌else◌, bytes_eq_self,
}
use mathlib.Core.Path.{fun_ext}
use mathlib.Core.Option
use genji.Prelude.Results.{ok, bind-ok, or_error-ok, ok-injective, ◌>>=◌, or_error}
use genji.Document.{Fields}
use genji.Document.Encode.{Base64}
use genji.Database.Store.{
  Store, get, put, remove, IsStore, get-put, get-remove, put-IsStore, remove-IsStore,
}
use genji.Database.Index.Consistent.{Documents, with_document, without_document}
use genji.Database.Table.{
  TableIndex, Table, Services, values_of, found_values, set_all, delete_all, Inserted, with_key,
  write, index_failed, document_not_found, encoding_failed, replace_error, get_document,
  delete_document, replace_valid,
}
use genji.Database.Table.Indexes.{IsIndex, set_all-IsIndex, delete_all-IsIndex, found_values_lem}

-- The documents of a table, by the store of their encodings.
abbrev pub lookup : (Bytes → Fields) → Store Bytes → Documents
lookup decode st k = Option.map decode (get k st)

pub lookup-put :
    (decode : Bytes → Fields) (k b : Bytes) (st : Store Bytes)
    → lookup decode (put k b st) ≡ with_document (lookup decode st) k (decode b)
lookup-put decode k b st =
    fun_ext (λ j. ap (Option.map decode) (get-put k j b st) ∙ map_if (bytes_eq k j) (get j st))
  where
    map_if :
        (c : Bool) (o : Option Bytes)
        → Option.map decode (if c then some b else o)
          ≡ (if c then some (decode b) else Option.map decode o)
    map_if true o = refl
    map_if false o = refl

pub lookup-remove :
    (decode : Bytes → Fields) (k : Bytes) (st : Store Bytes)
    → IsStore st
    → lookup decode (remove k st) ≡ without_document (lookup decode st) k
lookup-remove decode k st s =
    fun_ext (λ j. ap (Option.map decode) (get-remove k j st s) ∙ map_if (bytes_eq k j) (get j st))
  where
    map_if :
        (c : Bool) (o : Option Bytes)
        → Option.map decode (if c then none else o) ≡ (if c then none else Option.map decode o)
    map_if true o = refl
    map_if false o = refl

pub with-without :
    (f : Documents) (k : Bytes) (d : Fields)
    → with_document (without_document f k) k d ≡ with_document f k d
with-without f k d = fun_ext (λ j. twice (bytes_eq k j) (f j))
  where
    twice :
        (c : Bool) (o : Option Fields)
        → (if c then some d else (if c then none else o)) ≡ (if c then some d else o)
    twice true o = refl
    twice false o = refl

module _ (b64 : Base64) (sv : Services) where
  -- The keys are in order, and each index has the entries of the documents, whose encoded values never run
  -- into the keys behind them.
  pub record IsTable (t : Table) : Type 0 where
    pub ordered : IsStore t.docs
    pub indexed : All (IsIndex b64 (lookup sv.decode t.docs)) t.indexes

  -- What a call has made of the documents, where it succeeds.
  pub record Became (f : Documents) (t : Table) : Type 0 where
    pub is_table : IsTable t
    pub documents : lookup sv.decode t.docs ≡ f

  became :
      (f : Documents) (t : Table)
      → IsStore t.docs
      → lookup sv.decode t.docs ≡ f
      → All (IsIndex b64 f) t.indexes
      → Became f t
  became f t s e a = record {
    is_table = record {
      ordered = s;
      indexed = subst (λ g. All (IsIndex b64 g) t.indexes) (sym e) a;
    };
    documents = e;
  }

  put-Became :
      (f : Documents) (key b : Bytes) (d : Fields) (t : Table) (is : List TableIndex)
      → sv.encode d ≡ some b
      → IsStore t.docs
      → with_document (lookup sv.decode t.docs) key d ≡ f
      → All (IsIndex b64 f) is
      → Became f (record t { docs = put key b t.docs; indexes = is })
  put-Became f key b d t is q s e a =
      became f (record t { docs = put key b t.docs; indexes = is }) (put-IsStore key b t.docs s)
        (lookup-put sv.decode key b t.docs
          ∙ ap (with_document (lookup sv.decode t.docs) key) (sv.decode-encode d b q)
          ∙ e)
        a

  pub get_document_lem :
      (key : Bytes) (t : Table)
      → get_document b64 sv key t ≡ or_error document_not_found (lookup sv.decode t.docs key)
  unfolding get_document
  get_document_lem key t = decoded (get key t.docs)
    where
      decoded :
          (o : Option Bytes)
          → (or_error document_not_found o >>= λ b. ok (sv.decode b))
            ≡ or_error document_not_found (Option.map sv.decode o)
      decoded none = refl
      decoded (some b) = refl

  -- The writes of an insertion.
  pub write-Became :
      (key : Bytes) (d : Fields) (t t' : Table) (r : Inserted)
      → IsTable t
      → get key t.docs ≡ none
      → write b64 sv key d t ≡ ok (r, t')
      → (r ≡ with_key key d) × Became (with_document (lookup sv.decode t.docs) key d) t'
  unfolding write
  write-Became key d t t' r h n w =
      let b = bind-ok (or_error encoding_failed (sv.encode d)) _ w in
      let is = bind-ok (set_all b64 index_failed d key t.indexes) _ b.1.1 in
      let z = ok-injective is.1.1 in
      (
        sym (ap (λ x. x.0) z),
        subst (Became (with_document (lookup sv.decode t.docs) key d)) (ap (λ x. x.1) z) (
            put-Became _ key b.0 d t is.0 (or_error-ok encoding_failed (sv.encode d) b.1.0)
              h.ordered refl
              (set_all-IsIndex b64 index_failed (lookup sv.decode t.docs) key d t.indexes is.0
                (ap (Option.map sv.decode) n) h.indexed is.1.0)),
      )

  -- Delete of a document of a consistent table that is not read-only succeeds, and leaves a consistent
  -- table with the other documents.
  pub delete_document-Became :
      (key : Bytes) (d : Fields) (t : Table)
      → IsTable t
      → t.info.read_only ≡ false
      → lookup sv.decode t.docs key ≡ some d
      → (t' : Table) × ((delete_document b64 sv key t ≡ ok t')
          × Became (without_document (lookup sv.decode t.docs) key) t')
  unfolding delete_document
  delete_document-Became key d t h w l =
      let g = get_document_lem key t ∙ ap (or_error document_not_found) l in
      let r =
        delete_all-IsIndex b64 (λ ps. found_values ps d) (lookup sv.decode t.docs) key d t.indexes
          (found_values_lem d) l h.indexed in
      let t' : Table = record t { docs = remove key t.docs; indexes = r.0 } in
      (
        t',
        (
          rw (w, g, r.1.0) refl,
          became _ t' (remove-IsStore key t.docs h.ordered)
              (lookup-remove sv.decode key t.docs h.ordered) r.1.1,
        ),
      )

  -- replace, where it succeeds.
  pub replace_valid-Became :
      (key : Bytes) (d : Fields) (t t' : Table)
      → IsTable t
      → replace_valid b64 sv key d t ≡ ok t'
      → Became (with_document (lookup sv.decode t.docs) key d) t'
  unfolding replace_valid
  replace_valid-Became key d t t' h w =
      let f : Documents = lookup sv.decode t.docs in
      let old = bind-ok (get_document b64 sv key t) _ w in
      let l : f key ≡ some old.0 =
        or_error-ok document_not_found (f key) (sym (get_document_lem key t) ∙ old.1.0) in
      let without =
        delete_all-IsIndex b64 (λ ps. ok (values_of ps old.0)) f key old.0 t.indexes (λ ps. refl) l
          h.indexed in
      let r = bind-ok (delete_all b64 (λ ps. ok (values_of ps old.0)) key t.indexes) _ old.1.1 in
      let same : without.0 ≡ r.0 = ok-injective (sym without.1.0 ∙ r.1.0) in
      let b = bind-ok (or_error encoding_failed (sv.encode d)) _ r.1.1 in
      let is = bind-ok (set_all b64 replace_error d key r.0) _ b.1.1 in
      let indexed =
        set_all-IsIndex b64 replace_error (without_document f key) key d r.0 is.0
          (rw (bytes_eq_self key) refl)
          (subst (All (IsIndex b64 (without_document f key))) same without.1.1) is.1.0 in
      subst (Became (with_document f key d)) (ok-injective is.1.1) (
        put-Became (with_document f key d) key b.0 d t is.0
          (or_error-ok encoding_failed (sv.encode d) b.1.0) h.ordered refl
          (subst (λ g. All (IsIndex b64 g) is.0) (with-without f key d) indexed))
