-- ===== src/Database/Index/Consistent.antt =====
-- The invariant that ties the store of an index (internal/database/index.go) to the documents of its table.
use genji.Prelude.{
  ℕ, ◌≡◌, refl, sym, ap, subst, ◌∙◌, inl, inr, false, Option, none, some, List, ◌++◌, Bytes,
  bytes_eq, bytes_eq→eq, bytes_eq_self, length, drop, if◌then◌else◌, Bool-cases, then_of, else_of,
}
use genji.Prelude.Results.{ok, ok-injective}
use genji.Document.{Value, Fields}
use genji.Document.Encode.{Base64}
use genji.Database.Store.{
  Store, get, put, remove, items_from, IsStore, get-put, get-remove, put-IsStore, remove-IsStore,
}
use genji.Database.Index.{IndexInfo, encode_value_buffer, set, scope, delete}
use genji.Database.Index.Search.{
  find_entry-some, items_from-IsStore, get-items_from, items_from-NotBefore, drop-append,
}
use genji.Database.Index.Changes.{set-WasSet, begins}

-- The documents of a table by their keys.
abbrev pub Documents : Type 0
Documents = Bytes → Option Fields

abbrev pub with_document : Documents → Bytes → Fields → Documents
with_document f key d k = if bytes_eq key k then some d else f k

abbrev pub without_document : Documents → Bytes → Documents
without_document f key k = if bytes_eq key k then none else f k

module _ (b64 : Base64) (i : IndexInfo) (values : Fields → List Value) where
  -- The encoded values of different documents never run into the keys behind them: where two entries
  -- are the same bytes, so are the values.
  abbrev pub Separate : Type 0
  Separate =
      (d d' : Fields) (e e' k k' : Bytes)
      → encode_value_buffer b64 i (values d) ≡ ok e
      → encode_value_buffer b64 i (values d') ≡ ok e'
      → e ++ k ≡ e' ++ k'
      → e ≡ e'

  -- An entry of a document.
  pub record Entry (f : Documents) (j : Bytes) (n : ℕ) : Type 0 where
    pub key : Bytes
    pub doc : Fields
    pub e : Bytes
    pub stored : f key ≡ some doc
    pub encoded : encode_value_buffer b64 i (values doc) ≡ ok e
    pub bytes : j ≡ e ++ key
    pub size : n ≡ length e

  -- Each document has its entry, and there are no others.
  pub record IsConsistent (f : Documents) (st : Store ℕ) : Type 0 where
    pub ordered : IsStore st
    pub indexed :
        (k : Bytes) (d : Fields)
        → f k ≡ some d
        → (e : Bytes) × ((encode_value_buffer b64 i (values d) ≡ ok e)
            × (get (e ++ k) st ≡ some (length e)))
    pub sound : (j : Bytes) (n : ℕ) → get j st ≡ some n → Entry f j n

  append_cancel : (e k k' : Bytes) → e ++ k ≡ e ++ k' → k ≡ k'
  append_cancel e k k' h = sym (drop-append e k) ∙ ap (drop (length e)) h ∙ drop-append e k'

  -- Two entries of documents with different keys are different.
  entries_differ :
      (d d' : Fields) (e e' k k' : Bytes)
      → Separate
      → encode_value_buffer b64 i (values d) ≡ ok e
      → encode_value_buffer b64 i (values d') ≡ ok e'
      → bytes_eq k k' ≡ false
      → bytes_eq (e ++ k) (e' ++ k') ≡ false
  entries_differ d d' e e' k k' sep q q' h = elim (Bool-cases (bytes_eq (e ++ k) (e' ++ k'))) [
    | inr p ↦ p
    | inl p ↦
        (let same = bytes_eq→eq (e ++ k) (e' ++ k') p in
          let ee = sep d d' e e' k k' q q' same in
          let kk = append_cancel e' k k' (ap (λ x. x ++ k) (sym ee) ∙ same) in
          let z = sym h ∙ ap (λ x. bytes_eq x k') kk ∙ bytes_eq_self k' in absurd (cc z))
  ]

  ne_keys :
      (f : Documents) (k k' : Bytes) (d : Fields)
      → f k ≡ none
      → f k' ≡ some d
      → bytes_eq k k' ≡ false
  ne_keys f k k' d h h' = elim (Bool-cases (bytes_eq k k')) [
    | inr p ↦ p
    | inl p ↦ (let z = sym h ∙ ap f (bytes_eq→eq k k' p) ∙ h' in absurd (cc z))
  ]

  -- The entry of a new document.
  put-IsConsistent :
      (f : Documents) (key e : Bytes) (d : Fields) (st : Store ℕ)
      → Separate
      → f key ≡ none
      → encode_value_buffer b64 i (values d) ≡ ok e
      → IsConsistent f st
      → IsConsistent (with_document f key d) (put (e ++ key) (length e) st)
  put-IsConsistent f key e d st sep h q c = record {
    ordered = put-IsStore (e ++ key) (length e) st c.ordered;
    indexed = λ k d' g. elim (Bool-cases (bytes_eq key k)) [
      | inl p ↦
          (let same : d ≡ d' = (let z = then_of (bytes_eq key k) _ _ g p in cc z) in
            (
              e,
              (
                ap (λ x. encode_value_buffer b64 i (values x)) (sym same) ∙ q,
                get-put (e ++ key) (e ++ k) (length e) st
                    ∙ rw (sym (bytes_eq→eq key k p), bytes_eq_self (e ++ key)) refl,
              ),
            ))
      | inr p ↦
          (let g' = else_of (bytes_eq key k) _ _ g p in
            let o = c.indexed k d' g' in
            (
              o.0,
              (
                o.1.0,
                get-put (e ++ key) (o.0 ++ k) (length e) st
                    ∙ rw (entries_differ d d' e o.0 key k sep q o.1.0 p) o.1.1,
              ),
            ))
    ];
    sound = λ j n g.
        let g' = sym (get-put (e ++ key) j (length e) st) ∙ g in
        elim (Bool-cases (bytes_eq (e ++ key) j)) [
          | inl p ↦ record {
            key = key;
            doc = d;
            e = e;
            stored = rw (bytes_eq_self key) refl;
            encoded = q;
            bytes = sym (bytes_eq→eq (e ++ key) j p);
            size = (let z = then_of (bytes_eq (e ++ key) j) _ _ g' p in cc z);
          }
          | inr p ↦
              (let o = c.sound j n (else_of (bytes_eq (e ++ key) j) _ _ g' p) in
                record {
                  key = o.key;
                  doc = o.doc;
                  e = o.e;
                  stored = rw (ne_keys f key o.key o.doc h o.stored) o.stored;
                  encoded = o.encoded;
                  bytes = o.bytes;
                  size = o.size;
                })
        ];
  }

  -- Set keeps the invariant for the new document.
  pub set-IsConsistent :
      (f : Documents) (key : Bytes) (d : Fields) (st st' : Store ℕ)
      → Separate
      → f key ≡ none
      → IsConsistent f st
      → set b64 i (values d) key st ≡ ok st'
      → IsConsistent (with_document f key d) st'
  set-IsConsistent f key d st st' sep h c r =
      let w = set-WasSet b64 i (values d) key st st' r in
      subst (IsConsistent (with_document f key d)) (sym w.stored)
        (put-IsConsistent f key w.e d st sep h w.encoded c)

  same_document :
      (f : Documents) (k k' : Bytes) (d d' : Fields)
      → f k ≡ some d
      → f k' ≡ some d'
      → k' ≡ k
      → d' ≡ d
  same_document f k k' d d' h h' e = let z = sym h' ∙ ap f e ∙ h in cc z

  -- The entry of a document that goes.
  remove-IsConsistent :
      (f : Documents) (key e : Bytes) (d : Fields) (st : Store ℕ)
      → Separate
      → f key ≡ some d
      → encode_value_buffer b64 i (values d) ≡ ok e
      → IsConsistent f st
      → IsConsistent (without_document f key) (remove (e ++ key) st)
  remove-IsConsistent f key e d st sep h q c = record {
    ordered = remove-IsStore (e ++ key) st c.ordered;
    indexed = λ k d' g. elim (Bool-cases (bytes_eq key k)) [
      | inl p ↦ (let z = then_of (bytes_eq key k) _ _ g p in absurd (cc z))
      | inr p ↦
          (let o = c.indexed k d' (else_of (bytes_eq key k) _ _ g p) in
            (
              o.0,
              (
                o.1.0,
                get-remove (e ++ key) (o.0 ++ k) st c.ordered
                    ∙ rw (entries_differ d d' e o.0 key k sep q o.1.0 p) o.1.1,
              ),
            ))
    ];
    sound = λ j n g.
        let g' = sym (get-remove (e ++ key) j st c.ordered) ∙ g in
        elim (Bool-cases (bytes_eq (e ++ key) j)) [
          | inl p ↦ (let z = then_of (bytes_eq (e ++ key) j) _ _ g' p in absurd (cc z))
          | inr p ↦
              (let o = c.sound j n (else_of (bytes_eq (e ++ key) j) _ _ g' p) in
                record {
                  key = o.key;
                  doc = o.doc;
                  e = o.e;
                  stored = elim (Bool-cases (bytes_eq key o.key)) [
                    | inr r ↦ rw r o.stored
                    | inl r ↦
                        (let kk = sym (bytes_eq→eq key o.key r) in
                          let dd = same_document f key o.key d o.doc h o.stored kk in
                          let ee : o.e ≡ e = ok-injective (
                            sym o.encoded
                            ∙ ap (λ x. encode_value_buffer b64 i (values x)) dd
                            ∙ q) in
                          let z =
                            sym p
                            ∙ ap (bytes_eq (e ++ key))
                                (o.bytes ∙ ap (λ x. x ++ o.key) ee ∙ ap (λ x. e ++ x) kk)
                            ∙ bytes_eq_self (e ++ key) in
                          absurd (cc z))
                  ];
                  encoded = o.encoded;
                  bytes = o.bytes;
                  size = o.size;
                })
        ];
  }

  -- The entries of a key are the one of its document.
  only-Entry :
      (f : Documents) (key e : Bytes) (d : Fields) (st : Store ℕ) (j : Bytes) (n : ℕ)
      → f key ≡ some d
      → encode_value_buffer b64 i (values d) ≡ ok e
      → Entry f j n
      → drop n j ≡ key
      → j ≡ e ++ key
  only-Entry f key e d st j n h q o g =
      let kk : o.key ≡ key =
        sym (drop-append o.e o.key)
        ∙ ap (drop (length o.e)) (sym o.bytes)
        ∙ ap (λ m. drop m j) (sym o.size)
        ∙ g in
      let dd = same_document f key o.key d o.doc h o.stored kk in
      let ee : o.e ≡ e =
        ok-injective (sym o.encoded ∙ ap (λ x. encode_value_buffer b64 i (values x)) dd ∙ q) in
      o.bytes ∙ ap (λ x. x ++ o.key) ee ∙ ap (λ x. e ++ x) kk

  -- Delete of the values of a document succeeds, and keeps the invariant for the others.
  pub delete-IsConsistent :
      (f : Documents) (key : Bytes) (d : Fields) (st : Store ℕ)
      → Separate
      → f key ≡ some d
      → IsConsistent f st
      → (st' : Store ℕ) × ((delete b64 i (values d) key st ≡ ok st')
          × IsConsistent (without_document f key) st')
  unfolding delete
  delete-IsConsistent f key d st sep h c =
      let o = c.indexed key d h in
      let e = o.0 in
      let b = begins b64 i.types i.unique (values d) e o.1.0 in
      let t = e ++ key in
      let at : get t (items_from b.start st) ≡ some (length e) =
        get-items_from b.start t st (b.before key) ∙ o.1.1 in
      let back : (j : Bytes) (m : ℕ) → get j (items_from b.start st) ≡ some m → get j st ≡ some m =
        (λ j m g.
          sym (get-items_from b.start j st (items_from-NotBefore b.start j st m c.ordered g))
          ∙ g) in
      let found =
        find_entry-some (scope i (values d)) key t (items_from b.start st) (length e)
          (items_from-IsStore b.start st c.ordered)
          (λ j m g r. only-Entry f key e d st j m h o.1.0 (c.sound j m (back j m g)) r)
          (λ j m g r. b.scoped j key (items_from-NotBefore b.start j st m c.ordered g) (inl r)) at
          (drop-append e key) (b.scoped t key (b.before key) (inr refl)) in
      (remove t st, (rw (b.built, found) refl, remove-IsConsistent f key e d st sep h o.1.0 c))
