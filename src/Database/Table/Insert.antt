-- ===== src/Database/Table/Insert.antt =====
-- Insert and InsertWithConflictResolution (internal/database/table.go) with the actions of conflict.go.
use genji.Prelude.{
  ◌≡◌, refl, sym, ap, subst, ◌∙◌, ◌⊎◌, inl, inr, not, Option, none, some, Bytes, Bool-cases,
  then_of, else_of,
}
use mathlib.Core.Option
use genji.Prelude.Results.{Result, ok, err, bind-ok, check-ok, ok-injective}
use genji.Document.{Fields}
use genji.Document.Encode.{Base64}
use genji.Sequence.{Sequence}
use genji.Database.Store.{get}
use genji.Database.Index.Consistent.{with_document}
use genji.Database.Table.{
  TableError, Table, Services, Inserted, with_key, OnInsertConflictAction, on_conflict_or,
  is_not_null_violation, key_of, get_primary_key, find_duplicate, write_unless, insert_at,
  insert_valid, insert_with_conflict_resolution, replace_document, replace_valid,
  on_insert_conflict_do_replace, on_insert_conflict_do_nothing, duplicate_document, read_only_table,
}
use genji.Database.Table.Invariant.{lookup, IsTable, Became, write-Became, replace_valid-Became}

module _ (b64 : Base64) (sv : Services) where
  -- The document was written.
  pub record Wrote (d : Fields) (t : Table) (r : Inserted) (t' : Table) : Type 0 where
    pub key : Bytes
    pub doc : Fields
    pub validated : sv.validate d ≡ ok doc
    pub new : lookup sv.decode t.docs key ≡ none
    pub returned : r ≡ with_key key doc
    pub became : Became b64 sv (with_document (lookup sv.decode t.docs) key doc) t'

  -- A conflict action has returned, which was called on the table.
  pub record Resolved (on_conflict : Option OnInsertConflictAction) (d : Fields) (t : Table)
      (r : Inserted) (t' : Table) : Type 0 where
    pub action : OnInsertConflictAction
    pub key : Option Bytes
    pub e : Option TableError
    pub docid : Option Sequence
    pub is_action : on_conflict ≡ some action
    pub resolved : action key d e (record t { docid = docid }) ≡ ok (r, t')

  with_docid :
      (t : Table) (s : Option Sequence) → IsTable b64 sv t → IsTable b64 sv (record t { docid = s })
  with_docid t s h = record { ordered = h.ordered; indexed = h.indexed }

  resolved :
      (e0 : TableError) (oc : Option OnInsertConflictAction) (k : Option Bytes) (d : Fields)
      (e : Option TableError) (s : Option Sequence) (t : Table) (r : Inserted) (t' : Table)
      → on_conflict_or e0 oc k d e (record t { docid = s }) ≡ ok (r, t')
      → Resolved oc d t r t'
  unfolding on_conflict_or
  resolved e0 none k d e s t r t' h = absurd (cc h)
  resolved e0 (some f) k d e s t r t' h = record {
    action = f;
    key = k;
    e = e;
    docid = s;
    is_action = refl;
    resolved = h;
  }

  write_unless-cases :
      (oc : Option OnInsertConflictAction) (d fb : Fields) (key : Bytes) (s : Option Sequence)
      (t : Table) (r : Inserted) (t' : Table) (dup : Option Bytes)
      → IsTable b64 sv t
      → sv.validate d ≡ ok fb
      → get key t.docs ≡ none
      → write_unless b64 sv oc d key fb (record t { docid = s }) dup ≡ ok (r, t')
      → Wrote d t r t' ⊎ Resolved oc d t r t'
  unfolding write_unless
  write_unless-cases oc d fb key s t r t' (some k) i v n h =
      inr (resolved duplicate_document oc (some k) d none s t r t' h)
  write_unless-cases oc d fb key s t r t' none i v n h =
      let w = write-Became b64 sv key fb (record t { docid = s }) t' r (with_docid t s i) n h in
      inl (record {
        key = key;
        doc = fb;
        validated = v;
        new = ap (Option.map sv.decode) n;
        returned = w.0;
        became = w.1;
      })

  insert_at-cases :
      (oc : Option OnInsertConflictAction) (d fb : Fields) (key : Bytes) (s : Option Sequence)
      (t : Table) (r : Inserted) (t' : Table) (o : Option Bytes)
      → IsTable b64 sv t
      → sv.validate d ≡ ok fb
      → get key t.docs ≡ o
      → insert_at b64 sv oc d key fb (record t { docid = s }) o ≡ ok (r, t')
      → Wrote d t r t' ⊎ Resolved oc d t r t'
  unfolding insert_at
  insert_at-cases oc d fb key s t r t' (some b) i v n h =
      inr (resolved duplicate_document oc (some key) d none s t r t' h)
  insert_at-cases oc d fb key s t r t' none i v n h =
      let dup = bind-ok (find_duplicate b64 fb t.indexes) _ h in
      write_unless-cases oc d fb key s t r t' dup.0 i v n dup.1.1

  insert_valid-cases :
      (oc : Option OnInsertConflictAction) (d : Fields) (t : Table) (r : Inserted) (t' : Table)
      (v : Result TableError Fields)
      → IsTable b64 sv t
      → sv.validate d ≡ v
      → insert_valid b64 sv oc d t v ≡ ok (r, t')
      → Wrote d t r t' ⊎ Resolved oc d t r t'
  unfolding insert_valid
  insert_valid-cases oc d t r t' (err e) i v h = elim (Bool-cases (is_not_null_violation e)) [
    | inl p ↦
        inr
          (resolved e oc none d (some e) t.docid t r t' (then_of (is_not_null_violation e) _ _ h p))
    | inr p ↦ (let z = else_of (is_not_null_violation e) _ _ h p in absurd (cc z))
  ]
  insert_valid-cases oc d t r t' (ok fb) i v h =
      let k =
        bind-ok (key_of b64 sv.put_uvarint (get_primary_key t.info.field_constraints) t.docid d) _
          h in
      insert_at-cases oc d fb k.0.0 k.0.1 t r t' (get k.0.0 t.docs) i v refl k.1.1

  -- An insertion into a consistent table that succeeds has stored the validated document under a key
  -- that had none, kept the other documents, and returned it with the key, in a table that is
  -- consistent; or its conflict action has returned the result, called on the table.
  pub insert-cases :
      (oc : Option OnInsertConflictAction) (d : Fields) (t : Table) (r : Inserted) (t' : Table)
      → IsTable b64 sv t
      → insert_with_conflict_resolution b64 sv oc d t ≡ ok (r, t')
      → Wrote d t r t' ⊎ Resolved oc d t r t'
  unfolding insert_with_conflict_resolution
  insert-cases oc d t r t' i h =
      let c = check-ok (not t.info.read_only) read_only_table _ h in
      insert_valid-cases oc d t r t' (sv.validate d) i refl c.1

  abbrev pub KeepsTables : OnInsertConflictAction → Type 0
  KeepsTables f =
      (key : Option Bytes) (d : Fields) (e : Option TableError) (t : Table) (r : Inserted)
      (t' : Table)
      → IsTable b64 sv t
      → f key d e t ≡ ok (r, t')
      → IsTable b64 sv t'

  -- An insertion that succeeds keeps a table consistent: the keys are in order, and each index has
  -- exactly the entries of the documents, where a unique one has no values twice; this with no conflict
  -- action or with one that keeps tables consistent. The values of an index are such that they never run
  -- into the keys behind them.
  pub insert-IsTable :
      (oc : Option OnInsertConflictAction) (d : Fields) (t : Table) (r : Inserted) (t' : Table)
      → ((f : OnInsertConflictAction) → oc ≡ some f → KeepsTables f)
      → IsTable b64 sv t
      → insert_with_conflict_resolution b64 sv oc d t ≡ ok (r, t')
      → IsTable b64 sv t'
  insert-IsTable oc d t r t' keeps i h = elim (insert-cases oc d t r t' i h) [
    | inl w ↦ w.became.is_table
    | inr s ↦
        keeps s.action s.is_action s.key d s.e (record t { docid = s.docid }) r t'
          (with_docid t s.docid i) s.resolved
  ]

  pub do_nothing-KeepsTables : KeepsTables on_insert_conflict_do_nothing
  unfolding on_insert_conflict_do_nothing
  do_nothing-KeepsTables key d e t r t' i h =
      subst (IsTable b64 sv) (ap (λ x. x.1) (ok-injective h)) i

  -- A Replace that succeeds on a consistent table leaves a consistent one, with the validated document
  -- under the key and the other documents as they were.
  pub replace_document-Became :
      (key : Bytes) (d d' : Fields) (t t' : Table)
      → IsTable b64 sv t
      → replace_document b64 sv key d t ≡ ok (d', t')
      → (sv.validate d ≡ ok d') × Became b64 sv (with_document (lookup sv.decode t.docs) key d') t'
  unfolding replace_document
  replace_document-Became key d d' t t' i h =
      let c = check-ok (not t.info.read_only) read_only_table _ h in
      let v = bind-ok (sv.validate d) _ c.1 in
      let w = bind-ok (replace_valid b64 sv key v.0 t) _ v.1.1 in
      let z = ok-injective w.1.1 in
      let same = ap (λ x. x.0) z in
      (
        v.1.0 ∙ ap ok same,
        replace_valid-Became b64 sv key d' t t' i
            (ap (λ x. replace_valid b64 sv key x t) (sym same) ∙ w.1.0 ∙ ap ok (ap (λ x. x.1) z)),
      )

  pub do_replace-KeepsTables : KeepsTables (on_insert_conflict_do_replace b64 sv)
  unfolding on_insert_conflict_do_replace
  do_replace-KeepsTables none d none t r t' i h =
      subst (IsTable b64 sv) (ap (λ x. x.1) (ok-injective h)) i
  do_replace-KeepsTables none d (some e) t r t' i h = absurd (cc h)
  do_replace-KeepsTables (some key) d e t r t' i h =
      let w = bind-ok (replace_document b64 sv key d t) _ h in
      let z = ap (λ x. x.1) (ok-injective w.1.1) in
      (replace_document-Became key d w.0.0 t t' i (w.1.0 ∙ ap (λ x. ok (w.0.0, x)) z)).1.is_table
