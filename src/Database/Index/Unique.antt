-- ===== src/Database/Index/Unique.antt =====
-- What a unique index (internal/database/index.go) keeps apart.
use genji.Prelude.{
  ℕ, ◌≡◌, sym, ap, ◌∙◌, inl, inr, true, none, some, List, ◌++◌, Bytes, bytes_eq, bytes_eq→eq,
  length, Bool-cases, then_of, else_of,
}
use genji.Prelude.Results.{ok, ok-injective}
use genji.Document.{Value, Fields}
use genji.Document.Encode.{Base64}
use genji.Database.Store.{Store, get, items_from, IsStore}
use genji.Database.Index.{IndexInfo, encode_value_buffer, exists_from, set}
use genji.Database.Index.Search.{
  items_from-IsStore, get-items_from, items_from-NotBefore, prefix-NotBefore, exists_from-none,
}
use genji.Database.Index.Changes.{set-WasSet}
use genji.Database.Index.Consistent.{Documents, with_document, without_document, IsConsistent}

-- An answer of no from exists: no entry begins with the values.
pub fresh_entries :
    (e k : Bytes) (st : Store ℕ) (n : ℕ)
    → IsStore st
    → exists_from e (items_from e st) ≡ none
    → get (e ++ k) st ≡ some n
    → ⊥
fresh_entries e k st n s x g =
    exists_from-none e k (items_from e st) n (items_from-IsStore e st s)
      (λ j m h. items_from-NotBefore e j st m s h) x
      (get-items_from e (e ++ k) st (prefix-NotBefore e k) ∙ g)

module _ (b64 : Base64) (i : IndexInfo) (values : Fields → List Value) where
  -- Documents with different keys have different values.
  abbrev pub HasNoDuplicates : Documents → Type 0
  HasNoDuplicates f =
      (k k' : Bytes) (d d' : Fields) (e : Bytes)
      → f k ≡ some d
      → f k' ≡ some d'
      → encode_value_buffer b64 i (values d) ≡ ok e
      → encode_value_buffer b64 i (values d') ≡ ok e
      → k ≡ k'

  -- A document that exists has not seen has none of the values of the others.
  fresh_values :
      (f : Documents) (st : Store ℕ) (k' : Bytes) (d' : Fields) (e : Bytes)
      → IsConsistent b64 i values f st
      → exists_from e (items_from e st) ≡ none
      → f k' ≡ some d'
      → encode_value_buffer b64 i (values d') ≡ ok e
      → ⊥
  fresh_values f st k' d' e c x h q =
      let o = c.indexed k' d' h in
      let same = ok-injective (sym o.1.0 ∙ q) in
      fresh_entries e k' st (length o.0) c.ordered x (ap (λ y. get (y ++ k') st) (sym same) ∙ o.1.1)

  add-HasNoDuplicates :
      (f : Documents) (key : Bytes) (d : Fields) (st : Store ℕ) (e : Bytes)
      → IsConsistent b64 i values f st
      → encode_value_buffer b64 i (values d) ≡ ok e
      → exists_from e (items_from e st) ≡ none
      → HasNoDuplicates f
      → HasNoDuplicates (with_document f key d)
  add-HasNoDuplicates f key d st e c q x h k k' d1 d2 e' g g' p p' =
      elim (Bool-cases (bytes_eq key k)) [
        | inl r ↦ elim (Bool-cases (bytes_eq key k')) [
          | inl r' ↦ sym (bytes_eq→eq key k r) ∙ bytes_eq→eq key k' r'
          | inr r' ↦
              (let same = new_values k d1 e' g p r in
                absurd (
                  fresh_values f st k' d2 e c x (else_of (bytes_eq key k') _ _ g' r')
                    (p' ∙ ap ok same)))
        ]
        | inr r ↦ elim (Bool-cases (bytes_eq key k')) [
          | inl r' ↦
              (let same = new_values k' d2 e' g' p' r' in
                absurd (
                  fresh_values f st k d1 e c x (else_of (bytes_eq key k) _ _ g r) (p ∙ ap ok same)))
          | inr r' ↦
              h k k' d1 d2 e' (else_of (bytes_eq key k) _ _ g r)
                (else_of (bytes_eq key k') _ _ g' r') p p'
        ]
      ]
    where
      new_values :
          (k : Bytes) (d' : Fields) (e' : Bytes)
          → with_document f key d k ≡ some d'
          → encode_value_buffer b64 i (values d') ≡ ok e'
          → bytes_eq key k ≡ true
          → e' ≡ e
      new_values k d' e' g p r =
          let z = then_of (bytes_eq key k) _ _ g r in
          let same : d ≡ d' = cc z in
          ok-injective (sym p ∙ ap (λ y. encode_value_buffer b64 i (values y)) (sym same) ∙ q)

  pub set-HasNoDuplicates :
      (f : Documents) (key : Bytes) (d : Fields) (st st' : Store ℕ)
      → i.unique ≡ true
      → IsConsistent b64 i values f st
      → HasNoDuplicates f
      → set b64 i (values d) key st ≡ ok st'
      → HasNoDuplicates (with_document f key d)
  set-HasNoDuplicates f key d st st' u c h r =
      let w = set-WasSet b64 i (values d) key st st' r in
      add-HasNoDuplicates f key d st w.e c w.encoded (w.fresh u) h

  pub without-HasNoDuplicates :
      (f : Documents) (key : Bytes) → HasNoDuplicates f → HasNoDuplicates (without_document f key)
  without-HasNoDuplicates f key h k k' d d' e g g' = h k k' d d' e (kept k d g) (kept k' d' g')
    where
      kept : (k : Bytes) (d : Fields) → without_document f key k ≡ some d → f k ≡ some d
      kept k d g = elim (Bool-cases (bytes_eq key k)) [
        | inl r ↦ (let z = then_of (bytes_eq key k) _ _ g r in absurd (cc z))
        | inr r ↦ else_of (bytes_eq key k) _ _ g r
      ]
