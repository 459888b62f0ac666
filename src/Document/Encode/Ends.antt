-- ===== src/Document/Encode/Ends.antt =====
-- How the ends of the arrays and documents of document/value_encoding.go sort against what goes on.
use genji.Prelude.{
  ℕ, ◌≤◌, ◌≡◌, refl, sym, ap, ◌∙◌, true, [], ◌∷◌, ◌++◌, Bytes, compare_bytes, then_compare, flip,
  Ordering, All, arith,
}
use genji.Document.{Value, Items, Fields, null, nil, cons, end, field, type_code, type_of}
use genji.Binarysort.{append_base64, IsBytes}
use genji.Binarysort.Sextets.{append_base64-compare, append_base64-All, append_base64-nil}
use genji.Document.Encode.{Base64, append_value, append_array, append_document}
use genji.Document.Encode.Parts.{Low, low_cons, high_compare}
use genji.Document.Encode.Natural.{no_field_order}

module _ (b64 : Base64) where
  pub more_items-Low : (vs : Items) (r : Bytes) → Low (append_array b64 true vs ++ r)
  unfolding append_array
  more_items-Low nil r = low_cons _ _ (omega arith)
  more_items-Low (cons v vs) r = low_cons _ _ (omega arith)

  pub more_fields-Low : (fs : Fields) (r : Bytes) → Low (append_document b64 true fs ++ r)
  unfolding append_document
  more_fields-Low end r = low_cons _ _ (omega arith)
  more_fields-Low (field k v fs) r = low_cons _ _ (omega arith)

  -- Encoded names or texts before what can follow them.
  pub encode_compare :
      (s t r q : Bytes)
      → IsBytes s
      → IsBytes t
      → Low r
      → Low q
      → compare_bytes (append_base64 b64 [] s ++ r) (append_base64 b64 [] t ++ q)
        ≡ then_compare (compare_bytes s t) (compare_bytes r q)
  encode_compare s t r q hs ht lr lq =
      high_compare (append_base64 b64 [] s) (append_base64 b64 [] t) r q
        (append_base64-All b64 s hs) (append_base64-All b64 t ht) lr lq
      ∙ ap (λ o. then_compare o (compare_bytes r q)) (append_base64-compare b64 s t hs ht)

  -- The end of an array, against a value.
  pub array_end-first :
      (w : Value) (x s r : Bytes)
      → compare_bytes (0x1e ∷ r) ((append_value b64 w ++ x) ++ s) ≡ Ordering.lt
  unfolding compare_bytes append_value type_code type_of
  array_end-first null x s r = refl
  array_end-first _ x s r = refl

  pub array_end-last :
      (v : Value) (x r s : Bytes)
      → compare_bytes ((append_value b64 v ++ x) ++ r) (0x1e ∷ s) ≡ Ordering.gt
  unfolding compare_bytes append_value type_code type_of
  array_end-last null x s r = refl
  array_end-last _ x s r = refl

  -- A name that is not empty is encoded as bytes of the alphabet.
  name_first :
      (xs : Bytes)
      → compare_bytes [] xs ≡ Ordering.lt
      → All (λ b. 45 ≤ b) xs
      → (y : ℕ) × ((ys : Bytes) × ((xs ≡ y ∷ ys) × (45 ≤ y)))
  unfolding compare_bytes
  name_first [] h a = absurd (cc h)
  name_first (y ∷ ys) h a = (y, (ys, (refl, a.0)))

  name_begins :
      (c : ℕ) (k : Bytes)
      → IsBytes (c ∷ k)
      → (y : ℕ) × ((ys : Bytes) × ((append_base64 b64 [] (c ∷ k) ≡ y ∷ ys) × (45 ≤ y)))
  name_begins c k h =
      name_first (append_base64 b64 [] (c ∷ k))
        (ap (λ z. compare_bytes z (append_base64 b64 [] (c ∷ k))) (sym (append_base64-nil b64))
          ∙ append_base64-compare b64 [] (c ∷ k) tt h
          ∙ (unfold compare_bytes in refl))
        (append_base64-All b64 (c ∷ k) h)

  -- The end of a document, against a name.
  pub document_end-first :
      (k x s r : Bytes)
      → IsBytes k
      → compare_bytes (0x1d ∷ r) ((append_base64 b64 [] k ++ 0x1c ∷ x) ++ s)
        ≡ then_compare (no_field_order k) (compare_bytes r s)
  unfolding compare_bytes no_field_order
  document_end-first [] x s r h = rw (append_base64-nil b64) refl
  document_end-first (c ∷ k) x s r h =
      let n = name_begins c k h in let le = n.1.1.1 in rw n.1.1.0 (ground (arith, le))

  pub document_end-last :
      (k x r s : Bytes)
      → IsBytes k
      → compare_bytes ((append_base64 b64 [] k ++ 0x1c ∷ x) ++ r) (0x1d ∷ s)
        ≡ then_compare (flip (no_field_order k)) (compare_bytes r s)
  unfolding compare_bytes no_field_order
  document_end-last [] x r s h = rw (append_base64-nil b64) refl
  document_end-last (c ∷ k) x r s h =
      let n = name_begins c k h in let le = n.1.1.1 in rw n.1.1.0 (ground (arith, le))
