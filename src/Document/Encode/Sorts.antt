-- ===== src/Document/Encode/Sorts.antt =====
-- The order in which the encodings of document/value_encoding.go sort.
use genji.Prelude.{
  ◌≡◌, refl, sym, ap, ap₂, ◌∙◌, Bool, true, false, [], ◌∷◌, ◌++◌, Bytes, compare_bytes,
  compare_bytes_self, then_compare, Ordering, arith,
}
use genji.Document.{
  Value, Items, Fields, null, bool, integer, double, text, blob, array, document, nil, cons, end,
  field,
}
use genji.Document.Buffer.{add}
use genji.Binarysort.{append_int64, append_float64, append_base64, IsBytes}
use genji.Binarysort.Order.{append_bool-compare, append_int64-compare, append_float64-compare}
use genji.Document.Encode.{Base64, append_value, append_array, append_document}
use genji.Document.Encode.Parts.{
  Low, low_nil, low_cons, equal_lengths, behind, append_bool-length, append_int64-length,
  append_float64-length,
}
use genji.Document.Encode.Natural.{
  natural_order, items_order, fields_order, IsSortable, ItemsAreSortable, FieldsAreSortable,
}
use genji.Document.Encode.Ends.{
  more_items-Low, more_fields-Low, encode_compare, array_end-first, array_end-last,
  document_end-first, document_end-last,
}

module _ (b64 : Base64) where
  mutual
    unfolding append_value append_array append_document natural_order items_order fields_order
        compare_bytes IsSortable

    value_sorts :
        (v w : Value) (r s : Bytes)
        → IsSortable v
        → IsSortable w
        → Low r
        → Low s
        → compare_bytes (append_value b64 v ++ r) (append_value b64 w ++ s)
          ≡ then_compare (natural_order v w) (compare_bytes r s)
    value_sorts null null r s hv hw lr ls = refl
    value_sorts (bool a) (bool b) r s hv hw lr ls =
        equal_lengths _ _ r s (append_bool-length a b)
        ∙ ap (λ o. then_compare o (compare_bytes r s)) (append_bool-compare [] a b)
    value_sorts (integer a) (integer b) r s hv hw lr ls =
        equal_lengths (append_int64 [] a) (append_int64 [] b) r s (append_int64-length a b)
        ∙ ap (λ o. then_compare o (compare_bytes r s)) (append_int64-compare [] a b hv hw)
    value_sorts (double a) (double b) r s hv hw lr ls =
        equal_lengths (append_float64 [] a) (append_float64 [] b) r s (append_float64-length a b)
        ∙ ap (λ o. then_compare o (compare_bytes r s)) (append_float64-compare [] a b hv hw)
    value_sorts (text a) (text b) r s hv hw lr ls = encode_compare b64 a b r s hv hw lr ls
    value_sorts (blob a) (blob b) r s hv hw lr ls = encode_compare b64 a b r s hv hw lr ls
    value_sorts (array vs) (array ws) r s hv hw lr ls = items_sort false vs ws r s hv hw
    value_sorts (document fs) (document gs) r s hv hw lr ls = fields_sort false fs gs r s hv hw
    value_sorts v w r s hv hw lr ls = refl

    items_sort :
        (later : Bool) (vs ws : Items) (r s : Bytes)
        → ItemsAreSortable vs
        → ItemsAreSortable ws
        → compare_bytes (append_array b64 later vs ++ r) (append_array b64 later ws ++ s)
          ≡ then_compare (items_order vs ws) (compare_bytes r s)
    items_sort later nil nil r s hv hw = refl
    items_sort true nil (cons w ws) r s hv hw = refl
    items_sort true (cons v vs) nil r s hv hw = refl
    items_sort false nil (cons w ws) r s hv hw = array_end-first b64 w _ s r
    items_sort false (cons v vs) nil r s hv hw = array_end-last b64 v _ r s
    items_sort false (cons v vs) (cons w ws) r s (hv, hvs) (hw, hws) =
        behind (append_value b64 v) (append_value b64 w) _ _ r s _ _
          (value_sorts v w _ _ hv hw (more_items-Low b64 vs r) (more_items-Low b64 ws s))
          (items_sort true vs ws r s hvs hws)
    items_sort true (cons v vs) (cons w ws) r s (hv, hvs) (hw, hws) =
        behind (append_value b64 v) (append_value b64 w) _ _ r s _ _
          (value_sorts v w _ _ hv hw (more_items-Low b64 vs r) (more_items-Low b64 ws s))
          (items_sort true vs ws r s hvs hws)

    fields_sort :
        (later : Bool) (fs gs : Fields) (r s : Bytes)
        → FieldsAreSortable fs
        → FieldsAreSortable gs
        → compare_bytes (append_document b64 later fs ++ r) (append_document b64 later gs ++ s)
          ≡ then_compare (fields_order later fs gs) (compare_bytes r s)
    fields_sort later end end r s hf hg = refl
    fields_sort true end (field k w gs) r s hf hg = refl
    fields_sort true (field k v fs) end r s hf hg = refl
    fields_sort false end (field k w gs) r s hf (hk, hg) =
        document_end-first b64 k (append_value b64 w ++ append_document b64 true gs) s r hk
    fields_sort false (field k v fs) end r s (hk, hf) hg =
        document_end-last b64 k (append_value b64 v ++ append_document b64 true fs) r s hk
    fields_sort false (field k v fs) (field j w gs) r s (hk, (hv, hf)) (hj, (hw, hg)) =
        behind (append_base64 b64 [] k) (append_base64 b64 [] j) _ _ r s _ _
          (encode_compare b64 k j _ _ hk hj (low_cons _ _ (omega arith))
            (low_cons _ _ (omega arith)))
          (behind (append_value b64 v) (append_value b64 w) _ _ r s _ _
            (value_sorts v w _ _ hv hw (more_fields-Low b64 fs r) (more_fields-Low b64 gs s))
            (fields_sort true fs gs r s hf hg))
    fields_sort true (field k v fs) (field j w gs) r s (hk, (hv, hf)) (hj, (hw, hg)) =
        behind (append_base64 b64 [] k) (append_base64 b64 [] j) _ _ r s _ _
          (encode_compare b64 k j _ _ hk hj (low_cons _ _ (omega arith))
            (low_cons _ _ (omega arith)))
          (behind (append_value b64 v) (append_value b64 w) _ _ r s _ _
            (value_sorts v w _ _ hv hw (more_fields-Low b64 fs r) (more_fields-Low b64 gs s))
            (fields_sort true fs gs r s hf hg))

append_nil : (xs : Bytes) → xs ++ [] ≡ xs
append_nil [] = refl
append_nil (x ∷ xs) = ap (λ ks. x ∷ ks) (append_nil xs)

then_eq : (o : Ordering) → then_compare o Ordering.eq ≡ o
then_eq Ordering.lt = refl
then_eq Ordering.eq = refl
then_eq Ordering.gt = refl

-- The encodings of two values whose integers are int64s, whose doubles are numbers other than -0.0, and
-- whose texts, blobs and names are bytes, compare as bytes in the order natural_order: by the type, and in
-- one type false before true, by the number, by the bytes of a text or blob, or value by value, an array
-- before a longer one that it begins, and a document, unless it is empty, behind one.
pub append_value-compare :
    (b64 : Base64) (v w : Value)
    → IsSortable v
    → IsSortable w
    → compare_bytes (append_value b64 v) (append_value b64 w) ≡ natural_order v w
append_value-compare b64 v w hv hw =
    ap₂ compare_bytes (sym (append_nil (append_value b64 v)))
      (sym (append_nil (append_value b64 w)))
    ∙ value_sorts b64 v w [] [] hv hw low_nil low_nil
    ∙ (unfold compare_bytes in then_eq (natural_order v w))

natural_order_self : Base64 → (v : Value) → IsSortable v → natural_order v v ≡ Ordering.eq
natural_order_self b64 v h =
    sym (append_value-compare b64 v v h h) ∙ compare_bytes_self (append_value b64 v)

fields_order-add :
    Base64
    → (fs : Fields) (k : Bytes) (v : Value) → FieldsAreSortable fs
    → fields_order true fs (add fs k v) ≡ Ordering.gt
unfolding fields_order add IsSortable
fields_order-add b64 end k v h = refl
fields_order-add b64 (field j w fs) k v (hj, (hw, h)) =
    rw (compare_bytes_self j, natural_order_self b64 w hw, fields_order-add b64 fs k v h) refl

fields_add :
    (fs : Fields) (k : Bytes) (v : Value)
    → FieldsAreSortable fs
    → IsBytes k
    → IsSortable v
    → FieldsAreSortable (add fs k v)
unfolding add IsSortable
fields_add end k v h hk hv = (hk, (hv, tt))
fields_add (field j w fs) k v (hj, (hw, h)) hk hv = (hj, (hw, fields_add fs k v h hk hv))

-- A document with a field is encoded behind the same document with one more field at its end, where both
-- have values as in `append_value-compare`.
pub append_value-add :
    (b64 : Base64) (j : Bytes) (w : Value) (fs : Fields) (k : Bytes) (v : Value)
    → FieldsAreSortable (field j w fs)
    → IsBytes k
    → IsSortable v
    → compare_bytes
        (append_value b64 (document (field j w fs)))
        (append_value b64 (document (add (field j w fs) k v)))
      ≡ Ordering.gt
unfolding add natural_order fields_order IsSortable
append_value-add b64 j w fs k v (hj, (hw, h)) hk hv =
    append_value-compare b64 (document (field j w fs)) (document (add (field j w fs) k v))
      (hj, (hw, h)) (hj, (hw, fields_add fs k v h hk hv))
    ∙ rw (compare_bytes_self j, natural_order_self b64 w hw, fields_order-add b64 fs k v h) refl
