-- ===== src/Document/Compare/Mirror.antt =====
-- Swapping the two values and turning the operator round (document/compare.go).
use genji.Prelude.{ℕ, Ordering, Bool, true, false, Option, none, some, List, [], ◌∷◌, Bytes, arith}
use genji.Prelude.{
  ◌≡◌, refl, ◌∙◌, sym, flip, bytes_eq_comm, compare_bytes, compare_bytes-flip, compare_bytes-eq→eq,
}
use genji.Prelude.Int.{ℤ}
use genji.Document.{Value, null, bool, integer, double, text, blob, array, document}
use genji.Document.{Items, nil, cons, Fields, end, field}
use genji.Document.Floats.{Floats}
use genji.Document.Buffer.{get_by_field, fields}
use genji.Document.Compare.{
  Operator, operator_eq, operator_gt, operator_gte, operator_lt, operator_lte, by_ordering,
  compare_with_null, compare_booleans, compare_texts, compare_integers, compare_doubles,
  compare_types, comparable, compare_pair, compare_found, compare_round, compare_fields,
  compare_names, compare_documents, compare_value, compare_items, compare_field,
}

abbrev pub mirror : Operator → Operator
mirror operator_eq = operator_eq
mirror operator_gt = operator_lt
mirror operator_gte = operator_lte
mirror operator_lt = operator_gt
mirror operator_lte = operator_gte

by_ordering-mirror :
    (op : Operator) (o : Ordering) → by_ordering (mirror op) (flip o) ≡ by_ordering op o
unfolding by_ordering
by_ordering-mirror op o = ground arith

compare_with_null-mirror :
    (op : Operator) (b : Bool) → compare_with_null (mirror op) b ≡ compare_with_null op b
unfolding compare_with_null
compare_with_null-mirror op b = ground arith

compare_booleans-mirror :
    (op : Operator) (a b : Bool) → compare_booleans (mirror op) b a ≡ compare_booleans op a b
unfolding compare_booleans
compare_booleans-mirror op a b = ground arith

compare_texts-mirror :
    (op : Operator) (a b : Bytes) → compare_texts (mirror op) b a ≡ compare_texts op a b
unfolding compare_texts
compare_texts-mirror op a b = ground (arith, bytes_eq_comm a b, compare_bytes-flip a b)

compare_integers-mirror :
    (op : Operator) (a b : ℤ) → compare_integers (mirror op) b a ≡ compare_integers op a b
unfolding compare_integers
compare_integers-mirror op a b = ground arith

compare_doubles-mirror :
    (op : Operator) (a b : ℕ) → compare_doubles (mirror op) b a ≡ compare_doubles op a b
unfolding compare_doubles
compare_doubles-mirror op a b = ground arith

compare_types-mirror :
    (op : Operator) (l r : Value) → compare_types (mirror op) r l ≡ compare_types op l r
unfolding compare_types
compare_types-mirror operator_eq l r = refl
compare_types-mirror _ l r = refl

comparable_comm : (l r : Value) → comparable r l ≡ comparable l r
unfolding comparable
comparable_comm l r = ground arith

-- `a` and `b` compare `l` and `r` with a value, from the two sides.
abbrev Mirrors : (Operator → Value → Bool) → (Operator → Value → Bool) → Value → Value → Type 0
Mirrors a b l r = (op : Operator) → b (mirror op) l ≡ a op r

module _ (a b : Operator → Value → Bool) where
  compare_pair-mirror :
      (op : Operator) (l r : Value) (x y : Bool)
      → Mirrors a b l r
      → y ≡ x
      → compare_pair b (mirror op) r l y ≡ compare_pair a op l r x
  unfolding compare_pair
  compare_pair-mirror op l r x y h e =
      ground (arith, h operator_eq, h op, comparable_comm l r, compare_types-mirror op l r)

  compare_found-mirror :
      (op : Operator) (l r : Option Value) (x y : Bool)
      → ((v w : Value) → l ≡ some v → r ≡ some w → Mirrors a b v w)
      → y ≡ x
      → compare_found b (mirror op) r l y ≡ compare_found a op l r x
  unfolding compare_found
  compare_found-mirror op none none x y h e = by_ordering-mirror op Ordering.eq
  compare_found-mirror op none (some w) x y h e = by_ordering-mirror op Ordering.lt
  compare_found-mirror op (some v) none x y h e = by_ordering-mirror op Ordering.gt
  compare_found-mirror op (some v) (some w) x y h e =
      compare_pair-mirror op v w x y (h v w refl refl) e

module _ (a b : Bytes → Operator → Value → Bool) (l r : Fields)
    (at : (f : Bytes) (v w : Value)
      → get_by_field l f ≡ some v
      → get_by_field r f ≡ some w
      → Mirrors (a f) (b f) v w) where
  compare_round-mirror :
      (op : Operator) (f g : Bytes) (o : Ordering) (x y : Bool)
      → (o ≡ Ordering.eq → f ≡ g)
      → y ≡ x
      → compare_round b r l (mirror op) g f (flip o) y ≡ compare_round a l r op f g o x
  unfolding compare_round
  compare_round-mirror op f g Ordering.lt x y same e = by_ordering-mirror op Ordering.lt
  compare_round-mirror op f g Ordering.gt x y same e = by_ordering-mirror op Ordering.gt
  compare_round-mirror op f g Ordering.eq x y same e =
      rw (← same refl)
        (compare_found-mirror (a f) (b f) op (get_by_field l f) (get_by_field r f) x y (at f) e)

  compare_fields-mirror :
      (op : Operator) (lf rf : List Bytes)
      → compare_fields b r l (mirror op) rf lf ≡ compare_fields a l r op lf rf
  unfolding compare_fields
  compare_fields-mirror op [] [] = by_ordering-mirror op Ordering.eq
  compare_fields-mirror op [] (g ∷ rf) = by_ordering-mirror op Ordering.eq
  compare_fields-mirror op (f ∷ lf) [] = by_ordering-mirror op Ordering.eq
  compare_fields-mirror op (f ∷ lf) (g ∷ rf) = rw (compare_bytes-flip f g) (
      compare_round-mirror op f g (compare_bytes f g) _ _ (compare_bytes-eq→eq f g)
        (compare_fields-mirror op lf rf))

  compare_documents-mirror :
      (op : Operator) → compare_documents b (mirror op) r l ≡ compare_documents a op l r
  unfolding compare_documents
  compare_documents-mirror op = names (fields l) (fields r)
    where
      names :
          (lf rf : List Bytes)
          → compare_names b r l (mirror op) rf lf ≡ compare_names a l r op lf rf
      names [] [] = compare_fields-mirror op [] []
      names [] (g ∷ rf) = by_ordering-mirror op Ordering.lt
      names (f ∷ lf) [] = by_ordering-mirror op Ordering.gt
      names (f ∷ lf) (g ∷ rf) = compare_fields-mirror op (f ∷ lf) (g ∷ rf)

module _ (fl : Floats) where
  -- Comparing the field `f` is comparing its value.
  pub compare_field-get :
      (l : Fields) (f : Bytes) (v : Value) (op : Operator) (w : Value)
      → get_by_field l f ≡ some v
      → compare_field fl l f op w ≡ compare_value fl v op w
  unfolding compare_field get_by_field
  compare_field-get end f v op w h = cc
  compare_field-get (field g u rest) f v op w h = ground (arith, compare_field-get rest f v op w)

  mutual
    unfolding compare_value get_by_field

    value_mirror :
        (l : Value) (op : Operator) (r : Value)
        → compare_value fl r (mirror op) l ≡ compare_value fl l op r
    value_mirror null op null = compare_with_null-mirror op true
    value_mirror null op (document r) = compare_with_null-mirror op false
    value_mirror null op r = ground (arith, compare_with_null-mirror op false)
    value_mirror (bool a) op (bool b) = compare_booleans-mirror op a b
    value_mirror (bool a) op null = compare_with_null-mirror op false
    value_mirror (bool a) op r = refl
    value_mirror (integer a) op (integer b) = compare_integers-mirror op a b
    value_mirror (integer a) op (double b) = compare_doubles-mirror op _ b
    value_mirror (integer a) op null = compare_with_null-mirror op false
    value_mirror (integer a) op r = refl
    value_mirror (double a) op (integer b) = compare_doubles-mirror op a _
    value_mirror (double a) op (double b) = compare_doubles-mirror op a b
    value_mirror (double a) op null = compare_with_null-mirror op false
    value_mirror (double a) op r = refl
    value_mirror (text a) op (text b) = compare_texts-mirror op a b
    value_mirror (text a) op null = compare_with_null-mirror op false
    value_mirror (text a) op r = refl
    value_mirror (blob a) op (blob b) = compare_texts-mirror op a b
    value_mirror (blob a) op null = compare_with_null-mirror op false
    value_mirror (blob a) op r = refl
    value_mirror (array vs) op (array ws) = items_mirror vs op ws
    value_mirror (array vs) op null = compare_with_null-mirror op false
    value_mirror (array vs) op r = refl
    value_mirror (document l) op (document r) =
        compare_documents-mirror (compare_field fl l) (compare_field fl r) l r
          (λ f v w hl hr o.
            compare_field-get r f w (mirror o) v hr
            ∙ field_mirror l f v o w hl
            ∙ sym (compare_field-get l f v o w hl))
          op
    value_mirror (document l) op null = compare_with_null-mirror op false
    value_mirror (document l) op r = refl

    items_mirror :
        (vs : Items) (op : Operator) (ws : Items)
        → compare_items fl ws (mirror op) vs ≡ compare_items fl vs op ws
    items_mirror nil op nil = by_ordering-mirror op Ordering.eq
    items_mirror nil op (cons w ws) = by_ordering-mirror op Ordering.lt
    items_mirror (cons v vs) op nil = by_ordering-mirror op Ordering.gt
    items_mirror (cons v vs) op (cons w ws) =
        compare_pair-mirror (compare_value fl v) (compare_value fl w) op v w _ _
          (λ o. value_mirror v o w) (items_mirror vs op ws)

    field_mirror :
        (l : Fields) (f : Bytes) (v : Value) (op : Operator) (r : Value)
        → get_by_field l f ≡ some v
        → compare_value fl r (mirror op) v ≡ compare_value fl v op r
    field_mirror end f v op r h = cc
    field_mirror (field g u rest) f v op r h =
        ground (arith, value_mirror u op r, field_mirror rest f v op r)

  -- Comparing `r` with `l` by the operator turned round answers as comparing `l` with `r`, for all
  -- values, nested ones and NaNs included.
  pub compare_value-mirror :
      (op : Operator) (l r : Value) → compare_value fl r (mirror op) l ≡ compare_value fl l op r
  compare_value-mirror op l r = value_mirror l op r
