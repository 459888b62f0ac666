-- ===== src/Document/Compare/Consistent.antt =====
-- How the five operators of document/compare.go agree with one another.
use genji.Prelude.{
  ℕ, Ordering, Bool, true, false, ◌&&◌, ◌||◌, Option, none, some, List, [], ◌∷◌, Bytes, arith,
}
use genji.Prelude.{◌≡◌, refl, bytes_eq, if◌then◌else◌, compare_bytes, compare_bytes-eq}
use genji.Prelude.Int.{ℤ}
use genji.Document.{Value, null, bool, integer, double, text, blob, array, document}
use genji.Document.{Items, nil, cons, Fields, end, field}
use genji.Document.Floats.{Floats}
use genji.Document.Buffer.{get_by_field, fields}
use genji.Document.Compare.{
  Operator, operator_eq, operator_gt, operator_gte, operator_lt, operator_lte, by_ordering,
  compare_with_null, compare_booleans, compare_texts, compare_integers, compare_doubles,
  compare_types, compare_pair, compare_found, compare_round, compare_fields, compare_names,
  compare_documents, compare_value, compare_items, compare_field,
}

-- `>=` is "greater or equal", `<=` is "lesser or equal", and of equal, greater and lesser at most
-- one holds.
pub record IsConsistent (answer : Operator → Bool) : Type 0 where
  pub gte : answer operator_gte ≡ (answer operator_gt || answer operator_eq)
  pub lte : answer operator_lte ≡ (answer operator_lt || answer operator_eq)
  pub eq_or_gt : (answer operator_eq && answer operator_gt) ≡ false
  pub eq_or_lt : (answer operator_eq && answer operator_lt) ≡ false
  pub gt_or_lt : (answer operator_gt && answer operator_lt) ≡ false

by_ordering-IsConsistent : (o : Ordering) → IsConsistent (λ op. by_ordering op o)
unfolding by_ordering
by_ordering-IsConsistent o = ground arith

with_null-IsConsistent : (b : Bool) → IsConsistent (λ op. compare_with_null op b)
unfolding compare_with_null
with_null-IsConsistent b = ground arith

no-IsConsistent : IsConsistent (λ op. false)
no-IsConsistent = ground arith

booleans-IsConsistent : (a b : Bool) → IsConsistent (λ op. compare_booleans op a b)
unfolding compare_booleans
booleans-IsConsistent a b = ground arith

texts-IsConsistent : (a b : Bytes) → IsConsistent (λ op. compare_texts op a b)
unfolding compare_texts
texts-IsConsistent a b = ground (arith, compare_bytes-eq a b)

integers-IsConsistent : (a b : ℤ) → IsConsistent (λ op. compare_integers op a b)
unfolding compare_integers
integers-IsConsistent a b = ground arith

doubles-IsConsistent : (a b : ℕ) → IsConsistent (λ op. compare_doubles op a b)
unfolding compare_doubles
doubles-IsConsistent a b = ground arith

types-IsConsistent : (l r : Value) → IsConsistent (λ op. compare_types op l r)
unfolding compare_types
types-IsConsistent l r = ground arith

module _ (against : Operator → Value → Bool) (rest : Operator → Bool) where
  pair-IsConsistent :
      (l r : Value)
      → IsConsistent (λ op. against op r)
      → IsConsistent rest
      → IsConsistent (λ op. compare_pair against op l r (rest op))
  unfolding compare_pair
  pair-IsConsistent l r h k = ground (arith, types-IsConsistent l r)

  found-IsConsistent :
      (l r : Option Value)
      → ((v w : Value) → l ≡ some v → r ≡ some w → IsConsistent (λ op. against op w))
      → IsConsistent rest
      → IsConsistent (λ op. compare_found against op l r (rest op))
  unfolding compare_found
  found-IsConsistent none none h k = by_ordering-IsConsistent Ordering.eq
  found-IsConsistent none (some w) h k = by_ordering-IsConsistent Ordering.lt
  found-IsConsistent (some v) none h k = by_ordering-IsConsistent Ordering.gt
  found-IsConsistent (some v) (some w) h k = pair-IsConsistent v w (h v w refl refl) k

module _ (against : Bytes → Operator → Value → Bool) (l r : Fields)
    (at : (f : Bytes) (v w : Value)
      → get_by_field l f ≡ some v
      → IsConsistent (λ op. against f op w)) where
  round-IsConsistent :
      (f g : Bytes) (o : Ordering) (rest : Operator → Bool)
      → IsConsistent rest
      → IsConsistent (λ op. compare_round against l r op f g o (rest op))
  unfolding compare_round
  round-IsConsistent f g Ordering.lt rest k = by_ordering-IsConsistent Ordering.lt
  round-IsConsistent f g Ordering.gt rest k = by_ordering-IsConsistent Ordering.gt
  round-IsConsistent f g Ordering.eq rest k =
      found-IsConsistent (against f) rest (get_by_field l f) (get_by_field r g)
        (λ v w p q. at f v w p) k

  fields-IsConsistent :
      (lf rf : List Bytes) → IsConsistent (λ op. compare_fields against l r op lf rf)
  unfolding compare_fields
  fields-IsConsistent [] rf = by_ordering-IsConsistent Ordering.eq
  fields-IsConsistent (f ∷ lf) [] = by_ordering-IsConsistent Ordering.eq
  fields-IsConsistent (f ∷ lf) (g ∷ rf) =
      round-IsConsistent f g (compare_bytes f g) _ (fields-IsConsistent lf rf)

  names-IsConsistent :
      (lf rf : List Bytes) → IsConsistent (λ op. compare_names against l r op lf rf)
  unfolding compare_names
  names-IsConsistent [] [] = fields-IsConsistent [] []
  names-IsConsistent [] (g ∷ rf) = by_ordering-IsConsistent Ordering.lt
  names-IsConsistent (f ∷ lf) [] = by_ordering-IsConsistent Ordering.gt
  names-IsConsistent (f ∷ lf) (g ∷ rf) = fields-IsConsistent (f ∷ lf) (g ∷ rf)

either :
    (b : Bool) (x y : Operator → Bool)
    → IsConsistent x
    → IsConsistent y
    → IsConsistent (λ op. if b then x op else y op)
either true x y h k = h
either false x y h k = k

module _ (fl : Floats) where
  mutual
    unfolding compare_value compare_documents

    value-IsConsistent : (l r : Value) → IsConsistent (λ op. compare_value fl l op r)
    value-IsConsistent null null = with_null-IsConsistent true
    value-IsConsistent null (bool b) = with_null-IsConsistent false
    value-IsConsistent null r = with_null-IsConsistent false
    value-IsConsistent (bool a) (bool b) = booleans-IsConsistent a b
    value-IsConsistent (bool a) null = with_null-IsConsistent false
    value-IsConsistent (bool a) r = no-IsConsistent
    value-IsConsistent (integer a) (integer b) = integers-IsConsistent a b
    value-IsConsistent (integer a) (double b) = doubles-IsConsistent _ b
    value-IsConsistent (integer a) null = with_null-IsConsistent false
    value-IsConsistent (integer a) r = no-IsConsistent
    value-IsConsistent (double a) (integer b) = doubles-IsConsistent a _
    value-IsConsistent (double a) (double b) = doubles-IsConsistent a b
    value-IsConsistent (double a) null = with_null-IsConsistent false
    value-IsConsistent (double a) r = no-IsConsistent
    value-IsConsistent (text a) (text b) = texts-IsConsistent a b
    value-IsConsistent (text a) null = with_null-IsConsistent false
    value-IsConsistent (text a) r = no-IsConsistent
    value-IsConsistent (blob a) (blob b) = texts-IsConsistent a b
    value-IsConsistent (blob a) null = with_null-IsConsistent false
    value-IsConsistent (blob a) r = no-IsConsistent
    value-IsConsistent (array vs) (array ws) = items-IsConsistent vs ws
    value-IsConsistent (array vs) null = with_null-IsConsistent false
    value-IsConsistent (array vs) r = no-IsConsistent
    value-IsConsistent (document l) (document r) =
        names-IsConsistent (compare_field fl l) l r (λ f v w h. field-IsConsistent l f w) (fields l)
          (fields r)
    value-IsConsistent (document l) null = with_null-IsConsistent false
    value-IsConsistent (document l) r = no-IsConsistent

    items-IsConsistent : (vs ws : Items) → IsConsistent (λ op. compare_items fl vs op ws)
    items-IsConsistent nil nil = by_ordering-IsConsistent Ordering.eq
    items-IsConsistent nil (cons w ws) = by_ordering-IsConsistent Ordering.lt
    items-IsConsistent (cons v vs) nil = by_ordering-IsConsistent Ordering.gt
    items-IsConsistent (cons v vs) (cons w ws) =
        pair-IsConsistent (compare_value fl v) (λ op. compare_items fl vs op ws) v w
          (value-IsConsistent v w) (items-IsConsistent vs ws)

    field-IsConsistent :
        (l : Fields) (f : Bytes) (w : Value) → IsConsistent (λ op. compare_field fl l f op w)
    field-IsConsistent end f w = no-IsConsistent
    field-IsConsistent (field g u rest) f w =
        either (bytes_eq g f) _ _ (value-IsConsistent u w) (field-IsConsistent rest f w)

  -- On any two values the five operators are consistent: `>=` answers as `>` or `=`, `<=` as `<` or
  -- `=`, and at most one of `=`, `>` and `<` is true.
  pub compare_value-IsConsistent : (l r : Value) → IsConsistent (λ op. compare_value fl l op r)
  compare_value-IsConsistent l r = value-IsConsistent l r
