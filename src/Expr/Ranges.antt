-- ===== src/Expr/Ranges.antt =====
-- IN against the elements of the array, and the truth of comparisons (internal/expr/comparison.go).
use genji.Prelude.{◌≡◌, ◌↔◌, ◌⊎◌, inl, inr, refl, Bool, true, false, not, ◌&&◌, ◌||◌}
use genji.Prelude.Results.{ok}
use genji.Document.{
  Value, Items, null, bool, integer, double, text, blob, array, document, nil, cons,
}
use genji.Document.Floats.{Floats}
use genji.Document.Cast.{is_truthy}
use genji.Document.Compare.{
  operator_eq, operator_gte, operator_lte, compare_value, compare_with_null,
}
use genji.Expr.{
  Expr, Token, truth, eval_both, is_null, cmp_values, compare_token, between_values, array_contains,
  in_array, in_values, in_op, not_in_op, invert_bool_result, inverted, eval,
}
use genji.Expr.Logic.{truth_bool}

-- The value is an element of the array.
pub data IsElement (fl : Floats) (v : Value) : Items → Type 0 where
  first :
      (w : Value) (vs : Items)
      → compare_value fl w operator_eq v ≡ true
      → IsElement fl v (cons w vs)
  later : (w : Value) (vs : Items) → IsElement fl v vs → IsElement fl v (cons w vs)

or_true : (b : Bool) → (b || true) ≡ true
or_true true = refl
or_true false = refl

module _ (fl : Floats) where
  contains_cons :
      (w v : Value) (vs : Items) (b : Bool)
      → compare_value fl w operator_eq v ≡ b
      → (array_contains fl vs v ≡ true → IsElement fl v vs)
      → (b || array_contains fl vs v) ≡ true
      → IsElement fl v (cons w vs)
  contains_cons w v vs true h k e = first w vs h
  contains_cons w v vs false h k e = later w vs (k e)

  contains→ : (vs : Items) (v : Value) → array_contains fl vs v ≡ true → IsElement fl v vs
  unfolding array_contains
  contains→ nil v e = cc
  contains→ (cons w vs) v e = contains_cons w v vs _ refl (contains→ vs v) e

  →contains : (v : Value) (vs : Items) → IsElement fl v vs → array_contains fl vs v ≡ true
  unfolding array_contains
  →contains v _ (first w vs h) = rw h refl
  →contains v _ (later w vs h) = rw (→contains v vs h) (or_true (compare_value fl w operator_eq v))

  in_array-element :
      (v : Value) (vs : Items)
      → is_null v ≡ false
      → in_values fl v (array vs) ≡ bool (array_contains fl vs v)
  unfolding in_values in_array is_null
  in_array-element v vs h = rw h refl

  module _ {Env : Type 0} (env : Env) where
    -- Where `a` evaluates to a value that is not null and `b` to an array, `a IN b` is true exactly
    -- when an element of the array equals the value, and `a NOT IN b` is its negation.
    pub eval-in_op :
        (a b : Expr Env) (v : Value) (vs : Items)
        → eval fl env a ≡ ok v
        → eval fl env b ≡ ok (array vs)
        → is_null v ≡ false
        → (found : Bool) × (eval fl env (in_op a b) ≡ ok (bool found))
          × (eval fl env (not_in_op a b) ≡ ok (bool (not found)))
          × ((found ≡ true) ↔ IsElement fl v vs)
    unfolding eval eval_both invert_bool_result inverted
    eval-in_op a b v vs ha hb h = (
      array_contains fl vs v,
      rw (ha, hb, in_array-element v vs h) refl,
      rw (ha, hb, in_array-element v vs h) refl,
      (contains→ vs v, →contains v vs),
    )

pub null_or : (v : Value) → (v ≡ null) ⊎ (is_null v ≡ false)
unfolding is_null
null_or null = inl refl
null_or (bool b) = inr refl
null_or (integer i) = inr refl
null_or (double d) = inr refl
null_or (text s) = inr refl
null_or (blob s) = inr refl
null_or (array vs) = inr refl
null_or (document fs) = inr refl

pub truth_null : truth null ≡ ok false
unfolding truth is_truthy
truth_null = refl

module _ (fl : Floats) where
  pub null_gte : (l : Value) → is_null l ≡ false → compare_value fl null operator_gte l ≡ false
  unfolding is_null compare_with_null compare_value
  null_gte null h = cc
  null_gte (bool b) h = refl
  null_gte (integer i) h = refl
  null_gte (double d) h = refl
  null_gte (text s) h = refl
  null_gte (blob s) h = refl
  null_gte (array vs) h = refl
  null_gte (document fs) h = refl

  -- The truth of a comparison.
  pub truth-cmp :
      (t : Token) (v l : Value)
      → is_null v ≡ false
      → is_null l ≡ false
      → truth (cmp_values fl t v l) ≡ ok (compare_token fl t v l)
  unfolding cmp_values
  truth-cmp t v l h k = rw (h, k) (truth_bool _)

  pub truth-cmp_null :
      (t : Token) (v l : Value)
      → (is_null v || is_null l) ≡ true
      → truth (cmp_values fl t v l) ≡ ok false
  unfolding cmp_values
  truth-cmp_null t v l h = rw h truth_null

  pub truth-between :
      (v l h : Value)
      → is_null l ≡ false
      → is_null h ≡ false
      → truth (between_values fl v l h)
        ≡ ok (compare_value fl v operator_gte l && compare_value fl v operator_lte h)
  unfolding between_values
  truth-between v l h p q = rw (p, q) (truth_bool _)

  pub truth-between_null :
      (v l h : Value) → (is_null l || is_null h) ≡ true → truth (between_values fl v l h) ≡ ok false
  unfolding between_values
  truth-between_null v l h p = rw p truth_null
