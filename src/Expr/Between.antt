-- ===== src/Expr/Between.antt =====
-- BETWEEN against the AND of two comparisons (internal/expr/comparison.go).
use genji.Prelude.{
  ◌≡◌, ◌⊎◌, inl, inr, refl, sym, ap, ◌∙◌, Bool, true, false, ◌&&◌, ◌||◌, Bool-cases,
}
use genji.Prelude.Results.{ok, ◌>>=◌}
use genji.Document.{Value, null}
use genji.Document.Floats.{Floats}
use genji.Document.Compare.{operator_gte, operator_lte, compare_value}
use genji.Expr.{
  Expr, and_op, between_op, cmp_op, Token, gte, lte, truth, eval_and, eval_both, is_null,
  cmp_values, compare_token, between_values, eval,
}
use genji.Expr.Logic.{truth_bool}
use genji.Expr.Ranges.{
  null_or, null_gte, truth-cmp, truth-cmp_null, truth-between, truth-between_null,
}

-- The truth of an AND of two values.
and_truth :
    (v w : Value) (s t : Bool)
    → truth v ≡ ok s
    → truth w ≡ ok t
    → (do r ← eval_and (ok v) (ok w); truth r) ≡ ok (s && t)
unfolding eval_and
and_truth v w true t h k = rw (h, k) (truth_bool t)
and_truth v w false t h k = rw h (truth_bool false)

or_right : (b c : Bool) → c ≡ true → (b || c) ≡ true
or_right true c h = refl
or_right false c h = h

and_false : (b : Bool) → (b && false) ≡ false
and_false true = refl
and_false false = refl

left_false : (b c : Bool) → (b || c) ≡ false → b ≡ false
left_false true c h = cc
left_false false c h = refl

right_false : (b c : Bool) → (b || c) ≡ false → c ≡ false
right_false true c h = cc
right_false false c h = h

is_null_null : is_null null ≡ true
unfolding is_null
is_null_null = refl

module _ (fl : Floats) where
  -- The truth of a comparison is always known.
  cmp_known : (t : Token) (v l : Value) → (b : Bool) × (truth (cmp_values fl t v l) ≡ ok b)
  cmp_known t v l = elim (Bool-cases (is_null v || is_null l)) [
    | inl p ↦ (false, truth-cmp_null fl t v l p)
    | inr p ↦ (compare_token fl t v l, truth-cmp fl t v l (left_false _ _ p) (right_false _ _ p))
  ]

  same_truth :
      (v l h : Value)
      → truth (between_values fl v l h)
        ≡ (do r ← eval_and (ok (cmp_values fl gte v l)) (ok (cmp_values fl lte v h)); truth r)
  unfolding compare_token
  same_truth v l h = by_null (null_or l) (null_or h) (null_or v)
    where
      by_null :
          (l ≡ null) ⊎ (is_null l ≡ false)
          → (h ≡ null) ⊎ (is_null h ≡ false)
          → (v ≡ null) ⊎ (is_null v ≡ false)
          → truth (between_values fl v l h)
            ≡ (do r ← eval_and (ok (cmp_values fl gte v l)) (ok (cmp_values fl lte v h)); truth r)
      by_null (inl p) _ _ =
          let k = cmp_known lte v h in
          let nl = ap is_null p ∙ is_null_null in
          truth-between_null fl v l h (ap (λ b. b || is_null h) nl)
          ∙ sym (and_truth _ _ false k.0 (truth-cmp_null fl gte v l (or_right _ _ nl)) k.1)
      by_null (inr p) (inl q) _ =
          let k = cmp_known gte v l in
          let nh = ap is_null q ∙ is_null_null in
          truth-between_null fl v l h (or_right _ _ nh)
          ∙ sym (
              and_truth _ _ k.0 false k.1 (truth-cmp_null fl lte v h (or_right _ _ nh))
              ∙ ap ok (and_false k.0))
      by_null (inr p) (inr q) (inl n) =
          let k = cmp_known lte v h in
          let nv = ap is_null n ∙ is_null_null in
          truth-between fl v l h p q
          ∙ ap (λ b. ok (b && compare_value fl v operator_lte h))
              (ap (λ w. compare_value fl w operator_gte l) n ∙ null_gte fl l p)
          ∙ sym (
              and_truth _ _ false k.0 (truth-cmp_null fl gte v l (ap (λ b. b || is_null l) nv)) k.1)
      by_null (inr p) (inr q) (inr n) =
          truth-between fl v l h p q
          ∙ sym (and_truth _ _ _ _ (truth-cmp fl gte v l n p) (truth-cmp fl lte v h n q))

  -- Where the three operands evaluate, `x BETWEEN a AND b` is as true as `x >= a AND x <= b`, nulls
  -- and NaNs included.
  pub eval-between_op :
      {Env : Type 0} (env : Env) (a x b : Expr Env) (l v h : Value)
      → eval fl env a ≡ ok l
      → eval fl env x ≡ ok v
      → eval fl env b ≡ ok h
      → (do r ← eval fl env (between_op a x b); truth r)
        ≡ (do r ← eval fl env (and_op (cmp_op gte x a) (cmp_op lte x b)); truth r)
  unfolding eval eval_both
  eval-between_op env a x b l v h p q r = rw (p, q, r) (same_truth v l h)
