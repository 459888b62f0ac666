-- ===== src/Expr/Logic.antt =====
-- The laws of AND, OR and NOT (internal/expr/logical.go), errors and their order included.
use genji.Prelude.{◌≡◌, ◌⊎◌, inl, inr, refl, sym, ◌∙◌, Bool, true, false, not}
use genji.Prelude.Results.{Result, ok, err, ◌>>=◌}
use genji.Document.{Value, bool}
use genji.Document.Floats.{Floats}
use genji.Document.Cast.{is_truthy, is_zero_value}
use genji.Expr.{
  Expr, Eval, EvalError, and_op, or_op, not_op, truth, eval_and, eval_or, eval_not, eval,
}

pub truth_bool : (b : Bool) → truth (bool b) ≡ ok b
unfolding truth is_truthy is_zero_value
truth_bool true = refl
truth_bool false = refl

pub Result-cases :
    {A : Type 0} (r : Result EvalError A) → ((e : EvalError) × (r ≡ err e)) ⊎ ((a : A) × (r ≡ ok a))
Result-cases (ok a) = inr (a, refl)
Result-cases (err e) = inl (e, refl)

not_and_true :
    (rb : Eval)
    → eval_not (do b ← rb; t ← truth b; ok (bool t)) ≡ (do b ← rb; t ← truth b; ok (bool (not t)))
unfolding eval_not
not_and_true (err e) = refl
not_and_true (ok b) = elim (Result-cases (truth b)) [
  | inl (e, h) ↦ rw h refl
  | inr (t, h) ↦ rw (h, truth_bool t) refl
]

or_not_false :
    (rb : Eval)
    → (do b ← eval_not rb; t ← truth b; ok (bool t)) ≡ (do b ← rb; t ← truth b; ok (bool (not t)))
unfolding eval_not
or_not_false (err e) = refl
or_not_false (ok b) = elim (Result-cases (truth b)) [
  | inl (e, h) ↦ rw h refl
  | inr (t, h) ↦ rw (h, truth_bool (not t)) refl
]

eval_not_ok : (a : Value) (s : Bool) → truth a ≡ ok s → eval_not (ok a) ≡ ok (bool (not s))
unfolding eval_not
eval_not_ok a s h = rw h refl

eval_not-eval_and : (ra rb : Eval) → eval_not (eval_and ra rb) ≡ eval_or (eval_not ra) (eval_not rb)
unfolding eval_and eval_or
eval_not-eval_and (err e) rb = unfold eval_not in refl
eval_not-eval_and (ok a) rb = elim (Result-cases (truth a)) [
  | inl (e, h) ↦ unfold eval_not in rw h refl
  | inr (true, h) ↦
      rw (h, eval_not_ok a true h, truth_bool false) (not_and_true rb ∙ sym (or_not_false rb))
  | inr (false, h) ↦
      rw
        (
          h,
          eval_not_ok a false h,
          eval_not_ok (bool false) false (truth_bool false),
          truth_bool true,
        )
        refl
]

module _ (fl : Floats) {Env : Type 0} (env : Env) where
  -- NOT of an AND evaluates as the OR of the NOTs, with the same error where an operand or its
  -- truth fails.
  pub eval-not_op :
      (a b : Expr Env)
      → eval fl env (not_op (and_op a b)) ≡ eval fl env (or_op (not_op a) (not_op b))
  unfolding eval
  eval-not_op a b = eval_not-eval_and (eval fl env a) (eval fl env b)
