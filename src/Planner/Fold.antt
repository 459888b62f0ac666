-- ===== src/Planner/Fold.antt =====
-- precalculateExpr of internal/planner/optimizer.go, for the expressions of Expr. An operator whose
-- evaluation returns an error makes the code panic with that error; here it is the result.
pub mod Sound
use genji.Prelude.{ℕ, Bool, true, false, ◌&&◌, Bytes, if◌then◌else◌}
use genji.Prelude.Results.{Result, ok, err, ◌>>=◌}
use genji.Document.{Value, Fields, null, document, end, field}
use genji.Document.Floats.{Floats}
use genji.Expr.{
  Expr, Exprs, Pairs, EvalError, leaf, literal, list_of, pairs_of, and_op, or_op, not_op, cmp_op,
  between_op, in_op, not_in_op, is_op, is_not_op, concat_op, arithmetic_op, no_exprs, more_exprs,
  no_pairs, more_pairs, eval,
}

module _ {Env : Type 0} where
  unfoldable pub is_literal : Expr Env → Bool
  is_literal (literal v) = true
  is_literal _ = false

  unfoldable pub literals_only : Pairs Env → Bool
  unfolding is_literal
  literals_only no_pairs = true
  literals_only (more_pairs k e ps) = is_literal e && literals_only ps

  -- The document of pairs that are literals.
  unfoldable pub literal_fields : Pairs Env → Fields
  literal_fields no_pairs = end
  literal_fields (more_pairs k (literal v) ps) = field k v (literal_fields ps)
  literal_fields (more_pairs k _ ps) = literal_fields ps

  unfoldable pub fold_pairs : Pairs Env → Expr Env
  fold_pairs ps = if literals_only ps then literal (document (literal_fields ps)) else pairs_of ps

  module _ (fl : Floats) (empty : Env) where
    -- The new operands; two literals are evaluated in the empty environment.
    unfoldable pub fold_operands :
        (Expr Env → Expr Env → Expr Env)
        → Result EvalError (Expr Env)
        → Result EvalError (Expr Env)
        → Result EvalError (Expr Env)
    fold_operands op lh rh = do
      l ← lh
      r ← rh
      if is_literal l && is_literal r
          then (do v ← eval fl empty (op l r); ok (literal v))
          else ok (op l r)

    unfoldable mutual
      unfolding fold_operands fold_pairs

      pub precalculate_expr : Expr Env → Result EvalError (Expr Env)
      precalculate_expr (list_of es) = do fs ← precalculate_list es; ok (list_of fs)
      precalculate_expr (pairs_of ps) = do qs ← precalculate_pairs ps; ok (fold_pairs qs)
      precalculate_expr (and_op a b) =
          fold_operands and_op (precalculate_expr a) (precalculate_expr b)
      precalculate_expr (or_op a b) =
          fold_operands or_op (precalculate_expr a) (precalculate_expr b)
      precalculate_expr (cmp_op t a b) =
          fold_operands (cmp_op t) (precalculate_expr a) (precalculate_expr b)
      precalculate_expr (between_op a x b) =
          fold_operands (λ l r. between_op l x r) (precalculate_expr a) (precalculate_expr b)
      precalculate_expr (in_op a b) =
          fold_operands in_op (precalculate_expr a) (precalculate_expr b)
      precalculate_expr (not_in_op a b) =
          fold_operands not_in_op (precalculate_expr a) (precalculate_expr b)
      precalculate_expr (is_op a b) =
          fold_operands is_op (precalculate_expr a) (precalculate_expr b)
      precalculate_expr (is_not_op a b) =
          fold_operands is_not_op (precalculate_expr a) (precalculate_expr b)
      precalculate_expr (arithmetic_op o a b) =
          fold_operands (arithmetic_op o) (precalculate_expr a) (precalculate_expr b)
      precalculate_expr e = ok e

      pub precalculate_list : Exprs Env → Result EvalError (Exprs Env)
      precalculate_list no_exprs = ok no_exprs
      precalculate_list (more_exprs e es) = do
        f ← precalculate_expr e
        fs ← precalculate_list es
        ok (more_exprs f fs)

      pub precalculate_pairs : Pairs Env → Result EvalError (Pairs Env)
      precalculate_pairs no_pairs = ok no_pairs
      precalculate_pairs (more_pairs k e ps) = do
        f ← precalculate_expr e
        qs ← precalculate_pairs ps
        ok (more_pairs k f qs)
