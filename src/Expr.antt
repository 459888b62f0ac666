-- ===== src/Expr.antt =====
-- internal/expr: the evaluation of the operators of logical.go, comparison.go, operator.go and
-- arithmeric.go. Every other expression is a `leaf`, of which nothing is assumed but that it
-- evaluates in an environment to a value or an error; operands are never missing.
pub mod Logic
pub mod Ranges
pub mod Between
use genji.Prelude.{ℕ, Bool, true, false, not, ◌&&◌, ◌||◌, List, [], ◌∷◌, ◌++◌, Bytes, if◌then◌else◌}
use genji.Prelude.Results.{Result, ok, err, ◌>>=◌}
use genji.Document.{Value, Items, Fields, null, bool, text, array, document, nil, cons, end, field}
use genji.Document.Floats.{Floats}
use genji.Document.Cast.{CastError, is_truthy}
use genji.Document.Compare.{
  Operator, operator_eq, operator_gt, operator_gte, operator_lt, operator_lte, compare_value,
  is_not_equal,
}
use genji.Document.Calculate.{Arithmetic, calculate_values}

-- An error of IsTruthy, or of an expression that is not modelled.
pub data EvalError : Type 0 where
  no_truth : CastError → EvalError
  failed : ℕ → EvalError

-- The tokens of a cmpOp.
pub data Token : Type 0 where
  eq neq gt gte lt lte : Token

-- LiteralExprList is `list_of`, and KVPairs, where it does not refer to itself, is `pairs_of`.
mutual
  pub data Expr (Env : Type 0) : Type 0 where
    leaf : (Env → Result EvalError Value) → Expr Env
    literal : Value → Expr Env
    list_of : Exprs Env → Expr Env
    pairs_of : Pairs Env → Expr Env
    and_op : Expr Env → Expr Env → Expr Env
    or_op : Expr Env → Expr Env → Expr Env
    not_op : Expr Env → Expr Env
    cmp_op : Token → Expr Env → Expr Env → Expr Env
    -- `a`, then `x`, then `b` in `x BETWEEN a AND b`
    between_op : Expr Env → Expr Env → Expr Env → Expr Env
    in_op : Expr Env → Expr Env → Expr Env
    not_in_op : Expr Env → Expr Env → Expr Env
    is_op : Expr Env → Expr Env → Expr Env
    is_not_op : Expr Env → Expr Env → Expr Env
    concat_op : Expr Env → Expr Env → Expr Env
    arithmetic_op : Arithmetic → Expr Env → Expr Env → Expr Env

  pub data Exprs (Env : Type 0) : Type 0 where
    no_exprs : Exprs Env
    more_exprs : Expr Env → Exprs Env → Exprs Env

  pub data Pairs (Env : Type 0) : Type 0 where
    no_pairs : Pairs Env
    more_pairs : Bytes → Expr Env → Pairs Env → Pairs Env

abbrev pub Eval : Type 0
Eval = Result EvalError Value

-- IsTruthy of an operand.
unfoldable pub truth : Value → Result EvalError Bool
truth v = elim (is_truthy v) [ ok b ↦ ok b | err e ↦ err (no_truth e) ]

-- AndOp.Eval, OrOp.Eval and NotOp.Eval
unfoldable pub eval_and : Eval → Eval → Eval
eval_and ra rb = do
  a ← ra
  s ← truth a
  if s then (do b ← rb; t ← truth b; ok (bool t)) else ok (bool false)

unfoldable pub eval_or : Eval → Eval → Eval
eval_or ra rb = do
  a ← ra
  s ← truth a
  if s then ok (bool true) else (do b ← rb; t ← truth b; ok (bool t))

unfoldable pub eval_not : Eval → Eval
eval_not ra = do a ← ra; s ← truth a; ok (bool (not s))

-- simpleOperator.eval
unfoldable pub eval_both : Eval → Eval → (Value → Value → Eval) → Eval
eval_both ra rb fn = do a ← ra; b ← rb; fn a b

unfoldable pub is_null : Value → Bool
is_null null = true
is_null _ = false

-- invertBoolResult
unfoldable pub inverted : Value → Value
inverted (bool b) = bool (not b)
inverted v = v

unfoldable pub invert_bool_result : Eval → Eval
unfolding inverted
invert_bool_result r = do v ← r; ok (inverted v)

-- The two values of a ConcatOperator.
unfoldable pub concat_values : Value → Value → Value
concat_values (text a) (text b) = text (a ++ b)
concat_values _ _ = null

module _ (fl : Floats) where
  -- cmpOp.compare
  unfoldable pub compare_token : Token → Value → Value → Bool
  compare_token eq l r = compare_value fl l operator_eq r
  compare_token neq l r = is_not_equal fl l r
  compare_token gt l r = compare_value fl l operator_gt r
  compare_token gte l r = compare_value fl l operator_gte r
  compare_token lt l r = compare_value fl l operator_lt r
  compare_token lte l r = compare_value fl l operator_lte r

  unfoldable pub cmp_values : Token → Value → Value → Value
  unfolding is_null
  cmp_values t a b = if is_null a || is_null b then null else bool (compare_token t a b)

  unfoldable pub between_values : Value → Value → Value → Value
  unfolding is_null
  between_values x a b =
      if is_null a || is_null b
      then null
      else bool (compare_value fl x operator_gte a && compare_value fl x operator_lte b)

  -- ArrayContains
  unfoldable pub array_contains : Items → Value → Bool
  array_contains nil v = false
  array_contains (cons w vs) v = compare_value fl w operator_eq v || array_contains vs v

  unfoldable pub in_array : Value → Value → Value
  in_array a (array vs) = bool (array_contains vs a)
  in_array a _ = bool false

  unfoldable pub in_values : Value → Value → Value
  unfolding is_null in_array
  in_values a b = if is_null a || is_null b then null else in_array a b

  -- Expr.Eval
  unfoldable mutual
    pub eval : {Env : Type 0} → Env → Expr Env → Eval
    eval env (leaf f) = f env
    eval env (literal v) = ok v
    eval env (list_of es) = do vs ← eval_list env es; ok (array vs)
    eval env (pairs_of ps) = do fs ← eval_pairs env ps; ok (document fs)
    eval env (and_op a b) = eval_and (eval env a) (eval env b)
    eval env (or_op a b) = eval_or (eval env a) (eval env b)
    eval env (not_op a) = eval_not (eval env a)
    eval env (cmp_op t a b) = eval_both (eval env a) (eval env b) (λ v w. ok (cmp_values t v w))
    eval env (between_op a x b) = do
      v ← eval env x
      eval_both (eval env a) (eval env b) (λ l h. ok (between_values v l h))
    eval env (in_op a b) = eval_both (eval env a) (eval env b) (λ v w. ok (in_values v w))
    eval env (not_in_op a b) =
        invert_bool_result (eval_both (eval env a) (eval env b) (λ v w. ok (in_values v w)))
    eval env (is_op a b) =
        eval_both (eval env a) (eval env b) (λ v w. ok (bool (compare_value fl v operator_eq w)))
    eval env (is_not_op a b) =
        eval_both (eval env a) (eval env b) (λ v w. ok (bool (is_not_equal fl v w)))
    eval env (concat_op a b) = eval_both (eval env a) (eval env b) (λ v w. ok (concat_values v w))
    eval env (arithmetic_op op a b) =
        eval_both (eval env a) (eval env b) (λ v w. ok (calculate_values fl op v w))

    -- LiteralExprList.Eval
    pub eval_list : {Env : Type 0} → Env → Exprs Env → Result EvalError Items
    eval_list env no_exprs = ok nil
    eval_list env (more_exprs e es) = do v ← eval env e; vs ← eval_list env es; ok (cons v vs)

    -- KVPairs.Eval
    pub eval_pairs : {Env : Type 0} → Env → Pairs Env → Result EvalError Fields
    eval_pairs env no_pairs = ok end
    eval_pairs env (more_pairs k e ps) = do
      v ← eval env e
      fs ← eval_pairs env ps
      ok (field k v fs)
