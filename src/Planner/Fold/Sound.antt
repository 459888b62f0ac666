-- ===== src/Planner/Fold/Sound.antt =====
-- Evaluating a precalculated expression against evaluating the expression itself.
use genji.Prelude.{
  ◌≡◌, refl, sym, ap, ap₂, ◌∙◌, Bool, true, false, ◌&&◌, Bytes, if◌then◌else◌, Bool-cases, inl, inr,
}
use genji.Prelude.Results.{Result, ok, err, ok-injective, ◌>>=◌}
use genji.Document.{Value, bool, array, document, field, cons}
use genji.Document.Floats.{Floats}
use genji.Expr.{
  Expr, Exprs, Pairs, Eval, EvalError, leaf, literal, list_of, pairs_of, and_op, or_op, not_op,
  cmp_op, between_op, in_op, not_in_op, is_op, is_not_op, concat_op, arithmetic_op, no_exprs,
  more_exprs, no_pairs, more_pairs, eval, eval_list, eval_pairs, eval_both, eval_and, eval_or,
  cmp_values, in_values, invert_bool_result,
}
use genji.Document.Compare.{compare_value, operator_eq, is_not_equal}
use genji.Document.Calculate.{calculate_values}
use genji.Planner.Fold.{
  is_literal, literals_only, literal_fields, fold_pairs, fold_operands, precalculate_expr,
  precalculate_list, precalculate_pairs,
}

and-true : (a b : Bool) → (a && b) ≡ true → (a ≡ true) × (b ≡ true)
and-true true b h = (refl, h)
and-true false b h = cc

module _ {Env : Type 0} where
  -- Does the part that is precalculated hold no BETWEEN?
  unfoldable mutual
    pub between_free : Expr Env → Bool
    between_free (list_of es) = between_free_list es
    between_free (pairs_of ps) = between_free_pairs ps
    between_free (and_op a b) = between_free a && between_free b
    between_free (or_op a b) = between_free a && between_free b
    between_free (cmp_op t a b) = between_free a && between_free b
    between_free (between_op a x b) = false
    between_free (in_op a b) = between_free a && between_free b
    between_free (not_in_op a b) = between_free a && between_free b
    between_free (is_op a b) = between_free a && between_free b
    between_free (is_not_op a b) = between_free a && between_free b
    between_free (arithmetic_op o a b) = between_free a && between_free b
    between_free e = true

    pub between_free_list : Exprs Env → Bool
    between_free_list no_exprs = true
    between_free_list (more_exprs e es) = between_free e && between_free_list es

    pub between_free_pairs : Pairs Env → Bool
    between_free_pairs no_pairs = true
    between_free_pairs (more_pairs k e ps) = between_free e && between_free_pairs ps

  literal_form : (e : Expr Env) → is_literal e ≡ true → (v : Value) × (e ≡ literal v)
  unfolding is_literal
  literal_form (literal v) h = (v, refl)
  literal_form _ h = cc

  module _ (fl : Floats) (empty env : Env) where
    -- The value is that of the expression.
    abbrev Agrees : Expr Env → Result EvalError (Expr Env) → Type 0
    Agrees a r = (l : Expr Env) → r ≡ ok l → eval fl env l ≡ eval fl env a

    -- An operator whose value is that of `g` on the results of its operands.
    module _ (op : Expr Env → Expr Env → Expr Env) (g : Eval → Eval → Eval)
        (shape : (env : Env) (a b : Expr Env)
          → eval fl env (op a b) ≡ g (eval fl env a) (eval fl env b)) where
      respects :
          (a b l r : Expr Env)
          → eval fl env l ≡ eval fl env a
          → eval fl env r ≡ eval fl env b
          → eval fl env (op l r) ≡ eval fl env (op a b)
      respects a b l r u w = shape env l r ∙ ap₂ g u w ∙ sym (shape env a b)

      constant :
          (v w : Value)
          → eval fl env (op (literal v) (literal w)) ≡ eval fl empty (op (literal v) (literal w))
      unfolding eval
      constant v w = shape env (literal v) (literal w) ∙ sym (shape empty (literal v) (literal w))

      evaluated :
          (l r e' : Expr Env) (x : Eval)
          → eval fl env (op l r) ≡ x
          → ◌≡◌ {A = Result EvalError (Expr Env)} (do v ← x; ok (literal v)) (ok e')
          → eval fl env e' ≡ eval fl env (op l r)
      evaluated l r e' (ok v) p q = ap (eval fl env) (sym (ok-injective q)) ∙ (unfold eval in sym p)
      evaluated l r e' (err x) p q = cc

      chosen :
          (l r e' : Expr Env) (t : Bool)
          → (is_literal l && is_literal r) ≡ t
          → (if t then (do v ← eval fl empty (op l r); ok (literal v)) else ok (op l r)) ≡ ok e'
          → eval fl env e' ≡ eval fl env (op l r)
      chosen l r e' false h q = ap (eval fl env) (sym (ok-injective q))
      chosen l r e' true h q =
          let p = and-true _ _ h in
          let a = literal_form l p.0 in
          let b = literal_form r p.1 in
          evaluated l r e' _
            (ap (eval fl env) (op_eq a.1 b.1)
              ∙ constant a.0 b.0
              ∙ ap (eval fl empty) (sym (op_eq a.1 b.1)))
            q
        where
          op_eq : {l l' r r' : Expr Env} → l ≡ l' → r ≡ r' → op l r ≡ op l' r'
          op_eq h k = cc

      fold_operands-Agrees :
          (a b : Expr Env) (lh rh : Result EvalError (Expr Env))
          → Agrees a lh
          → Agrees b rh
          → Agrees (op a b) (fold_operands fl empty op lh rh)
      unfolding fold_operands
      fold_operands-Agrees a b (ok l) (ok r) h k =
          λ e' q. chosen l r e' _ refl q ∙ respects a b l r (h l refl) (k r refl)
      fold_operands-Agrees a b (err x) rh h k = λ e' q. cc
      fold_operands-Agrees a b (ok l) (err x) h k = λ e' q. cc

    -- The same list of values, and of fields.
    abbrev ListAgrees : Exprs Env → Result EvalError (Exprs Env) → Type 0
    ListAgrees es r = (fs : Exprs Env) → r ≡ ok fs → eval_list fl env fs ≡ eval_list fl env es

    abbrev PairsAgree : Pairs Env → Result EvalError (Pairs Env) → Type 0
    PairsAgree ps r = (qs : Pairs Env) → r ≡ ok qs → eval_pairs fl env qs ≡ eval_pairs fl env ps

    list_of-Agrees :
        (es : Exprs Env) (r : Result EvalError (Exprs Env))
        → ListAgrees es r
        → Agrees (list_of es) (do fs ← r; ok (list_of fs))
    unfolding eval
    list_of-Agrees es (err x) h = λ l q. cc
    list_of-Agrees es (ok fs) h = λ l q.
        ap (eval fl env) (sym (ok-injective q)) ∙ ap (λ r. do vs ← r; ok (array vs)) (h fs refl)

    more_exprs-ListAgrees :
        (e : Expr Env) (es : Exprs Env) (r : Result EvalError (Expr Env))
        (s : Result EvalError (Exprs Env))
        → Agrees e r
        → ListAgrees es s
        → ListAgrees (more_exprs e es) (do f ← r; fs ← s; ok (more_exprs f fs))
    unfolding eval
    more_exprs-ListAgrees e es (err x) s h k = λ fs q. cc
    more_exprs-ListAgrees e es (ok f) (err x) h k = λ fs q. cc
    more_exprs-ListAgrees e es (ok f) (ok fs) h k = λ gs q.
        ap (eval_list fl env) (sym (ok-injective q))
        ∙ ap₂ (λ r s. do v ← r; vs ← s; ok (cons v vs)) (h f refl) (k fs refl)

    more_pairs-PairsAgree :
        (n : Bytes) (e : Expr Env) (ps : Pairs Env) (r : Result EvalError (Expr Env))
        (s : Result EvalError (Pairs Env))
        → Agrees e r
        → PairsAgree ps s
        → PairsAgree (more_pairs n e ps) (do f ← r; qs ← s; ok (more_pairs n f qs))
    unfolding eval
    more_pairs-PairsAgree n e ps (err x) s h k = λ qs q. cc
    more_pairs-PairsAgree n e ps (ok f) (err x) h k = λ qs q. cc
    more_pairs-PairsAgree n e ps (ok f) (ok fs) h k = λ gs q.
        ap (eval_pairs fl env) (sym (ok-injective q))
        ∙ ap₂ (λ r s. do v ← r; vs ← s; ok (field n v vs)) (h f refl) (k fs refl)

    -- Pairs of literals evaluate to their document.
    eval_pairs-literals :
        (ps : Pairs Env) → literals_only ps ≡ true → eval_pairs fl env ps ≡ ok (literal_fields ps)
    unfolding eval literals_only is_literal literal_fields
    eval_pairs-literals no_pairs h = refl
    eval_pairs-literals (more_pairs n (literal v) ps) h = rw (eval_pairs-literals ps h) refl
    eval_pairs-literals (more_pairs n _ ps) h = cc

    eval-fold_pairs : (ps : Pairs Env) → eval fl env (fold_pairs ps) ≡ eval fl env (pairs_of ps)
    unfolding fold_pairs eval
    eval-fold_pairs ps = elim (Bool-cases (literals_only ps)) [
      | inl h ↦ rw (h, eval_pairs-literals ps h) refl
      | inr h ↦ rw h refl
    ]

    pairs_of-Agrees :
        (ps : Pairs Env) (r : Result EvalError (Pairs Env))
        → PairsAgree ps r
        → Agrees (pairs_of ps) (do qs ← r; ok (fold_pairs qs))
    pairs_of-Agrees ps (err x) h = λ l q. cc
    pairs_of-Agrees ps (ok qs) h = λ l q.
        ap (eval fl env) (sym (ok-injective q))
        ∙ eval-fold_pairs qs
        ∙ (unfold eval in ap (λ r. do fs ← r; ok (document fs)) (h qs refl))

    -- The recursion.
    mutual
      unfolding precalculate_expr between_free eval

      expr-Agrees : (e : Expr Env) → between_free e ≡ true → Agrees e (precalculate_expr fl empty e)
      expr-Agrees (literal v) h = λ l q. ap (eval fl env) (sym (ok-injective q))
      expr-Agrees (leaf f) h = λ l q. ap (eval fl env) (sym (ok-injective q))
      expr-Agrees (not_op e) h = λ l q. ap (eval fl env) (sym (ok-injective q))
      expr-Agrees (concat_op a b) h = λ l q. ap (eval fl env) (sym (ok-injective q))
      expr-Agrees (between_op a x b) h = cc
      expr-Agrees (and_op a b) h =
          fold_operands-Agrees and_op eval_and (λ n c d. refl) a b _ _
            (expr-Agrees a (and-true _ _ h).0) (expr-Agrees b (and-true _ _ h).1)
      expr-Agrees (or_op a b) h =
          fold_operands-Agrees or_op eval_or (λ n c d. refl) a b _ _
            (expr-Agrees a (and-true _ _ h).0) (expr-Agrees b (and-true _ _ h).1)
      expr-Agrees (cmp_op t a b) h =
          fold_operands-Agrees (cmp_op t) (λ x y. eval_both x y (λ v w. ok (cmp_values fl t v w)))
            (λ n c d. refl) a b _ _ (expr-Agrees a (and-true _ _ h).0)
            (expr-Agrees b (and-true _ _ h).1)
      expr-Agrees (in_op a b) h =
          fold_operands-Agrees in_op (λ x y. eval_both x y (λ v w. ok (in_values fl v w)))
            (λ n c d. refl) a b _ _ (expr-Agrees a (and-true _ _ h).0)
            (expr-Agrees b (and-true _ _ h).1)
      expr-Agrees (not_in_op a b) h =
          fold_operands-Agrees not_in_op
            (λ x y. invert_bool_result (eval_both x y (λ v w. ok (in_values fl v w))))
            (λ n c d. refl) a b _ _ (expr-Agrees a (and-true _ _ h).0)
            (expr-Agrees b (and-true _ _ h).1)
      expr-Agrees (is_op a b) h =
          fold_operands-Agrees is_op
            (λ x y. eval_both x y (λ v w. ok (bool (compare_value fl v operator_eq w))))
            (λ n c d. refl) a b _ _ (expr-Agrees a (and-true _ _ h).0)
            (expr-Agrees b (and-true _ _ h).1)
      expr-Agrees (is_not_op a b) h =
          fold_operands-Agrees is_not_op
            (λ x y. eval_both x y (λ v w. ok (bool (is_not_equal fl v w)))) (λ n c d. refl) a b _ _
            (expr-Agrees a (and-true _ _ h).0) (expr-Agrees b (and-true _ _ h).1)
      expr-Agrees (arithmetic_op o a b) h =
          fold_operands-Agrees (arithmetic_op o)
            (λ x y. eval_both x y (λ v w. ok (calculate_values fl o v w))) (λ n c d. refl) a b _ _
            (expr-Agrees a (and-true _ _ h).0) (expr-Agrees b (and-true _ _ h).1)
      expr-Agrees (list_of es) h = list_of-Agrees es _ (list-ListAgrees es h)
      expr-Agrees (pairs_of ps) h = pairs_of-Agrees ps _ (pairs-PairsAgree ps h)

      list-ListAgrees :
          (es : Exprs Env)
          → between_free_list es ≡ true
          → ListAgrees es (precalculate_list fl empty es)
      list-ListAgrees no_exprs h = λ fs q. ap (eval_list fl env) (sym (ok-injective q))
      list-ListAgrees (more_exprs e es) h =
          more_exprs-ListAgrees e es _ _ (expr-Agrees e (and-true _ _ h).0)
            (list-ListAgrees es (and-true _ _ h).1)

      pairs-PairsAgree :
          (ps : Pairs Env)
          → between_free_pairs ps ≡ true
          → PairsAgree ps (precalculate_pairs fl empty ps)
      pairs-PairsAgree no_pairs h = λ qs q. ap (eval_pairs fl env) (sym (ok-injective q))
      pairs-PairsAgree (more_pairs n e ps) h =
          more_pairs-PairsAgree n e ps _ _ (expr-Agrees e (and-true _ _ h).0)
            (pairs-PairsAgree ps (and-true _ _ h).1)

    -- Precalculating an expression without BETWEEN keeps its value, or its error, in every
    -- environment, where it does not panic.
    pub eval-precalculate_expr :
        (e e' : Expr Env)
        → between_free e ≡ true
        → precalculate_expr fl empty e ≡ ok e'
        → eval fl env e' ≡ eval fl env e
    eval-precalculate_expr e e' h q = expr-Agrees e h e' q

  -- BETWEEN with two literals as bounds, whatever it tests: where the tested expression gives an error
  -- in the empty environment, as a path does, the precalculation panics with that error.
  pub precalculate_expr-between :
      (fl : Floats) (empty : Env) (v w : Value) (x : Expr Env) (e : EvalError)
      → eval fl empty x ≡ err e
      → precalculate_expr fl empty (between_op (literal v) x (literal w)) ≡ err e
  unfolding precalculate_expr fold_operands is_literal eval
  precalculate_expr-between fl empty v w x e h = rw h refl
