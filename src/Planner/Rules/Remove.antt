-- ===== src/Planner/Rules/Remove.antt =====
-- RemoveUnnecessaryFilterNodesRule against the traces of the streams.
use genji.Prelude.{
  ℕ, zero, suc, ◌≡◌, ◌⊎◌, refl, sym, ap, ◌∙◌, Bool, true, false, ◌||◌, Option, none, some, List, [],
  ◌∷◌, if◌then◌else◌, Bool-cases, inl, inr,
}
use genji.Prelude.Int.{pos_part}
use genji.Prelude.Results.{Result, ok, err, ok-injective, ◌>>=◌}
use genji.Document.{Value, null, bool, array, nil}
use genji.Document.Floats.{Floats}
use genji.Environment.{Environment}
use genji.Expr.{
  Expr, Eval, EvalError, literal, in_op, eval, eval_both, in_values, in_array, array_contains,
  is_null, truth,
}
use genji.Expr.Logic.{truth_bool}
use genji.Expr.Ranges.{truth_null}
use genji.Stream.{
  Stream, empty_stream, pipe, Operator, scan, documents, expressions, map, filter, take, skip,
  group_by, project, unset, iter_rename, concat, mask, StreamError, eval_error, of_eval,
}
use genji.Stream.Iterate.{passes, no_operator, with_doc}
use genji.Stream.Trace.{Trace, before, through, limited, behind, kept_if, trace}
use genji.Planner.Rules.{
  after_literal, keep_node, remove_filters, remove_unnecessary_filters, or_empty,
}
use genji.Planner.Rules.Split.{step_of, through_cons}
use genji.Planner.Rules.Keep.{
  started, started_both, started_before, reads_prev, empty_of, first_filter, piped, Kept,
}

-- Every environment passes.
through_all :
    (g : Environment → Result StreamError (Option Environment))
    → ((x : Environment) → g x ≡ ok (some x))
    → (xs : List Environment) (e : Option StreamError) → through g xs e ≡ (xs, e)
through_all g h [] e = unfold through in refl
through_all g h (x ∷ xs) e =
    through_cons g x xs e
    ∙ ap (λ r. step_of r (through g xs e)) (h x)
    ∙ ap (before x) (through_all g h xs e)

-- No environment passes.
through-none :
    (g : Environment → Result StreamError (Option Environment))
    → ((x : Environment) → (g x ≡ ok none) ⊎ ((e : StreamError) × (g x ≡ err e)))
    → (xs : List Environment) (e : Option StreamError) → (through g xs e).0 ≡ []
through-none g h [] e = unfold through in refl
through-none g h (x ∷ xs) e =
    ap (λ (t : Trace). t.0) (through_cons g x xs e) ∙ by_test (h x) (through-none g h xs e)
  where
    by_test :
        (g x ≡ ok none) ⊎ ((y : StreamError) × (g x ≡ err y))
        → (through g xs e).0 ≡ []
        → (step_of (g x) (through g xs e)).0 ≡ []
    by_test (inl p) k = ap (λ r. (step_of r (through g xs e)).0) p ∙ k
    by_test (inr (y, p)) k = ap (λ r. (step_of r (through g xs e)).0) p

limited_nil : (k : ℕ) (e : Option StreamError) → (limited k [] e).0 ≡ []
unfolding limited
limited_nil zero e = refl
limited_nil (suc k) e = refl

behind_nil : (k : ℕ) → behind k [] ≡ []
unfolding behind
behind_nil zero = refl
behind_nil (suc k) = refl

module _ (fl : Floats) where
  passes_literal :
      (v : Value) (b : Bool) (x : Environment) → truth v ≡ ok b → passes fl (literal v) x ≡ ok b
  unfolding passes eval
  passes_literal v b x h = rw h refl

  -- `a IN []` is never true.
  passes_in :
      (a : Expr Environment) (x : Environment)
      → (passes fl (in_op a (literal (array nil))) x ≡ ok false)
        ⊎ ((e : StreamError) × (passes fl (in_op a (literal (array nil))) x ≡ err e))
  unfolding passes eval eval_both in_values in_array array_contains is_null
  passes_in a x = by_value (eval fl x a)
    where
      not_in :
          (v : Value) (b : Bool)
          → of_eval (truth (if b || false then null else bool false)) ≡ ok false
      not_in v true = ap of_eval truth_null
      not_in v false = ap of_eval (truth_bool false)

      by_value :
          (r : Eval)
          → (let s : Result StreamError Bool = (do
            v ← of_eval (do w ← r; ok (in_values fl w (array nil)))
            of_eval (truth v)) in
              (s ≡ ok false) ⊎ ((e : StreamError) × (s ≡ err e)))
      by_value (ok v) = inl (not_in v (is_null v))
      by_value (err e) = inr (eval_error e, refl)

  -- A filter by a literal that is true.
  trace-true :
      (prev : Stream) (v : Value) (env : Environment)
      → truth v ≡ ok true
      → trace fl (pipe prev (filter (literal v))) env ≡ trace fl prev env
  unfolding trace
  trace-true prev v env h =
      through_all _ (λ x. ap (kept_if x) (passes_literal v true x h)) (trace fl prev env).0
        (trace fl prev env).1

  trace-false :
      (prev : Stream) (v : Value) (env : Environment)
      → truth v ≡ ok false
      → (trace fl (pipe prev (filter (literal v))) env).0 ≡ []
  unfolding trace
  trace-false prev v env h =
      through-none _ (λ x. inl (ap (kept_if x) (passes_literal v false x h))) (trace fl prev env).0
        (trace fl prev env).1

  trace-in :
      (prev : Stream) (a : Expr Environment) (env : Environment)
      → (trace fl (pipe prev (filter (in_op a (literal (array nil))))) env).0 ≡ []
  unfolding trace
  trace-in prev a env = through-none _ test (trace fl prev env).0 (trace fl prev env).1
    where
      by_result :
          (x : Environment) (r : Result StreamError Bool)
          → (r ≡ ok false) ⊎ ((e : StreamError) × (r ≡ err e))
          → (kept_if x r ≡ ok none) ⊎ ((e : StreamError) × (kept_if x r ≡ err e))
      by_result x r (inl p) = inl (ap (kept_if x) p)
      by_result x r (inr (e, p)) = inr (e, ap (kept_if x) p)

      test :
          (x : Environment)
          → (kept_if x (passes fl (in_op a (literal (array nil))) x) ≡ ok none)
            ⊎ ((e : StreamError) × (kept_if x (passes fl (in_op a (literal (array nil))) x)
                  ≡ err e))
      test x = by_result x _ (passes_in a x)

  nothing_through :
      (g : Environment → Result StreamError (Option Environment)) (t : Trace)
      → t.0 ≡ []
      → (through g t.0 t.1).0 ≡ []
  nothing_through g t h = ap (λ xs. (through g xs t.1).0) h ∙ (unfold through in refl)

  -- Nothing comes out of an operator into which nothing goes.
  nothing_behind :
      (prev : Stream) (op : Operator) (env : Environment)
      → no_operator prev ≡ false
      → reads_prev op ≡ true
      → (trace fl prev env).0 ≡ []
      → (trace fl (pipe prev op) env).0 ≡ []
  unfolding trace reads_prev
  nothing_behind prev (scan g) env p r h = cc
  nothing_behind prev (documents ds) env p r h = cc
  nothing_behind prev (expressions es) env p r h = cc
  nothing_behind prev (concat a b) env p r h = cc
  nothing_behind prev (map e) env p r h = nothing_through _ (trace fl prev env) h
  nothing_behind prev (filter e) env p r h = nothing_through _ (trace fl prev env) h
  nothing_behind prev (take n) env p r h =
      ap (λ xs. (limited (pos_part n) xs (trace fl prev env).1).0) h
      ∙ limited_nil (pos_part n) (trace fl prev env).1
  nothing_behind prev (skip n) env p r h = ap (behind (pos_part n)) h ∙ behind_nil (pos_part n)
  nothing_behind prev (group_by e n) env p r h = nothing_through _ (trace fl prev env) h
  nothing_behind prev (project cs) env p r h =
      ap
        (λ (b : Bool).
          (if b
            then (with_doc env (mask fl env cs) ∷ [], none)
            else through (λ x. ok (some (with_doc x (mask fl x cs)))) (trace fl prev env).0
                (trace fl prev env).1).0)
        p
      ∙ nothing_through (λ x. ok (some (with_doc x (mask fl x cs)))) (trace fl prev env) h
  nothing_behind prev (unset n) env p r h = nothing_through _ (trace fl prev env) h
  nothing_behind prev (iter_rename ns) env p r h = nothing_through _ (trace fl prev env) h

  -- The same trace, or nothing.
  abbrev pub Outcome : Stream → Result EvalError (Option Stream) → Type 0
  Outcome st (err e) = Unit
  Outcome st (ok none) = (env : Environment) → (trace fl st env).0 ≡ []
  Outcome st (ok (some st')) = Kept fl st' st

  keep_node-Outcome :
      (prev : Stream) (op : Operator) (r : Result EvalError (Option Stream))
      → no_operator prev ≡ false
      → started (pipe prev op) ≡ true
      → Outcome prev r
      → Outcome (pipe prev op) (keep_node op r)
  unfolding keep_node
  keep_node-Outcome prev op (err e) p h k = tt
  keep_node-Outcome prev op (ok none) p h k =
      λ env. nothing_behind prev op env p (started_both prev op p h).0 (k env)
  keep_node-Outcome prev op (ok (some st)) p h k = piped fl st prev op k

  kept_node :
      (prev : Stream) (op : Operator)
      → (started prev ≡ true → Outcome prev (remove_filters prev))
      → started (pipe prev op) ≡ true
      → Outcome (pipe prev op) (keep_node op (remove_filters prev))
  kept_node prev op k h = elim (Bool-cases (no_operator prev)) [
    | inl p ↦ rw (empty_of prev p) first_node
    | inr p ↦ keep_node-Outcome prev op (remove_filters prev) p h (k (started_before prev op p h))
  ]
    where
      first_node : Outcome (pipe empty_stream op) (keep_node op (remove_filters empty_stream))
      first_node = unfold keep_node remove_filters in (λ env. refl, refl)

  literal_node :
      (prev : Stream) (v : Value) (t : Result EvalError Bool) (r : Result EvalError (Option Stream))
      → truth v ≡ t
      → no_operator prev ≡ false
      → Outcome prev r
      → Outcome (pipe prev (filter (literal v))) (after_literal t r)
  unfolding after_literal no_operator
  literal_node prev v (err e) r q p k = tt
  literal_node prev v (ok false) r q p k = λ env. trace-false prev v env q
  literal_node prev v (ok true) (err e) q p k = tt
  literal_node prev v (ok true) (ok none) q p k =
      λ env. ap (λ (t : Trace). t.0) (trace-true prev v env q) ∙ k env
  literal_node prev v (ok true) (ok (some st)) q p k =
      (λ env. k.0 env ∙ sym (trace-true prev v env q), k.1 ∙ p)

  after_literal-Outcome :
      (prev : Stream) (v : Value)
      → (started prev ≡ true → Outcome prev (remove_filters prev))
      → started (pipe prev (filter (literal v))) ≡ true
      → Outcome (pipe prev (filter (literal v))) (after_literal (truth v) (remove_filters prev))
  after_literal-Outcome prev v k h = by_first (Bool-cases (no_operator prev))
    where
      by_first :
          (no_operator prev ≡ true) ⊎ (no_operator prev ≡ false)
          → Outcome (pipe prev (filter (literal v))) (after_literal (truth v) (remove_filters prev))
      by_first (inl p) = let q : true ≡ false = sym h ∙ first_filter prev (literal v) p in cc
      by_first (inr p) = literal_node prev v (truth v) _ refl p (k (started_before prev _ p h))

  remove_filters-Outcome : (st : Stream) → started st ≡ true → Outcome st (remove_filters st)
  unfolding remove_filters
  remove_filters-Outcome empty_stream h = (λ env. refl, refl)
  remove_filters-Outcome (pipe prev (filter (literal v))) h =
      after_literal-Outcome prev v (remove_filters-Outcome prev) h
  remove_filters-Outcome (pipe prev (filter (in_op a (literal (array nil))))) h =
      λ env. trace-in prev a env
  remove_filters-Outcome (pipe prev op) h = kept_node prev op (remove_filters-Outcome prev) h

  outputs :
      (st st' : Stream) (r : Result EvalError (Option Stream)) (env : Environment)
      → Outcome st r
      → ◌≡◌ {A = Result EvalError Stream} (do o ← r; ok (or_empty o)) (ok st')
      → (trace fl st' env).0 ≡ (trace fl st env).0
  outputs st st' (err e) env h q = cc
  outputs st st' (ok none) env h q =
      ap (λ s. (trace fl s env).0) (sym (ok-injective q)) ∙ (unfold trace in sym (h env))
  outputs st st' (ok (some s)) env h q =
      ap (λ s. (trace fl s env).0) (sym (ok-injective q)) ∙ ap (λ (t : Trace). t.0) (h.0 env)

  -- The rule that removes filters that are true and empties a stream with a filter that is false or
  -- tests `IN []` keeps the environments that a stream of the modelled operators passes on, where it
  -- begins with a source and returns no error.
  pub trace-remove_unnecessary_filters :
      (st st' : Stream) (env : Environment)
      → started st ≡ true
      → remove_unnecessary_filters st ≡ ok st'
      → (trace fl st' env).0 ≡ (trace fl st env).0
  unfolding remove_unnecessary_filters
  trace-remove_unnecessary_filters st st' env h q =
      outputs st st' (remove_filters st) env (remove_filters-Outcome st h) q
