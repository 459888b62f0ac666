-- ===== src/Planner/Rules/Split.antt =====
-- SplitANDConditionRule against the traces of the streams.
use genji.Prelude.{
  ◌≡◌, refl, sym, ap, ◌∙◌, Bool, true, false, Option, none, some, List, [], ◌∷◌, ◌++◌,
  if◌then◌else◌, inl, inr,
}
use genji.Prelude.Results.{Result, ok, err, ◌>>=◌}
use genji.Document.{bool}
use genji.Document.Floats.{Floats}
use genji.Environment.{Environment}
use genji.Expr.{Expr, Eval, EvalError, and_op, eval, eval_and, truth}
use genji.Expr.Logic.{truth_bool, Result-cases}
use genji.Stream.{Stream, pipe, filter, StreamError, of_eval}
use genji.Stream.Iterate.{passes}
use genji.Stream.Trace.{Trace, before, through, kept_if, trace}
use genji.Planner.Rules.{split_and_expr, filters}

-- A test, and where it passes another.
abbrev both :
    Result StreamError (Option Environment)
    → (Environment → Result StreamError (Option Environment))
    → Result StreamError (Option Environment)
both (ok (some y)) g = g y
both (ok none) g = ok none
both (err e) g = err e

-- What one environment adds in front of a trace.
abbrev pub step_of : Result StreamError (Option Environment) → Trace → Trace
step_of (err y) t = ([], some y)
step_of (ok none) t = t
step_of (ok (some new)) t = before new t

pub through_cons :
    (g : Environment → Result StreamError (Option Environment)) (x : Environment)
    (xs : List Environment) (e : Option StreamError)
    → through g (x ∷ xs) e ≡ step_of (g x) (through g xs e)
unfolding through
through_cons g x xs e = by_result (g x)
  where
    by_result :
        (r : Result StreamError (Option Environment))
        → (elim r as (λ x. Trace) [
          | err y ↦ ([], some y)
          | ok none ↦ through g xs e
          | ok (some new) ↦ before new (through g xs e)
        ])
          ≡ step_of r (through g xs e)
    by_result (err y) = refl
    by_result (ok none) = refl
    by_result (ok (some new)) = refl

through-step_of :
    (g : Environment → Result StreamError (Option Environment))
    (r : Result StreamError (Option Environment)) (t : Trace)
    → through g (step_of r t).0 (step_of r t).1 ≡ step_of (both r g) (through g t.0 t.1)
through-step_of g (err y) t = unfold through in refl
through-step_of g (ok none) t = refl
through-step_of g (ok (some new)) t = through_cons g new t.0 t.1

-- Two tests, one behind the other.
through-through :
    (f g h : Environment → Result StreamError (Option Environment))
    → ((x : Environment) → h x ≡ both (f x) g)
    → (xs : List Environment) (e : Option StreamError)
    → through g (through f xs e).0 (through f xs e).1 ≡ through h xs e
through-through f g h p [] e = unfold through in refl
through-through f g h p (x ∷ xs) e =
    ap (λ (t : Trace). through g t.0 t.1) (through_cons f x xs e)
    ∙ through-step_of g (f x) (through f xs e)
    ∙ ap (step_of (both (f x) g)) (through-through f g h p xs e)
    ∙ ap (λ r. step_of r (through h xs e)) (sym (p x))
    ∙ sym (through_cons h x xs e)

-- The truth of an AND.
truth_of : Eval → Result EvalError Bool
truth_of r = do v ← r; truth v

and_truths :
    (ra rb : Eval)
    → truth_of (eval_and ra rb) ≡ (do s ← truth_of ra; if s then truth_of rb else ok false)
unfolding truth_of eval_and
and_truths (err e) rb = refl
and_truths (ok a) rb = by_truth (truth a)
  where
    second :
        (rb : Eval) → (do r ← (do b ← rb; t ← truth b; ok (bool t)); truth r) ≡ (do v ← rb; truth v)
    second (err e) = refl
    second (ok b) = elim (Result-cases (truth b)) [
      | inl (e, h) ↦ rw h refl
      | inr (t, h) ↦ rw h (truth_bool t)
    ]

    by_truth :
        (r : Result EvalError Bool)
        → (do
          v ← (do s ← r; if s then (do b ← rb; t ← truth b; ok (bool t)) else ok (bool false))
          truth v)
          ≡ (do s ← r; if s then (do v ← rb; truth v) else ok false)
    by_truth (err e) = refl
    by_truth (ok true) = second rb
    by_truth (ok false) = truth_bool false

module _ (fl : Floats) where
  passes_lem :
      (e : Expr Environment) (x : Environment) → passes fl e x ≡ of_eval (truth_of (eval fl x e))
  unfolding passes truth_of
  passes_lem e x = by_result (eval fl x e)
    where
      by_result : (r : Eval) → (do v ← of_eval r; of_eval (truth v)) ≡ of_eval (do v ← r; truth v)
      by_result (ok v) = refl
      by_result (err e) = refl

  passes-and :
      (a b : Expr Environment) (x : Environment)
      → passes fl (and_op a b) x
        ≡ of_eval (do s ← truth_of (eval fl x a); if s then truth_of (eval fl x b) else ok false)
  unfolding eval
  passes-and a b x = passes_lem (and_op a b) x ∙ ap of_eval (and_truths (eval fl x a) (eval fl x b))

  -- A filter by an AND is a filter by its operands, one after the other.
  kept_if-and :
      (a b : Expr Environment) (x : Environment)
      → kept_if x (passes fl (and_op a b) x)
        ≡ both (kept_if x (passes fl a x)) (λ y. kept_if y (passes fl b y))
  kept_if-and a b x =
      ap (kept_if x) (passes-and a b x)
      ∙ by_truth (truth_of (eval fl x a))
      ∙ ap (λ r. both (kept_if x r) (λ y. kept_if y (passes fl b y))) (sym (passes_lem a x))
    where
      by_truth :
          (r : Result EvalError Bool)
          → kept_if x (of_eval (do s ← r; if s then truth_of (eval fl x b) else ok false))
            ≡ both (kept_if x (of_eval r)) (λ y. kept_if y (passes fl b y))
      by_truth (err e) = refl
      by_truth (ok true) = ap (kept_if x) (sym (passes_lem b x))
      by_truth (ok false) = refl

  two_filters :
      (st : Stream) (a b : Expr Environment) (env : Environment)
      → trace fl (pipe (pipe st (filter a)) (filter b)) env
        ≡ trace fl (pipe st (filter (and_op a b))) env
  unfolding trace
  two_filters st a b env =
      through-through _ _ _ (kept_if-and a b) (trace fl st env).0 (trace fl st env).1

  pub filters-append :
      (st : Stream) (es fs : List (Expr Environment))
      → filters st (es ++ fs) ≡ filters (filters st es) fs
  unfolding filters
  filters-append st [] fs = refl
  filters-append st (e ∷ es) fs = filters-append (pipe st (filter e)) es fs

  pub same_below :
      (st st' : Stream) (e : Expr Environment) (env : Environment)
      → trace fl st env ≡ trace fl st' env
      → trace fl (pipe st (filter e)) env ≡ trace fl (pipe st' (filter e)) env
  unfolding trace
  same_below st st' e env h = ap (λ (t : Trace). through (λ x. kept_if x (passes fl e x)) t.0 t.1) h

  pub filters-split :
      (e : Expr Environment) (st : Stream) (env : Environment)
      → trace fl (filters st (split_and_expr e)) env ≡ trace fl (pipe st (filter e)) env
  unfolding split_and_expr
  filters-split (and_op a b) st env =
      ap (λ s. trace fl s env) (filters-append st (split_and_expr a) (split_and_expr b))
      ∙ filters-split b (filters st (split_and_expr a)) env
      ∙ same_below (filters st (split_and_expr a)) (pipe st (filter a)) b env
          (filters-split a st env)
      ∙ two_filters st a b env
  filters-split _ st env = unfold filters in refl
