-- ===== src/Planner/Rules/Keep.antt =====
-- SplitANDConditionRule keeps what a stream passes on, but for a last filter (Planner/Rules).
use genji.Prelude.{
  ◌&&◌, ◌≡◌, refl, sym, ap, ap₂, ◌∙◌, Bool, true, false, none, some, [], ◌∷◌, if◌then◌else◌,
  Bool-cases, inl, inr,
}
use genji.Prelude.Results.{ok}
use genji.Document.Floats.{Floats}
use genji.Environment.{Environment}
use genji.Expr.{Expr, and_op}
use genji.Stream.{
  Stream, empty_stream, pipe, Operator, scan, documents, expressions, map, filter, take, skip,
  group_by, project, unset, iter_rename, concat, mask,
}
use genji.Stream.Iterate.{no_operator, with_doc}
use genji.Stream.Trace.{Trace, through, trace}
use genji.Planner.Rules.{split_and_expr, filters, split_below, split_and_condition}
use genji.Planner.Rules.Split.{filters-split, filters-append}

-- The operators that need none before them.
unfoldable pub is_source : Operator → Bool
is_source (scan g) = true
is_source (documents ds) = true
is_source (expressions es) = true
is_source (project cs) = true
is_source (concat a b) = true
is_source _ = false

-- The operators that pass on what comes from the one before them.
unfoldable pub reads_prev : Operator → Bool
reads_prev (scan g) = false
reads_prev (documents ds) = false
reads_prev (expressions es) = false
reads_prev (concat a b) = false
reads_prev _ = true

-- Does the stream begin with an operator of the first kind, and go on with those of the second?
unfoldable pub started : Stream → Bool
unfolding is_source reads_prev no_operator
started empty_stream = false
started (pipe prev op) =
    let rest = started prev in if no_operator prev then is_source op else reads_prev op && rest

-- The stream without its last operator, if that is a filter by an AND with another one before it.
unfoldable pub surviving : Stream → Stream
unfolding no_operator
surviving (pipe prev (filter (and_op a b))) =
    if no_operator prev then pipe prev (filter (and_op a b)) else prev
surviving st = st

and_right : (a b : Bool) → (a && b) ≡ true → (a ≡ true) × (b ≡ true)
and_right true b h = (refl, h)
and_right false b h = cc

pub started_both :
    (prev : Stream) (op : Operator)
    → no_operator prev ≡ false
    → started (pipe prev op) ≡ true
    → (reads_prev op ≡ true) × (started prev ≡ true)
unfolding started
started_both prev op p h =
    and_right (reads_prev op) (started prev)
      (sym (ap (λ b. if b then is_source op else reads_prev op && started prev) p) ∙ h)

pub started_before :
    (prev : Stream) (op : Operator)
    → no_operator prev ≡ false
    → started (pipe prev op) ≡ true
    → started prev ≡ true
started_before prev op p h = (started_both prev op p h).1

pub empty_of : (st : Stream) → no_operator st ≡ true → st ≡ empty_stream
unfolding no_operator
empty_of empty_stream h = refl
empty_of (pipe prev op) h = cc

-- There is an operator behind the filters.
no_operator-filters :
    (fl : Floats) (e : Expr Environment) (st : Stream)
    → no_operator (filters st (split_and_expr e)) ≡ false
unfolding split_and_expr
no_operator-filters fl (and_op a b) st =
    ap no_operator (filters-append fl st (split_and_expr a) (split_and_expr b))
    ∙ no_operator-filters fl b (filters st (split_and_expr a))
no_operator-filters fl _ st = unfold no_operator filters in refl

pub first_filter :
    (prev : Stream) (e : Expr Environment)
    → no_operator prev ≡ true
    → started (pipe prev (filter e)) ≡ false
unfolding started is_source
first_filter prev e p = rw p refl

module _ (fl : Floats) where
  -- An operator sees no more of the stream before it.
  pub trace_cong :
      (prev prev' : Stream) (op : Operator) (env : Environment)
      → trace fl prev env ≡ trace fl prev' env
      → no_operator prev ≡ no_operator prev'
      → trace fl (pipe prev op) env ≡ trace fl (pipe prev' op) env
  unfolding trace
  trace_cong prev prev' (scan g) env h k = refl
  trace_cong prev prev' (documents ds) env h k = refl
  trace_cong prev prev' (expressions es) env h k = refl
  trace_cong prev prev' (map e) env h k = cc
  trace_cong prev prev' (filter e) env h k = cc
  trace_cong prev prev' (take n) env h k = cc
  trace_cong prev prev' (skip n) env h k = cc
  trace_cong prev prev' (group_by e n) env h k = cc
  trace_cong prev prev' (project cs) env h k =
      ap₂
        (λ (b : Bool) (t : Trace).
          if b
          then (with_doc env (mask fl env cs) ∷ [], none)
          else through (λ x. ok (some (with_doc x (mask fl x cs)))) t.0 t.1)
        k h
  trace_cong prev prev' (unset n) env h k = cc
  trace_cong prev prev' (iter_rename ns) env h k = cc
  trace_cong prev prev' (concat a b) env h k = refl

  -- Both facts about a stream that was split below its last operator.
  abbrev pub Kept : Stream → Stream → Type 0
  Kept st' st =
      ((env : Environment) → trace fl st' env ≡ trace fl st env)
      × (no_operator st' ≡ no_operator st)

  pub piped :
      (prev' prev : Stream) (op : Operator) → Kept prev' prev → Kept (pipe prev' op) (pipe prev op)
  unfolding no_operator
  piped prev' prev op h = (λ env. trace_cong prev' prev op env (h.0 env) h.1, refl)

  -- The stream before an operator, which is either none or begins with a source.
  Kept-before :
      (prev : Stream) (op : Operator)
      → (started prev ≡ true → Kept (split_below prev) prev)
      → started (pipe prev op) ≡ true
      → Kept (split_below prev) prev
  unfolding started
  Kept-before prev op k h = elim (Bool-cases (no_operator prev)) [
    | inl p ↦ rw (empty_of prev p) nothing
    | inr p ↦ k (started_before prev op p h)
  ]
    where
      nothing : Kept (split_below empty_stream) empty_stream
      nothing = unfold split_below in (λ env. refl, refl)

  -- A filter in the middle.
  split_filter :
      (prev : Stream) (a b : Expr Environment)
      → started (pipe prev (filter (and_op a b))) ≡ true
      → Kept
          (if no_operator prev then empty_stream else filters prev (split_and_expr (and_op a b)))
          (pipe prev (filter (and_op a b)))
  unfolding no_operator
  split_filter prev a b h = elim (Bool-cases (no_operator prev)) [
    | inl p ↦ let q : true ≡ false = sym h ∙ first_filter prev (and_op a b) p in cc
    | inr p ↦
        rw p
          (λ env. filters-split fl (and_op a b) prev env, no_operator-filters fl (and_op a b) prev)
  ]

  split_below-Kept : (st : Stream) → started st ≡ true → Kept (split_below st) st
  unfolding split_below
  split_below-Kept empty_stream h = (λ env. refl, refl)
  split_below-Kept (pipe prev (filter (and_op a b))) h = split_filter prev a b h
  split_below-Kept (pipe prev op) h =
      piped _ prev op (Kept-before prev op (split_below-Kept prev) h)

  split_last :
      (prev : Stream) (a b : Expr Environment) (env : Environment)
      → trace fl
          (if no_operator prev then filters empty_stream (split_and_expr (and_op a b)) else prev)
          env
        ≡ trace fl (if no_operator prev then pipe prev (filter (and_op a b)) else prev) env
  split_last prev a b env = elim (Bool-cases (no_operator prev)) [
    | inl p ↦
        rw (empty_of prev p) (unfold no_operator in filters-split fl (and_op a b) empty_stream env)
    | inr p ↦ rw p refl
  ]

  -- The rule that splits filters by AND keeps what a stream that begins with a source passes on,
  -- errors included; but where the last operator is such a filter behind another one, the filter is
  -- lost.
  pub trace-split_and_condition :
      (st : Stream) (env : Environment)
      → started st ≡ true
      → trace fl (split_and_condition st) env ≡ trace fl (surviving st) env
  unfolding split_and_condition surviving
  trace-split_and_condition empty_stream env h = refl
  trace-split_and_condition (pipe prev (filter (and_op a b))) env h = split_last prev a b env
  trace-split_and_condition (pipe prev op) env h =
      (piped _ prev op (Kept-before prev op (split_below-Kept prev) h)).0 env
