-- ===== src/Stream.antt =====
-- internal/stream: the operators that pass environments on (operator.go, scan.go, project.go,
-- concat.go, stream.go). `iterate` is the method Iterate: it calls the function `f` for each
-- environment, in order, until one call returns an error; the state `S` is what `f` changes. A chain
-- of operators is linked by Prev alone. Reading a table or an index is a function of the environment
-- that the stream is started in.
pub mod Iterate
pub mod Trace
pub mod Limits
pub mod Ranges
mod Samples
use genji.Prelude.{
  ℕ, suc, ◌+◌, Bool, true, false, not, Option, none, some, List, [], ◌∷◌, ◌++◌, Bytes, bytes_eq,
  ltb, leb, ◌==◌, length, if◌then◌else◌,
}
use genji.Prelude.Int.{ℤ, pos, ltb_ℤ}
use genji.Prelude.Results.{Result, ok, err, ◌>>=◌}
use genji.Document.{Value, Fields, Items, null, text, document, end, field}
use genji.Document.Floats.{Floats}
use genji.Document.Buffer.{add, remove_field, get_by_field}
use genji.Expr.{Expr, EvalError, no_truth, eval, truth}
use genji.Document.Cast.{field_not_found}
use genji.Environment.{Environment, Doc, top, inside, buffer, missing_field, get_document, set_var}

pub data StreamError : Type 0 where
  eval_error : EvalError → StreamError
  stream_closed invalid_result missing_document wrong_count : StreamError

-- What a call returns, with the state after it.
abbrev pub Step : Type 0 → Type 0
Step S = Result StreamError (Unit {0}) × S

-- A result of the projection: Wildcard, or a NamedExpr with its name and what its String prints.
pub data Column : Type 0 where
  wildcard : Column
  named : Bytes → Bytes → Expr Environment → Column

-- An empty stream is one without operator; `pipe` puts an operator behind a stream.
mutual
  pub data Operator : Type 0 where
    -- the documents that a scan reads, and the error that ends it
    scan : (Environment → List Doc × Option StreamError) → Operator
    documents : List Doc → Operator
    expressions : List (Expr Environment) → Operator
    map : Expr Environment → Operator
    filter : Expr Environment → Operator
    take : ℤ → Operator
    skip : ℤ → Operator
    -- the expression, and what its String prints
    group_by : Expr Environment → Bytes → Operator
    project : List Column → Operator
    unset : Bytes → Operator
    iter_rename : List Bytes → Operator
    concat : Stream → Stream → Operator

  pub data Stream : Type 0 where
    empty_stream : Stream
    pipe : Stream → Operator → Stream

-- An EvalError of an expression is returned as it is.
abbrev pub of_eval {ℓ} : {A : Type ℓ} → Result EvalError A → Result StreamError A
of_eval (ok a) = ok a
of_eval (err e) = err (eval_error e)

abbrev pub of_failure : Option EvalError → Option StreamError
of_failure none = none
of_failure (some e) = some (eval_error e)

-- The call of `f` that follows a computation.
abbrev pub and_call {ℓ} :
    {A : Type ℓ} {S : Type 0} → Result StreamError A → S → (A → Step S) → Step S
and_call (ok a) s g = g a
and_call (err e) s g = (err e, s)

-- `f` is called for each document in an environment inside `env`; then the scan's own error.
unfoldable pub each_doc :
    {S : Type 0}
    → Environment
    → (Environment → S → Step S)
    → List Doc
    → Option StreamError
    → S
    → Step S
each_doc env f [] none s = (ok tt, s)
each_doc env f [] (some e) s = (err e, s)
each_doc env f (d ∷ ds) e s =
    let r = f (inside (some d) none env) s in
    let rest = each_doc env f ds e r.1 in elim r.0 [ ok u ↦ rest | err x ↦ r ]

-- The document that an expression evaluates to.
unfoldable pub document_of : Value → Result StreamError Doc
document_of (document fs) = ok (buffer fs)
document_of _ = err invalid_result

-- MaskDocument.GetByField
unfoldable pub mask_get : Floats → Environment → List Column → Bytes → Result EvalError Value
mask_get fl env [] f = err missing_field
mask_get fl env (wildcard ∷ cs) f =
    let rest = mask_get fl env cs f in
    elim (get_document env) [
      | none ↦ rest
      | some d ↦ elim (d.get_field f) [
        | ok v ↦ ok v
        | err (no_truth field_not_found) ↦ rest
        | err e ↦ err e
      ]
    ]
mask_get fl env (named n s e ∷ cs) f =
    let rest = mask_get fl env cs f in
    if bytes_eq n f then eval fl env e else if bytes_eq s f then eval fl env e else rest

unfoldable pub append_fields : Fields → Fields × Option EvalError → Fields × Option EvalError
append_fields end r = r
append_fields (field k v fs) r = let s = append_fields fs r in (field k v s.0, s.1)

-- MaskDocument.Iterate: the fields that are passed on before an error. A wildcard without a document
-- ends it.
unfoldable pub mask_fields : Floats → Environment → List Column → Fields × Option EvalError
unfolding append_fields
mask_fields fl env [] = (end, none)
mask_fields fl env (wildcard ∷ cs) =
    let rest = mask_fields fl env cs in
    elim (get_document env) [
      | none ↦ (end, none)
      | some d ↦ elim d.failure [ none ↦ append_fields d.fields rest | some e ↦ (d.fields, some e) ]
    ]
mask_fields fl env (named n s e ∷ cs) =
    let rest = mask_fields fl env cs in
    elim (eval fl env e) [ ok v ↦ (field n v rest.0, rest.1) | err x ↦ (end, some x) ]

unfoldable pub mask : Floats → Environment → List Column → Doc
mask fl env cs = record {
  get_field = mask_get fl env cs;
  fields = (mask_fields fl env cs).0;
  failure = (mask_fields fl env cs).1;
}
