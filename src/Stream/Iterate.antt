-- ===== src/Stream/Iterate.antt =====
-- The methods Iterate of the operators (internal/stream/operator.go, scan.go, project.go, concat.go).
use genji.Prelude.{suc, Bool, true, false, Option, none, some, List, [], ◌∷◌, Bytes, if◌then◌else◌}
use genji.Prelude.Int.{pos, ltb_ℤ}
use genji.Prelude.Results.{Result, ok, err, ◌>>=◌}
use genji.Document.{Fields, text, end, field}
use genji.Document.Floats.{Floats}
use genji.Document.Buffer.{remove_field}
use genji.Document.Cast.{field_not_found}
use genji.Expr.{Expr, EvalError, no_truth, eval, truth}
use genji.Environment.{Environment, Doc, inside, buffer, get_document, set_var}
use genji.Stream.{
  Stream, empty_stream, pipe, scan, documents, expressions, map, filter, take, skip, group_by,
  project, unset, iter_rename, concat, StreamError, eval_error, stream_closed, missing_document,
  wrong_count, Step, of_eval, and_call, each_doc, document_of, mask,
}

-- "_group" and "_group_expr"
abbrev group_key : Bytes
group_key = 95 ∷ 103 ∷ 114 ∷ 111 ∷ 117 ∷ 112 ∷ []

abbrev group_expr_key : Bytes
group_expr_key = 95 ∷ 103 ∷ 114 ∷ 111 ∷ 117 ∷ 112 ∷ 95 ∷ 101 ∷ 120 ∷ 112 ∷ 114 ∷ []

-- The state of an operator's own variable beside the state of `f`.
abbrev pub beside : {A S : Type 0} → A → Step S → Step (A × S)
beside a r = (r.0, (a, r.1))

abbrev pub forget : {A S : Type 0} → Step (A × S) → Step S
forget r = (r.0, r.1.1)

-- The new environment of a document.
abbrev pub with_doc : Environment → Doc → Environment
with_doc out d = inside (some d) none out

unfoldable pub doc_of : Environment → Result StreamError Doc
doc_of env = elim (get_document env) [ none ↦ err missing_document | some d ↦ ok d ]

-- The fields of the incoming document under the new names, one after the other. The error that a
-- wrong number gives counts the fields first, which fails where the document does.
unfoldable pub renamed : List Bytes → Fields → Option EvalError → Result StreamError Fields
renamed [] end none = ok end
renamed (n ∷ ns) end none = err wrong_count
renamed ns end (some e) = err (eval_error e)
renamed [] (field k v fs) none = err wrong_count
renamed [] (field k v fs) (some e) = err (eval_error e)
renamed (n ∷ ns) (field k v fs) e = do gs ← renamed ns fs e; ok (field n v gs)

-- The document without the field: unchanged where it has none.
unfoldable pub without : Bytes → Doc → Fields → Option EvalError → Result StreamError Doc
without f d fs (some e) = err (eval_error e)
without f d fs none = elim (remove_field fs f) [
  | none ↦ err (eval_error (no_truth field_not_found))
  | some gs ↦ ok (buffer gs)
]

unfoldable pub unset_doc : Environment → Bytes → Doc → Result StreamError Environment
unfolding without
unset_doc out f d = elim (d.get_field f) [
  | ok v ↦ do d' ← without f d d.fields d.failure; ok (with_doc out d')
  | err (no_truth field_not_found) ↦ ok out
  | err e ↦ err (eval_error e)
]

-- op.Prev == nil
unfoldable pub no_operator : Stream → Bool
no_operator empty_stream = true
no_operator (pipe prev op) = false

module _ (fl : Floats) where
  -- What an operator that makes one environment of one passes on.
  unfoldable pub mapped : Expr Environment → Environment → Result StreamError Environment
  unfolding document_of
  mapped e out = do v ← of_eval (eval fl out e); d ← document_of v; ok (with_doc out d)

  unfoldable pub grouped : Expr Environment → Bytes → Environment → Result StreamError Environment
  unfolding set_var
  grouped e s out = do
    v ← of_eval (eval fl out e)
    ok (inside none (set_var (set_var none group_key v) group_expr_key (text s)) out)

  unfoldable pub unsetting : Bytes → Environment → Result StreamError Environment
  unfolding doc_of unset_doc
  unsetting f out = do d ← doc_of out; unset_doc out f d

  unfoldable pub renaming : List Bytes → Environment → Result StreamError Environment
  unfolding doc_of renamed
  renaming ns out = do
    d ← doc_of out
    fs ← renamed ns d.fields d.failure
    ok (with_doc out (buffer fs))

  -- The test of a filter.
  unfoldable pub passes : Expr Environment → Environment → Result StreamError Bool
  passes e out = do v ← of_eval (eval fl out e); of_eval (truth v)

  -- ExprsOperator.Iterate
  unfoldable pub each_expr :
      {S : Type 0} → Environment → (Environment → S → Step S) → List (Expr Environment) → S → Step S
  unfolding mapped
  each_expr env f [] s = (ok tt, s)
  each_expr env f (e ∷ es) s =
      let r = and_call (mapped e env) s (λ out. f out s) in
      let rest = each_expr env f es r.1 in elim r.0 [ ok u ↦ rest | err x ↦ r ]

  unfoldable pub iterate :
      {S : Type 0} → Stream → Environment → (Environment → S → Step S) → S → Step S
  unfolding no_operator
  iterate empty_stream env f s = (ok tt, s)
  iterate (pipe prev (scan g)) env f s = each_doc env f (g env).0 (g env).1 s
  iterate (pipe prev (documents ds)) env f s = each_doc env f ds none s
  iterate (pipe prev (expressions es)) env f s = each_expr env f es s
  iterate (pipe prev (map e)) env f s =
      iterate prev env (λ out t. and_call (mapped e out) t (λ new. f new t)) s
  iterate (pipe prev (filter e)) env f s =
      iterate prev env (λ out t. and_call (passes e out) t (λ b. if b then f out t else (ok tt, t)))
        s
  iterate (pipe prev (take n)) env f s = forget (
      iterate prev env
        (λ out t.
          if ltb_ℤ (pos t.0) n then beside (suc t.0) (f out t.1) else (err stream_closed, t))
        (0, s))
  iterate (pipe prev (skip n)) env f s = forget (
      iterate prev env
        (λ out t. if ltb_ℤ (pos t.0) n then (ok tt, (suc t.0, t.1)) else beside t.0 (f out t.1))
        (0, s))
  iterate (pipe prev (group_by e n)) env f s =
      iterate prev env (λ out t. and_call (grouped e n out) t (λ new. f new t)) s
  iterate (pipe prev (project cs)) env f s =
      let over = iterate prev env (λ out t. f (with_doc out (mask fl out cs)) t) s in
      if no_operator prev then f (with_doc env (mask fl env cs)) s else over
  iterate (pipe prev (unset n)) env f s =
      iterate prev env (λ out t. and_call (unsetting n out) t (λ new. f new t)) s
  iterate (pipe prev (iter_rename ns)) env f s =
      iterate prev env (λ out t. and_call (renaming ns out) t (λ new. f new t)) s
  iterate (pipe prev (concat a b)) env f s =
      let r = iterate a env f s in
      let rest = iterate b env f r.1 in elim r.0 [ ok u ↦ rest | err x ↦ r ]
