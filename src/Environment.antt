-- ===== src/Environment.antt =====
-- internal/environment: the environment of an evaluation, and expr.Path, which reads it. Parameters,
-- the transaction and the catalog have no part in it. A document is what its interface offers:
-- GetByField, and the fields that Iterate passes on, up to an error.
use genji.Prelude.{Bool, true, false, Option, none, some, [], ◌∷◌, Bytes, if◌then◌else◌}
use genji.Prelude.Results.{Result, ok, err, or_error, ◌>>=◌}
use genji.Document.{Value, Fields, null, end}
use genji.Document.Cast.{field_not_found}
use genji.Document.Buffer.{
  DocumentPath, PathError, get_by_field, get_value_from_value, get_value_from_document,
  set_field_value,
}
use genji.Expr.{Expr, EvalError, no_truth, leaf}

-- document.ErrFieldNotFound
abbrev pub missing_field : EvalError
missing_field = no_truth field_not_found

pub record Doc : Type 0 where
  pub get_field : Bytes → Result EvalError Value
  pub fields : Fields
  pub failure : Option EvalError

-- A FieldBuffer as a document.
abbrev pub buffer : Fields → Doc
buffer fs = record {
  get_field = λ f. or_error missing_field (get_by_field fs f);
  fields = fs;
  failure = none;
}

-- The fields Doc, Vars and Outer.
pub data Environment : Type 0 where
  top : Option Doc → Option Fields → Environment
  inside : Option Doc → Option Fields → Environment → Environment

-- GetDocument
unfoldable pub get_document : Environment → Option Doc
get_document (top d vars) = d
get_document (inside (some d) vars outer) = some d
get_document (inside none vars outer) = get_document outer

-- Environment.Get in the variables of one level.
unfoldable pub get_here : Option Fields → DocumentPath → Option Value
get_here none p = none
get_here (some vars) p = elim (get_value_from_document vars p) [ ok v ↦ some v | err e ↦ none ]

unfoldable pub first_of : Option Value → Option Value → Option Value
first_of none r = r
first_of (some v) r = some v

-- Environment.Get
unfoldable pub get_var : Environment → DocumentPath → Option Value
unfolding get_here first_of
get_var (top d vars) p = get_here vars p
get_var (inside d vars outer) p = first_of (get_here vars p) (get_var outer p)

-- Environment.Set
unfoldable pub set_var : Option Fields → Bytes → Value → Option Fields
set_var none name v = some (set_field_value end name v)
set_var (some vars) name v = some (set_field_value vars name v)

is_empty : Bytes → Bool
is_empty [] = true
is_empty (c ∷ s) = false

-- An error of a path behind its first field.
path_error : Result PathError Value → Result EvalError Value
path_error (ok v) = ok v
path_error (err e) = err missing_field

-- GetValueFromDocument of a document that is not a FieldBuffer.
unfoldable pub value_at : Doc → DocumentPath → Result EvalError Value
unfolding is_empty path_error
value_at d [] = err missing_field
value_at d (p ∷ path) =
    if is_empty p.field_name
    then err missing_field
    else d.get_field p.field_name >>= λ v. path_error (get_value_from_value v path)

-- A field that is not found is null.
unfoldable pub null_if_missing : Result EvalError Value → Result EvalError Value
null_if_missing (ok v) = ok v
null_if_missing (err (no_truth field_not_found)) = ok null
null_if_missing (err e) = err e

unfoldable pub var_or : Option Value → Result EvalError Value → Result EvalError Value
var_or (some v) r = ok v
var_or none r = r

-- Path.Eval
unfoldable pub eval_path : DocumentPath → Environment → Result EvalError Value
unfolding var_or null_if_missing
eval_path [] env = ok null
eval_path (p ∷ path) env = elim (get_document env) [
  | none ↦ err missing_field
  | some d ↦ var_or (get_var env (p ∷ path)) (null_if_missing (value_at d (p ∷ path)))
]

abbrev pub path_expr : DocumentPath → Expr Environment
path_expr p = leaf (eval_path p)
