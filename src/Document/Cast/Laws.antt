-- ===== src/Document/Cast/Laws.antt =====
-- What the casts of document/cast.go return.
use genji.Prelude.{
  ◌≡◌, ◌↔◌, [], ◌∷◌, ◌⊎◌, inl, inr, refl, sym, ap, ◌∙◌, Bool, true, false, Option, none, some,
  Bytes, if◌then◌else◌, arith,
}
use genji.Prelude.Int.{ℤ}
use genji.Prelude.Results.{ok, err, ok-injective, or_error, ◌>>=◌}
use genji.Document.{
  Value, null, bool, integer, double, text, blob, array, document, nil, cons, end, field, ValueType,
  bool_value, integer_value, double_value, text_value, blob_value, array_value, document_value,
  type_of, type_code, same_type,
}
use genji.Document.Floats.{Floats}
use genji.Document.Cast.{
  Texts, CastError, field_not_found, is_truthy, is_zero_value, no_json, not_parsed, cast_as_bool,
  cast_as_integer, integer_of_text, cast_as_double, cast_as_text, cast_as_blob, cast_as_array,
  cast_as_document, cast_to, cast_as,
}

-- A value that is built from a part of a text.
built :
    {A : Type 0} (t : ValueType) (c : A → Value) (e : CastError) (o : Option A) (w : Value)
    → ((a : A) → type_of (c a) ≡ t)
    → (do a ← or_error e o; ok (c a)) ≡ ok w
    → type_of w ≡ t
built t c e none w h q = cc
built t c e (some a) w h q = ap type_of (sym (ok-injective q)) ∙ h a

same_type-eq : (t u : ValueType) → same_type t u ≡ true → t ≡ u
unfolding same_type type_code
same_type-eq t u h = ground (arith, h)

module _ (fl : Floats) (tx : Texts) where
  bool_lem : (v w : Value) → cast_as_bool fl tx v ≡ ok w → type_of w ≡ bool_value
  unfolding cast_as_bool type_of
  bool_lem (text s) w e = built bool_value bool _ (tx.parse_bool s) w (λ a. refl) e
  bool_lem (bool b) w e = ap type_of (sym (ok-injective e))
  bool_lem (integer i) w e = ap type_of (sym (ok-injective e))
  bool_lem _ w e = cc

  integer_of_text_lem :
      (s : Bytes) (o : Option ℤ) (w : Value)
      → integer_of_text fl tx s o ≡ ok w
      → type_of w ≡ integer_value
  unfolding integer_of_text type_of
  integer_of_text_lem s (some i) w e = ap type_of (sym (ok-injective e))
  integer_of_text_lem s none w e =
      built integer_value (λ f. integer (fl.to_int64 f)) _ (tx.parse_float s) w (λ a. refl) e

  integer_lem : (v w : Value) → cast_as_integer fl tx v ≡ ok w → type_of w ≡ integer_value
  unfolding cast_as_integer type_of
  integer_lem (integer i) w e = ap type_of (sym (ok-injective e))
  integer_lem (bool b) w e = ap type_of (sym (ok-injective e))
  integer_lem (double d) w e = ap type_of (sym (ok-injective e))
  integer_lem (text s) w e = integer_of_text_lem s (tx.parse_int s) w e
  integer_lem _ w e = cc

  double_lem : (v w : Value) → cast_as_double fl tx v ≡ ok w → type_of w ≡ double_value
  unfolding cast_as_double type_of
  double_lem (double d) w e = ap type_of (sym (ok-injective e))
  double_lem (integer i) w e = ap type_of (sym (ok-injective e))
  double_lem (text s) w e = built double_value double _ (tx.parse_float s) w (λ a. refl) e
  double_lem _ w e = cc

  unquoted :
      (o : Option Bytes) (w : Value)
      → (do d ← or_error no_json o; s ← or_error not_parsed (tx.unquote d); ok (text s)) ≡ ok w
      → type_of w ≡ text_value
  unfolding type_of
  unquoted none w e = cc
  unquoted (some d) w e = built text_value text _ (tx.unquote d) w (λ a. refl) e

  text_lem : (v w : Value) → cast_as_text fl tx v ≡ ok w → type_of w ≡ text_value
  unfolding cast_as_text type_of
  text_lem (text s) w e = ap type_of (sym (ok-injective e))
  text_lem (blob b) w e = unquoted (tx.marshal_json (blob b)) w e
  text_lem null w e = built text_value text _ (tx.marshal_json null) w (λ a. refl) e
  text_lem (bool b) w e = built text_value text _ (tx.marshal_json (bool b)) w (λ a. refl) e
  text_lem (integer i) w e = built text_value text _ (tx.marshal_json (integer i)) w (λ a. refl) e
  text_lem (double d) w e = built text_value text _ (tx.marshal_json (double d)) w (λ a. refl) e
  text_lem (array vs) w e = built text_value text _ (tx.marshal_json (array vs)) w (λ a. refl) e
  text_lem (document fs) w e =
      built text_value text _ (tx.marshal_json (document fs)) w (λ a. refl) e

  blob_lem : (v w : Value) → cast_as_blob fl tx v ≡ ok w → type_of w ≡ blob_value
  unfolding cast_as_blob type_of
  blob_lem (blob b) w e = ap type_of (sym (ok-injective e))
  blob_lem (text s) w e = built blob_value blob _ (tx.decode_base64 s) w (λ a. refl) e
  blob_lem _ w e = cc

  array_lem : (v w : Value) → cast_as_array fl tx v ≡ ok w → type_of w ≡ array_value
  unfolding cast_as_array type_of
  array_lem (array vs) w e = ap type_of (sym (ok-injective e))
  array_lem (text s) w e = built array_value array _ (tx.array_of_json s) w (λ a. refl) e
  array_lem _ w e = cc

  document_lem : (v w : Value) → cast_as_document fl tx v ≡ ok w → type_of w ≡ document_value
  unfolding cast_as_document type_of
  document_lem (document fs) w e = ap type_of (sym (ok-injective e))
  document_lem (text s) w e =
      built document_value document _ (tx.document_of_json s) w (λ a. refl) e
  document_lem _ w e = cc

  cast_to-type_of : (t : ValueType) (v w : Value) → cast_to fl tx t v ≡ ok w → type_of w ≡ t
  unfolding cast_to
  cast_to-type_of bool_value v w e = bool_lem v w e
  cast_to-type_of integer_value v w e = integer_lem v w e
  cast_to-type_of double_value v w e = double_lem v w e
  cast_to-type_of blob_value v w e = blob_lem v w e
  cast_to-type_of text_value v w e = text_lem v w e
  cast_to-type_of array_value v w e = array_lem v w e
  cast_to-type_of document_value v w e = document_lem v w e
  cast_to-type_of _ v w e = cc

  chosen :
      (t : ValueType) (v w : Value) (b : Bool)
      → same_type (type_of v) t ≡ b
      → (if b then ok v else cast_to fl tx t v) ≡ ok w
      → type_of w ≡ t
  chosen t v w true h e = ap type_of (sym (ok-injective e)) ∙ same_type-eq _ t h
  chosen t v w false h e = cast_to-type_of t v w e

  -- A cast that succeeds gives a value of the wanted type, whatever parsing and printing do; only
  -- null stays null.
  pub cast_as-type_of :
      (t : ValueType) (v w : Value)
      → cast_as fl tx t v ≡ ok w
      → (type_of w ≡ t) ⊎ ((v ≡ null) × (w ≡ null))
  unfolding cast_as
  cast_as-type_of t null w e = inr (refl, sym (ok-injective e))
  cast_as-type_of t v w e = inl (chosen t v w (same_type (type_of v) t) refl e)

  -- A value that is cast to its own type, null included, stays as it is.
  pub cast_as_self : (v : Value) → cast_as fl tx (type_of v) v ≡ ok v
  unfolding cast_as same_type type_code type_of
  cast_as_self null = refl
  cast_as_self (bool b) = refl
  cast_as_self (integer i) = refl
  cast_as_self (double d) = refl
  cast_as_self (text s) = refl
  cast_as_self (blob s) = refl
  cast_as_self (array vs) = refl
  cast_as_self (document fs) = refl

-- The truth of a value is known, but for an empty array: there IsTruthy returns an error.
pub is_truthy_lem : (v : Value) → (is_truthy v ≡ err field_not_found) ↔ (v ≡ array nil)
unfolding is_truthy is_zero_value
is_truthy_lem null = (λ e. cc, λ e. cc)
is_truthy_lem (bool b) = (λ e. cc, λ e. cc)
is_truthy_lem (integer i) = (λ e. cc, λ e. cc)
is_truthy_lem (double d) = (λ e. cc, λ e. cc)
is_truthy_lem (blob s) = (λ e. cc, λ e. cc)
is_truthy_lem (text []) = (λ e. cc, λ e. cc)
is_truthy_lem (text (c ∷ s)) = (λ e. cc, λ e. cc)
is_truthy_lem (array nil) = (λ e. refl, λ e. refl)
is_truthy_lem (array (cons v vs)) = (λ e. cc, λ e. cc)
is_truthy_lem (document end) = (λ e. cc, λ e. cc)
is_truthy_lem (document (field f v fs)) = (λ e. cc, λ e. cc)
