-- ===== src/Document/Buffer/PathLaws.antt =====
-- Setting and reading the value at a path.
use genji.Prelude.{Bool, true, false, Option, none, some, [], ◌∷◌, Bytes, arith}
use genji.Prelude.{◌≡◌, refl, bytes_eq, if◌then◌else◌, Option-cases, inl, inr}
use genji.Prelude.Results.{Result, ok, err, or_error, ◌>>=◌}
use genji.Document.{Value, null, document, array, Fields}
use genji.Document.Buffer.{
  PathError, field_not_found, PathFragment, DocumentPath, is_empty, get_by_field, set_field_value,
  get_by_index, set_value_at_path, set, get_value_from_value, get_value_from_document,
}
use genji.Document.Buffer.Lookup.{
  get_by_field-set_field_value, get_by_field-set_self, get_by_index-replace_self, get_by_field-add,
  or_else-none,
}

-- A chain that begins with a look-up and succeeds.
or_error-bind :
    {A B : Type 0} (o : Option A) (k : A → Result PathError B) (b : B)
    → (or_error field_not_found o >>= k) ≡ ok b
    → (a : A) × (o ≡ some a) × (k a ≡ ok b)
or_error-bind none k b h = cc
or_error-bind (some a) k b h = (a, refl, h)

-- What `set_value_at_path` answers where the path leads to a value.
abbrev SetsAt : Value → DocumentPath → Value → Type 0
SetsAt w path v =
    (w' : Value) × (set_value_at_path w path v ≡ ok w') × (get_value_from_value w' path ≡ ok v)

if_error {ℓ} :
    {A : Type ℓ} (b : Bool) (x : Result PathError A) (a : A)
    → (if b then err field_not_found else x) ≡ ok a
    → (b ≡ false) × (x ≡ ok a)
if_error true x a h = cc
if_error false x a h = (refl, h)

if_ok {ℓ} :
    {A : Type ℓ} (b : Bool) (x : Result PathError A) (a : A)
    → (if b then x else err field_not_found) ≡ ok a
    → (b ≡ true) × (x ≡ ok a)
if_ok true x a h = (refl, h)
if_ok false x a h = cc

-- Where a path leads to a value, setting it succeeds and the new value is read back.
set_value_at_path-get :
    (path : DocumentPath) (p : PathFragment) (w v old : Value)
    → get_value_from_value w (p ∷ path) ≡ ok old
    → SetsAt w (p ∷ path) v
unfolding set_value_at_path get_value_from_value
set_value_at_path-get [] p (document fs) v old h =
    let (named, h') = if_error (is_empty p.field_name) _ old h in
    (
      document (set_field_value fs p.field_name v),
      refl,
      rw (named, get_by_field-set_self fs p.field_name v) refl,
    )
set_value_at_path-get [] p (array vs) v old h =
    let (indexed, h') = if_ok (is_empty p.field_name) _ old h in
    let (u, found, h'') = or_error-bind (get_by_index vs p.array_index) _ old h' in
    let (vs', r, l) = get_by_index-replace_self vs p.array_index v u found in
    (array vs', rw (found, r) refl, rw (indexed, l) refl)
set_value_at_path-get (q ∷ path) p (document fs) v old h =
    let (named, h') = if_error (is_empty p.field_name) _ old h in
    let (u, found, h'') = or_error-bind (get_by_field fs p.field_name) _ old h' in
    let (new, s, g) = set_value_at_path-get path q u v old h'' in
    (
      document (set_field_value fs p.field_name new),
      rw (found, s) refl,
      rw (named, get_by_field-set_self fs p.field_name new) g,
    )
set_value_at_path-get (q ∷ path) p (array vs) v old h =
    let (indexed, h') = if_ok (is_empty p.field_name) _ old h in
    let (u, found, h'') = or_error-bind (get_by_index vs p.array_index) _ old h' in
    let (new, s, g) = set_value_at_path-get path q u v old h'' in
    let (vs', r, l) = get_by_index-replace_self vs p.array_index new u found in
    (array vs', rw (found, s, r) refl, rw (indexed, l) g)
set_value_at_path-get path p null v old h = cc
set_value_at_path-get path p w v old h = cc

-- Where a path leads to a value in a document, `Set` succeeds and the new value is read back at
-- that path.
pub get_value-set :
    (fs : Fields) (path : DocumentPath) (v old : Value)
    → get_value_from_document fs path ≡ ok old
    → (fs' : Fields) × (set fs path v ≡ ok fs') × (get_value_from_document fs' path ≡ ok v)
unfolding get_value_from_document get_value_from_value set
get_value-set fs [] v old h = cc
get_value-set fs (p ∷ []) v old h =
    let (named, h') = if_error (is_empty p.field_name) _ old h in
    (
      set_field_value fs p.field_name v,
      refl,
      rw (named, get_by_field-set_self fs p.field_name v) refl,
    )
get_value-set fs (p ∷ q ∷ path) v old h =
    let (named, h') = if_error (is_empty p.field_name) _ old h in
    let (u, found, h'') = or_error-bind (get_by_field fs p.field_name) _ old h' in
    let (new, s, g) = set_value_at_path-get path q u v old h'' in
    (
      set_field_value fs p.field_name new,
      ground (arith, found, s),
      rw (named, get_by_field-set_self fs p.field_name new) g,
    )

-- `Set` at a path that begins with one field leaves every other field of the document as it was.
pub get_by_field-set_ne :
    (fs fs' : Fields) (p : PathFragment) (path : DocumentPath) (v : Value) (g : Bytes)
    → set fs (p ∷ path) v ≡ ok fs'
    → bytes_eq p.field_name g ≡ false
    → get_by_field fs' g ≡ get_by_field fs g
unfolding set
get_by_field-set_ne fs fs' p [] v g h ne =
    ground (arith, get_by_field-set_field_value fs p.field_name g v)
get_by_field-set_ne fs fs' p (q ∷ path) v g h ne =
    elim (Option-cases (get_by_field fs p.field_name)) [
      | inl e ↦
          ground (arith, e, get_by_field-add fs p.field_name g v, or_else-none (get_by_field fs g))
      | inr (old, e) ↦ new_root (set_value_at_path old (q ∷ path) v) (rw (e, set) at h)
    ]
  where
    new_root :
        (r : Result PathError Value)
        → (r >>= λ new. ok (set_field_value fs p.field_name new)) ≡ ok fs'
        → get_by_field fs' g ≡ get_by_field fs g
    new_root (ok new) k = ground (arith, get_by_field-set_field_value fs p.field_name g new)
    new_root (err x) k = cc
