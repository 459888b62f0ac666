-- ===== src/Document/Buffer/Lookup.antt =====
-- What the look-ups see after a change of a buffer, in the form of one equation for each change.
use genji.Prelude.{ℕ, zero, suc, Option, none, some, Bytes, arith}
use genji.Prelude.{
  ◌≡◌, refl, bytes_eq_self, bytes_eq, bytes_eq_iff, if◌then◌else◌, ◌==◌, Bool-cases, Option-cases,
  inl, inr,
}
use genji.Document.{Value, Items, nil, cons, Fields, end, field}
use genji.Document.Buffer.{add, get_by_field, replace, set_field_value, get_by_index, replace_at}

-- The first of two results.
abbrev pub or_else {ℓ} : {A : Type ℓ} → Option A → Option A → Option A
or_else none d = d
or_else (some a) d = some a

pub or_else-none {ℓ} : {A : Type ℓ} (o : Option A) → or_else o none ≡ o
or_else-none none = refl
or_else-none (some a) = refl

pub get_by_field-add :
    (fs : Fields) (f g : Bytes) (v : Value)
    → get_by_field (add fs f v) g
      ≡ or_else (get_by_field fs g) (if bytes_eq f g then some v else none)
unfolding get_by_field add
get_by_field-add end f g v = refl
get_by_field-add (field h w rest) f g v = ground (arith, get_by_field-add rest f g v)

pub get_by_field-replace :
    (fs : Fields) (f g : Bytes) (v old : Value)
    → get_by_field fs f ≡ some old
    → (fs' : Fields) × (replace fs f v ≡ some fs')
      × (get_by_field fs' g ≡ (if bytes_eq f g then some v else get_by_field fs g))
unfolding get_by_field replace
get_by_field-replace end f g v old e = cc
get_by_field-replace (field h w rest) f g v old e = elim (Bool-cases (bytes_eq h f)) [
  | inl same ↦ (
    field h v rest,
    rw same refl,
    ground (arith, bytes_eq_iff h f, bytes_eq_iff h g, bytes_eq_iff f g),
  )
  | inr other ↦
      let (rest', r, l) = get_by_field-replace rest f g v old (rw other at e) in
      (
        field h w rest',
        rw (other, r) refl,
        ground (arith, bytes_eq_iff h f, bytes_eq_iff h g, bytes_eq_iff f g),
      )
]

-- After a field is set, it has the value, and every other field is as before.
pub get_by_field-set_field_value :
    (fs : Fields) (f g : Bytes) (v : Value)
    → get_by_field (set_field_value fs f v) g ≡ (if bytes_eq f g then some v else get_by_field fs g)
unfolding set_field_value
get_by_field-set_field_value fs f g v = elim (Option-cases (get_by_field fs f)) [
  | inl e ↦ ground (arith, e, get_by_field-add fs f g v, bytes_eq_iff f g)
  | inr (old, e) ↦ let (fs', r, l) = get_by_field-replace fs f g v old e in ground (arith, e, r, l)
]

-- Two changes of one buffer.
pub get_by_index-replace_at :
    (vs : Items) (i j : ℕ) (v old : Value)
    → get_by_index vs i ≡ some old
    → (vs' : Items) × (replace_at vs i v ≡ some vs')
      × (get_by_index vs' j ≡ (if i == j then some v else get_by_index vs j))
unfolding get_by_index replace_at
get_by_index-replace_at nil i j v old e = cc
get_by_index-replace_at (cons w vs) zero zero v old e = (cons v vs, refl, refl)
get_by_index-replace_at (cons w vs) zero (suc j) v old e = (cons v vs, refl, ground arith)
get_by_index-replace_at (cons w vs) (suc i) zero v old e =
    let (vs', r, l) = get_by_index-replace_at vs i i v old e in
    (cons w vs', rw r refl, ground arith)
get_by_index-replace_at (cons w vs) (suc i) (suc j) v old e =
    let (vs', r, l) = get_by_index-replace_at vs i j v old e in
    (cons w vs', rw r refl, ground arith)

pub get_by_field-set_self :
    (fs : Fields) (f : Bytes) (v : Value) → get_by_field (set_field_value fs f v) f ≡ some v
get_by_field-set_self fs f v = rw (get_by_field-set_field_value, bytes_eq_self) refl

pub get_by_index-replace_self :
    (vs : Items) (i : ℕ) (v old : Value)
    → get_by_index vs i ≡ some old
    → (vs' : Items) × (replace_at vs i v ≡ some vs') × (get_by_index vs' i ≡ some v)
get_by_index-replace_self vs i v old e =
    let (vs', r, l) = get_by_index-replace_at vs i i v old e in (vs', r, ground (arith, l))
