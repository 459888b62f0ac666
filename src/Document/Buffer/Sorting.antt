-- ===== src/Document/Buffer/Sorting.antt =====
-- The sorted list of the field names.
use genji.Prelude.{Ordering, some, List, [], ◌∷◌, ◌++◌, Bytes, arith}
use genji.Prelude.{
  ◌≡◌, ◌≢◌, refl, ap, ◌∙◌, flip, bytes_eq, bytes_eq_self, compare_bytes, compare_bytes-flip, All,
  All-map, Bool-cases, inl, inr,
}
use genji.Document.{Value, Fields, end, field}
use genji.Document.Buffer.{
  get_by_field, add, field_names, fields, sort_strings, insert_string, place,
}
use mathlib.Core.List.{Perm}
use mathlib.Core.List.Perm

-- No name sorts before the one in front of it.
abbrev pub Ascends : List Bytes → Type 0
Ascends [] = Unit
Ascends (f ∷ []) = Unit
Ascends (f ∷ g ∷ fs) = (compare_bytes f g ≢ Ordering.gt) × Ascends (g ∷ fs)

place-Perm :
    (o : Ordering) (f g : Bytes) (gs rest : List Bytes)
    → Perm rest (f ∷ gs)
    → Perm (place o f g gs rest) (f ∷ g ∷ gs)
unfolding place
place-Perm Ordering.gt f g gs rest h = Perm.trans (Perm.cons g h) (Perm.swap f g gs)
place-Perm Ordering.eq f g gs rest h = Perm.refl _
place-Perm Ordering.lt f g gs rest h = Perm.refl _

insert_string-Perm : (f : Bytes) (gs : List Bytes) → Perm (insert_string f gs) (f ∷ gs)
unfolding insert_string
insert_string-Perm f [] = Perm.refl _
insert_string-Perm f (g ∷ gs) = place-Perm (compare_bytes f g) f g gs _ (insert_string-Perm f gs)

sort_strings-Perm : (fs : List Bytes) → Perm (sort_strings fs) fs
unfolding sort_strings
sort_strings-Perm [] = Perm.refl _
sort_strings-Perm (f ∷ fs) =
    Perm.trans (insert_string-Perm f (sort_strings fs)) (Perm.cons f (sort_strings-Perm fs))

flip-ne-gt : (o : Ordering) → o ≡ Ordering.gt → flip o ≢ Ordering.gt
flip-ne-gt o h = ground arith

insert_string-Ascends : (f : Bytes) (gs : List Bytes) → Ascends gs → Ascends (insert_string f gs)
unfolding insert_string place
insert_string-Ascends f [] h = tt
insert_string-Ascends f (g ∷ []) h = ground (arith, compare_bytes-flip f g)
insert_string-Ascends f (g ∷ k ∷ gs) h =
    ground (arith, compare_bytes-flip f g, insert_string-Ascends f (k ∷ gs))

sort_strings-Ascends : (fs : List Bytes) → Ascends (sort_strings fs)
unfolding sort_strings
sort_strings-Ascends [] = tt
sort_strings-Ascends (f ∷ fs) = insert_string-Ascends f (sort_strings fs) (sort_strings-Ascends fs)

-- `Fields` returns the names at the root, each as often as it occurs, in ascending order.
pub fields_sorted : (fs : Fields) → Perm (fields fs) (field_names fs) × Ascends (fields fs)
unfolding fields
fields_sorted fs = (sort_strings-Perm (field_names fs), sort_strings-Ascends (field_names fs))

module _ {ℓ} (P : Bytes → Type ℓ) where
  insert_string-All : (f : Bytes) (gs : List Bytes) → P f → All P gs → All P (insert_string f gs)
  unfolding insert_string
  insert_string-All f [] p h = (p, h)
  insert_string-All f (g ∷ gs) p (q, h) = placed (compare_bytes f g) (insert_string-All f gs p h)
    where
      placed :
          (o : Ordering) → All P (insert_string f gs) → All P (place o f g gs (insert_string f gs))
      placed Ordering.gt k = unfold place in (q, k)
      placed Ordering.eq k = unfold place in (p, (q, h))
      placed Ordering.lt k = unfold place in (p, (q, h))

  sort_strings-All : (fs : List Bytes) → All P fs → All P (sort_strings fs)
  unfolding sort_strings
  sort_strings-All [] h = h
  sort_strings-All (f ∷ fs) (p, h) = insert_string-All f (sort_strings fs) p (sort_strings-All fs h)

-- A name that no other one sorts behind stays last.
insert_string_last :
    (f : Bytes) (gs : List Bytes) (k : Bytes)
    → compare_bytes f k ≡ Ordering.lt
    → insert_string f (gs ++ k ∷ []) ≡ insert_string f gs ++ k ∷ []
unfolding insert_string place
insert_string_last f [] k h = rw h
insert_string_last f (g ∷ gs) k h = rw (insert_string_last f gs k h) (placed (compare_bytes f g))
  where
    placed :
        (o : Ordering)
        → place o f g (gs ++ k ∷ []) (insert_string f gs ++ k ∷ [])
          ≡ place o f g gs (insert_string f gs) ++ k ∷ []
    placed Ordering.gt = refl
    placed Ordering.eq = refl
    placed Ordering.lt = refl

sort_strings_last :
    (fs : List Bytes) (k : Bytes)
    → All (λ f. compare_bytes f k ≡ Ordering.lt) fs
    → sort_strings (fs ++ k ∷ []) ≡ sort_strings fs ++ k ∷ []
unfolding sort_strings
sort_strings_last [] k h = unfold insert_string in refl
sort_strings_last (f ∷ fs) k (p, h) =
    ap (insert_string f) (sort_strings_last fs k h) ∙ insert_string_last f (sort_strings fs) k p

field_names-add :
    (fs : Fields) (k : Bytes) (v : Value) → field_names (add fs k v) ≡ field_names fs ++ k ∷ []
unfolding field_names add
field_names-add end k v = refl
field_names-add (field f w rest) k v = ap (◌∷◌ f) (field_names-add rest k v)

-- A field is added behind all others: its name comes last.
pub fields-add_last :
    (fs : Fields) (k : Bytes) (v : Value)
    → All (λ f. compare_bytes f k ≡ Ordering.lt) (field_names fs)
    → fields (add fs k v) ≡ fields fs ++ k ∷ []
unfolding fields
fields-add_last fs k v h = rw field_names-add (sort_strings_last (field_names fs) k h)

-- Every name of a document has a value there.
abbrev pub HasField : Fields → Bytes → Type 0
HasField fs f = (v : Value) × (get_by_field fs f ≡ some v)

field_names-HasField-later :
    (g : Bytes) (v : Value) (rest : Fields) (f : Bytes)
    → HasField rest f
    → HasField (field g v rest) f
unfolding get_by_field
field_names-HasField-later g v rest f (w, h) = elim (Bool-cases (bytes_eq g f)) [
  | inl e ↦ (v, rw e)
  | inr e ↦ (w, rw e h)
]

field_names-HasField : (fs : Fields) → All (HasField fs) (field_names fs)
unfolding field_names get_by_field
field_names-HasField end = tt
field_names-HasField (field g v rest) = (
  (v, rw (bytes_eq_self g)),
  All-map (field_names rest) (λ f. field_names-HasField-later g v rest f)
      (field_names-HasField rest),
)

pub fields-HasField : (fs : Fields) → All (HasField fs) (fields fs)
unfolding fields
fields-HasField fs = sort_strings-All (HasField fs) (field_names fs) (field_names-HasField fs)

place-ne-nil : (o : Ordering) (f g : Bytes) (gs rest : List Bytes) → place o f g gs rest ≢ []
unfolding place
place-ne-nil o f g gs rest h = ground arith

insert_string-ne-nil : (f : Bytes) (gs : List Bytes) → insert_string f gs ≢ []
unfolding insert_string
insert_string-ne-nil f [] h = cc
insert_string-ne-nil f (g ∷ gs) h = place-ne-nil (compare_bytes f g) f g gs _ h

pub fields-ne-nil : (f : Bytes) (v : Value) (rest : Fields) → fields (field f v rest) ≢ []
unfolding fields
fields-ne-nil f v rest = insert_string-ne-nil f _
