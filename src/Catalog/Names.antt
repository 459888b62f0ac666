-- ===== src/Catalog/Names.antt =====
-- The names in the cache of internal/catalog/cache.go.
use genji.Prelude.{
  ℕ, ◌≡◌, refl, sym, ap, subst, ◌∙◌, ◌⊎◌, inl, inr, Option, none, some, Bytes, bytes_eq,
  bytes_eq→eq, Bool-cases, then_of, else_of,
}
use genji.Prelude.Results.{ok-injective, bind-ok, or_error-ok, or_error}
use genji.Catalog.{
  RelationType, table_type, index_type, sequence_type, Relation, Names, CatalogCache, CatalogState,
  not_found, map_by_type, update, with_name, insert_name, replace, delete,
}
use genji.Catalog.Rollback.{
  Changes, no_change, added, replaced, deleted, add-WasAdded, map_by_type-none,
}

-- Each relation stands under its name in the map of its type, and a name is in one map only.
pub record IsNamed (c : CatalogCache) : Type 0 where
  pub named :
      (tp : RelationType) (n : Bytes) (r : Relation)
      → map_by_type tp c n ≡ some r
      → (r.name ≡ n) × (r.type ≡ tp)
  pub unique :
      (tp tp' : RelationType) (n : Bytes) (r r' : Relation)
      → map_by_type tp c n ≡ some r
      → map_by_type tp' c n ≡ some r'
      → tp ≡ tp'

-- An entry of a map that was written to: the one that was written, or one from before.
Written :
    RelationType → RelationType → Bytes → Bytes → Option Relation → CatalogCache → Relation → Type 0
Written tp tp' n k o c r = ((tp ≡ tp') × ((n ≡ k) × (o ≡ some r))) ⊎ (map_by_type tp' c k ≡ some r)

update-Written :
    (m : Names) (n k : Bytes) (o : Option Relation) (r : Relation)
    → update m n o k ≡ some r
    → ((n ≡ k) × (o ≡ some r)) ⊎ (m k ≡ some r)
update-Written m n k o r h = elim (Bool-cases (bytes_eq n k)) [
  | inl p ↦ inl (bytes_eq→eq n k p, then_of (bytes_eq n k) _ _ h p)
  | inr p ↦ inr (else_of (bytes_eq n k) _ _ h p)
]

in_map :
    (tp : RelationType) (n k : Bytes) (o : Option Relation) (c : CatalogCache) (r : Relation)
    → (((n ≡ k) × (o ≡ some r)) ⊎ (map_by_type tp c k ≡ some r))
    → Written tp tp n k o c r
unfolding Written
in_map tp n k o c r (inl w) = inl (refl, w)
in_map tp n k o c r (inr h) = inr h

with_name-Written :
    (tp tp' : RelationType) (n k : Bytes) (o : Option Relation) (c : CatalogCache) (r : Relation)
    → map_by_type tp' (with_name tp n o c) k ≡ some r
    → Written tp tp' n k o c r
unfolding with_name map_by_type Written
with_name-Written table_type table_type n k o c r h =
    in_map table_type n k o c r (update-Written c.tables n k o r h)
with_name-Written index_type index_type n k o c r h =
    in_map index_type n k o c r (update-Written c.indexes n k o r h)
with_name-Written sequence_type sequence_type n k o c r h =
    in_map sequence_type n k o c r (update-Written c.sequences n k o r h)
with_name-Written table_type index_type n k o c r h = inr h
with_name-Written table_type sequence_type n k o c r h = inr h
with_name-Written index_type table_type n k o c r h = inr h
with_name-Written index_type sequence_type n k o c r h = inr h
with_name-Written sequence_type table_type n k o c r h = inr h
with_name-Written sequence_type index_type n k o c r h = inr h

-- A relation is put under its name, which no map of another type has.
set-IsNamed :
    (r : Relation) (c : CatalogCache)
    → IsNamed c
    → ((tp : RelationType) (r' : Relation) → map_by_type tp c r.name ≡ some r' → r.type ≡ tp)
    → IsNamed (with_name r.type r.name (some r) c)
unfolding Written
set-IsNamed r c i free = record {
  named = λ tp k s h. elim (with_name-Written r.type tp r.name k (some r) c s h) [
    | inl w ↦
        (let same : r ≡ s = (let z = w.1.1 in cc z) in
          (ap (λ x. x.name) (sym same) ∙ w.1.0, ap (λ x. x.type) (sym same) ∙ w.0))
    | inr g ↦ i.named tp k s g
  ];
  unique = λ tp tp' k s s' h h'. elim (with_name-Written r.type tp r.name k (some r) c s h) [
    | inl w ↦ elim (with_name-Written r.type tp' r.name k (some r) c s' h') [
      | inl w' ↦ sym w.0 ∙ w'.0
      | inr g' ↦ sym w.0 ∙ free tp' s' (ap (map_by_type tp' c) w.1.0 ∙ g')
    ]
    | inr g ↦ elim (with_name-Written r.type tp' r.name k (some r) c s' h') [
      | inl w' ↦ sym (free tp s (ap (map_by_type tp c) w'.1.0 ∙ g)) ∙ w'.0
      | inr g' ↦ i.unique tp tp' k s s' g g'
    ]
  ];
}

unset-IsNamed :
    (tp : RelationType) (n : Bytes) (c : CatalogCache) → IsNamed c → IsNamed (with_name tp n none c)
unfolding Written
unset-IsNamed tp n c i = record {
  named = λ tp' k s h. i.named tp' k s (old tp' k s h);
  unique = λ tp' tp'' k s s' h h'. i.unique tp' tp'' k s s' (old tp' k s h) (old tp'' k s' h');
}
  where
    old :
        (tp' : RelationType) (k : Bytes) (s : Relation)
        → map_by_type tp' (with_name tp n none c) k ≡ some s
        → map_by_type tp' c k ≡ some s
    old tp' k s h = elim (with_name-Written tp tp' n k none c s h) [
      | inl w ↦ (let z = w.1.1 in absurd (cc z))
      | inr g ↦ g
    ]

-- Whatever Add, Replace and Delete a transaction runs with success: where each relation stands under its
-- name in the map of its type and no name is in two maps, this stays so.
pub Changes-IsNamed :
    {numbered : Bytes → ℕ → Bytes} {s t : CatalogState}
    → Changes numbered s t
    → IsNamed s.cache
    → IsNamed t.cache
unfolding insert_name replace delete
Changes-IsNamed no_change i = i
Changes-IsNamed {numbered = numbered} (added {t = t} {u = u} fuel r c h) i =
    let w = add-WasAdded numbered fuel r t u h in
    subst (λ x. IsNamed x.cache) (sym w.inserted)
      (set-IsNamed (record r { name = w.n }) t.cache (Changes-IsNamed c i)
        (λ tp r' g. (let z = sym (map_by_type-none tp t.cache w.n w.unused) ∙ g in absurd (cc z))))
Changes-IsNamed (replaced {t = t} {u = u} r c h) i =
    let q = bind-ok (or_error not_found (map_by_type r.type t.cache r.name)) _ h in
    let j = Changes-IsNamed c i in
    subst (λ x. IsNamed x.cache) (ok-injective q.1.1)
      (set-IsNamed r t.cache j (λ tp r' g.
        j.unique r.type tp r.name q.0 r'
          (or_error-ok not_found (map_by_type r.type t.cache r.name) q.1.0) g))
Changes-IsNamed (deleted {t = t} {u = u} tp n c h) i =
    let q = bind-ok (or_error not_found (map_by_type tp t.cache n)) _ h in
    subst (λ x. IsNamed x.cache) (ok-injective q.1.1)
      (unset-IsNamed tp n t.cache (Changes-IsNamed c i))
