-- ===== src/Catalog/Rollback.antt =====
-- What the hooks of internal/catalog/cache.go take back.
use mathlib.Core.Path.{fun_ext}
use genji.Prelude.{
  ℕ, zero, suc, ◌≡◌, refl, sym, ap, ◌∙◌, inl, inr, Bool, true, false, not, Option, none, some, List,
  [], ◌∷◌, ◌++◌, Bytes, bytes_eq, bytes_eq→eq, if◌then◌else◌, Bool-cases, then_of, else_of,
}
use genji.Prelude.Results.{ok, ok-injective, bind-ok, check-ok, or_error-ok, or_error}
use genji.Catalog.{
  RelationType, table_type, index_type, sequence_type, Relation, Names, CatalogCache, CatalogState,
  already_exists, not_found, out_of_fuel, Hook, delete_name, set_name, has, object_exists,
  map_by_type, update, with_name, is_unnamed, unused_from, generate_unused_name, insert_name, add,
  replace, delete, run_hook, run_hooks, rollback,
}

not-true : (b : Bool) → not b ≡ true → b ≡ false
not-true true h = absurd (cc h)
not-true false h = refl

has-false : (o : Option Relation) → has o ≡ false → o ≡ none
unfolding has
has-false none h = refl
has-false (some r) h = absurd (cc h)

-- A name that is not taken is in none of the maps.
pub map_by_type-none :
    (tp : RelationType) (c : CatalogCache) (n : Bytes)
    → object_exists c n ≡ false
    → map_by_type tp c n ≡ none
unfolding object_exists map_by_type
map_by_type-none tp c n h = elim tp as (λ k. map_by_type k c n ≡ none) [
  | table_type ↦ has-false (c.tables n) t
  | index_type ↦ has-false (c.indexes n) (absent (has (c.sequences n)) _ s)
  | sequence_type ↦ has-false (c.sequences n) (first (has (c.sequences n)) _ s)
]
  where
    first : (a b : Bool) → (if a then true else b) ≡ false → a ≡ false
    first true b h = h
    first false b h = refl

    absent : (a b : Bool) → (if a then true else b) ≡ false → b ≡ false
    absent true b h = absurd (cc h)
    absent false b h = h

    t : has (c.tables n) ≡ false
    t = first (has (c.tables n)) _ h

    s : (if has (c.sequences n) then true else has (c.indexes n)) ≡ false
    s = absent (has (c.tables n)) _ h

pub unused_from-unused :
    (numbered : Bytes → ℕ → Bytes) (c : CatalogCache) (base : Bytes) (i fuel : ℕ) (name n : Bytes)
    → unused_from numbered c base i fuel name ≡ some n
    → object_exists c n ≡ false
unfolding unused_from
unused_from-unused numbered c base i zero name n h = absurd (cc h)
unused_from-unused numbered c base i (suc fuel) name n h =
    elim (Bool-cases (not (object_exists c name))) [
      | inl p ↦
          (let z = then_of (not (object_exists c name)) _ _ h p in
            let same : name ≡ n = cc z in
            ap (object_exists c) (sym same) ∙ not-true (object_exists c name) p)
      | inr p ↦
          unused_from-unused numbered c base (suc i) fuel (numbered base (suc i)) n
            (else_of (not (object_exists c name)) _ _ h p)
    ]

-- An Add that succeeds has put the relation under a name that was not taken.
pub record WasAdded (r : Relation) (st st' : CatalogState) : Type 0 where
  pub n : Bytes
  pub unused : object_exists st.cache n ≡ false
  pub inserted : st' ≡ insert_name n r st

pub add-WasAdded :
    (numbered : Bytes → ℕ → Bytes) (fuel : ℕ) (r : Relation) (st st' : CatalogState)
    → add numbered fuel r st ≡ ok st'
    → WasAdded r st st'
unfolding add generate_unused_name
add-WasAdded numbered fuel r st st' h = elim (Bool-cases (not (is_unnamed r.name))) [
  | inl p ↦
      (let q =
          check-ok (not (object_exists st.cache r.name)) already_exists _
            (then_of (not (is_unnamed r.name)) _ _ h p) in
        record {
          n = r.name;
          unused = not-true (object_exists st.cache r.name) q.0;
          inserted = sym (ok-injective q.1);
        })
  | inr p ↦
      (let q =
          bind-ok (or_error out_of_fuel (generate_unused_name numbered st.cache fuel r.base_name)) _
            (else_of (not (is_unnamed r.name)) _ _ h p) in
        record {
          n = q.0;
          unused = unused_from-unused numbered st.cache r.base_name 0 fuel r.base_name q.0 (
              or_error-ok out_of_fuel (generate_unused_name numbered st.cache fuel r.base_name)
                q.1.0);
          inserted = sym (ok-injective q.1.1);
        })
]

run_hooks-last :
    (hs : List Hook) (h : Hook) (c : CatalogCache)
    → run_hooks (hs ++ h ∷ []) c ≡ run_hooks hs (run_hook h c)
unfolding run_hooks
run_hooks-last [] h c = refl
run_hooks-last (g ∷ hs) h c = ap (run_hook g) (run_hooks-last hs h c)

update_back :
    (m : Names) (n : Bytes) (x y : Option Relation) → m n ≡ y → update (update m n x) n y ≡ m
update_back m n x y h = fun_ext (λ k. elim (Bool-cases (bytes_eq n k)) [
  | inl p ↦ rw p (sym h ∙ ap m (bytes_eq→eq n k p))
  | inr p ↦ rw p refl
])

with_name_back :
    (tp : RelationType) (n : Bytes) (x y : Option Relation) (c : CatalogCache)
    → map_by_type tp c n ≡ y
    → with_name tp n y (with_name tp n x c) ≡ c
unfolding with_name map_by_type
with_name_back table_type n x y c h =
    ap (λ m. record c { tables = m }) (update_back c.tables n x y h)
with_name_back index_type n x y c h =
    ap (λ m. record c { indexes = m }) (update_back c.indexes n x y h)
with_name_back sequence_type n x y c h =
    ap (λ m. record c { sequences = m }) (update_back c.sequences n x y h)

-- The operations of a transaction on the cache, one after the other.
pub data Changes (numbered : Bytes → ℕ → Bytes) : CatalogState → CatalogState → Type 0 where
  no_change : {st : CatalogState} → Changes numbered st st
  added :
      {s t u : CatalogState} (fuel : ℕ) (r : Relation)
      → Changes numbered s t
      → add numbered fuel r t ≡ ok u
      → Changes numbered s u
  replaced :
      {s t u : CatalogState} (r : Relation)
      → Changes numbered s t
      → replace r t ≡ ok u
      → Changes numbered s u
  deleted :
      {s t u : CatalogState} (tp : RelationType) (n : Bytes)
      → Changes numbered s t
      → delete tp n t ≡ ok u
      → Changes numbered s u

rollback-insert_name :
    (n : Bytes) (r : Relation) (st : CatalogState)
    → object_exists st.cache n ≡ false
    → rollback (insert_name n r st) ≡ rollback st
unfolding rollback insert_name run_hook
rollback-insert_name n r st h =
    run_hooks-last st.hooks (delete_name r.type n) _
    ∙ ap (run_hooks st.hooks)
        (with_name_back r.type n _ none st.cache (map_by_type-none r.type st.cache n h))

rollback-replace :
    (r : Relation) (st st' : CatalogState) → replace r st ≡ ok st' → rollback st' ≡ rollback st
unfolding rollback replace run_hook
rollback-replace r st st' h =
    let q = bind-ok (or_error not_found (map_by_type r.type st.cache r.name)) _ h in
    ap rollback (sym (ok-injective q.1.1))
    ∙ run_hooks-last st.hooks (set_name r.type r.name q.0) _
    ∙ ap (run_hooks st.hooks) (
        with_name_back r.type r.name _ (some q.0) st.cache
          (or_error-ok not_found (map_by_type r.type st.cache r.name) q.1.0))

rollback-delete :
    (tp : RelationType) (n : Bytes) (st st' : CatalogState)
    → delete tp n st ≡ ok st'
    → rollback st' ≡ rollback st
unfolding rollback delete run_hook
rollback-delete tp n st st' h =
    let q = bind-ok (or_error not_found (map_by_type tp st.cache n)) _ h in
    ap rollback (sym (ok-injective q.1.1))
    ∙ run_hooks-last st.hooks (set_name tp n q.0) _
    ∙ ap (run_hooks st.hooks) (
        with_name_back tp n _ (some q.0) st.cache
          (or_error-ok not_found (map_by_type tp st.cache n) q.1.0))

-- Whatever Add, Replace and Delete a transaction runs with success, in whatever order, the hooks of its
-- rollback give the cache that they would have given before.
pub rollback-Changes :
    {numbered : Bytes → ℕ → Bytes} {s t : CatalogState}
    → Changes numbered s t
    → rollback t ≡ rollback s
rollback-Changes no_change = refl
rollback-Changes {numbered = numbered} (added {t = t} {u = u} fuel r c h) =
    let w = add-WasAdded numbered fuel r t u h in
    ap rollback w.inserted ∙ rollback-insert_name w.n r t w.unused ∙ rollback-Changes c
rollback-Changes (replaced {t = t} {u = u} r c h) = rollback-replace r t u h ∙ rollback-Changes c
rollback-Changes (deleted {t = t} {u = u} tp n c h) =
    rollback-delete tp n t u h ∙ rollback-Changes c
