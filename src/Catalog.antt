-- ===== src/Catalog.antt =====
-- internal/catalog/cache.go: the names of tables, indexes and sequences, and the hooks that take a change
-- back when the transaction is rolled back (internal/database/transaction.go). A map of Go is a function;
-- the lists of its keys are not modelled. A relation is what the interface Relation offers. Its name does
-- not change while it is in the cache.
pub mod Names
pub mod Unused
pub mod Rollback
mod Samples
use genji.Prelude.{
  ℕ, zero, suc, Bool, true, false, not, Option, none, some, List, [], ◌∷◌, ◌++◌, Bytes, bytes_eq,
  if◌then◌else◌,
}
use genji.Prelude.Results.{Result, ok, err, or_error, check, ◌>>=◌}

pub data RelationType : Type 0 where
  table_type index_type sequence_type : RelationType

-- Name, Type and GenerateBaseName; a relation without a name has an empty one.
pub record Relation : Type 0 where
  pub name : Bytes
  pub type : RelationType
  pub base_name : Bytes

abbrev pub Names : Type 0
Names = Bytes → Option Relation

pub record CatalogCache : Type 0 where
  pub tables : Names
  pub indexes : Names
  pub sequences : Names

pub data CatalogError : Type 0 where
  already_exists not_found out_of_fuel : CatalogError

-- The functions that Add, Replace and Delete append to OnRollbackHooks.
pub data Hook : Type 0 where
  delete_name : RelationType → Bytes → Hook
  set_name : RelationType → Bytes → Relation → Hook

-- The cache and OnRollbackHooks of the transaction.
pub record CatalogState : Type 0 where
  pub cache : CatalogCache
  pub hooks : List Hook

unfoldable pub has : Option Relation → Bool
has none = false
has (some r) = true

unfoldable pub object_exists : CatalogCache → Bytes → Bool
unfolding has
object_exists c n =
    if has (c.tables n) then true else if has (c.sequences n) then true else has (c.indexes n)

-- getMapByType
unfoldable pub map_by_type : RelationType → CatalogCache → Names
map_by_type table_type c = c.tables
map_by_type index_type c = c.indexes
map_by_type sequence_type c = c.sequences

-- `m[name] = o` and `delete(m, name)` in the map of a type.
abbrev pub update : Names → Bytes → Option Relation → Names
update m n o k = if bytes_eq n k then o else m k

unfoldable pub with_name : RelationType → Bytes → Option Relation → CatalogCache → CatalogCache
with_name table_type n o c = record c { tables = update c.tables n o }
with_name index_type n o c = record c { indexes = update c.indexes n o }
with_name sequence_type n o c = record c { sequences = update c.sequences n o }

unfoldable pub is_unnamed : Bytes → Bool
is_unnamed [] = true
is_unnamed (b ∷ n) = false

-- What Add does with the name that it has found.
unfoldable pub insert_name : Bytes → Relation → CatalogState → CatalogState
unfolding with_name
insert_name n r st = record {
  cache = with_name r.type n (some (record r { name = n })) st.cache;
  hooks = st.hooks ++ delete_name r.type n ∷ [];
}

-- Sprintf("%s%d") is the parameter `numbered`.
module _ (numbered : Bytes → ℕ → Bytes) where
  -- The loop of generateUnusedName.
  unfoldable pub unused_from : CatalogCache → Bytes → ℕ → ℕ → Bytes → Option Bytes
  unfolding object_exists
  unused_from c base i zero name = none
  unused_from c base i (suc fuel) name =
      let rest = unused_from c base (suc i) fuel (numbered base (suc i)) in
      if not (object_exists c name) then some name else rest

  unfoldable pub generate_unused_name : CatalogCache → ℕ → Bytes → Option Bytes
  unfolding unused_from
  generate_unused_name c fuel base = unused_from c base 0 fuel base

  -- Add
  unfoldable pub add : ℕ → Relation → CatalogState → Result CatalogError CatalogState
  unfolding insert_name generate_unused_name is_unnamed object_exists
  add fuel r st =
      if not (is_unnamed r.name)
      then check (not (object_exists st.cache r.name)) already_exists (ok (insert_name r.name r st))
      else (do
        n ← or_error out_of_fuel (generate_unused_name st.cache fuel r.base_name)
        ok (insert_name n r st))

-- Replace
unfoldable pub replace : Relation → CatalogState → Result CatalogError CatalogState
unfolding with_name map_by_type
replace r st = do
  old ← or_error not_found (map_by_type r.type st.cache r.name)
  ok (record {
    cache = with_name r.type r.name (some r) st.cache;
    hooks = st.hooks ++ set_name r.type r.name old ∷ [];
  })

-- Delete
unfoldable pub delete : RelationType → Bytes → CatalogState → Result CatalogError CatalogState
unfolding with_name map_by_type
delete tp n st = do
  old ← or_error not_found (map_by_type tp st.cache n)
  ok (record { cache = with_name tp n none st.cache; hooks = st.hooks ++ set_name tp n old ∷ [] })

unfoldable pub run_hook : Hook → CatalogCache → CatalogCache
unfolding with_name
run_hook (delete_name tp n) c = with_name tp n none c
run_hook (set_name tp n r) c = with_name tp n (some r) c

-- The loop of Transaction.Rollback over the hooks, from the last to the first.
unfoldable pub run_hooks : List Hook → CatalogCache → CatalogCache
unfolding run_hook
run_hooks [] c = c
run_hooks (h ∷ hs) c = run_hook h (run_hooks hs c)

-- What the cache is after the hooks of Rollback, which run where the engine has rolled back.
unfoldable pub rollback : CatalogState → CatalogCache
unfolding run_hooks
rollback st = run_hooks st.hooks st.cache
