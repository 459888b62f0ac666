-- ===== src/Catalog/Samples.antt =====
-- A cache with the table "t" and a new index.
use genji.Prelude.{
  ℕ, ◌+◌, ◌≡◌, ◌≢◌, refl, sym, ◌∙◌, inl, inr, true, false, none, some, [], ◌∷◌, Bytes, bytes_eq,
  bytes_eq→eq, arith, Bool-cases,
}
use genji.Catalog.{
  RelationType, table_type, index_type, sequence_type, Relation, CatalogState, has, object_exists,
  map_by_type, with_name, is_unnamed, unused_from, generate_unused_name, insert_name, add, rollback,
}
use genji.Catalog.Rollback.{Changes, no_change, added, rollback-Changes}
use genji.Catalog.Names.{IsNamed, Changes-IsNamed}
use genji.Catalog.Unused.{Numbering, In, generate_unused_name-unused}

-- The number behind the name is one byte, above all others.
abbrev mark : Bytes → ℕ → Bytes
mark base i = (i + 1000) ∷ base

longer : (x : ℕ) (base : Bytes) → (x ∷ base) ≢ base
longer x [] h = cc h
longer x (y ∷ base) h = longer y base (let z : y ∷ base ≡ base = cc h in z)

marks : Numbering
marks = record {
  numbered = mark;
  numbered-injective = λ base i j h. (let z : i + 1000 ≡ j + 1000 = cc h in omega (arith, z));
  numbered-base = λ base i h. longer (i + 1000) base h;
}

abbrev table_t : Relation
table_t = record { name = 116 ∷ []; type = table_type; base_name = 116 ∷ [] }

abbrev index_t : Relation
index_t = record { name = []; type = index_type; base_name = 116 ∷ [] }

abbrev empty_state : CatalogState
empty_state = record {
  cache = record { tables = λ n. none; indexes = λ n. none; sequences = λ n. none };
  hooks = [];
}

abbrev with_table : CatalogState
with_table = insert_name (116 ∷ []) table_t empty_state

abbrev with_index : CatalogState
with_index = insert_name (1001 ∷ 116 ∷ []) index_t with_table

steps : Changes mark empty_state with_index
unfolding add is_unnamed object_exists has generate_unused_name unused_from insert_name with_name
    bytes_eq
steps = added 2 index_t (added 2 table_t no_change refl) refl

rollback-Changes_example : rollback with_index ≡ rollback empty_state
rollback-Changes_example = rollback-Changes steps

Changes-IsNamed_example : IsNamed with_index.cache
unfolding map_by_type
Changes-IsNamed_example = Changes-IsNamed steps (record { named = absent; unique = alone })
  where
    nothing : (tp : RelationType) (n : Bytes) → map_by_type tp empty_state.cache n ≡ none
    nothing table_type n = refl
    nothing index_type n = refl
    nothing sequence_type n = refl

    absent :
        (tp : RelationType) (n : Bytes) (r : Relation)
        → map_by_type tp empty_state.cache n ≡ some r
        → (r.name ≡ n) × (r.type ≡ tp)
    absent tp n r h = (let z = sym (nothing tp n) ∙ h in absurd (cc z))

    alone :
        (tp tp' : RelationType) (n : Bytes) (r r' : Relation)
        → map_by_type tp empty_state.cache n ≡ some r
        → map_by_type tp' empty_state.cache n ≡ some r'
        → tp ≡ tp'
    alone tp tp' n r r' h h' = (let z = sym (nothing tp n) ∙ h in absurd (cc z))

only_t : (n : Bytes) → object_exists with_table.cache n ≡ true → In n ((116 ∷ []) ∷ [])
unfolding object_exists has insert_name with_name
only_t n h = elim (Bool-cases (bytes_eq (116 ∷ []) n)) [
  | inl p ↦ inl (sym (bytes_eq→eq (116 ∷ []) n p))
  | inr p ↦
      (let z : object_exists with_table.cache n ≡ false = rw p refl in
        let y = sym z ∙ h in absurd (cc y))
]

generate_unused_name-unused_example :
    (n : Bytes) × ((generate_unused_name marks.numbered with_table.cache 2 (116 ∷ []) ≡ some n)
      × (object_exists with_table.cache n ≡ false))
generate_unused_name-unused_example =
    generate_unused_name-unused marks with_table.cache (116 ∷ []) 2 ((116 ∷ []) ∷ []) (omega arith)
      only_t
