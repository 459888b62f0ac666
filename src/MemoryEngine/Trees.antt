-- ===== src/MemoryEngine/Trees.antt =====
-- github.com/google/btree as far as the memory engine uses it: a tree of item pointers ordered by
-- the keys of the items, which never change. The laws are what its documentation promises of Get,
-- ReplaceOrInsert and Delete.
use genji.Prelude.{ℕ, ◌≡◌, refl, Option, none, some, Bytes, bytes_eq, if◌then◌else◌}

pub record BTree : Type 1 where
  pub Tree : Type 0
  pub new : Tree
  pub get_item : Tree → Bytes → Option ℕ
  pub insert_item : Tree → Bytes → ℕ → Tree
  pub delete_item : Tree → Bytes → Tree
  pub get-new : (k : Bytes) → get_item new k ≡ none
  pub get-insert :
      (t : Tree) (k j : Bytes) (i : ℕ)
      → get_item (insert_item t k i) j ≡ (if bytes_eq k j then some i else get_item t j)
  pub get-delete :
      (t : Tree) (k j : Bytes)
      → get_item (delete_item t k) j ≡ (if bytes_eq k j then none else get_item t j)

-- A tree as the function from its keys: the laws can be met.
abbrev pub function_tree : BTree
function_tree = record {
  Tree = Bytes → Option ℕ;
  new = λ k. none;
  get_item = λ t k. t k;
  insert_item = λ t k i j. if bytes_eq k j then some i else t j;
  delete_item = λ t k j. if bytes_eq k j then none else t j;
  get-new = λ k. refl;
  get-insert = λ t k j i. refl;
  get-delete = λ t k j. refl;
}
