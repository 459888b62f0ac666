-- ===== src/MemoryEngine/Samples.antt =====
-- A small engine for the theorems on the memory engine.
use genji.Prelude.{
  ℕ, zero, suc, ◌≡◌, refl, sym, List, ◌++◌, ◌==◌, true, false, Option, none, some, [], ◌∷◌, Bytes,
  bytes_eq, bytes_eq_iff, if◌then◌else◌, arith, All,
}
use genji.Prelude.Results.{ok, err}
use genji.MemoryEngine.Trees.{function_tree}
use genji.MemoryEngine.{State, key_not_found, write_error, put_error, tree_of}
use genji.MemoryEngine.{
  put_item, put, value_of, get, delete_found, delete, truncate, get_store, create_store, drop_store,
}
use genji.MemoryEngine.Transaction.{rollback, commit}
use genji.MemoryEngine.Valid.{IsValid, Reach, Reach-IsValid, here, next, puts, rolls_back}
use genji.MemoryEngine.Reads.{get-put, get-delete}
use genji.MemoryEngine.Ends.{IsFresh, get-rollback-put}
use genji.MemoryEngine.Errors.{IsAtomic, errors_change_nothing}
use genji.MemoryEngine.Iterator.{Walk, seek, visits}
use genji.MemoryEngine.Iterator.Loading.{undeleted}
use genji.MemoryEngine.Iterator.Visits.{visits_lem}
use genji.MemoryEngine.Commits.{HoldsDeleted, IsHeld, get-commit, HoldsDeleted-kept}

-- A writable transaction on an engine with one store [7], which the handle 0 has open and which
-- holds [5] under the key [1].
abbrev two_items : State (Bytes → Option ℕ)
two_items = record {
  items = λ i. record { key = 1 ∷ []; value = 5 ∷ []; deleted = false };
  item_count = 1;
  trees = λ t k. if bytes_eq (1 ∷ []) k then some 0 else none;
  tree_count = 1;
  handles = λ s. 0;
  handle_count = 1;
  stores = λ n. if bytes_eq (7 ∷ []) n then some 0 else none;
  closed = false;
  writable = true;
  on_rollback = [];
  on_commit = [];
  terminated = false;
  cancelled = false;
}

two_items-IsValid : IsValid function_tree two_items
two_items-IsValid = record { keyed = λ t k i e. ground (arith, bytes_eq_iff (1 ∷ []) k) }

two_items-IsFresh : IsFresh function_tree two_items
two_items-IsFresh = record { may_write = refl; running = refl; live = refl; nothing_to_undo = refl }

get_present : get function_tree 0 (1 ∷ []) two_items ≡ ok (5 ∷ [])
unfolding get value_of tree_of bytes_eq
get_present = refl

after_put :
    Reach function_tree two_items
      (rollback function_tree (put function_tree 0 (2 ∷ []) (9 ∷ []) two_items).1).1
after_put = next (next here (puts 0 (2 ∷ []) (9 ∷ []) two_items)) (rolls_back _)

Reach-IsValid_example :
    IsValid function_tree
      (rollback function_tree (put function_tree 0 (2 ∷ []) (9 ∷ []) two_items).1).1
Reach-IsValid_example = Reach-IsValid function_tree two_items-IsValid after_put

get-put_example :
    get function_tree 0 (2 ∷ []) (put function_tree 0 (2 ∷ []) (9 ∷ []) two_items).1 ≡ ok (9 ∷ [])
unfolding put put_item write_error put_error tree_of bytes_eq
get-put_example =
    get-put function_tree 0 (2 ∷ []) (9 ∷ []) (2 ∷ []) two_items two_items-IsValid refl

get-delete_example :
    get function_tree 0 (1 ∷ []) (delete function_tree 0 (1 ∷ []) two_items).1 ≡ err key_not_found
unfolding delete delete_found write_error tree_of bytes_eq
get-delete_example = get-delete function_tree 0 (1 ∷ []) (1 ∷ []) two_items two_items-IsValid refl

get-rollback-put_example :
    get function_tree 0
      (1 ∷ [])
      (rollback function_tree (put function_tree 0 (1 ∷ []) (9 ∷ []) two_items).1).1
    ≡ get function_tree 0 (1 ∷ []) two_items
unfolding put put_item write_error put_error tree_of bytes_eq
get-rollback-put_example =
    get-rollback-put function_tree 0 (1 ∷ []) (9 ∷ []) (1 ∷ []) two_items two_items-IsValid
      two_items-IsFresh refl

-- The transaction after its item was deleted.
deleting-IsHeld :
    All
      (IsHeld function_tree (delete function_tree 0 (1 ∷ []) two_items).1)
      (delete function_tree 0 (1 ∷ []) two_items).1.on_commit
unfolding delete delete_found write_error tree_of bytes_eq
deleting-IsHeld = (refl, tt)

get-commit_example :
    get function_tree 0
      (1 ∷ [])
      (commit function_tree (delete function_tree 0 (1 ∷ []) two_items).1).1
    ≡ get function_tree 0 (1 ∷ []) (delete function_tree 0 (1 ∷ []) two_items).1
unfolding delete delete_found write_error tree_of bytes_eq commit
get-commit_example =
    get-commit function_tree 0 (1 ∷ []) (delete function_tree 0 (1 ∷ []) two_items).1
      deleting-IsHeld refl refl

HoldsDeleted-kept_example :
    HoldsDeleted function_tree (put function_tree 0 (1 ∷ []) (9 ∷ []) two_items).1
    × HoldsDeleted function_tree (delete function_tree 0 (1 ∷ []) two_items).1
HoldsDeleted-kept_example =
    HoldsDeleted-kept function_tree 0 (1 ∷ []) (9 ∷ []) two_items two_items-IsValid tt

-- Every write of the engine is refused for the name [7], the key [] or a tree without the key.
errors_change_nothing_example :
    IsAtomic two_items (put function_tree 0 [] [] two_items)
    × IsAtomic two_items (delete function_tree 0 [] two_items)
    × IsAtomic two_items (truncate function_tree 0 two_items)
    × IsAtomic two_items (get_store function_tree (7 ∷ []) two_items)
    × IsAtomic two_items (create_store function_tree (7 ∷ []) two_items)
    × IsAtomic two_items (drop_store function_tree (7 ∷ []) two_items)
errors_change_nothing_example = errors_change_nothing function_tree two_items 0 (7 ∷ []) [] []

abbrev reader : State (Bytes → Option ℕ)
reader = record two_items { writable = false }

-- Three items, the second of which is deleted.
three_items : Bytes → List ℕ
three_items [] = 0 ∷ 1 ∷ 2 ∷ []
three_items (zero ∷ s) = 0 ∷ 1 ∷ 2 ∷ []
three_items (suc zero ∷ s) = 1 ∷ 2 ∷ []
three_items (suc (suc zero) ∷ s) = 2 ∷ []
three_items (suc (suc (suc c)) ∷ s) = []

three_items-part : (pivot : Bytes) → (pre : List ℕ) × (0 ∷ 1 ∷ 2 ∷ [] ≡ pre ++ three_items pivot)
unfolding three_items
three_items-part [] = ([], refl)
three_items-part (zero ∷ s) = ([], refl)
three_items-part (suc zero ∷ s) = (0 ∷ [], refl)
three_items-part (suc (suc zero) ∷ s) = (0 ∷ 1 ∷ [], refl)
three_items-part (suc (suc (suc c)) ∷ s) = (0 ∷ 1 ∷ 2 ∷ [], refl)

three_items_nil : three_items [] ≡ 0 ∷ 1 ∷ 2 ∷ []
unfolding three_items
three_items_nil = refl

at_key :
    (j i : ℕ) (later post : List ℕ)
    → three_items (j ∷ []) ≡ j ∷ later
    → j ≡ i
    → later ≡ post
    → three_items (i ∷ []) ≡ i ∷ post
at_key j i later post h p q = rw (sym p, sym q) h

three_items-key :
    (pre : List ℕ) (i : ℕ) (post : List ℕ)
    → 0 ∷ 1 ∷ 2 ∷ [] ≡ pre ++ i ∷ post
    → three_items (i ∷ []) ≡ i ∷ post
unfolding three_items
three_items-key [] i post h = at_key 0 i (1 ∷ 2 ∷ []) post refl (cc h) (cc h)
three_items-key (a ∷ []) i post h = at_key 1 i (2 ∷ []) post refl (cc h) (cc h)
three_items-key (a ∷ b ∷ []) i post h = at_key 2 i [] post refl (cc h) (cc h)
three_items-key (a ∷ b ∷ c ∷ []) i post h = absurd (cc h)
three_items-key (a ∷ b ∷ c ∷ d ∷ pre) i post h = absurd (cc h)

abbrev walk : Walk
walk = record {
  all = 0 ∷ 1 ∷ 2 ∷ [];
  from = three_items;
  key = λ i. i ∷ [];
  deleted = λ i. i == 1;
  from-part = three_items-part;
  from-nil = three_items_nil;
  from-key = three_items-key;
}

visits_lem_example :
    visits walk 2 4 4 (seek walk 2 [] (record { buf = []; cursor = 0; failed = false }))
    ≡ 0 ∷ 2 ∷ []
unfolding undeleted three_items
visits_lem_example =
    visits_lem walk 2 4 4 [] (record { buf = []; cursor = 0; failed = false }) (omega arith)
      (omega arith) (omega arith) refl
