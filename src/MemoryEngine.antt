-- ===== src/MemoryEngine.antt =====
-- engine/memoryengine (store.go, engine.go): the in-memory engine. Pointers are numbers: items,
-- trees and store handles (storeTx) live in the tables of `State`, since the closures that a
-- transaction collects for its end change them behind the caller's back. An engine is used by one
-- transaction at a time.
pub mod Trees
pub mod Transaction
pub mod Valid
pub mod Reads
pub mod Ends
pub mod Order
pub mod Stores
pub mod Errors
pub mod Iterator
pub mod Commits
mod Samples
use genji.Prelude.{
  ℕ, suc, Bool, true, false, not, Option, none, some, List, [], ◌∷◌, ◌++◌, Bytes, bytes_eq,
}
use genji.Prelude.{if◌then◌else◌, ◌==◌}
use genji.Prelude.Results.{Result, ok, err}
use genji.MemoryEngine.Trees.{BTree}

pub data EngineError : Type 0 where
  context_done read_only empty_key empty_value key_not_found : EngineError
  store_not_found store_already_exists transaction_discarded engine_closed : EngineError

-- The struct `item`.
pub record Item : Type 0 where
  pub key : Bytes
  pub value : Bytes
  pub deleted : Bool

-- The closures of `onRollback`. A handle's tree is read when the closure runs.
pub data Undo : Type 0 where
  restore_item : ℕ → Bytes → Bool → Undo
  remove_new : ℕ → Bytes → Undo
  undelete : ℕ → Undo
  restore_tree : ℕ → ℕ → Undo
  forget_store : Bytes → Undo
  restore_store : Bytes → ℕ → Undo

-- The closures of `onCommit`: remove the item from the handle's tree if it is still deleted.
pub data Finish : Type 0 where
  remove_deleted : ℕ → ℕ → Finish

-- The engine with its transaction; a tree is a value of the type `T`.
pub record State (T : Type 0) : Type 0 where
  pub items : ℕ → Item
  pub item_count : ℕ
  pub trees : ℕ → T
  pub tree_count : ℕ
  pub handles : ℕ → ℕ
  pub handle_count : ℕ
  pub stores : Bytes → Option ℕ
  pub closed : Bool
  pub writable : Bool
  pub on_rollback : List Undo
  pub on_commit : List Finish
  pub terminated : Bool
  pub cancelled : Bool

abbrev pub update {ℓ} : {A : Type ℓ} → (ℕ → A) → ℕ → A → ℕ → A
update f i a j = if i == j then a else f j

abbrev pub update_key {ℓ} : {A : Type ℓ} → (Bytes → A) → Bytes → A → Bytes → A
update_key f k a j = if bytes_eq k j then a else f j

is_empty : Bytes → Bool
is_empty [] = true
is_empty (c ∷ s) = false

-- No error.
abbrev pub done : Result EngineError (Unit {0})
done = ok tt

module _ {T : Type 0} where
  -- The two tests at the head of every operation that writes.
  unfoldable pub write_error : State T → Option EngineError
  write_error st =
      if st.cancelled then some context_done else if not st.writable then some read_only else none

  -- storeTx.Put has two more.
  unfoldable pub put_error : Bytes → Bytes → State T → Option EngineError
  unfolding write_error is_empty
  put_error k v st = elim (write_error st) [
    | some e ↦ some e
    | none ↦ if is_empty k then some empty_key else if is_empty v then some empty_value else none
  ]

  -- The early return of an error, which leaves the state alone.
  abbrev pub guarded {ℓ} :
      {A : Type ℓ}
      → Option EngineError
      → State T
      → Result EngineError A × State T
      → Result EngineError A × State T
  guarded (some e) st r = (err e, st)
  guarded none st r = r

module _ (bt : BTree) where
  open bt use {Tree, new, get_item, insert_item, delete_item}

  unfoldable pub tree_of : State Tree → ℕ → Tree
  tree_of st s = st.trees (st.handles s)

  -- An existing item is overwritten in place, else a new one enters the tree.
  unfoldable pub put_item : ℕ → Bytes → Bytes → State Tree → Option ℕ → State Tree
  unfolding tree_of
  put_item s k v st (some i) = record st {
    items = update st.items i (record { key = (st.items i).key; value = v; deleted = false });
    on_rollback = st.on_rollback ++ restore_item i (st.items i).value (st.items i).deleted ∷ [];
  }
  put_item s k v st none = record st {
    items = update st.items st.item_count (record { key = k; value = v; deleted = false });
    item_count = suc st.item_count;
    trees = update st.trees (st.handles s) (insert_item (tree_of st s) k st.item_count);
    on_rollback = st.on_rollback ++ remove_new s k ∷ [];
  }

  -- storeTx.Put
  unfoldable pub put : ℕ → Bytes → Bytes → State Tree → Result EngineError (Unit {0}) × State Tree
  put s k v st = guarded (put_error k v st) st (done, put_item s k v st (get_item (tree_of st s) k))

  -- An item that is deleted is not seen.
  unfoldable pub value_of : State Tree → Option ℕ → Result EngineError Bytes
  value_of st none = err key_not_found
  value_of st (some i) = if (st.items i).deleted then err key_not_found else ok (st.items i).value

  -- storeTx.Get
  unfoldable pub get : ℕ → Bytes → State Tree → Result EngineError Bytes
  unfolding value_of tree_of
  get s k st = if st.cancelled then err context_done else value_of st (get_item (tree_of st s) k)

  unfoldable pub delete_found :
      ℕ → State Tree → Option ℕ → Result EngineError (Unit {0}) × State Tree
  delete_found s st none = (err key_not_found, st)
  delete_found s st (some i) = if (st.items i).deleted then (err key_not_found, st) else (
    done,
    record st {
      items =
          update st.items i
            (record { key = (st.items i).key; value = (st.items i).value; deleted = true });
      on_rollback = st.on_rollback ++ undelete i ∷ [];
      on_commit = st.on_commit ++ remove_deleted s i ∷ [];
    },
  )

  -- storeTx.Delete
  unfoldable pub delete : ℕ → Bytes → State Tree → Result EngineError (Unit {0}) × State Tree
  delete s k st = guarded (write_error st) st (delete_found s st (get_item (tree_of st s) k))

  unfoldable pub emptied : ℕ → State Tree → State Tree
  emptied s st = record st {
    trees = update st.trees st.tree_count new;
    tree_count = suc st.tree_count;
    handles = update st.handles s st.tree_count;
    on_rollback = st.on_rollback ++ restore_tree s (st.handles s) ∷ [];
  }

  -- storeTx.Truncate: the handle gets a new tree; the table of the stores is not touched.
  unfoldable pub truncate : ℕ → State Tree → Result EngineError (Unit {0}) × State Tree
  unfolding emptied
  truncate s st = guarded (write_error st) st (done, emptied s st)

  unfoldable pub open_store : State Tree → Option ℕ → Result EngineError ℕ × State Tree
  open_store st none = (err store_not_found, st)
  open_store st (some t) = (
    ok st.handle_count,
    record st { handles = update st.handles st.handle_count t; handle_count = suc st.handle_count },
  )

  -- transaction.GetStore: a new handle on the tree of the store.
  unfoldable pub get_store : Bytes → State Tree → Result EngineError ℕ × State Tree
  unfolding open_store
  get_store name st =
      guarded (if st.cancelled then some context_done else none) st (open_store st (st.stores name))

  unfoldable pub add_store :
      Bytes → State Tree → Option ℕ → Result EngineError (Unit {0}) × State Tree
  add_store name st (some t) = (err store_already_exists, st)
  add_store name st none = (
    done,
    record st {
      trees = update st.trees st.tree_count new;
      tree_count = suc st.tree_count;
      stores = update_key st.stores name (some st.tree_count);
      on_rollback = st.on_rollback ++ forget_store name ∷ [];
    },
  )

  -- transaction.CreateStore
  unfoldable pub create_store : Bytes → State Tree → Result EngineError (Unit {0}) × State Tree
  unfolding add_store
  create_store name st = guarded (write_error st) st (add_store name st (st.stores name))

  unfoldable pub remove_store :
      Bytes → State Tree → Option ℕ → Result EngineError (Unit {0}) × State Tree
  remove_store name st none = (err store_not_found, st)
  remove_store name st (some t) = (
    done,
    record st {
      stores = update_key st.stores name none;
      on_rollback = st.on_rollback ++ restore_store name t ∷ [];
    },
  )

  -- transaction.DropStore
  unfoldable pub drop_store : Bytes → State Tree → Result EngineError (Unit {0}) × State Tree
  unfolding remove_store
  drop_store name st = guarded (write_error st) st (remove_store name st (st.stores name))
