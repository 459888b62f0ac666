-- ===== src/MemoryEngine/Transaction.antt =====
-- engine/memoryengine/engine.go: the begin and the two ends of a transaction.
use genji.Prelude.{ℕ, Bool, true, false, not, none, some, List, [], ◌∷◌, if◌then◌else◌}
use genji.Prelude.Results.{Result, err}
use genji.MemoryEngine.Trees.{BTree}
use genji.MemoryEngine.{
  State, EngineError, done, context_done, read_only, transaction_discarded, engine_closed,
}
use genji.MemoryEngine.{
  Undo, restore_item, remove_new, undelete, restore_tree, forget_store, restore_store,
}
use genji.MemoryEngine.{Finish, remove_deleted, update, update_key, tree_of}

module _ (bt : BTree) where
  open bt use {Tree, delete_item}

  unfoldable pub set_deleted : ℕ → Bool → State Tree → State Tree
  set_deleted i d st = record st {
    items =
        update st.items i
          (record { key = (st.items i).key; value = (st.items i).value; deleted = d });
  }

  unfoldable pub undo : Undo → State Tree → State Tree
  unfolding tree_of
  undo (restore_item i v d) st = record st {
    items = update st.items i (record { key = (st.items i).key; value = v; deleted = d });
  }
  undo (remove_new s k) st = record st {
    trees = update st.trees (st.handles s) (delete_item (tree_of bt st s) k);
  }
  undo (undelete i) st = set_deleted i false st
  undo (restore_tree s t) st = record st { handles = update st.handles s t }
  undo (forget_store name) st = record st { stores = update_key st.stores name none }
  undo (restore_store name t) st = record st { stores = update_key st.stores name (some t) }

  -- `for _, undo := range tx.onRollback { undo() }`
  unfoldable pub undo_all : List Undo → State Tree → State Tree
  undo_all [] st = st
  undo_all (u ∷ us) st = undo_all us (undo u st)

  unfoldable pub finish : Finish → State Tree → State Tree
  unfolding tree_of
  finish (remove_deleted s i) st =
      if (st.items i).deleted
      then record st {
        trees = update st.trees (st.handles s) (delete_item (tree_of bt st s) (st.items i).key);
      }
      else st

  unfoldable pub finish_all : List Finish → State Tree → State Tree
  finish_all [] st = st
  finish_all (c ∷ cs) st = finish_all cs (finish c st)

  -- Engine.Begin
  unfoldable pub begin : Bool → State Tree → Result EngineError (Unit {0}) × State Tree
  begin writes st =
      if st.cancelled
      then (err context_done, st)
      else if st.closed
      then (err engine_closed, st)
      else (
        done,
        record st { writable = writes; on_rollback = []; on_commit = []; terminated = false },
      )

  -- Engine.Close
  unfoldable pub close : State Tree → Result EngineError (Unit {0}) × State Tree
  close st = if st.closed then (err engine_closed, st) else (done, record st { closed = true })

  -- The result of an ended transaction: the context's error, if it is cancelled.
  unfoldable pub context_result : State Tree → Result EngineError (Unit {0})
  context_result st = if st.cancelled then err context_done else done

  -- transaction.Rollback
  unfoldable pub rollback : State Tree → Result EngineError (Unit {0}) × State Tree
  rollback st = if st.terminated then (err transaction_discarded, st) else (
    context_result st,
    (if st.writable
        then undo_all st.on_rollback (record st { terminated = true })
        else record st { terminated = true }),
  )

  -- transaction.Commit
  unfoldable pub commit : State Tree → Result EngineError (Unit {0}) × State Tree
  commit st =
      if st.terminated
      then (err transaction_discarded, st)
      else if not st.writable
      then (err read_only, st)
      else if st.cancelled
      then rollback st
      else (done, finish_all st.on_commit (record st { terminated = true }))
