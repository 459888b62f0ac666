-- ===== src/MemoryEngine/Stores.antt =====
-- The table of the stores: CreateStore, DropStore and Truncate, and their rollback.
use genji.Prelude.{
  ℕ, ◌<◌, ◌≡◌, refl, ap, ◌∙◌, false, Option, none, some, Bytes, bytes_eq_self, arith,
}
use genji.Prelude.Results.{err}
use genji.MemoryEngine.Trees.{BTree}
use genji.MemoryEngine.{
  State, EngineError, key_not_found, forget_store, restore_store, write_error, guarded, done,
  tree_of,
}
use genji.MemoryEngine.{
  value_of, get, emptied, truncate, create_store, add_store, drop_store, remove_store,
}
use genji.MemoryEngine.Reads.{write_error-none}
use genji.MemoryEngine.Transaction.{undo, rollback}
use genji.MemoryEngine.Ends.{IsFresh}
use genji.MemoryEngine.Order.{rollback_two}

module _ (bt : BTree) where
  open bt use {Tree, get_item, get-new}

  empty_handle :
      (s : ℕ) (j : Bytes) (st : State Tree)
      → st.cancelled ≡ false
      → get bt s j (emptied bt s st) ≡ err key_not_found
  unfolding get emptied tree_of value_of
  empty_handle s j st c = ground (arith, c, get-new j)

  kept_stores : (s : ℕ) (st : State Tree) → (emptied bt s st).stores ≡ st.stores
  unfolding emptied
  kept_stores s st = refl

  kept_trees :
      (s : ℕ) (st : State Tree) (t : ℕ) → t < st.tree_count → (emptied bt s st).trees t ≡ st.trees t
  unfolding emptied
  kept_trees s st t h = ground arith

  -- Truncate empties the handle that it is called on, and neither the table of the stores nor any
  -- tree that existed before: a handle that is opened later sees what was there.
  pub truncate_lem :
      (s : ℕ) (j : Bytes) (st : State Tree) (t : ℕ)
      → t < st.tree_count
      → (truncate bt s st).0 ≡ done
      → (get bt s j (truncate bt s st).1 ≡ err key_not_found)
        × ((truncate bt s st).1.stores ≡ st.stores)
        × ((truncate bt s st).1.trees t ≡ st.trees t)
  unfolding truncate
  truncate_lem s j st t u h = passed (write_error st) (write_error-none st) h
    where
      passed :
          (o : Option EngineError)
          → (o ≡ none → st.cancelled ≡ false)
          → (guarded {A = Unit {0}} o st (done, emptied bt s st)).0 ≡ done
          → (get bt s j (guarded {A = Unit {0}} o st (done, emptied bt s st)).1 ≡ err key_not_found)
            × ((guarded {A = Unit {0}} o st (done, emptied bt s st)).1.stores ≡ st.stores)
            × ((guarded {A = Unit {0}} o st (done, emptied bt s st)).1.trees t ≡ st.trees t)
      passed (some x) c d = cc
      passed none c d = (empty_handle s j st (c refl), kept_stores s st, kept_trees s st t u)

  create-done :
      (name : Bytes) (st : State Tree)
      → (create_store bt name st).0 ≡ done
      → (create_store bt name st).1 ≡ (add_store bt name st (st.stores name)).1
  unfolding create_store
  create-done name st h = passed (write_error st) h
    where
      passed :
          (o : Option EngineError)
          → (guarded o st (add_store bt name st (st.stores name))).0 ≡ done
          → (guarded o st (add_store bt name st (st.stores name))).1
            ≡ (add_store bt name st (st.stores name)).1
      passed (some x) d = cc
      passed none d = refl

  drop-done :
      (name : Bytes) (st : State Tree)
      → (drop_store bt name st).0 ≡ done
      → (drop_store bt name st).1 ≡ (remove_store bt name st (st.stores name)).1
  unfolding drop_store
  drop-done name st h = passed (write_error st) h
    where
      passed :
          (o : Option EngineError)
          → (guarded o st (remove_store bt name st (st.stores name))).0 ≡ done
          → (guarded o st (remove_store bt name st (st.stores name))).1
            ≡ (remove_store bt name st (st.stores name)).1
      passed (some x) d = cc
      passed none d = refl

  module _ (name : Bytes) (st : State Tree) (t : ℕ) (f : IsFresh bt st)
      (e : st.stores name ≡ some t) where
    dropped : State Tree
    dropped = (remove_store bt name st (some t)).1

    recreated : State Tree
    recreated = (add_store bt name dropped none).1

    dropped-stores : dropped.stores name ≡ none
    unfolding dropped remove_store
    dropped-stores = ground (arith, bytes_eq_self name)

    recreated-rollback : (rollback bt recreated).1.stores name ≡ none
    recreated-rollback =
        ap (λ (u : State Tree). u.stores name)
          (rollback_two bt recreated (restore_store name t) (forget_store name)
            (unfold recreated dropped add_store remove_store in f.running)
            (unfold recreated dropped add_store remove_store in f.may_write)
            (unfold recreated dropped add_store remove_store in ground (arith, f.nothing_to_undo)))
        ∙ (unfold undo in ground (arith, bytes_eq_self name))

    -- A store that exists is dropped and created again as the first writes of a transaction: after
    -- Rollback there is no store of that name.
    pub stores-rollback-drop_create :
        (drop_store bt name st).0 ≡ done
        → (create_store bt name (drop_store bt name st).1).0 ≡ done
        → (rollback bt (create_store bt name (drop_store bt name st).1).1).1.stores name ≡ none
    stores-rollback-drop_create d d' =
        ap (λ u. (rollback bt u).1.stores name) second ∙ recreated-rollback
      where
        first : (drop_store bt name st).1 ≡ dropped
        first = drop-done name st d ∙ (unfold dropped in ap (λ o. (remove_store bt name st o).1) e)

        second : (create_store bt name (drop_store bt name st).1).1 ≡ recreated
        second =
            create-done name _ d'
            ∙ ap (λ u. (add_store bt name u (u.stores name)).1) first
            ∙ (unfold recreated in ap (λ o. (add_store bt name dropped o).1) dropped-stores)
