-- ===== src/MemoryEngine/Valid.antt =====
-- The invariant of the engine (engine/memoryengine): pointers in the trees and their items, and the
-- counts of what has been allocated.
use genji.Prelude.{
  ℕ, ◌<◌, ◌≡◌, Bool, true, false, Option, none, some, List, [], ◌∷◌, Bytes, bytes_eq_iff, arith,
}
use genji.Prelude.{not, if◌then◌else◌, Bool-cases, inl, inr}
use genji.Prelude.Results.{Result}
use genji.MemoryEngine.Trees.{BTree}
use genji.MemoryEngine.{
  State, Undo, Finish, update, EngineError, restore_item, remove_new, undelete, restore_tree,
  forget_store, restore_store, remove_deleted, write_error, put_error, guarded, open_store,
  add_store, remove_store,
}
use genji.MemoryEngine.{
  put_item, put, delete_found, delete, truncate, get_store, create_store, drop_store,
}
use genji.MemoryEngine.Transaction.{
  undo, undo_all, finish, finish_all, begin, close, rollback, commit, set_deleted,
}

module _ (bt : BTree) where
  open bt use {Tree, new, get_item, insert_item, delete_item, get-new, get-insert, get-delete}

  pub record IsValid (st : State Tree) : Type 0 where
    pub keyed :
        (t : ℕ) (k : Bytes) (i : ℕ)
        → get_item (st.trees t) k ≡ some i
        → ((st.items i).key ≡ k) × (i < st.item_count)

  put_item-IsValid :
      (s : ℕ) (k v : Bytes) (st : State Tree) (found : Option ℕ)
      → IsValid st
      → IsValid (put_item bt s k v st found)
  unfolding put_item
  put_item-IsValid s k v st (some i) h = record { keyed = λ t j m e. ground (arith, h.keyed t j m) }
  put_item-IsValid s k v st none h = record {
    keyed = λ t j m e. ground (
      arith,
      h.keyed t j m,
      get-insert (st.trees (st.handles s)) k j st.item_count,
      bytes_eq_iff k j,
    );
  }

  guarded-IsValid {ℓ} :
      {A : Type ℓ} (o : Option EngineError) (st : State Tree)
      (r : Result EngineError A × State Tree)
      → IsValid st
      → IsValid r.1
      → IsValid (guarded o st r).1
  guarded-IsValid (some e) st r h k = h
  guarded-IsValid none st r h k = k

  put-IsValid : (s : ℕ) (k v : Bytes) (st : State Tree) → IsValid st → IsValid (put bt s k v st).1
  unfolding put
  put-IsValid s k v st h = guarded-IsValid (put_error k v st) st _ h (put_item-IsValid s k v st _ h)

  delete_found-IsValid :
      (s : ℕ) (st : State Tree) (o : Option ℕ) → IsValid st → IsValid (delete_found bt s st o).1
  unfolding delete_found
  delete_found-IsValid s st none h = h
  delete_found-IsValid s st (some i) h = elim (Bool-cases (st.items i).deleted) [
    | inl d ↦ rw d h
    | inr d ↦ rw d (record { keyed = λ t j m e. ground (arith, h.keyed t j m) })
  ]

  delete-IsValid : (s : ℕ) (k : Bytes) (st : State Tree) → IsValid st → IsValid (delete bt s k st).1
  unfolding delete
  delete-IsValid s k st h = guarded-IsValid (write_error st) st _ h (delete_found-IsValid s st _ h)

  -- A new tree is empty.
  new_tree :
      (st : State Tree)
      → IsValid st
      → (t : ℕ) (k : Bytes) (i : ℕ) → get_item (update st.trees st.tree_count new t) k ≡ some i
      → ((st.items i).key ≡ k) × (i < st.item_count)
  new_tree st h t k i e = ground (arith, h.keyed t k i, get-new k)

  truncate-IsValid : (s : ℕ) (st : State Tree) → IsValid st → IsValid (truncate bt s st).1
  unfolding truncate
  truncate-IsValid s st h =
      guarded-IsValid (write_error st) st _ h (record { keyed = new_tree st h })

  open_store-IsValid :
      (st : State Tree) (o : Option ℕ) → IsValid st → IsValid (open_store bt st o).1
  unfolding open_store
  open_store-IsValid st none h = h
  open_store-IsValid st (some t) h = record { keyed = h.keyed }

  get_store-IsValid :
      (name : Bytes) (st : State Tree) → IsValid st → IsValid (get_store bt name st).1
  unfolding get_store
  get_store-IsValid name st h = guarded-IsValid _ st _ h (open_store-IsValid st _ h)

  add_store-IsValid :
      (name : Bytes) (st : State Tree) (o : Option ℕ)
      → IsValid st
      → IsValid (add_store bt name st o).1
  unfolding add_store
  add_store-IsValid name st (some t) h = h
  add_store-IsValid name st none h = record { keyed = new_tree st h }

  create_store-IsValid :
      (name : Bytes) (st : State Tree) → IsValid st → IsValid (create_store bt name st).1
  unfolding create_store
  create_store-IsValid name st h =
      guarded-IsValid (write_error st) st _ h (add_store-IsValid name st _ h)

  remove_store-IsValid :
      (name : Bytes) (st : State Tree) (o : Option ℕ)
      → IsValid st
      → IsValid (remove_store bt name st o).1
  unfolding remove_store
  remove_store-IsValid name st none h = h
  remove_store-IsValid name st (some t) h = record { keyed = h.keyed }

  drop_store-IsValid :
      (name : Bytes) (st : State Tree) → IsValid st → IsValid (drop_store bt name st).1
  unfolding drop_store
  drop_store-IsValid name st h =
      guarded-IsValid (write_error st) st _ h (remove_store-IsValid name st _ h)

  -- Removing a key from one tree.
  removed-IsValid :
      (st : State Tree) (s : ℕ) (k : Bytes)
      → IsValid st
      → IsValid (record st { trees = update st.trees s (delete_item (st.trees s) k) })
  removed-IsValid st s k h = record {
    keyed = λ t j i e. ground (arith, h.keyed t j i, get-delete (st.trees s) k j);
  }

  undo-IsValid : (u : Undo) (st : State Tree) → IsValid st → IsValid (undo bt u st)
  unfolding undo set_deleted
  undo-IsValid (restore_item i v d) st h = record {
    keyed = λ t j m e. ground (arith, h.keyed t j m);
  }
  undo-IsValid (remove_new s k) st h = removed-IsValid st (st.handles s) k h
  undo-IsValid (undelete i) st h = record { keyed = λ t j m e. ground (arith, h.keyed t j m) }
  undo-IsValid (restore_tree s t) st h = record { keyed = h.keyed }
  undo-IsValid (forget_store name) st h = record { keyed = h.keyed }
  undo-IsValid (restore_store name t) st h = record { keyed = h.keyed }

  undo_all-IsValid : (us : List Undo) (st : State Tree) → IsValid st → IsValid (undo_all bt us st)
  unfolding undo_all
  undo_all-IsValid [] st h = h
  undo_all-IsValid (u ∷ us) st h = undo_all-IsValid us (undo bt u st) (undo-IsValid u st h)

  finish-IsValid : (c : Finish) (st : State Tree) → IsValid st → IsValid (finish bt c st)
  unfolding finish
  finish-IsValid (remove_deleted s i) st h = elim (Bool-cases (st.items i).deleted) [
    | inl d ↦ rw d (removed-IsValid st (st.handles s) (st.items i).key h)
    | inr d ↦ rw d h
  ]

  finish_all-IsValid :
      (cs : List Finish) (st : State Tree) → IsValid st → IsValid (finish_all bt cs st)
  unfolding finish_all
  finish_all-IsValid [] st h = h
  finish_all-IsValid (c ∷ cs) st h = finish_all-IsValid cs (finish bt c st) (finish-IsValid c st h)

  ended-IsValid : (st : State Tree) → IsValid st → IsValid (record st { terminated = true })
  ended-IsValid st h = record { keyed = h.keyed }

  -- Each branch of a test keeps the invariant.
  branch-IsValid {ℓ} :
      {A : Type ℓ} (b : Bool) (x y : A × State Tree)
      → IsValid x.1
      → IsValid y.1
      → IsValid (if b then x else y).1
  branch-IsValid true x y h k = h
  branch-IsValid false x y h k = k

  either-IsValid :
      (b : Bool) (x y : State Tree) → IsValid x → IsValid y → IsValid (if b then x else y)
  either-IsValid true x y h k = h
  either-IsValid false x y h k = k

  rollback-IsValid : (st : State Tree) → IsValid st → IsValid (rollback bt st).1
  unfolding rollback
  rollback-IsValid st h = branch-IsValid st.terminated _ _ h (
      either-IsValid st.writable _ _ (undo_all-IsValid st.on_rollback _ (ended-IsValid st h))
        (ended-IsValid st h))

  commit-IsValid : (st : State Tree) → IsValid st → IsValid (commit bt st).1
  unfolding commit
  commit-IsValid st h = branch-IsValid st.terminated _ _ h (
      branch-IsValid (not st.writable) _ _ h (
        branch-IsValid st.cancelled _ _ (rollback-IsValid st h)
          (finish_all-IsValid st.on_commit _ (ended-IsValid st h))))

  begin-IsValid : (w : Bool) (st : State Tree) → IsValid st → IsValid (begin bt w st).1
  unfolding begin
  begin-IsValid w st h =
      branch-IsValid st.cancelled _ _ h
        (branch-IsValid st.closed _ _ h (record { keyed = h.keyed }))

  close-IsValid : (st : State Tree) → IsValid st → IsValid (close bt st).1
  unfolding close
  close-IsValid st h = branch-IsValid st.closed _ _ h (record { keyed = h.keyed })

  -- What a caller or the context may do to an engine, in any order and with any result.
  pub data Step : State Tree → State Tree → Type 0 where
    puts : (s : ℕ) (k v : Bytes) (st : State Tree) → Step st (put bt s k v st).1
    deletes : (s : ℕ) (k : Bytes) (st : State Tree) → Step st (delete bt s k st).1
    truncates : (s : ℕ) (st : State Tree) → Step st (truncate bt s st).1
    gets_store : (name : Bytes) (st : State Tree) → Step st (get_store bt name st).1
    creates_store : (name : Bytes) (st : State Tree) → Step st (create_store bt name st).1
    drops_store : (name : Bytes) (st : State Tree) → Step st (drop_store bt name st).1
    begins : (writes : Bool) (st : State Tree) → Step st (begin bt writes st).1
    rolls_back : (st : State Tree) → Step st (rollback bt st).1
    commits : (st : State Tree) → Step st (commit bt st).1
    closes : (st : State Tree) → Step st (close bt st).1
    cancels : (st : State Tree) → Step st (record st { cancelled = true })
    new_context : (st : State Tree) → Step st (record st { cancelled = false })

  pub data Reach (st : State Tree) : State Tree → Type 0 where
    here : Reach st st
    next : {t u : State Tree} → Reach st t → Step t u → Reach st u

  Step-IsValid : {t u : State Tree} → Step t u → IsValid t → IsValid u
  Step-IsValid (puts s k v st) h = put-IsValid s k v st h
  Step-IsValid (deletes s k st) h = delete-IsValid s k st h
  Step-IsValid (truncates s st) h = truncate-IsValid s st h
  Step-IsValid (gets_store name st) h = get_store-IsValid name st h
  Step-IsValid (creates_store name st) h = create_store-IsValid name st h
  Step-IsValid (drops_store name st) h = drop_store-IsValid name st h
  Step-IsValid (begins w st) h = begin-IsValid w st h
  Step-IsValid (rolls_back st) h = rollback-IsValid st h
  Step-IsValid (commits st) h = commit-IsValid st h
  Step-IsValid (closes st) h = close-IsValid st h
  Step-IsValid (cancels st) h = record { keyed = h.keyed }
  Step-IsValid (new_context st) h = record { keyed = h.keyed }

  -- From a valid engine, whatever operations run in whatever order, every item that a tree reaches
  -- under a key has that key and was allocated.
  pub Reach-IsValid : {st t : State Tree} → IsValid st → Reach st t → IsValid t
  Reach-IsValid h here = h
  Reach-IsValid h (next r s) = Step-IsValid s (Reach-IsValid h r)
