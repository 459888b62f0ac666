-- ===== src/MemoryEngine/Ends.antt =====
-- What the two ends of a transaction do to the reads.
use genji.Prelude.{
  ℕ, ◌≡◌, refl, sym, ap, ◌∙◌, true, false, Option, none, some, [], ◌∷◌, ◌++◌, Bytes, bytes_eq_iff,
  arith,
}
use genji.MemoryEngine.Trees.{BTree}
use genji.MemoryEngine.{
  State, Undo, EngineError, restore_item, remove_new, put_error, guarded, done, tree_of,
}
use genji.MemoryEngine.{put_item, put, value_of, get}
use genji.MemoryEngine.Valid.{IsValid}
use genji.MemoryEngine.Reads.{get_live}
use genji.MemoryEngine.Transaction.{undo, undo_all, rollback}

module _ (bt : BTree) where
  open bt use {Tree, get_item, insert_item, delete_item, get-insert, get-delete}

  -- A writable transaction that has just begun.
  pub record IsFresh (st : State Tree) : Type 0 where
    pub may_write : st.writable ≡ true
    pub running : st.terminated ≡ false
    pub live : st.cancelled ≡ false
    pub nothing_to_undo : st.on_rollback ≡ []

  pub rollback_one :
      (st : State Tree) (u : Undo)
      → st.terminated ≡ false
      → st.writable ≡ true
      → st.on_rollback ≡ u ∷ []
      → (rollback bt st).1 ≡ undo bt u (record st { terminated = true })
  unfolding rollback
  rollback_one st u t w e =
      rollback_live t w
      ∙ ap (λ us. undo_all bt us (record st { terminated = true })) e
      ∙ (unfold undo_all in refl)
    where
      rollback_live :
          st.terminated ≡ false
          → st.writable ≡ true
          → (rollback bt st).1 ≡ undo_all bt st.on_rollback (record st { terminated = true })
      rollback_live t w = ground (arith, t, w)

  module _ (s : ℕ) (k v j : Bytes) (st : State Tree) (h : IsValid bt st) where
    -- The rollback of a Put by the one closure `u`.
    ended : Undo → Option ℕ → State Tree
    ended u o = undo bt u (record (put_item bt s k v st o) { terminated = true })

    abbrev overwriting : ℕ → Undo
    overwriting i = restore_item i (st.items i).value (st.items i).deleted

    restored :
        (i : ℕ) (p : Option ℕ) → value_of bt (ended (overwriting i) (some i)) p ≡ value_of bt st p
    unfolding ended undo put_item value_of
    restored i none = refl
    restored i (some m) = ground arith

    restored_tree : (i : ℕ) → tree_of bt (ended (overwriting i) (some i)) s ≡ tree_of bt st s
    unfolding ended undo put_item tree_of
    restored_tree i = refl

    withdrawn_tree :
        get_item (tree_of bt st s) k ≡ none
        → get_item (tree_of bt (ended (remove_new s k) none) s) j ≡ get_item (tree_of bt st s) j
    unfolding ended undo put_item tree_of
    withdrawn_tree e = ground (
      arith,
      get-delete (insert_item (st.trees (st.handles s)) k st.item_count) k j,
      get-insert (st.trees (st.handles s)) k j st.item_count,
      bytes_eq_iff k j,
    )

    withdrawn :
        (p : Option ℕ)
        → get_item (tree_of bt st s) j ≡ p
        → value_of bt (ended (remove_new s k) none) p ≡ value_of bt st p
    unfolding ended undo put_item value_of tree_of
    withdrawn none q = refl
    withdrawn (some m) q = ground (arith, h.keyed (st.handles s) j m)

    ended_new-cancelled : (ended (remove_new s k) none).cancelled ≡ st.cancelled
    unfolding ended undo put_item
    ended_new-cancelled = refl

    ended_old-cancelled : (i : ℕ) → (ended (overwriting i) (some i)).cancelled ≡ st.cancelled
    unfolding ended undo put_item
    ended_old-cancelled i = refl

    put_item-rollback :
        (o : Option ℕ) (u : Undo)
        → IsFresh st
        → (put_item bt s k v st o).on_rollback ≡ st.on_rollback ++ u ∷ []
        → (rollback bt (put_item bt s k v st o)).1 ≡ ended u o
    unfolding ended
    put_item-rollback o u f e =
        rollback_one (put_item bt s k v st o) u (ended_fields o f).0 (ended_fields o f).1
          (e ∙ ap (λ us. us ++ u ∷ []) f.nothing_to_undo)
      where
        ended_fields :
            (o : Option ℕ)
            → IsFresh st
            → ((put_item bt s k v st o).terminated ≡ false)
              × ((put_item bt s k v st o).writable ≡ true)
        ended_fields none f = unfold put_item in (f.running, f.may_write)
        ended_fields (some i) f = unfold put_item in (f.running, f.may_write)

    put_item_undone :
        (o : Option ℕ)
        → get_item (tree_of bt st s) k ≡ o
        → IsFresh st
        → get bt s j (rollback bt (put_item bt s k v st o)).1 ≡ get bt s j st
    put_item_undone none e f =
        ap (get bt s j) (put_item-rollback none (remove_new s k) f (unfold put_item in refl))
        ∙ get_live bt s j _ (ended_new-cancelled ∙ f.live)
        ∙ ap (value_of bt (ended (remove_new s k) none)) (withdrawn_tree e)
        ∙ withdrawn _ refl
        ∙ sym (get_live bt s j st f.live)
    put_item_undone (some i) e f =
        ap (get bt s j) (put_item-rollback (some i) (overwriting i) f (unfold put_item in refl))
        ∙ get_live bt s j _ (ended_old-cancelled i ∙ f.live)
        ∙ ap (λ t. value_of bt (ended (overwriting i) (some i)) (get_item t j)) (restored_tree i)
        ∙ restored i _
        ∙ sym (get_live bt s j st f.live)

    -- A Put that succeeds as the first write of a transaction on a valid engine is undone by Rollback: every Get of
    -- the store returns what it returned before.
    pub get-rollback-put :
        IsFresh st
        → (put bt s k v st).0 ≡ done
        → get bt s j (rollback bt (put bt s k v st).1).1 ≡ get bt s j st
    unfolding put
    get-rollback-put f e = guarded_put (put_error k v st) e
      where
        guarded_put :
            (o : Option EngineError)
            → (guarded o st (done, put_item bt s k v st (get_item (tree_of bt st s) k))).0 ≡ done
            → get bt s j
                (rollback bt
                  (guarded o st (done, put_item bt s k v st (get_item (tree_of bt st s) k))).1).1
              ≡ get bt s j st
        guarded_put (some x) d = cc
        guarded_put none d = put_item_undone _ refl f
