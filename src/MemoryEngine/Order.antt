-- ===== src/MemoryEngine/Order.antt =====
-- Rollback runs the closures in the order in which they were collected.
use genji.Prelude.{ℕ, ◌≡◌, refl, ap, ◌∙◌, true, false, Option, none, some, [], ◌∷◌, Bytes, arith}
use genji.Prelude.Results.{ok}
use genji.MemoryEngine.Trees.{BTree}
use genji.MemoryEngine.{State, Undo, EngineError, restore_item, put_error, guarded, done, tree_of}
use genji.MemoryEngine.{put_item, put, value_of, get}
use genji.MemoryEngine.Reads.{get_live}
use genji.MemoryEngine.Transaction.{undo, undo_all, rollback}
use genji.MemoryEngine.Ends.{IsFresh}

module _ (bt : BTree) where
  open bt use {Tree, get_item}

  put-done :
      (s : ℕ) (k v : Bytes) (st : State Tree)
      → (put bt s k v st).0 ≡ done
      → (put bt s k v st).1 ≡ put_item bt s k v st (get_item (tree_of bt st s) k)
  unfolding put
  put-done s k v st e = passed (put_error k v st) e
    where
      passed :
          (o : Option EngineError)
          → (guarded o st (done, put_item bt s k v st (get_item (tree_of bt st s) k))).0 ≡ done
          → (guarded o st (done, put_item bt s k v st (get_item (tree_of bt st s) k))).1
            ≡ put_item bt s k v st (get_item (tree_of bt st s) k)
      passed (some x) d = cc
      passed none d = refl

  pub rollback_two :
      (st : State Tree) (u w : Undo)
      → st.terminated ≡ false
      → st.writable ≡ true
      → st.on_rollback ≡ u ∷ w ∷ []
      → (rollback bt st).1 ≡ undo bt w (undo bt u (record st { terminated = true }))
  unfolding rollback
  rollback_two st u w t wr e =
      rollback_live t wr
      ∙ ap (λ us. undo_all bt us (record st { terminated = true })) e
      ∙ (unfold undo_all in refl)
    where
      rollback_live :
          st.terminated ≡ false
          → st.writable ≡ true
          → (rollback bt st).1 ≡ undo_all bt st.on_rollback (record st { terminated = true })
      rollback_live t wr = ground (arith, t, wr)

  module _ (s : ℕ) (k v w : Bytes) (st : State Tree) (i : ℕ) (f : IsFresh bt st)
      (e : get_item (tree_of bt st s) k ≡ some i) where
    once : State Tree
    once = put_item bt s k v st (some i)

    twice : State Tree
    twice = put_item bt s k w once (some i)

    rolled_back : State Tree
    rolled_back = undo bt (restore_item i v false) (
        undo bt (restore_item i (st.items i).value (st.items i).deleted)
          (record twice { terminated = true }))

    twice-on_rollback :
        twice.on_rollback
        ≡ restore_item i (st.items i).value (st.items i).deleted ∷ restore_item i v false ∷ []
    unfolding twice once put_item
    twice-on_rollback = ground (arith, f.nothing_to_undo)

    twice-rollback : (rollback bt twice).1 ≡ rolled_back
    unfolding rolled_back
    twice-rollback =
        rollback_two twice _ _ (unfold twice once put_item in f.running)
          (unfold twice once put_item in f.may_write) twice-on_rollback

    rolled_back-tree : tree_of bt rolled_back s ≡ tree_of bt st s
    unfolding rolled_back undo twice once put_item tree_of
    rolled_back-tree = refl

    rolled_back-cancelled : rolled_back.cancelled ≡ st.cancelled
    unfolding rolled_back undo twice once put_item
    rolled_back-cancelled = refl

    rolled_back-value : value_of bt rolled_back (some i) ≡ ok v
    unfolding rolled_back undo twice once put_item value_of
    rolled_back-value = ground arith

    twice-get : get bt s k (rollback bt twice).1 ≡ ok v
    twice-get =
        ap (get bt s k) twice-rollback
        ∙ get_live bt s k _ (rolled_back-cancelled ∙ f.live)
        ∙ ap (value_of bt rolled_back) (ap (λ t. get_item t k) rolled_back-tree ∙ e)
        ∙ rolled_back-value

    -- Two Puts on a key that the store holds, as the first writes of a transaction: after Rollback
    -- the key has the value of the first Put, not the one from before the transaction.
    pub get-rollback-put_twice :
        (put bt s k v st).0 ≡ done
        → (put bt s k w (put bt s k v st).1).0 ≡ done
        → get bt s k (rollback bt (put bt s k w (put bt s k v st).1).1).1 ≡ ok v
    unfolding twice once
    get-rollback-put_twice d d' = ap (λ t. get bt s k (rollback bt t).1) second ∙ twice-get
      where
        first : (put bt s k v st).1 ≡ once
        first = put-done s k v st d ∙ ap (put_item bt s k v st) e

        again : get_item (tree_of bt once s) k ≡ some i
        again = unfold put_item tree_of in e

        second : (put bt s k w (put bt s k v st).1).1 ≡ twice
        second =
            put-done s k w _ d'
            ∙ ap (λ t. put_item bt s k w t (get_item (tree_of bt t s) k)) first
            ∙ ap (put_item bt s k w once) again
