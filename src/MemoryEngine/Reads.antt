-- ===== src/MemoryEngine/Reads.antt =====
-- What Get returns after the other operations of a store.
use genji.Prelude.{
  ℕ, ◌≡◌, refl, sym, ap, ◌∙◌, Bool, true, false, Option, none, some, Bytes, bytes_eq, bytes_eq_iff,
  arith,
}
use genji.Prelude.{if◌then◌else◌}
use genji.Prelude.Results.{Result, ok, err}
use genji.MemoryEngine.Trees.{BTree}
use genji.MemoryEngine.{
  State, EngineError, key_not_found, update, write_error, put_error, guarded, done, tree_of,
}
use genji.MemoryEngine.{put_item, put, value_of, get, delete_found, delete}
use genji.MemoryEngine.Valid.{IsValid}

pub put_error-none :
    {T : Type 0} (k v : Bytes) (st : State T) → put_error k v st ≡ none → st.cancelled ≡ false
unfolding put_error
put_error-none k v st h = ground arith

pub write_error-none : {T : Type 0} (st : State T) → write_error st ≡ none → st.cancelled ≡ false
unfolding write_error
write_error-none st h = ground arith

-- A branch that did not return an error.
pub if_done :
    {T : Type 0} (b : Bool) (e : EngineError) (x y : State T)
    → (if◌then◌else◌ {A = Result EngineError (Unit {0}) × State T} b (err e, x) (done, y)).0 ≡ done
    → (if◌then◌else◌ {A = Result EngineError (Unit {0}) × State T} b (err e, x) (done, y)).1 ≡ y
if_done true e x y h = cc
if_done false e x y h = refl

module _ (bt : BTree) where
  open bt use {Tree, get_item, insert_item, get-insert}

  pub get_live :
      (s : ℕ) (j : Bytes) (st : State Tree)
      → st.cancelled ≡ false
      → get bt s j st ≡ value_of bt st (get_item (tree_of bt st s) j)
  unfolding get
  get_live s j st c = ground (arith, c)

  -- `p` is where the tree of the handle leads from `j`.
  module _ (s : ℕ) (k v j : Bytes) (st : State Tree) (h : IsValid bt st) where
    overwritten :
        (i : ℕ) (p : Option ℕ)
        → get_item (tree_of bt st s) k ≡ some i
        → get_item (tree_of bt st s) j ≡ p
        → value_of bt (put_item bt s k v st (some i)) p
          ≡ (if bytes_eq k j then ok v else value_of bt st p)
    unfolding put_item tree_of value_of
    overwritten i none e q = ground (arith, bytes_eq_iff k j)
    overwritten i (some m) e q =
        ground (arith, h.keyed (st.handles s) k i, h.keyed (st.handles s) j m, bytes_eq_iff k j)

    added :
        (p : Option ℕ)
        → get_item (tree_of bt st s) j ≡ p
        → value_of bt (put_item bt s k v st none) (if bytes_eq k j then some st.item_count else p)
          ≡ (if bytes_eq k j then ok v else value_of bt st p)
    unfolding put_item tree_of value_of
    added none q = ground arith
    added (some m) q = ground (arith, h.keyed (st.handles s) j m)

    tree_after :
        get_item (tree_of bt (put_item bt s k v st none) s) j
        ≡ (if bytes_eq k j then some st.item_count else get_item (tree_of bt st s) j)
    unfolding put_item tree_of
    tree_after = ground (arith, get-insert (st.trees (st.handles s)) k j st.item_count)

    put_item-value :
        (o : Option ℕ)
        → get_item (tree_of bt st s) k ≡ o
        → value_of bt (put_item bt s k v st o) (get_item (tree_of bt (put_item bt s k v st o) s) j)
          ≡ (if bytes_eq k j then ok v else value_of bt st (get_item (tree_of bt st s) j))
    put_item-value (some i) e = unfold put_item tree_of in overwritten i _ e refl
    put_item-value none e = ap (value_of bt (put_item bt s k v st none)) tree_after ∙ added _ refl

    cancelled-put_item : (o : Option ℕ) → (put_item bt s k v st o).cancelled ≡ st.cancelled
    unfolding put_item
    cancelled-put_item none = refl
    cancelled-put_item (some i) = refl

    put_item-get :
        st.cancelled ≡ false
        → get bt s j (put_item bt s k v st (get_item (tree_of bt st s) k))
          ≡ (if bytes_eq k j then ok v else get bt s j st)
    put_item-get c =
        get_live s j _ (cancelled-put_item _ ∙ c)
        ∙ put_item-value _ refl
        ∙ ap (λ r. if bytes_eq k j then ok v else r) (sym (get_live s j st c))

    guarded-put :
        (o : Option EngineError)
        → (o ≡ none → st.cancelled ≡ false)
        → (guarded o st (done, put_item bt s k v st (get_item (tree_of bt st s) k))).0 ≡ done
        → get bt s j (guarded o st (done, put_item bt s k v st (get_item (tree_of bt st s) k))).1
          ≡ (if bytes_eq k j then ok v else get bt s j st)
    guarded-put (some x) c e = cc
    guarded-put none c e = put_item-get (c refl)

    -- After a Put that succeeds on a valid engine, Get of the key returns the new value, and Get of any other key
    -- returns what it returned before.
    pub get-put :
        (put bt s k v st).0 ≡ done
        → get bt s j (put bt s k v st).1 ≡ (if bytes_eq k j then ok v else get bt s j st)
    unfolding put
    get-put e = guarded-put (put_error k v st) (put_error-none k v st) e

  module _ (s : ℕ) (k j : Bytes) (st : State Tree) (h : IsValid bt st) where
    -- `p` is where the tree of the handle leads from `j`.
    removed :
        (i : ℕ) (p : Option ℕ) (st' : State Tree)
        → get_item (tree_of bt st s) k ≡ some i
        → get_item (tree_of bt st s) j ≡ p
        → st'.items
          ≡ update st.items i
              (record { key = (st.items i).key; value = (st.items i).value; deleted = true })
        → value_of bt st' p ≡ (if bytes_eq k j then err key_not_found else value_of bt st p)
    unfolding tree_of value_of
    removed i none st' e q d = ground (arith, bytes_eq_iff k j)
    removed i (some m) st' e q d =
        rw d
          (ground (arith, h.keyed (st.handles s) k i, h.keyed (st.handles s) j m, bytes_eq_iff k j))

    delete_found-get :
        (o : Option ℕ)
        → get_item (tree_of bt st s) k ≡ o
        → st.cancelled ≡ false
        → (delete_found bt s st o).0 ≡ done
        → get bt s j (delete_found bt s st o).1
          ≡ (if bytes_eq k j then err key_not_found else get bt s j st)
    unfolding delete_found tree_of
    delete_found-get none e c d = cc
    delete_found-get (some i) e c d = rw (if_done (st.items i).deleted _ _ _ d) (
        get_live s j _ c
        ∙ removed i _ _ e refl refl
        ∙ ap (λ r. if bytes_eq k j then err key_not_found else r) (sym (get_live s j st c)))

    guarded-delete :
        (o : Option EngineError)
        → (o ≡ none → st.cancelled ≡ false)
        → (guarded o st (delete_found bt s st (get_item (tree_of bt st s) k))).0 ≡ done
        → get bt s j (guarded o st (delete_found bt s st (get_item (tree_of bt st s) k))).1
          ≡ (if bytes_eq k j then err key_not_found else get bt s j st)
    guarded-delete (some x) c e = cc
    guarded-delete none c e = delete_found-get _ refl (c refl) e

    -- After a Delete that succeeds on a valid engine, Get of the key reports that it is not found, and Get of any
    -- other key returns what it returned before.
    pub get-delete :
        (delete bt s k st).0 ≡ done
        → get bt s j (delete bt s k st).1
          ≡ (if bytes_eq k j then err key_not_found else get bt s j st)
    unfolding delete
    get-delete e = guarded-delete (write_error st) (write_error-none st) e
