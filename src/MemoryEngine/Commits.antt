-- ===== src/MemoryEngine/Commits.antt =====
-- Commit, which removes the deleted items from the trees, and the reads after it.
use genji.Prelude.{
  ℕ, ◌≡◌, refl, sym, ap, subst, ◌∙◌, Bool, true, false, Option, none, some, List, [], ◌∷◌, ◌++◌,
  Bytes, bytes_eq_iff, arith,
}
use genji.Prelude.{if◌then◌else◌, All, All-map, All-snoc, Bool-cases, inl, inr}
use genji.Prelude.Results.{Result, err}
use genji.MemoryEngine.Trees.{BTree}
use genji.MemoryEngine.{
  State, EngineError, key_not_found, undelete, Finish, remove_deleted, update, write_error,
  put_error, guarded, done, tree_of,
}
use genji.MemoryEngine.{put_item, put, value_of, get, delete_found, delete}
use genji.MemoryEngine.Valid.{IsValid}
use genji.MemoryEngine.Reads.{get_live}
use genji.MemoryEngine.Transaction.{finish, finish_all, commit}

module _ (bt : BTree) where
  open bt use {Tree, get_item, insert_item, delete_item, get-insert, get-delete}

  -- The handle's tree leads from the item's key to that item.
  abbrev pub IsHeld : State Tree → Finish → Type 0
  IsHeld st (remove_deleted s i) = get_item (tree_of bt st s) (st.items i).key ≡ some i

  -- The handle's tree leads from the item's key to no other item.
  abbrev IsPending : State Tree → Finish → Type 0
  IsPending st (remove_deleted s i) =
      (m : ℕ) → get_item (tree_of bt st s) (st.items i).key ≡ some m → m ≡ i

  cut : State Tree → ℕ → Bytes → State Tree
  cut st t k = record st { trees = update st.trees t (delete_item (st.trees t) k) }

  finish-cut :
      (s i : ℕ) (st : State Tree)
      → finish bt (remove_deleted s i) st
        ≡ (if (st.items i).deleted then cut st (st.handles s) (st.items i).key else st)
  unfolding finish cut tree_of
  finish-cut s i st = refl

  cut-IsPending :
      (st : State Tree) (t : ℕ) (k : Bytes) (c : Finish) → IsPending st c → IsPending (cut st t k) c
  unfolding cut tree_of
  cut-IsPending st t k (remove_deleted s i) h =
      λ m e. ground (arith, h m, get-delete (st.trees t) k (st.items i).key)

  cut-get :
      (st : State Tree) (s' i s : ℕ) (j : Bytes)
      → IsPending st (remove_deleted s' i)
      → (st.items i).deleted ≡ true
      → (p : Option ℕ) → get_item (tree_of bt st s) j ≡ p
      → value_of bt
          (cut st (st.handles s') (st.items i).key)
          (get_item (tree_of bt (cut st (st.handles s') (st.items i).key) s) j)
        ≡ value_of bt st p
  unfolding cut tree_of value_of
  cut-get st s' i s j h d none e =
      ground (arith, get-delete (st.trees (st.handles s')) (st.items i).key j)
  cut-get st s' i s j h d (some m) e = ground (
    arith,
    h m,
    get-delete (st.trees (st.handles s')) (st.items i).key j,
    bytes_eq_iff (st.items i).key j,
  )

  finish-get :
      (c : Finish) (s : ℕ) (j : Bytes) (st : State Tree)
      → IsPending st c
      → st.cancelled ≡ false
      → get bt s j (finish bt c st) ≡ get bt s j st
  finish-get (remove_deleted s' i) s j st h c = elim (Bool-cases (st.items i).deleted) [
    | inl d ↦
        ap (get bt s j) (finish-cut s' i st ∙ (rw d refl))
        ∙ get_live bt s j (cut st (st.handles s') (st.items i).key) (unfold cut in c)
        ∙ cut-get st s' i s j h d _ refl
        ∙ sym (get_live bt s j st c)
    | inr d ↦ ap (get bt s j) (finish-cut s' i st ∙ (rw d refl))
  ]

  finish-IsPending :
      (c x : Finish) (st : State Tree) → IsPending st x → IsPending (finish bt c st) x
  finish-IsPending (remove_deleted s i) x st h =
      subst (λ u. IsPending u x) (sym (finish-cut s i st)) (branch (st.items i).deleted)
    where
      branch : (b : Bool) → IsPending (if b then cut st (st.handles s) (st.items i).key else st) x
      branch true = cut-IsPending st (st.handles s) (st.items i).key x h
      branch false = h

  finish-cancelled : (c : Finish) (st : State Tree) → (finish bt c st).cancelled ≡ st.cancelled
  unfolding finish
  finish-cancelled (remove_deleted s i) st = ground arith

  finish_all-get :
      (cs : List Finish) (s : ℕ) (j : Bytes) (st : State Tree)
      → All (IsPending st) cs
      → st.cancelled ≡ false
      → get bt s j (finish_all bt cs st) ≡ get bt s j st
  unfolding finish_all
  finish_all-get [] s j st h c = refl
  finish_all-get (x ∷ cs) s j st (p, h) c =
      finish_all-get cs s j (finish bt x st) (All-map cs (λ y. finish-IsPending x y st) h)
        (finish-cancelled x st ∙ c)
      ∙ finish-get x s j st p c

  IsHeld→IsPending : (c : Finish) (st : State Tree) → IsHeld st c → IsPending st c
  IsHeld→IsPending (remove_deleted s i) st h = λ m e. cc

  ended-IsPending :
      (x : Finish) (st : State Tree) → IsHeld st x → IsPending (record st { terminated = true }) x
  unfolding tree_of
  ended-IsPending (remove_deleted s i) st h = λ m e. cc

  commit-done :
      (st : State Tree)
      → st.cancelled ≡ false
      → (commit bt st).0 ≡ done
      → (commit bt st).1 ≡ finish_all bt st.on_commit (record st { terminated = true })
  unfolding commit
  commit-done st c d = ground (arith, c)

  -- A Commit that succeeds changes no read, in a transaction whose deleted items are still the ones
  -- that the trees lead to, and whose context is not cancelled.
  pub get-commit :
      (s : ℕ) (j : Bytes) (st : State Tree)
      → All (IsHeld st) st.on_commit
      → st.cancelled ≡ false
      → (commit bt st).0 ≡ done
      → get bt s j (commit bt st).1 ≡ get bt s j st
  get-commit s j st h c d =
      ap (get bt s j) (commit-done st c d)
      ∙ finish_all-get st.on_commit s j (record st { terminated = true })
          (All-map st.on_commit (λ x p. ended-IsPending x st p) h) c
      ∙ (unfold get tree_of value_of in refl)

  put_item-IsHeld :
      (s : ℕ) (k v : Bytes) (st : State Tree) (o : Option ℕ) (c : Finish)
      → IsValid bt st
      → get_item (tree_of bt st s) k ≡ o
      → IsHeld st c
      → IsHeld (put_item bt s k v st o) c
  unfolding put_item tree_of
  put_item-IsHeld s k v st (some i) (remove_deleted s' m) valid e h = ground (arith, h)
  put_item-IsHeld s k v st none (remove_deleted s' m) valid e h = ground (
    arith,
    h,
    valid.keyed (st.handles s') (st.items m).key m,
    get-insert (st.trees (st.handles s)) k (st.items m).key st.item_count,
    bytes_eq_iff k (st.items m).key,
  )

  put_item-on_commit :
      (s : ℕ) (k v : Bytes) (st : State Tree) (o : Option ℕ)
      → (put_item bt s k v st o).on_commit ≡ st.on_commit
  unfolding put_item
  put_item-on_commit s k v st none = refl
  put_item-on_commit s k v st (some i) = refl

  -- The deleted items of the transaction are still the ones that the trees lead to.
  abbrev pub HoldsDeleted : State Tree → Type 0
  HoldsDeleted st = All (IsHeld st) st.on_commit

  put_item-HoldsDeleted :
      (s : ℕ) (k v : Bytes) (st : State Tree)
      → IsValid bt st
      → HoldsDeleted st
      → HoldsDeleted (put_item bt s k v st (get_item (tree_of bt st s) k))
  put_item-HoldsDeleted s k v st valid h =
      subst (All (IsHeld (put_item bt s k v st (get_item (tree_of bt st s) k))))
        (sym (put_item-on_commit s k v st (get_item (tree_of bt st s) k)))
        (All-map st.on_commit (λ c. put_item-IsHeld s k v st _ c valid refl) h)

  guarded-HoldsDeleted :
      {A : Type 0} (o : Option EngineError) (st : State Tree)
      (r : Result EngineError A × State Tree)
      → HoldsDeleted st
      → HoldsDeleted r.1
      → HoldsDeleted (guarded o st r).1
  guarded-HoldsDeleted (some x) st r h k = h
  guarded-HoldsDeleted none st r h k = k

  marked : ℕ → ℕ → State Tree → State Tree
  marked s i st = record st {
    items =
        update st.items i
          (record { key = (st.items i).key; value = (st.items i).value; deleted = true });
    on_rollback = st.on_rollback ++ undelete i ∷ [];
    on_commit = st.on_commit ++ remove_deleted s i ∷ [];
  }

  marked-IsHeld : (s i : ℕ) (st : State Tree) (c : Finish) → IsHeld st c → IsHeld (marked s i st) c
  unfolding marked tree_of
  marked-IsHeld s i st (remove_deleted s' m) h = ground (arith, h)

  marked-HoldsDeleted :
      (s i : ℕ) (k : Bytes) (st : State Tree)
      → IsValid bt st
      → get_item (tree_of bt st s) k ≡ some i
      → HoldsDeleted st
      → HoldsDeleted (marked s i st)
  marked-HoldsDeleted s i k st valid e h =
      unfold marked in
      All-snoc (IsHeld (marked s i st)) st.on_commit (remove_deleted s i)
        (All-map st.on_commit (λ c. marked-IsHeld s i st c) h)
        (marked-IsHeld s i st (remove_deleted s i)
          (own_key (valid.keyed (st.handles s) k i (unfold tree_of in e)).0))
    where
      own_key : (st.items i).key ≡ k → get_item (tree_of bt st s) (st.items i).key ≡ some i
      own_key q = rw q e

  delete_found-HoldsDeleted :
      (s : ℕ) (k : Bytes) (st : State Tree) (o : Option ℕ)
      → IsValid bt st
      → get_item (tree_of bt st s) k ≡ o
      → HoldsDeleted st
      → HoldsDeleted (delete_found bt s st o).1
  unfolding delete_found marked
  delete_found-HoldsDeleted s k st none valid e h = h
  delete_found-HoldsDeleted s k st (some i) valid e h =
      branch (st.items i).deleted (marked s i st) (marked-HoldsDeleted s i k st valid e h)
    where
      branch :
          (b : Bool) (y : State Tree)
          → HoldsDeleted y
          → HoldsDeleted
              (if◌then◌else◌ {A = Result EngineError (Unit {0}) × State Tree} b
                (err key_not_found, st)
                (done, y)).1
      branch true y p = h
      branch false y p = p

  -- On a valid engine Put and Delete, with any result, keep the premise of `get-commit` on the
  -- deleted items.
  pub HoldsDeleted-kept :
      (s : ℕ) (k v : Bytes) (st : State Tree)
      → IsValid bt st
      → HoldsDeleted st
      → HoldsDeleted (put bt s k v st).1 × HoldsDeleted (delete bt s k st).1
  unfolding put delete
  HoldsDeleted-kept s k v st valid h = (
    guarded-HoldsDeleted (put_error k v st) st _ h (put_item-HoldsDeleted s k v st valid h),
    guarded-HoldsDeleted (write_error st) st _ h (delete_found-HoldsDeleted s k st _ valid refl h),
  )
