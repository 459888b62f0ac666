-- ===== src/MemoryEngine/Errors.antt =====
-- What an operation that fails leaves behind.
use genji.Prelude.{
  ℕ, ◌≡◌, refl, Bool, true, false, Option, none, some, Bytes, Bool-cases, inl, inr, if◌then◌else◌,
}
use genji.Prelude.Results.{Result, ok, err}
use genji.MemoryEngine.Trees.{BTree}
use genji.MemoryEngine.{
  State, EngineError, key_not_found, context_done, read_only, write_error, put_error, guarded, done,
}
use genji.MemoryEngine.{
  put, delete, delete_found, truncate, create_store, add_store, drop_store, remove_store,
}
use genji.MemoryEngine.{get_store, open_store}

-- An operation that returns an error has changed nothing.
abbrev pub IsAtomic : {T A : Type 0} → State T → Result EngineError A × State T → Type 0
IsAtomic st (ok a, st') = Unit
IsAtomic st (err e, st') = st' ≡ st

guarded-IsAtomic :
    {T A : Type 0} (o : Option EngineError) (st : State T) (r : Result EngineError A × State T)
    → IsAtomic st r
    → IsAtomic st (guarded o st r)
guarded-IsAtomic (some x) st r h = refl
guarded-IsAtomic none st r h = h

module _ (bt : BTree) where
  open bt use {Tree}

  delete_found-IsAtomic :
      (s : ℕ) (st : State Tree) (o : Option ℕ) → IsAtomic st (delete_found bt s st o)
  unfolding delete_found
  delete_found-IsAtomic s st none = refl
  delete_found-IsAtomic s st (some i) = branch (st.items i).deleted _
    where
      branch :
          (b : Bool) (y : State Tree)
          → IsAtomic st (
              if◌then◌else◌ {A = Result EngineError (Unit {0}) × State Tree} b
                (err key_not_found, st)
                (done, y))
      branch true y = refl
      branch false y = tt

  open_store-IsAtomic : (st : State Tree) (o : Option ℕ) → IsAtomic st (open_store bt st o)
  unfolding open_store
  open_store-IsAtomic st none = refl
  open_store-IsAtomic st (some t) = tt

  add_store-IsAtomic :
      (name : Bytes) (st : State Tree) (o : Option ℕ) → IsAtomic st (add_store bt name st o)
  unfolding add_store
  add_store-IsAtomic name st none = tt
  add_store-IsAtomic name st (some t) = refl

  remove_store-IsAtomic :
      (name : Bytes) (st : State Tree) (o : Option ℕ) → IsAtomic st (remove_store bt name st o)
  unfolding remove_store
  remove_store-IsAtomic name st none = refl
  remove_store-IsAtomic name st (some t) = tt

  -- A Put, Delete, Truncate, GetStore, CreateStore or DropStore that returns an error leaves the
  -- engine and the transaction as they were.
  pub errors_change_nothing :
      (st : State Tree) (s : ℕ) (name k v : Bytes)
      → IsAtomic st (put bt s k v st)
        × IsAtomic st (delete bt s k st)
        × IsAtomic st (truncate bt s st)
        × IsAtomic st (get_store bt name st)
        × IsAtomic st (create_store bt name st)
        × IsAtomic st (drop_store bt name st)
  unfolding put delete truncate get_store create_store drop_store
  errors_change_nothing st s name k v = (
    guarded-IsAtomic (put_error k v st) st _ tt,
    guarded-IsAtomic (write_error st) st _ (delete_found-IsAtomic s st _),
    guarded-IsAtomic (write_error st) st _ tt,
    guarded-IsAtomic (if st.cancelled then some context_done else none) st
        (open_store bt st (st.stores name)) (open_store-IsAtomic st (st.stores name)),
    guarded-IsAtomic (write_error st) st _ (add_store-IsAtomic name st _),
    guarded-IsAtomic (write_error st) st _ (remove_store-IsAtomic name st _),
  )

  -- In a transaction that is read-only, every operation that writes returns an error.
  pub read_only_refuses :
      (st : State Tree) (s : ℕ) (name k v : Bytes)
      → st.writable ≡ false
      → (e : EngineError) × ((put bt s k v st).0 ≡ err e)
        × ((delete bt s k st).0 ≡ err e)
        × ((truncate bt s st).0 ≡ err e)
        × ((create_store bt name st).0 ≡ err e)
        × ((drop_store bt name st).0 ≡ err e)
  unfolding put delete truncate create_store drop_store write_error put_error
  read_only_refuses st s name k v h = elim (Bool-cases st.cancelled) [
    | inl c ↦ (context_done, rw c, rw c, rw c, rw c, rw c)
    | inr c ↦ (read_only, rw (c, h), rw (c, h), rw (c, h), rw (c, h), rw (c, h))
  ]
