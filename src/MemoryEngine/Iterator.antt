-- ===== src/MemoryEngine/Iterator.antt =====
-- The iterator of engine/memoryengine/store.go, over a tree that does not change while it runs.
-- `reverse` chooses the tree's walk once and for all, so that one order of the items stands for
-- both directions. `size` is itBufSize, 64 in the code.
pub mod Loading
pub mod Batches
pub mod Ready
pub mod Visits
use genji.Prelude.{
  ℕ, zero, suc, ◌+◌, ◌-◌, ◌<◌, ◌≡◌, Bool, true, false, not, ◌&&◌, Option, none, some, List, [], ◌∷◌,
  ◌++◌, Bytes, ltb, leb, ◌==◌, length, take, drop, if◌then◌else◌,
}

-- Items by their numbers, in the order of the walk. `from` is what the tree passes on from a pivot
-- (AscendGreaterOrEqual, DescendLessOrEqual), and all of it for an empty one (Ascend, Descend): a
-- last part of the walk, which begins with the item of the pivot where there is one.
pub record Walk : Type 0 where
  pub all : List ℕ
  pub from : Bytes → List ℕ
  pub key : ℕ → Bytes
  pub deleted : ℕ → Bool
  pub from-part : (pivot : Bytes) → (pre : List ℕ) × (all ≡ pre ++ from pivot)
  pub from-nil : from [] ≡ all
  pub from-key :
      (pre : List ℕ) (i : ℕ) (post : List ℕ) → all ≡ pre ++ i ∷ post → from (key i) ≡ i ∷ post

-- The fields buf and cursor, and whether err is set.
pub record Iterator : Type 0 where
  pub buf : List ℕ
  pub cursor : ℕ
  pub failed : Bool

unfoldable pub item_at : List ℕ → ℕ → Option ℕ
item_at [] c = none
item_at (i ∷ is) zero = some i
item_at (i ∷ is) (suc c) = item_at is c

unfoldable pub last_of : ℕ → List ℕ → ℕ
last_of i [] = i
last_of i (j ∷ is) = last_of j is

module _ (w : Walk) (size : ℕ) where
  open w use {from, key, deleted}

  -- Seek
  unfoldable pub seek : Bytes → Iterator → Iterator
  seek pivot it = record { buf = take size (from pivot); cursor = 0; failed = it.failed }

  -- The cursor behind the deleted items that follow it; `is` is what it has before it.
  unfoldable pub skip_deleted : List ℕ → ℕ → ℕ
  skip_deleted [] c = c
  skip_deleted (i ∷ is) c = let rest = skip_deleted is (suc c) in if deleted i then rest else c

  unfoldable pub skipped : Iterator → Iterator
  unfolding skip_deleted
  skipped it = record it { cursor = skip_deleted (drop it.cursor it.buf) it.cursor }

  -- The body of the loop that loads a batch: from the last item of the buffer, which is skipped.
  unfoldable pub reload : Iterator → Iterator
  unfolding skipped seek last_of
  reload it = elim it.buf [
    | [] ↦ it
    | i ∷ is ↦ (let next = seek (key (last_of i is)) it in skipped (record next { cursor = 1 }))
  ]

  unfoldable pub exhausted : Iterator → Bool
  exhausted it = leb (length it.buf) it.cursor && (length it.buf == size)

  -- The loop, with fuel for as many batches.
  unfoldable pub reload_all : ℕ → Iterator → Iterator
  unfolding reload exhausted
  reload_all zero it = it
  reload_all (suc n) it = let next = reload_all n (reload it) in if exhausted it then next else it

  -- Valid, with the iterator it leaves behind. `cancelled` is the state of the context.
  unfoldable pub valid : Bool → ℕ → Iterator → Bool × Iterator
  unfolding reload_all skipped
  valid cancelled fuel it =
      let loaded = reload_all fuel (skipped (record it { failed = cancelled })) in
      if it.failed
      then (false, it)
      else (ltb loaded.cursor (length loaded.buf) && not loaded.failed, loaded)

  -- Next
  unfoldable pub advance : Iterator → Iterator
  advance it = record it { cursor = suc it.cursor }

  -- `for it.Seek(pivot); it.Valid(); it.Next()`: the items that the body sees.
  unfoldable pub visits : ℕ → ℕ → Iterator → List ℕ
  unfolding valid advance item_at
  visits zero fuel it = []
  visits (suc n) fuel it =
      let v = valid false fuel it in
      let rest = visits n fuel (advance v.1) in
      if v.0 then (elim (item_at v.1.buf v.1.cursor) [ none ↦ [] | some i ↦ i ∷ rest ]) else []
