-- ===== src/MemoryEngine/Iterator/Batches.antt =====
-- The invariant of the iterator's buffer (engine/memoryengine/store.go) between its batches.
use genji.Prelude.{
  ℕ, zero, suc, ◌<◌, ◌≡◌, refl, sym, ap, subst, ◌∙◌, ◌⊎◌, Bool, true, false, ◌&&◌, List, [], ◌∷◌,
  ◌++◌, Bytes, leb, ◌==◌, length, take, drop, arith,
}
use genji.MemoryEngine.Iterator.{Walk, Iterator, last_of, seek, skipped, reload, exhausted}
use genji.MemoryEngine.Iterator.Loading.{drop_deleted, init_last, take-drop, take_full, drop_skip}

-- `pend` is what the buffer holds from the cursor on, `post` what the walk has behind the buffer,
-- which is nothing when the batch was not full.
pub record View (w : Walk) (size : ℕ) (it : Iterator) (pend post : List ℕ) : Type 0 where
  pub pre : List ℕ
  pub split : w.all ≡ pre ++ (it.buf ++ post)
  pub pending : drop it.cursor it.buf ≡ pend
  pub batch : (length it.buf ≡ size) ⊎ ((length it.buf < size) × (post ≡ []))
  pub going : it.failed ≡ false

append_assoc : (xs ys zs : List ℕ) → (xs ++ ys) ++ zs ≡ xs ++ (ys ++ zs)
append_assoc [] ys zs = refl
append_assoc (x ∷ xs) ys zs = ap (λ ks. x ∷ ks) (append_assoc xs ys zs)

one_item : (x m : ℕ) (b : Bool) → 0 < m → (b && (length (take (suc m) (x ∷ [])) == suc m)) ≡ false
one_item x zero b h = absurd (omega (arith, h))
one_item x (suc m) b h = ground arith

pub drop_nil : (c : ℕ) (b : List ℕ) → leb (length b) c ≡ true → drop c b ≡ []
drop_nil zero [] h = refl
drop_nil (suc c) [] h = refl
drop_nil zero (x ∷ b) h = absurd (ground (arith, h))
drop_nil (suc c) (x ∷ b) h = drop_nil c b (ground (arith, h))

pub leb_of_drop : (c : ℕ) (b : List ℕ) → drop c b ≡ [] → leb (length b) c ≡ true
leb_of_drop zero [] h = refl
leb_of_drop (suc c) [] h = ground arith
leb_of_drop zero (x ∷ b) h = absurd (cc h)
leb_of_drop (suc c) (x ∷ b) h = let r = leb_of_drop c b h in ground (arith, r)

module _ (w : Walk) (m : ℕ) where
  -- Seek at the item that begins the rest of the walk.
  pub seek-View :
      (pivot : Bytes) (it : Iterator)
      → it.failed ≡ false
      → View w
          (suc m)
          (seek w (suc m) pivot it)
          (take (suc m) (w.from pivot))
          (drop (suc m) (w.from pivot))
  unfolding seek
  seek-View pivot it h =
      let r = w.from-part pivot in
      record {
        pre = r.0;
        split = r.1 ∙ ap (λ xs. r.0 ++ xs) (take-drop (suc m) (w.from pivot));
        pending = refl;
        batch = take_full (suc m) (w.from pivot);
        going = h;
      }

  pub skipped-View :
      (it : Iterator) (pend post : List ℕ)
      → View w (suc m) it pend post
      → View w (suc m) (skipped w (suc m) it) (drop_deleted w.deleted pend) post
  unfolding skipped
  skipped-View it pend post v = record {
    pre = v.pre;
    split = v.split;
    pending =
        drop_skip w (suc m) (drop it.cursor it.buf) it.cursor it.buf refl
        ∙ ap (drop_deleted w.deleted) v.pending;
    batch = v.batch;
    going = v.going;
  }

  -- The last item of the buffer begins the next batch.
  from_last :
      (i : ℕ) (is pre post : List ℕ)
      → w.all ≡ pre ++ ((i ∷ is) ++ post)
      → w.from (w.key (last_of i is)) ≡ last_of i is ∷ post
  from_last i is pre post h =
      let r = init_last i is in
      w.from-key (pre ++ r.0) (last_of i is) post (
        h
        ∙ ap (λ xs. pre ++ (xs ++ post)) r.1
        ∙ ap (λ xs. pre ++ xs) (append_assoc r.0 (last_of i is ∷ []) post)
        ∙ sym (append_assoc pre r.0 (last_of i is ∷ post)))

  -- The same without its first item, which the batch before it held.
  second-View :
      (pivot : Bytes) (it : Iterator) (j : ℕ) (post : List ℕ)
      → it.failed ≡ false
      → w.from pivot ≡ j ∷ post
      → View w (suc m) (record (seek w (suc m) pivot it) { cursor = 1 }) (take m post) (drop m post)
  unfolding seek
  second-View pivot it j post h q =
      let v = seek-View pivot it h in
      record {
        pre = v.pre;
        split = v.split ∙ ap (λ xs. v.pre ++ (take (suc m) (w.from pivot) ++ drop (suc m) xs)) q;
        pending = ap (λ xs. drop 1 (take (suc m) xs)) q;
        batch =
            subst
              (λ xs.
                (length (take (suc m) (w.from pivot)) ≡ suc m)
                ⊎ ((length (take (suc m) (w.from pivot)) < suc m) × (drop (suc m) xs ≡ [])))
              q v.batch;
        going = h;
      }

  pub reload_cons :
      (i : ℕ) (is post pre : List ℕ) (c : ℕ) (f : Bool)
      → f ≡ false
      → w.all ≡ pre ++ ((i ∷ is) ++ post)
      → View w
          (suc m)
          (reload w (suc m) (record { buf = i ∷ is; cursor = c; failed = f }))
          (drop_deleted w.deleted (take m post))
          (drop m post)
  unfolding reload
  reload_cons i is post pre c f hf h =
      let it : Iterator = record { buf = i ∷ is; cursor = c; failed = f } in
      skipped-View (record (seek w (suc m) (w.key (last_of i is)) it) { cursor = 1 }) (take m post)
        (drop m post)
        (second-View (w.key (last_of i is)) it (last_of i is) post hf (from_last i is pre post h))

  -- A last item with nothing behind it makes a batch of one.
  pub reload_last :
      (i : ℕ) (is pre : List ℕ) (c : ℕ) (f : Bool)
      → w.all ≡ pre ++ ((i ∷ is) ++ [])
      → 0 < m
      → exhausted w (suc m) (reload w (suc m) (record { buf = i ∷ is; cursor = c; failed = f }))
        ≡ false
  unfolding exhausted reload skipped seek
  reload_last i is pre c f h hm = rw (from_last i is pre [] h) (one_item (last_of i is) m _ hm)
