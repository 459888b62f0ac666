-- ===== src/MemoryEngine/Iterator/Ready.antt =====
-- The loop of iterator.Valid (engine/memoryengine/store.go) that loads batches.
use genji.Prelude.{
  ℕ, zero, suc, ◌<◌, ◌≤◌, ◌≡◌, refl, sym, ap, subst, ◌∙◌, ◌⊎◌, inl, inr, Bool, true, false, not,
  ◌&&◌, List, [], ◌∷◌, ◌++◌, ltb, length, take, drop, arith, Bool-cases,
}
use genji.MemoryEngine.Iterator.{Walk, Iterator, skipped, reload, exhausted, reload_all, valid}
use genji.MemoryEngine.Iterator.Loading.{
  undeleted, drop_deleted, undeleted-drop_deleted, length-drop_deleted, Found, drop_deleted-Found,
  take-drop,
}
use genji.MemoryEngine.Iterator.Batches.{
  View, skipped-View, reload_cons, reload_last, drop_nil, leb_of_drop,
}

-- The next item of `rest` that is not deleted is at the cursor, if there is one.
pub record Ready (w : Walk) (size : ℕ) (it : Iterator) (rest : List ℕ) : Type 0 where
  pub pend : List ℕ
  pub post : List ℕ
  pub view : View w size it pend post
  pub same : undeleted w.deleted (pend ++ post) ≡ undeleted w.deleted rest
  pub short : length (pend ++ post) ≤ length rest
  pub first : Found w.deleted pend
  pub over : pend ≡ [] → post ≡ []

drop_le : (m : ℕ) (xs : List ℕ) → length (drop m xs) ≤ length xs
drop_le zero xs = omega arith
drop_le (suc m) [] = omega arith
drop_le (suc m) (x ∷ xs) = let h = drop_le m xs in omega (arith, h)

drop_shorter : (m x : ℕ) (xs : List ℕ) → 0 < m → length (drop m (x ∷ xs)) < suc (length xs)
drop_shorter zero x xs h = absurd (omega (arith, h))
drop_shorter (suc m) x xs h = let q = drop_le m xs in omega (arith, q)

module _ (w : Walk) (m : ℕ) where
  -- A loop that stops at once.
  reload_all_end :
      (n : ℕ) (it : Iterator) → exhausted w (suc m) it ≡ false → reload_all w (suc m) n it ≡ it
  unfolding reload_all
  reload_all_end zero it h = refl
  reload_all_end (suc n) it h = rw h refl

  reload_all_more :
      (n : ℕ) (it : Iterator)
      → exhausted w (suc m) it ≡ true
      → reload_all w (suc m) (suc n) it ≡ reload_all w (suc m) n (reload w (suc m) it)
  unfolding reload_all
  reload_all_more n it h = rw h refl

  -- A buffer that is not used up, or was not full, is ready.
  at_end :
      (it : Iterator) (pend post : List ℕ)
      → View w (suc m) it pend post
      → Found w.deleted pend
      → exhausted w (suc m) it ≡ false
      → Ready w (suc m) it (pend ++ post)
  unfolding exhausted
  at_end it pend post v fd h = record {
    pend = pend;
    post = post;
    view = v;
    same = refl;
    short = omega arith;
    first = fd;
    over = λ q. elim v.batch [
      | inr b ↦ b.1
      | inl b ↦
          (let l = leb_of_drop it.cursor it.buf (v.pending ∙ q) in absurd (ground (arith, h, l, b)))
    ];
  }

  reached :
      (it : Iterator) (rest later : List ℕ)
      → undeleted w.deleted later ≡ undeleted w.deleted rest
      → length later ≤ length rest
      → Ready w (suc m) it later
      → Ready w (suc m) it rest
  reached it rest later s l r = record {
    pend = r.pend;
    post = r.post;
    view = r.view;
    same = r.same ∙ s;
    short = let h = r.short in omega (arith, h, l);
    first = r.first;
    over = r.over;
  }

  later_same :
      (post : List ℕ)
      → undeleted w.deleted (drop_deleted w.deleted (take m post) ++ drop m post)
        ≡ undeleted w.deleted post
  later_same post =
      undeleted-drop_deleted w.deleted (take m post) (drop m post)
      ∙ ap (undeleted w.deleted) (sym (take-drop m post))

  later_short :
      (post : List ℕ) → length (drop_deleted w.deleted (take m post) ++ drop m post) ≤ length post
  later_short post =
      let h = length-drop_deleted w.deleted (take m post) (drop m post) in
      let q = ap length (take-drop m post) in omega (arith, h, q)

  behind_buffer :
      (it : Iterator) (pend post : List ℕ)
      → Ready w (suc m) it (drop_deleted w.deleted (take m post) ++ drop m post)
      → pend ≡ []
      → Ready w (suc m) it (pend ++ post)
  behind_buffer it pend post r h =
      subst (λ (p : List ℕ). Ready w (suc m) it (p ++ post)) (sym h)
        (reached it post (drop_deleted w.deleted (take m post) ++ drop m post) (later_same post)
          (later_short post) r)

  next_goes :
      (n i : ℕ) (is pre post : List ℕ) (c : ℕ) (f : Bool)
      → w.all ≡ pre ++ ((i ∷ is) ++ post)
      → 0 < m
      → length post < suc n
      → (length (drop m post) < n)
        ⊎ (exhausted w (suc m) (reload w (suc m) (record { buf = i ∷ is; cursor = c; failed = f }))
            ≡ false)
  next_goes n i is pre [] c f s hm h = inr (reload_last w m i is pre c f s hm)
  next_goes n i is pre (x ∷ post) c f s hm h =
      inl (let k = drop_shorter m x post hm in omega (arith, h, k))

  -- A buffer that is used up, and was full.
  used_up :
      (b : List ℕ) (c : ℕ) (f : Bool)
      → exhausted w (suc m) (record { buf = b; cursor = c; failed = f }) ≡ true
      → (drop c b ≡ []) × (length b ≡ suc m)
  unfolding exhausted
  used_up b c f h = (drop_nil c b (ground (arith, h)), ground (arith, h))

  -- The loop ends with the next item at the cursor, given fuel for one batch more than there are items
  -- behind the buffer.
  reload_all-Ready :
      (n : ℕ) (b : List ℕ) (c : ℕ) (f : Bool) (pend post : List ℕ)
      → 0 < m
      → View w (suc m) (record { buf = b; cursor = c; failed = f }) pend post
      → Found w.deleted pend
      → (length post < n)
        ⊎ (exhausted w (suc m) (record { buf = b; cursor = c; failed = f }) ≡ false)
      → Ready w
          (suc m)
          (reload_all w (suc m) n (record { buf = b; cursor = c; failed = f }))
          (pend ++ post)
  reload_all-Ready zero b c f pend post hm v fd (inl g) = absurd (omega (arith, g))
  reload_all-Ready zero b c f pend post hm v fd (inr g) =
      rw (reload_all_end zero (record { buf = b; cursor = c; failed = f }) g)
        (at_end _ pend post v fd g)
  reload_all-Ready (suc n) b c f pend post hm v fd (inr g) =
      rw (reload_all_end (suc n) (record { buf = b; cursor = c; failed = f }) g)
        (at_end _ pend post v fd g)
  reload_all-Ready (suc n) [] c f pend post hm v fd (inl g) =
      let it : Iterator = record { buf = []; cursor = c; failed = f } in
      elim (Bool-cases (exhausted w (suc m) it)) [
        | inr p ↦ rw (reload_all_end (suc n) it p) (at_end it pend post v fd p)
        | inl p ↦ (let q = used_up [] c f p in absurd (omega (arith, q)))
      ]
  reload_all-Ready (suc n) (i ∷ is) c f pend post hm v fd (inl g) =
      let it : Iterator = record { buf = i ∷ is; cursor = c; failed = f } in
      let next = reload w (suc m) it in
      let r =
        reload_all-Ready n next.buf next.cursor next.failed (drop_deleted w.deleted (take m post))
          (drop m post) hm (reload_cons w m i is post v.pre c f v.going v.split)
          (drop_deleted-Found w.deleted (take m post))
          (next_goes n i is v.pre post c f v.split hm g) in
      elim (Bool-cases (exhausted w (suc m) it)) [
        | inr p ↦ rw (reload_all_end (suc n) it p) (at_end it pend post v fd p)
        | inl p ↦
            rw (reload_all_more n it p)
              (behind_buffer _ pend post r (sym v.pending ∙ (used_up (i ∷ is) c f p).0))
      ]

  valid_lem :
      (fuel : ℕ) (b : List ℕ) (c : ℕ) (f : Bool)
      → f ≡ false
      → let it : Iterator = record { buf = b; cursor = c; failed = f } in
        let next = reload_all w (suc m) fuel (skipped w (suc m) it) in
        valid w (suc m) false fuel it ≡ (ltb next.cursor (length next.buf) && not next.failed, next)
  unfolding valid skipped
  valid_lem fuel b c true h = absurd (cc h)
  valid_lem fuel b c false h = refl

  -- A Valid, with the iterator that it leaves and the items that are still to come.
  pub valid_Ready :
      (fuel : ℕ) (it : Iterator) (pend post : List ℕ)
      → 0 < m
      → View w (suc m) it pend post
      → length post < fuel
      → (next : Iterator) × (Ready w (suc m) next (pend ++ post)
          × (valid w (suc m) false fuel it
              ≡ (ltb next.cursor (length next.buf) && not next.failed, next)))
  valid_Ready fuel it pend post hm v h =
      let s = skipped w (suc m) it in
      let r =
        reload_all-Ready fuel s.buf s.cursor s.failed (drop_deleted w.deleted pend) post hm
          (skipped-View w m it pend post v) (drop_deleted-Found w.deleted pend) (inl h) in
      (
        reload_all w (suc m) fuel s,
        (
          reached _ (pend ++ post) (drop_deleted w.deleted pend ++ post)
              (undeleted-drop_deleted w.deleted pend post) (length-drop_deleted w.deleted pend post)
              r,
          valid_lem fuel it.buf it.cursor it.failed v.going,
        ),
      )
