-- ===== src/MemoryEngine/Iterator/Visits.antt =====
-- What a loop over the iterator of engine/memoryengine/store.go visits.
use genji.Prelude.{
  ℕ, zero, suc, ◌<◌, ◌≤◌, ◌≡◌, refl, sym, ap, ◌∙◌, Bool, true, false, not, ◌&&◌, none, some, List,
  [], ◌∷◌, ◌++◌, Bytes, ltb, length, drop, if◌then◌else◌, arith,
}
use genji.MemoryEngine.Iterator.{Walk, Iterator, item_at, seek, valid, advance, visits}
use genji.MemoryEngine.Iterator.Loading.{undeleted, Found, nothing, found, take-drop, drop_tail}
use genji.MemoryEngine.Iterator.Batches.{View, seek-View, leb_of_drop}
use genji.MemoryEngine.Iterator.Ready.{valid_Ready}

item_at-drop : (b : List ℕ) (c i : ℕ) (is : List ℕ) → drop c b ≡ i ∷ is → item_at b c ≡ some i
unfolding item_at
item_at-drop [] zero i is h = absurd (cc h)
item_at-drop [] (suc c) i is h = absurd (cc h)
item_at-drop (j ∷ b) zero i is h = cc h
item_at-drop (j ∷ b) (suc c) i is h = item_at-drop b c i is h

ltb_of_drop : (b : List ℕ) (c i : ℕ) (is : List ℕ) → drop c b ≡ i ∷ is → ltb c (length b) ≡ true
ltb_of_drop [] zero i is h = absurd (cc h)
ltb_of_drop [] (suc c) i is h = absurd (cc h)
ltb_of_drop (j ∷ b) zero i is h = ground arith
ltb_of_drop (j ∷ b) (suc c) i is h = let r = ltb_of_drop b c i is h in ground (arith, r)

undeleted_kept :
    (d : ℕ → Bool) (i : ℕ) (is : List ℕ) → d i ≡ false → i ∷ undeleted d is ≡ undeleted d (i ∷ is)
unfolding undeleted
undeleted_kept d i is h = rw h refl

length_suffix : (xs ys : List ℕ) → length ys ≤ length (xs ++ ys)
length_suffix [] ys = omega arith
length_suffix (x ∷ xs) ys = let h = length_suffix xs ys in omega (arith, h)

module _ (w : Walk) (m : ℕ) where
  advance-View :
      (it : Iterator) (i : ℕ) (is post : List ℕ)
      → View w (suc m) it (i ∷ is) post
      → View w (suc m) (advance w (suc m) it) is post
  unfolding advance
  advance-View it i is post v = record {
    pre = v.pre;
    split = v.split;
    pending = drop_tail it.cursor it.buf i is v.pending;
    batch = v.batch;
    going = v.going;
  }

  visits_stop :
      (n fuel : ℕ) (it next : Iterator) (b : Bool)
      → valid w (suc m) false fuel it ≡ (b, next)
      → b ≡ false
      → visits w (suc m) (suc n) fuel it ≡ []
  unfolding visits
  visits_stop n fuel it next b q h = rw (q, h) refl

  visits_step :
      (n fuel : ℕ) (it next : Iterator) (b : Bool) (i : ℕ)
      → valid w (suc m) false fuel it ≡ (b, next)
      → b ≡ true
      → item_at next.buf next.cursor ≡ some i
      → visits w (suc m) (suc n) fuel it ≡ i ∷ visits w (suc m) n fuel (advance w (suc m) next)
  unfolding visits
  visits_step n fuel it next b i q h k =
      ap
        (λ (v : Bool × Iterator).
          let rest = visits w (suc m) n fuel (advance w (suc m) v.1) in
          if v.0 then (elim (item_at v.1.buf v.1.cursor) [ none ↦ [] | some j ↦ j ∷ rest ]) else [])
        q
      ∙ rw (h, k) refl

  post_short :
      (it : Iterator) (pend post : List ℕ)
      → View w (suc m) it pend post
      → length post ≤ length w.all
  post_short it pend post v =
      let h = ap length v.split in
      let q = length_suffix v.pre (it.buf ++ post) in
      let r = length_suffix it.buf post in omega (arith, h, q, r)

  -- One round of the loop, given what the later ones visit.
  round :
      (n fuel : ℕ) (it next : Iterator) (rest pend post : List ℕ)
      → valid w (suc m) false fuel it ≡ (ltb next.cursor (length next.buf) && not next.failed, next)
      → View w (suc m) next pend post
      → Found w.deleted pend
      → (pend ≡ [] → post ≡ [])
      → undeleted w.deleted (pend ++ post) ≡ undeleted w.deleted rest
      → length (pend ++ post) < suc n
      → ((it' : Iterator) (pend' : List ℕ)
          → View w (suc m) it' pend' post
          → length (pend' ++ post) < n
          → visits w (suc m) n fuel it' ≡ undeleted w.deleted (pend' ++ post))
      → visits w (suc m) (suc n) fuel it ≡ undeleted w.deleted rest
  unfolding undeleted
  round n fuel it next rest [] post q v nothing o s l ih =
      let stop = leb_of_drop next.cursor next.buf v.pending in
      visits_stop n fuel it next _ q (ground (arith, stop))
      ∙ ap (undeleted w.deleted) (sym (o refl))
      ∙ s
  round n fuel it next rest (i ∷ is) post q v (found _ _ d) o s l ih =
      let go = ltb_of_drop next.buf next.cursor i is v.pending in
      visits_step n fuel it next _ i q (rw (go, v.going) refl)
        (item_at-drop next.buf next.cursor i is v.pending)
      ∙ ap (λ ks. i ∷ ks)
          (ih (advance w (suc m) next) is (advance-View next i is post v) (omega (arith, l)))
      ∙ undeleted_kept w.deleted i (is ++ post) d
      ∙ s

  visits_pending :
      (n fuel : ℕ) (it : Iterator) (pend post : List ℕ)
      → 0 < m
      → length w.all < fuel
      → View w (suc m) it pend post
      → length (pend ++ post) < n
      → visits w (suc m) n fuel it ≡ undeleted w.deleted (pend ++ post)
  visits_pending zero fuel it pend post hm hf v h = absurd (omega (arith, h))
  visits_pending (suc n) fuel it pend post hm hf v h =
      let p = post_short it pend post v in
      let r = valid_Ready w m fuel it pend post hm v (omega (arith, p, hf)) in
      let y = r.1.0 in
      let l = y.short in
      round n fuel it r.0 (pend ++ post) y.pend y.post r.1.1 y.view y.first y.over y.same
        (omega (arith, h, l))
        (λ it' pend' v' h'. visits_pending n fuel it' pend' y.post hm hf v' h')

-- A loop over an iterator visits the items from the pivot on that are not deleted, each once and in the
-- order of the walk, and ends, where a batch holds two items or more; this with fuel for one round
-- and for one batch more than there are items.
pub visits_lem :
    (w : Walk) (size n fuel : ℕ) (pivot : Bytes) (it : Iterator)
    → 1 < size
    → length w.all < n
    → length w.all < fuel
    → it.failed ≡ false
    → visits w size n fuel (seek w size pivot it) ≡ undeleted w.deleted (w.from pivot)
visits_lem w zero n fuel pivot it hs hn hf h = absurd (omega (arith, hs))
visits_lem w (suc m) n fuel pivot it hs hn hf h =
    let part = w.from-part pivot in
    let l = ap length part.1 in
    let k = length_suffix part.0 (w.from pivot) in
    let whole = take-drop (suc m) (w.from pivot) in
    let j = ap length whole in
    visits_pending w m n fuel _ _ _ (omega (arith, hs)) hf (seek-View w m pivot it h)
      (omega (arith, l, k, j, hn))
    ∙ ap (undeleted w.deleted) (sym whole)
