-- ===== src/Sequence/Beyond.antt =====
-- The lease of a new sequence whose increment is not one (internal/database/sequence.go, Next).
use genji.Prelude.{ℕ, suc, ◌<◌, ◌≤◌, ◌≡◌, refl, ap, ◌∙◌, true, none, some, if◌then◌else◌, arith}
use genji.Prelude.Int.{ℤ, pos, ltb_ℤ, ◌≤ℤ◌, ◌<ℤ◌, InInt64, ◌+ℤ◌, ◌-ℤ◌, half64, wrap, wrap_in_range}
use genji.Prelude.Results.{ok, ◌>>=◌}
use genji.Sequence.{
  SequenceInfo, Sequence, candidate, above_min, below_max, new_value, new_lease, new_sequence,
  has_value, hand_out, next,
}
use genji.Sequence.Lease.{in_bounds, leased, from_cache, next-new_value}

start_below : (i : SequenceInfo) (n : ℕ) → i.start +ℤ pos (suc n) ≤ℤ i.max → i.start ≤ℤ i.max
unfolding ◌+ℤ◌
start_below i n h = ground arith

start_above : (i : SequenceInfo) (n : ℕ) → i.min ≤ℤ i.start → i.min ≤ℤ i.start +ℤ pos (suc n)
unfolding ◌+ℤ◌
start_above i n h = ground arith

near :
    (v : ℤ) (m n : ℕ) → InInt64 v → InInt64 (v +ℤ pos (suc n)) → m ≤ n → InInt64 (v +ℤ pos (suc m))
unfolding ◌+ℤ◌
near v m n h k u = ground arith

above : (v : ℤ) (m n : ℕ) → m ≤ n → v +ℤ pos (suc m) -ℤ pos 1 <ℤ v +ℤ pos (suc n)
unfolding ◌+ℤ◌ ◌-ℤ◌
above v m n u = ground arith

-- The sequence after its first value.
abbrev started : SequenceInfo → Sequence
started i = record {
  info = i;
  current_value = some i.start;
  cached = 1;
  lease = some (new_lease i i.start);
}

first_next :
    (i : SequenceInfo)
    → i.min ≤ℤ i.start
    → i.start ≤ℤ i.max
    → next true true (new_sequence i none) ≡ (ok i.start, started i)
unfolding new_value candidate new_sequence hand_out has_value
first_next i h k = next-new_value true (new_sequence i none) i.start (in_bounds i i.start h k)

second_next :
    (i : SequenceInfo) (n m : ℕ)
    → i.increment_by ≡ pos (suc n)
    → i.cache ≡ suc m
    → suc m < half64
    → i.min ≤ℤ i.start
    → i.start +ℤ pos (suc n) ≤ℤ i.max
    → InInt64 (i.start +ℤ pos (suc n))
    → 1 ≤ m
    → next true true (started i) ≡ (
      ok (i.start +ℤ pos (suc n)),
      record (started i) { cached = 2; current_value = some (i.start +ℤ pos (suc n)) },
    )
unfolding new_value candidate
second_next i n m e f u h k b l =
    next-new_value true (started i) (i.start +ℤ pos (suc n)) (
      ap (λ c. do x ← above_min i c; below_max i x)
        (ap (λ d. wrap (i.start +ℤ d)) e ∙ wrap_in_range _ b)
      ∙ in_bounds i _ (start_above i n h) k)
    ∙ from_cache (started i) i.start _ refl (omega arith) (rw f (omega arith))

first_lease :
    (i : SequenceInfo) (n m : ℕ) (l : ℤ)
    → i.start +ℤ pos (suc n) ≤ℤ i.max
    → m ≤ n
    → l ≡ (let l = i.start +ℤ pos (suc m) -ℤ pos 1 in if ltb_ℤ i.max l then i.max else l)
    → l ≡ i.start +ℤ pos (suc m) -ℤ pos 1
unfolding ◌+ℤ◌ ◌-ℤ◌
first_lease i n m l h u e = ground (arith, e)

-- A new sequence after its first value: the lease it stores does not depend on the increment, so
-- that with an increment as large as the cache the second value is above the lease that covers it.
-- The values and the lease stay within the bounds and do not overflow.
pub next-beyond_lease :
    (i : SequenceInfo) (n m : ℕ)
    → i.increment_by ≡ pos (suc n)
    → i.cache ≡ suc (suc m)
    → suc m ≤ n
    → suc (suc m) < half64
    → i.min ≤ℤ i.start
    → i.start +ℤ pos (suc n) ≤ℤ i.max
    → InInt64 i.start
    → InInt64 (i.start +ℤ pos (suc n))
    → let second = next true true (next true true (new_sequence i none)).1 in
      (second.0 ≡ ok (i.start +ℤ pos (suc n)))
      × (second.1.lease ≡ some (i.start +ℤ pos (suc (suc m)) -ℤ pos 1))
      × (i.start +ℤ pos (suc (suc m)) -ℤ pos 1 <ℤ i.start +ℤ pos (suc n))
next-beyond_lease i n m e f u small lo hi hs hn =
    let first = first_next i lo (start_below i n hi) in
    let second = second_next i n (suc m) e f small lo hi hn (omega arith) in
    let q = ap (λ r. next true true r.1) first ∙ second in
    let l =
      first_lease i n (suc m) (new_lease i i.start) hi u
        (leased i n (suc m) i.start e f small hs (near i.start (suc m) n hs hn u)) in
    (ap (λ r. r.0) q, ap (λ r. r.1.lease) q ∙ ap some l, above i.start (suc m) n u)
