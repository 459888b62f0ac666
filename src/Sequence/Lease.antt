-- ===== src/Sequence/Lease.antt =====
-- The lease of internal/database/sequence.go against the values that have been handed out.
use genji.Prelude.{
  ℕ, suc, ◌<◌, ◌≤◌, ◌≡◌, refl, ap, sym, subst, ◌∙◌, Bool, true, false, some, if◌then◌else◌, inl,
  inr, ◌⊎◌, arith,
}
use genji.Prelude.Int.{
  ℤ, pos, ltb_ℤ, ◌≤ℤ◌, InInt64, ◌+ℤ◌, ◌-ℤ◌, half64, wrap, wrap_in_range, of_uint64,
}
use genji.Prelude.Results.{Result, ok, err, ok-injective, ◌>>=◌}
use genji.Sequence.{
  SequenceInfo, Sequence, candidate, above_min, below_max, SequenceError, store_failed, new_value,
  hand_out, handed, has_value, next, new_lease,
}

refused :
    (s : Sequence) (v x : ℤ)
    → s.current_value ≡ some v
    → s.cached ≡ s.info.cache
    → s.info.cache < half64
    → hand_out false s x ≡ (err store_failed, record s { cached = 1 })
unfolding hand_out has_value
refused s v x c d u = ground (arith, c)

next_round :
    (s : Sequence) (v x : ℤ)
    → s.current_value ≡ some v
    → 2 ≤ s.info.cache
    → hand_out false (record s { cached = 1 }) x
      ≡ (ok x, record s { cached = 2; current_value = some x })
unfolding hand_out has_value
next_round s v x c l = ground (arith, c)

pub next-new_value :
    (stored : Bool) (s : Sequence) (x : ℤ)
    → new_value s ≡ ok x
    → next true stored s ≡ hand_out stored s x
unfolding next handed
next-new_value stored s x e = ap (handed stored s) e

new_value-cached : (s : Sequence) (n : ℕ) → new_value (record s { cached = n }) ≡ new_value s
unfolding new_value candidate
new_value-cached s n = refl

-- A Next whose lease could not be stored starts a new round of cached values, so that the Next
-- after it hands a value out without storing anything: the lease is still the value before it.
-- This is where the cache was used up and holds at least two values and fewer than 2^63, and the bounds allow the
-- value.
pub next-store_failed :
    (s : Sequence) (v x : ℤ)
    → s.current_value ≡ some v
    → s.cached ≡ s.info.cache
    → 2 ≤ s.info.cache
    → s.info.cache < half64
    → new_value s ≡ ok x
    → ((next true false s).0 ≡ err store_failed)
      × ((next true false (next true false s).1).0 ≡ ok x)
      × ((next true false (next true false s).1).1.lease ≡ s.lease)
next-store_failed s v x c d l u e =
    let first = next-new_value false s x e ∙ refused s v x c d u in
    let second =
      next-new_value false (record s { cached = 1 }) x (new_value-cached s 1 ∙ e)
      ∙ next_round s v x c l in
    rw first (refl, ap (λ r. r.0) second, ap (λ r. r.1.lease) second)

-- A step of the values that stays between the bounds.
pub in_bounds :
    (i : SequenceInfo) (c : ℤ)
    → i.min ≤ℤ c
    → c ≤ℤ i.max
    → (do x ← above_min i c; below_max i x) ≡ ok c
unfolding above_min below_max
in_bounds i c h k = ground arith

small_uint64 : (n : ℕ) → n < half64 → of_uint64 n ≡ pos n
unfolding of_uint64
small_uint64 n h = ground arith

one_below :
    (v : ℤ) (n : ℕ) → InInt64 v → InInt64 (v +ℤ pos (suc n)) → InInt64 (v +ℤ pos (suc n) -ℤ pos 1)
unfolding ◌+ℤ◌ ◌-ℤ◌
one_below v n h k = ground arith

-- The lease without wrap-around.
pub leased :
    (i : SequenceInfo) (n m : ℕ) (v : ℤ)
    → i.increment_by ≡ pos (suc n)
    → i.cache ≡ suc m
    → suc m < half64
    → InInt64 v
    → InInt64 (v +ℤ pos (suc m))
    → new_lease i v ≡ (let l = v +ℤ pos (suc m) -ℤ pos 1 in if ltb_ℤ i.max l then i.max else l)
unfolding new_lease
leased i n m v e f u hv hc =
    rw
      (
        e,
        f,
        small_uint64 (suc m) u,
        wrap_in_range (v +ℤ pos (suc m)) hc,
        wrap_in_range (v +ℤ pos (suc m) -ℤ pos 1) (one_below v m hv hc),
      )
      (ground arith)

-- The value is not above the lease, and as many values as the cache has left stay below it, or
-- the lease is the greatest value.
abbrev pub IsCovered : SequenceInfo → ℕ → ℤ → ℤ → Type 0
IsCovered i c v l = (v ≤ℤ l) × ((l ≡ i.max) ⊎ (v +ℤ pos i.cache ≤ℤ l +ℤ pos c))

-- A value that is handed out from the cache.
cached_value :
    (i : SequenceInfo) (c : ℕ) (v x l : ℤ)
    → IsCovered i c v l
    → suc c ≤ i.cache
    → x ≤ℤ v +ℤ pos 1
    → x ≤ℤ i.max
    → IsCovered i (suc c) x l
unfolding ◌+ℤ◌
cached_value i c v x l h u k m = ground (arith, h)

-- A value that is handed out with a new lease.
fresh_value :
    (i : SequenceInfo) (m : ℕ) (x l : ℤ)
    → i.cache ≡ suc m
    → x ≤ℤ i.max
    → l ≡ (let l = x +ℤ pos (suc m) -ℤ pos 1 in if ltb_ℤ i.max l then i.max else l)
    → IsCovered i 1 x l
unfolding ◌+ℤ◌ ◌-ℤ◌
fresh_value i m x l e h q = ground (arith, e, q)

some-injective : {a b : ℤ} → some a ≡ some b → a ≡ b
some-injective h = cc

-- What hand_out does in a sequence that has a value.
pub from_cache :
    (s : Sequence) (v x : ℤ)
    → s.current_value ≡ some v
    → s.cached < half64
    → suc s.cached ≤ s.info.cache
    → hand_out true s x ≡ (ok x, record s { cached = suc s.cached; current_value = some x })
unfolding hand_out has_value
from_cache s v x c b u = ground (arith, c)

with_lease :
    (s : Sequence) (v x : ℤ)
    → s.current_value ≡ some v
    → s.cached < half64
    → s.info.cache < suc s.cached
    → hand_out true s x
      ≡ (ok x, record s { cached = 1; current_value = some x; lease = some (new_lease s.info x) })
unfolding hand_out has_value
with_lease s v x c b u = ground (arith, c)

pub le_or_lt : (a b : ℕ) → (a ≤ b) ⊎ (b < a)
le_or_lt a b = ground arith

wrap-le : (v : ℤ) → InInt64 v → wrap (v +ℤ pos 1) ≤ℤ v +ℤ pos 1
unfolding wrap ◌+ℤ◌
wrap-le v h = ground arith

no_cycle_low : (i : SequenceInfo) (c y : ℤ) → i.cycle ≡ false → above_min i c ≡ ok y → c ≡ y
unfolding above_min
no_cycle_low i c y f e = grind (arith, ok-injective)

no_cycle_high :
    (i : SequenceInfo) (c y : ℤ) → i.cycle ≡ false → below_max i c ≡ ok y → (c ≡ y) × (y ≤ℤ i.max)
unfolding below_max
no_cycle_high i c y f e = grind (arith, ok-injective)

no_cycle_lem :
    (i : SequenceInfo) (c x : ℤ) (r : Result SequenceError ℤ)
    → i.cycle ≡ false
    → ((y : ℤ) → r ≡ ok y → c ≡ y)
    → (do y ← r; below_max i y) ≡ ok x
    → (c ≡ x) × (x ≤ℤ i.max)
no_cycle_lem i c x (ok y) f k e = let p = no_cycle_high i y x f e in (k y refl ∙ p.0, p.1)
no_cycle_lem i c x (err y) f k e = cc

module _ (s : Sequence) (n m : ℕ) (v x l : ℤ) (inc : s.info.increment_by ≡ pos (suc n))
    (size : s.info.cache ≡ suc m) (small : suc m < half64) (b : s.cached < half64)
    (c : s.current_value ≡ some v) (d : s.lease ≡ some l) (h : IsCovered s.info s.cached v l)
    (step : x ≤ℤ v +ℤ pos 1) (top : x ≤ℤ s.info.max) (hx : InInt64 x)
    (hc : InInt64 (x +ℤ pos (suc m))) where
  pub hand_out-IsCovered :
      (l' : ℤ)
      → (hand_out true s x).1.lease ≡ some l'
      → IsCovered s.info (hand_out true s x).1.cached x l'
  hand_out-IsCovered l' e = elim (le_or_lt (suc s.cached) s.info.cache) [
    | inl u ↦
        let r = from_cache s v x c b u in
        rw r (
          subst (λ y. IsCovered s.info (suc s.cached) x y)
            (some-injective (sym d ∙ sym (ap (λ r. r.1.lease) r) ∙ e))
            (cached_value s.info s.cached v x l h u step top))
    | inr u ↦
        let r = with_lease s v x c b u in
        rw r (
          fresh_value s.info m x l' size top (
            some-injective (sym e ∙ ap (λ r. r.1.lease) r)
            ∙ leased s.info n m x inc size small hx hc))
  ]

-- Without a cycle the new value is the candidate.
pub no_cycle :
    (i : SequenceInfo) (c x : ℤ)
    → i.cycle ≡ false
    → (do y ← above_min i c; below_max i y) ≡ ok x
    → (c ≡ x) × (x ≤ℤ i.max)
no_cycle i c x f e = no_cycle_lem i c x (above_min i c) f (λ y q. no_cycle_low i c y f q) e

pub candidate-le :
    (s : Sequence) (v : ℤ)
    → s.current_value ≡ some v
    → s.info.increment_by ≡ pos 1
    → InInt64 v
    → candidate s ≤ℤ v +ℤ pos 1
unfolding candidate
candidate-le s v c e h = rw (c, e) (wrap-le v h)
