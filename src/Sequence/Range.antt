-- ===== src/Sequence/Range.antt =====
-- The values of internal/database/sequence.go against the bounds of the sequence, and the errors.
use genji.Prelude.{◌≡◌, refl, ap, Bool, true, false, some, arith}
use genji.Prelude.Int.{ℤ, ◌≤ℤ◌}
use genji.Prelude.Results.{Result, ok, err, ok-injective, ◌>>=◌}
use genji.Sequence.{
  SequenceInfo, Sequence, SequenceError, above_min, below_max, candidate, new_value, hand_out,
  handed, next,
}

above_min-bounds : (i : SequenceInfo) (c x : ℤ) → i.min ≤ℤ i.max → above_min i c ≡ ok x → i.min ≤ℤ x
unfolding above_min
above_min-bounds i c x h e = grind (arith, ok-injective)

below_max-bounds :
    (i : SequenceInfo) (x v : ℤ)
    → i.min ≤ℤ i.max
    → i.min ≤ℤ x
    → below_max i x ≡ ok v
    → (i.min ≤ℤ v) × (v ≤ℤ i.max)
unfolding below_max
below_max-bounds i x v h k e = grind (arith, ok-injective)

both_bounds :
    (i : SequenceInfo) (r : Result SequenceError ℤ) (v : ℤ)
    → i.min ≤ℤ i.max
    → ((x : ℤ) → r ≡ ok x → i.min ≤ℤ x)
    → (do x ← r; below_max i x) ≡ ok v
    → (i.min ≤ℤ v) × (v ≤ℤ i.max)
both_bounds i (ok x) v h k e = below_max-bounds i x v h (k x refl) e
both_bounds i (err x) v h k e = cc

hand_out-value :
    (stored : Bool) (s : Sequence) (v x : ℤ)
    → (hand_out stored s x).0 ≡ ok v
    → (x ≡ v) × ((hand_out stored s x).1.current_value ≡ some v)
unfolding hand_out
hand_out-value stored s v x e = grind (arith, ok-injective)

pub handed-value :
    (stored : Bool) (s : Sequence) (r : Result SequenceError ℤ) (v : ℤ)
    → (handed stored s r).0 ≡ ok v
    → (r ≡ ok v) × ((handed stored s r).1.current_value ≡ some v)
unfolding handed
handed-value stored s (ok x) v e = let p = hand_out-value stored s v x e in (ap ok p.0, p.1)
handed-value stored s (err x) v e = cc

-- The value that Next returns lies between the bounds of the sequence and is its new current
-- value, where the least value is at most the greatest one.
pub next_lem :
    (writable stored : Bool) (s : Sequence) (v : ℤ)
    → s.info.min ≤ℤ s.info.max
    → (next writable stored s).0 ≡ ok v
    → (s.info.min ≤ℤ v) × (v ≤ℤ s.info.max) × ((next writable stored s).1.current_value ≡ some v)
unfolding next new_value
next_lem false stored s v h e = cc
next_lem true stored s v h e =
    let p = handed-value stored s (new_value s) v e in
    let b = both_bounds s.info _ v h (λ x q. above_min-bounds s.info (candidate s) x h q) p.0 in
    (b.0, b.1, p.1)

handed_error :
    (stored : Bool) (s : Sequence) (r : Result SequenceError ℤ) (x : SequenceError)
    → (handed stored s r).0 ≡ err x
    → ((handed stored s r).1.current_value ≡ s.current_value)
      × ((handed stored s r).1.lease ≡ s.lease)
unfolding handed hand_out
handed_error stored s (ok v) x e = ground (arith, e)
handed_error stored s (err y) x e = (refl, refl)

-- A Next that returns an error leaves the current value and the stored lease as they were.
pub next_error :
    (writable stored : Bool) (s : Sequence) (x : SequenceError)
    → (next writable stored s).0 ≡ err x
    → ((next writable stored s).1.current_value ≡ s.current_value)
      × ((next writable stored s).1.lease ≡ s.lease)
unfolding next
next_error false stored s x e = (refl, refl)
next_error true stored s x e = handed_error stored s (new_value s) x e
