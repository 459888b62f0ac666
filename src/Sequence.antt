-- ===== src/Sequence.antt =====
-- internal/database/sequence.go: sequences. The row of a sequence in the sequence table is its
-- lease: the value that a restart takes for the current one (catalog/storage.go reads it back and
-- calls NewSequence). Storing it may fail, by the table and its transaction, which are not
-- modelled: `stored` tells whether it did.
pub mod Range
pub mod Lease
pub mod Covered
pub mod Beyond
mod Samples
use genji.Prelude.{
  ℕ, suc, ◌%◌, ◌+◌, Bool, true, false, not, ◌&&◌, Option, none, some, ltb, leb, if◌then◌else◌,
}
use genji.Prelude.Int.{ℤ, pos, ◌+ℤ◌, ◌-ℤ◌, ltb_ℤ, wrap, mod64, of_uint64}
use genji.Prelude.Results.{Result, ok, err, ◌>>=◌}

-- The fields of SequenceInfo that `Next` reads. `cache` is a uint64.
pub record SequenceInfo : Type 0 where
  pub increment_by : ℤ
  pub min : ℤ
  pub max : ℤ
  pub start : ℤ
  pub cache : ℕ
  pub cycle : Bool

-- A sequence and the lease in its row.
pub record Sequence : Type 0 where
  pub info : SequenceInfo
  pub current_value : Option ℤ
  pub cached : ℕ
  pub lease : Option ℤ

pub data SequenceError : Type 0 where
  read_only reached_minimum reached_maximum store_failed : SequenceError

-- NewSequence: a current value that was read back uses up the cache.
unfoldable pub new_sequence : SequenceInfo → Option ℤ → Sequence
new_sequence info none = record { info = info; current_value = none; cached = 0; lease = none }
new_sequence info (some v) = record {
  info = info;
  current_value = some v;
  cached = info.cache;
  lease = some v;
}

-- The value behind the current one, before the bounds.
unfoldable pub candidate : Sequence → ℤ
candidate s = elim s.current_value [
  | none ↦ s.info.start
  | some v ↦ wrap (v +ℤ s.info.increment_by)
]

-- The two tests of the bounds, one after the other.
unfoldable pub above_min : SequenceInfo → ℤ → Result SequenceError ℤ
above_min i v = if ltb_ℤ v i.min then if i.cycle then ok i.max else err reached_minimum else ok v

unfoldable pub below_max : SequenceInfo → ℤ → Result SequenceError ℤ
below_max i v = if ltb_ℤ i.max v then if i.cycle then ok i.min else err reached_maximum else ok v

unfoldable pub new_value : Sequence → Result SequenceError ℤ
unfolding candidate above_min below_max
new_value s = do v ← above_min s.info (candidate s); below_max s.info v

-- The value up to which the next ones may be handed out without storing.
unfoldable pub new_lease : SequenceInfo → ℤ → ℤ
new_lease i v =
    if ltb_ℤ (pos 0) i.increment_by
    then (let l = wrap (wrap (v +ℤ of_uint64 i.cache) -ℤ pos 1) in
        if ltb_ℤ i.max l then i.max else l)
    else (let l = wrap (wrap (v -ℤ of_uint64 i.cache) +ℤ pos 1) in
        if ltb_ℤ l i.min then i.min else l)

unfoldable pub has_value : Option ℤ → Bool
has_value none = false
has_value (some v) = true

-- What Next does once the new value is known; `s.Cached++` comes first. `stored` tells whether the
-- lease could be stored.
unfoldable pub hand_out : Bool → Sequence → ℤ → Result SequenceError ℤ × Sequence
unfolding has_value new_lease
hand_out stored s v =
    let n = suc s.cached % mod64 in
    if has_value s.current_value && leb n s.info.cache
    then (ok v, record s { cached = n; current_value = some v })
    else (let n' : ℕ = if has_value s.current_value then 1 else n in
        if stored
        then (
          ok v,
          record s { cached = n'; current_value = some v; lease = some (new_lease s.info v) },
        )
        else (err store_failed, record s { cached = n' }))

unfoldable pub handed : Bool → Sequence → Result SequenceError ℤ → Result SequenceError ℤ × Sequence
handed stored s (ok v) = hand_out stored s v
handed stored s (err e) = (err e, s)

-- Next
unfoldable pub next : Bool → Bool → Sequence → Result SequenceError ℤ × Sequence
unfolding handed
next writable stored s = if not writable then (err read_only, s) else handed stored s (new_value s)

-- Release: the current value is stored as the lease.
unfoldable pub release : Bool → Sequence → Result SequenceError (Unit {0}) × Sequence
release stored s = elim s.current_value [
  | none ↦ (ok tt, s)
  | some v ↦
      if stored
      then (ok tt, record s { cached = s.info.cache; lease = some v })
      else (err store_failed, s)
]
