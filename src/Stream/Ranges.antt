-- ===== src/Stream/Ranges.antt =====
-- internal/stream/range.go and scan.go: a range of primary keys, with its encoded bounds, and the scan
-- of one range. The table is the list of its keys in the order of the walk, from the start of the range
-- on; the function that the scan calls returns no error.
pub mod Scans
use genji.Prelude.{
  ℕ, Bool, true, false, not, ◌&&◌, Option, none, some, List, [], ◌∷◌, Bytes, compare_bytes,
  Ordering, if◌then◌else◌,
}

-- The fields of encodedValueRange that a scan reads.
pub record Range : Type 0 where
  pub encoded_min : Option Bytes
  pub encoded_max : Option Bytes
  pub exclusive : Bool
  pub exact : Bool

-- bytes.Compare with a bound, where there is one.
unfoldable pub compare_bound : Ordering → Option Bytes → Bytes → Ordering
compare_bound default none value = default
compare_bound default (some b) value = compare_bytes value b

abbrev pub is_equal : Ordering → Bool
is_equal Ordering.lt = false
is_equal Ordering.eq = true
is_equal Ordering.gt = false

abbrev pub is_more : Ordering → Bool
is_more Ordering.lt = false
is_more Ordering.eq = false
is_more Ordering.gt = true

abbrev pub is_less : Ordering → Bool
is_less Ordering.lt = true
is_less Ordering.eq = false
is_less Ordering.gt = false

-- encodedValueRange.IsInRange
unfoldable pub is_in_range : Range → Bytes → Bool
unfolding compare_bound
is_in_range r value =
    let cmp_min = compare_bound Ordering.gt r.encoded_min value in
    let cmp_max = compare_bound Ordering.lt r.encoded_max value in
    if r.exact
    then is_equal cmp_min
    else if r.exclusive && is_equal cmp_min
    then false
    else if r.exclusive && is_equal cmp_max
    then false
    else not (is_more cmp_max)

-- Whether a key that is not in the range ends the scan.
unfoldable pub ends_scan : Bool → Option Bytes → Bytes → Bool
ends_scan reverse none key = false
ends_scan false (some e) key = is_more (compare_bytes key e)
ends_scan true (some e) key = is_less (compare_bytes key e)

-- PkScanOperator.Iterate for one range: the keys whose documents it passes on.
unfoldable pub pk_scan : Bool → Range → List Bytes → List Bytes
unfolding is_in_range ends_scan
pk_scan reverse r [] = []
pk_scan reverse r (key ∷ keys) =
    let rest = pk_scan reverse r keys in
    if is_in_range r key
    then key ∷ rest
    else if ends_scan reverse (if reverse then r.encoded_min else r.encoded_max) key
    then []
    else rest
