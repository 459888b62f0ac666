-- ===== src/Stream/Ranges/Scans.antt =====
-- What a scan of one range of primary keys passes on (internal/stream/range.go, scan.go).
use genji.Prelude.{
  ◌≡◌, refl, sym, ap, ◌∙◌, inl, inr, Bool, true, false, not, ◌&&◌, Option, none, some, List, [],
  ◌∷◌, Bytes, compare_bytes, Ordering, if◌then◌else◌, arith, Bool-cases, All,
}
use genji.Stream.Ranges.{
  Range, compare_bound, is_equal, is_more, is_less, is_in_range, ends_scan, pk_scan,
}

-- The meaning of the bounds: equal to the minimum, or between the two.
unfoldable pub above : Bool → Option Bytes → Bytes → Bool
above strict none key = true
above true (some b) key = is_more (compare_bytes key b)
above false (some b) key = not (is_less (compare_bytes key b))

unfoldable pub below : Bool → Option Bytes → Bytes → Bool
below strict none key = true
below true (some b) key = is_less (compare_bytes key b)
below false (some b) key = not (is_more (compare_bytes key b))

unfoldable pub equal_to : Option Bytes → Bytes → Bool
equal_to none key = false
equal_to (some b) key = is_equal (compare_bytes key b)

unfoldable pub within : Range → Bytes → Bool
unfolding above below equal_to
within r key =
    if r.exact
    then equal_to r.encoded_min key
    else above r.exclusive r.encoded_min key && below r.exclusive r.encoded_max key

unfoldable pub keys_within : Range → List Bytes → List Bytes
unfolding within
keys_within r [] = []
keys_within r (key ∷ keys) =
    let rest = keys_within r keys in if within r key then key ∷ rest else rest

-- Keys in the order of a table.
pub data Ascending : List Bytes → Type 0 where
  no_keys : Ascending []
  one_key : (k : Bytes) → Ascending (k ∷ [])
  more_keys :
      (k j : Bytes) (ks : List Bytes)
      → compare_bytes k j ≡ Ordering.lt
      → Ascending (j ∷ ks)
      → Ascending (k ∷ j ∷ ks)

by_bounds :
    (exclusive exact : Bool) (lo hi : Option Bytes) (key : Bytes)
    → above false lo key ≡ true
    → is_in_range
        (record { encoded_min = lo; encoded_max = hi; exclusive = exclusive; exact = exact })
        key
      ≡ within
          (record { encoded_min = lo; encoded_max = hi; exclusive = exclusive; exact = exact })
          key
unfolding is_in_range within above below equal_to compare_bound
by_bounds x true none hi key h = refl
by_bounds x true (some lo) hi key h = refl
by_bounds true false none none key h = refl
by_bounds false false none none key h = refl
by_bounds true false (some lo) none key h = ground (arith, h)
by_bounds false false (some lo) none key h = ground (arith, h)
by_bounds true false none (some hi) key h = ground arith
by_bounds false false none (some hi) key h = ground arith
by_bounds true false (some lo) (some hi) key h = ground (arith, h)
by_bounds false false (some lo) (some hi) key h = ground (arith, h)

beyond :
    (k j e : Bytes)
    → compare_bytes k e ≡ Ordering.gt
    → compare_bytes k j ≡ Ordering.lt
    → compare_bytes j e ≡ Ordering.gt
unfolding compare_bytes
beyond [] j [] h q = absurd (cc h)
beyond [] j (z ∷ e) h q = absurd (cc h)
beyond (x ∷ k) [] e h q = absurd (cc q)
beyond (x ∷ k) (y ∷ j) [] h q = refl
beyond (x ∷ k) (y ∷ j) (z ∷ e) h q = let ih = beyond k j e in ground (arith, ih, h, q)

and_false : (b : Bool) → b && false ≡ false
and_false true = refl
and_false false = refl

below_gt :
    (strict : Bool) (e key : Bytes)
    → compare_bytes key e ≡ Ordering.gt
    → below strict (some e) key ≡ false
unfolding below
below_gt true e key g = rw g refl
below_gt false e key g = rw g refl

beyond_within :
    (r : Range) (e key : Bytes)
    → r.encoded_max ≡ some e
    → r.exact ≡ false
    → compare_bytes key e ≡ Ordering.gt
    → within r key ≡ false
unfolding within
beyond_within r e key h x g =
    rw (x, h)
      (ap (λ b. above r.exclusive r.encoded_min key && b) (below_gt r.exclusive e key g)
        ∙ and_false _)

-- Behind the upper bound no key is in the range.
keys_beyond :
    (r : Range) (e k : Bytes) (ks : List Bytes)
    → r.encoded_max ≡ some e
    → r.exact ≡ false
    → compare_bytes k e ≡ Ordering.gt
    → Ascending (k ∷ ks)
    → keys_within r ks ≡ []
unfolding keys_within
keys_beyond r e k [] h x g a = refl
keys_beyond r e k (j ∷ ks) h x g (more_keys _ _ _ q a) =
    let g' = beyond k j e g q in rw (beyond_within r e j h x g', keys_beyond r e j ks h x g' a) refl

more_is : (o : Ordering) → is_more o ≡ true → o ≡ Ordering.gt
more_is Ordering.lt h = absurd (cc h)
more_is Ordering.eq h = absurd (cc h)
more_is Ordering.gt h = refl

ended :
    (r : Range) (o : Option Bytes) (k : Bytes) (ks : List Bytes)
    → r.encoded_max ≡ o
    → (r.exact ≡ true → r.encoded_max ≡ none)
    → ends_scan false o k ≡ true
    → Ascending (k ∷ ks)
    → keys_within r ks ≡ []
unfolding ends_scan
ended r none k ks h x g a = absurd (cc g)
ended r (some e) k ks h x g a = elim (Bool-cases r.exact) [
  | inl p ↦ (let q = x p in absurd (cc (h, q)))
  | inr p ↦ keys_beyond r e k ks h p (more_is (compare_bytes k e) g) a
]

tail_Ascending : (k : Bytes) (ks : List Bytes) → Ascending (k ∷ ks) → Ascending ks
tail_Ascending k [] a = no_keys
tail_Ascending k (j ∷ ks) (more_keys _ _ _ q a) = a

-- A scan in ascending order from the lower bound on passes on exactly the keys within the bounds, and
-- where it stops early none is left; this where a range for an exact value has no upper bound.
pub pk_scan-within :
    (r : Range) (keys : List Bytes)
    → (r.exact ≡ true → r.encoded_max ≡ none)
    → All (λ k. above false r.encoded_min k ≡ true) keys
    → Ascending keys
    → pk_scan false r keys ≡ keys_within r keys
unfolding pk_scan keys_within
pk_scan-within r [] x m a = refl
pk_scan-within r (k ∷ ks) x m a =
    let ih = pk_scan-within r ks x m.1 (tail_Ascending k ks a) in
    let same = by_bounds r.exclusive r.exact r.encoded_min r.encoded_max k m.0 in
    elim (Bool-cases (is_in_range r k)) [
      | inl p ↦ rw (p, sym same ∙ p) (ap (λ js. k ∷ js) ih)
      | inr p ↦ elim (Bool-cases (ends_scan false r.encoded_max k)) [
        | inr q ↦ rw (p, q, sym same ∙ p) ih
        | inl q ↦ rw (p, q, sym same ∙ p) (sym (ended r r.encoded_max k ks refl x q a))
      ]
    ]

lower_bound_alone :
    (exclusive : Bool) (b key : Bytes)
    → compare_bytes key b ≡ Ordering.lt
    → is_in_range
        (record { encoded_min = some b; encoded_max = none; exclusive = exclusive; exact = false })
        key
      ≡ true
unfolding is_in_range compare_bound
lower_bound_alone true b key g = rw g refl
lower_bound_alone false b key g = refl

below_bound :
    (exclusive : Bool) (b key : Bytes)
    → compare_bytes key b ≡ Ordering.lt
    → within
        (record { encoded_min = some b; encoded_max = none; exclusive = exclusive; exact = false })
        key
      ≡ false
unfolding within above below
below_bound true b key g = rw g refl
below_bound false b key g = rw g refl

-- A scan in descending order of a range that has a lower bound alone passes on a key below the bound,
-- which is not within the range.
pub pk_scan_below :
    (exclusive : Bool) (b key : Bytes) (keys : List Bytes)
    → compare_bytes key b ≡ Ordering.lt
    → let r : Range = record {
      encoded_min = some b;
      encoded_max = none;
      exclusive = exclusive;
      exact = false;
    } in
      (pk_scan true r (key ∷ keys) ≡ key ∷ pk_scan true r keys) × (within r key ≡ false)
unfolding pk_scan
pk_scan_below exclusive b key keys g =
    (rw (lower_bound_alone exclusive b key g) refl, below_bound exclusive b key g)
