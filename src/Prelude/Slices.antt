-- ===== src/Prelude/Slices.antt =====
-- Byte slices and Go strings, which are byte sequences, with `bytes.Compare` and equality.
use Prim.Native.Nat.{ℕ, compare, Ordering}
use mathlib.Core.Path.{◌≡◌, refl, subst}
use mathlib.Core.Logic.{◌↔◌}
use mathlib.Core.Bool.{Bool, true, false, ◌&&◌}
use mathlib.Core.List.{List, [], ◌∷◌, ◌++◌}
use native.Mathlib.Omega.{arith}
use genji.Prelude.Tests.{◌==◌}

abbrev pub Bytes : Type 0
Bytes = List ℕ

abbrev pub flip : Ordering → Ordering
flip Ordering.lt = Ordering.gt
flip Ordering.eq = Ordering.eq
flip Ordering.gt = Ordering.lt

abbrev pub then_compare : Ordering → Ordering → Ordering
then_compare Ordering.lt o = Ordering.lt
then_compare Ordering.gt o = Ordering.gt
then_compare Ordering.eq o = o

-- `bytes.Compare` and `strings.Compare`: lexicographic.
unfoldable pub compare_bytes : Bytes → Bytes → Ordering
compare_bytes [] [] = Ordering.eq
compare_bytes [] (y ∷ ys) = Ordering.lt
compare_bytes (x ∷ xs) [] = Ordering.gt
compare_bytes (x ∷ xs) (y ∷ ys) = then_compare (compare x y) (compare_bytes xs ys)

-- `bytes.Equal`, and `==` on strings.
unfoldable pub bytes_eq : Bytes → Bytes → Bool
bytes_eq [] [] = true
bytes_eq [] (y ∷ ys) = false
bytes_eq (x ∷ xs) [] = false
bytes_eq (x ∷ xs) (y ∷ ys) = (x == y) && bytes_eq xs ys

pub compare_bytes_self : (s : Bytes) → compare_bytes s s ≡ Ordering.eq
unfolding compare_bytes
compare_bytes_self [] = refl
compare_bytes_self (x ∷ xs) = ground (arith, compare_bytes_self xs)

pub compare_bytes-flip : (s t : Bytes) → compare_bytes t s ≡ flip (compare_bytes s t)
unfolding compare_bytes
compare_bytes-flip [] [] = refl
compare_bytes-flip [] (y ∷ ys) = refl
compare_bytes-flip (x ∷ xs) [] = refl
compare_bytes-flip (x ∷ xs) (y ∷ ys) = ground (arith, compare_bytes-flip xs ys)

pub bytes_eq_self : (s : Bytes) → bytes_eq s s ≡ true
unfolding bytes_eq
bytes_eq_self [] = refl
bytes_eq_self (x ∷ xs) = ground (arith, bytes_eq_self xs)

pub bytes_eq→eq : (s t : Bytes) → bytes_eq s t ≡ true → s ≡ t
unfolding bytes_eq
bytes_eq→eq [] [] h = refl
bytes_eq→eq [] (y ∷ ys) h = cc
bytes_eq→eq (x ∷ xs) [] h = cc
bytes_eq→eq (x ∷ xs) (y ∷ ys) h = ground (arith, bytes_eq→eq xs ys)

pub bytes_eq_iff : (s t : Bytes) → (bytes_eq s t ≡ true) ↔ (s ≡ t)
bytes_eq_iff s t = (bytes_eq→eq s t, λ e. subst (λ u. bytes_eq s u ≡ true) e (bytes_eq_self s))

pub bytes_eq_comm : (s t : Bytes) → bytes_eq s t ≡ bytes_eq t s
unfolding bytes_eq
bytes_eq_comm [] [] = refl
bytes_eq_comm [] (y ∷ ys) = refl
bytes_eq_comm (x ∷ xs) [] = refl
bytes_eq_comm (x ∷ xs) (y ∷ ys) = ground (arith, bytes_eq_comm xs ys)

-- Equality is the case `eq` of the comparison.
pub compare_bytes-eq : (s t : Bytes) → (compare_bytes s t ≡ Ordering.eq) ↔ (bytes_eq s t ≡ true)
unfolding compare_bytes bytes_eq
compare_bytes-eq [] [] = ground arith
compare_bytes-eq [] (y ∷ ys) = ground arith
compare_bytes-eq (x ∷ xs) [] = ground arith
compare_bytes-eq (x ∷ xs) (y ∷ ys) = ground (arith, compare_bytes-eq xs ys)

-- A common front does not matter.
pub compare_bytes-append : (p s t : Bytes) → compare_bytes (p ++ s) (p ++ t) ≡ compare_bytes s t
unfolding compare_bytes
compare_bytes-append [] s t = refl
compare_bytes-append (x ∷ p) s t = ground (arith, compare_bytes-append p s t)

pub compare_bytes-eq→eq : (s t : Bytes) → compare_bytes s t ≡ Ordering.eq → s ≡ t
compare_bytes-eq→eq s t h = bytes_eq→eq s t ((compare_bytes-eq s t).0 h)

pub compare_bytes_trans :
    (s t u : Bytes)
    → compare_bytes s t ≡ Ordering.lt
    → compare_bytes t u ≡ Ordering.lt
    → compare_bytes s u ≡ Ordering.lt
unfolding compare_bytes
compare_bytes_trans s [] u h k = absurd (empty_last s h)
  where
    empty_last : (s : Bytes) → compare_bytes s [] ≡ Ordering.lt → ⊥
    empty_last [] h = cc h
    empty_last (x ∷ s) h = cc h
compare_bytes_trans [] (y ∷ t) [] h k = absurd (cc k)
compare_bytes_trans (x ∷ s) (y ∷ t) [] h k = absurd (cc k)
compare_bytes_trans [] (y ∷ t) (z ∷ u) h k = refl
compare_bytes_trans (x ∷ s) (y ∷ t) (z ∷ u) h k =
    let ih = compare_bytes_trans s t u in ground (arith, ih, h, k)

pub then_assoc :
    (a b c : Ordering) → then_compare (then_compare a b) c ≡ then_compare a (then_compare b c)
then_assoc Ordering.lt b c = refl
then_assoc Ordering.eq b c = refl
then_assoc Ordering.gt b c = refl
