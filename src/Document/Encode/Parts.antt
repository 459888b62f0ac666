-- ===== src/Document/Encode/Parts.antt =====
-- How bytes compare that are written one part after the other, for document/value_encoding.go.
use genji.Prelude.{
  then_assoc, ℕ, ◌<◌, ◌≤◌, ◌≡◌, refl, sym, ap, ap₂, ◌∙◌, Bool, true, false, [], ◌∷◌, ◌++◌, Bytes,
  compare_bytes, then_compare, compare, Ordering, All, arith, length,
}
use genji.Prelude.Int.{ℤ}
use genji.Binarysort.{append_bool, append_int64, append_float64}

-- What can follow a value: nothing, or a delimiter.
pub data Low : Bytes → Type 0 where
  low_nil : Low []
  low_cons : (b : ℕ) (r : Bytes) → b < 45 → Low (b ∷ r)

pub append_assoc : (xs ys zs : Bytes) → (xs ++ ys) ++ zs ≡ xs ++ (ys ++ zs)
append_assoc [] ys zs = refl
append_assoc (x ∷ xs) ys zs = ap (λ ks. x ∷ ks) (append_assoc xs ys zs)

Low-first : (r ys : Bytes) (y : ℕ) → Low r → 45 ≤ y → compare_bytes r (y ∷ ys) ≡ Ordering.lt
unfolding compare_bytes
Low-first [] ys y l h = refl
Low-first (b ∷ r) ys y (low_cons _ _ k) h = ground (arith, k, h)

Low-last : (r ys : Bytes) (y : ℕ) → Low r → 45 ≤ y → compare_bytes (y ∷ ys) r ≡ Ordering.gt
unfolding compare_bytes
Low-last [] ys y l h = refl
Low-last (b ∷ r) ys y (low_cons _ _ k) h = ground (arith, k, h)

-- Bytes of the alphabet before what can follow a value.
pub high_compare :
    (xs ys r s : Bytes)
    → All (λ b. 45 ≤ b) xs
    → All (λ b. 45 ≤ b) ys
    → Low r
    → Low s
    → compare_bytes (xs ++ r) (ys ++ s) ≡ then_compare (compare_bytes xs ys) (compare_bytes r s)
unfolding compare_bytes
high_compare [] [] r s hx hy lr ls = refl
high_compare [] (y ∷ ys) r s hx hy lr ls = Low-first r (ys ++ s) y lr hy.0
high_compare (x ∷ xs) [] r s hx hy lr ls = Low-last s (xs ++ r) x ls hx.0
high_compare (x ∷ xs) (y ∷ ys) r s hx hy lr ls =
    ap (then_compare (compare x y)) (high_compare xs ys r s hx.1 hy.1 lr ls)
    ∙ sym (then_assoc (compare x y) (compare_bytes xs ys) (compare_bytes r s))

-- Bytes of one length before anything.
pub equal_lengths :
    (xs ys r s : Bytes)
    → length xs ≡ length ys
    → compare_bytes (xs ++ r) (ys ++ s) ≡ then_compare (compare_bytes xs ys) (compare_bytes r s)
unfolding compare_bytes
equal_lengths [] [] r s h = refl
equal_lengths [] (y ∷ ys) r s h = absurd (omega (arith, h))
equal_lengths (x ∷ xs) [] r s h = absurd (omega (arith, h))
equal_lengths (x ∷ xs) (y ∷ ys) r s h =
    ap (then_compare (compare x y)) (equal_lengths xs ys r s (omega (arith, h)))
    ∙ sym (then_assoc (compare x y) (compare_bytes xs ys) (compare_bytes r s))

-- Two parts, one after the other.
pub behind :
    (xs ys zs us r s : Bytes) (o p : Ordering)
    → compare_bytes (xs ++ (zs ++ r)) (ys ++ (us ++ s))
      ≡ then_compare o (compare_bytes (zs ++ r) (us ++ s))
    → compare_bytes (zs ++ r) (us ++ s) ≡ then_compare p (compare_bytes r s)
    → compare_bytes ((xs ++ zs) ++ r) ((ys ++ us) ++ s)
      ≡ then_compare (then_compare o p) (compare_bytes r s)
behind xs ys zs us r s o p h k =
    ap₂ compare_bytes (append_assoc xs zs r) (append_assoc ys us s)
    ∙ h
    ∙ ap (then_compare o) k
    ∙ sym (then_assoc o p (compare_bytes r s))

pub append_bool-length : (a b : Bool) → length (append_bool [] a) ≡ length (append_bool [] b)
unfolding append_bool
append_bool-length false false = refl
append_bool-length false true = refl
append_bool-length true false = refl
append_bool-length true true = refl

pub append_int64-length : (a b : ℤ) → length (append_int64 [] a) ≡ length (append_int64 [] b)
unfolding append_int64
append_int64-length a b = refl

pub append_float64-length : (a b : ℕ) → length (append_float64 [] a) ≡ length (append_float64 [] b)
unfolding append_float64
append_float64-length a b = refl
