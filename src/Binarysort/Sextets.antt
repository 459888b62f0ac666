-- ===== src/Binarysort/Sextets.antt =====
-- The base64 encoding of internal/binarysort/binarysort.go sorts as what it encodes.
use genji.Prelude.{
  ℕ, zero, suc, ◌+◌, ◌*◌, ◌/◌, ◌%◌, ◌<◌, ◌≤◌, ◌≡◌, refl, sym, ap, ap₂, subst, then_assoc, ◌∙◌, Bool,
  true, false, ◌&&◌, [], ◌∷◌, Bytes, length, ltb, compare_bytes, then_compare, compare, Ordering,
  All, arith,
}
use genji.Binarysort.{base64encoder, at, letters, sextets, IsBytes, Base64, append_base64}

-- A number by its quotient and its remainder.
split_4 : (a b : ℕ) → compare a b ≡ then_compare (compare (a / 4) (b / 4)) (compare (a % 4) (b % 4))
split_4 a b = ground arith

split_16 :
    (a b : ℕ) → compare a b ≡ then_compare (compare (a / 16) (b / 16)) (compare (a % 16) (b % 16))
split_16 a b = ground arith

split_64 :
    (a b : ℕ) → compare a b ≡ then_compare (compare (a / 64) (b / 64)) (compare (a % 64) (b % 64))
split_64 a b = ground arith

join_16 :
    (p q p' q' : ℕ)
    → q < 16
    → q' < 16
    → compare (p * 16 + q) (p' * 16 + q') ≡ then_compare (compare p p') (compare q q')
join_16 p q p' q' h k = ground (arith, h, k)

join_4 :
    (p q p' q' : ℕ)
    → q < 4
    → q' < 4
    → compare (p * 4 + q) (p' * 4 + q') ≡ then_compare (compare p p') (compare q q')
join_4 p q p' q' h k = ground (arith, h, k)

regroup :
    (a a' b b' c c' r : Ordering)
    → then_compare a
        (then_compare (then_compare a' b) (then_compare (then_compare b' c) (then_compare c' r)))
      ≡ then_compare
          (then_compare a a')
          (then_compare (then_compare b b') (then_compare (then_compare c c') r))
regroup Ordering.lt a' b b' c c' r = refl
regroup Ordering.gt a' b b' c c' r = refl
regroup Ordering.eq Ordering.lt b b' c c' r = refl
regroup Ordering.eq Ordering.gt b b' c c' r = refl
regroup Ordering.eq Ordering.eq Ordering.lt b' c c' r = refl
regroup Ordering.eq Ordering.eq Ordering.gt b' c c' r = refl
regroup Ordering.eq Ordering.eq Ordering.eq Ordering.lt c c' r = refl
regroup Ordering.eq Ordering.eq Ordering.eq Ordering.gt c c' r = refl
regroup Ordering.eq Ordering.eq Ordering.eq Ordering.eq Ordering.lt c' r = refl
regroup Ordering.eq Ordering.eq Ordering.eq Ordering.eq Ordering.gt c' r = refl
regroup Ordering.eq Ordering.eq Ordering.eq Ordering.eq Ordering.eq c' r = refl

-- A number whose last bits are zero, against one that ends with others.
zero_bits_lt :
    (p p' q : ℕ)
    → q < 16
    → then_compare (compare (p * 16) (p' * 16 + q)) Ordering.lt
      ≡ then_compare (compare p p') Ordering.lt
zero_bits_lt p p' q h = ground (arith, h)

zero_bits_gt :
    (p p' q : ℕ)
    → q < 16
    → then_compare (compare (p' * 16 + q) (p * 16)) Ordering.gt
      ≡ then_compare (compare p' p) Ordering.gt
zero_bits_gt p p' q h = ground (arith, h)

zero_bits_4_lt :
    (p p' q : ℕ)
    → q < 4
    → then_compare (compare (p * 4) (p' * 4 + q)) Ordering.lt
      ≡ then_compare (compare p p') Ordering.lt
zero_bits_4_lt p p' q h = ground (arith, h)

zero_bits_4_gt :
    (p p' q : ℕ)
    → q < 4
    → then_compare (compare (p' * 4 + q) (p * 4)) Ordering.gt
      ≡ then_compare (compare p' p) Ordering.gt
zero_bits_4_gt p p' q h = ground (arith, h)

-- The first byte, where one of the two has nothing behind it.
one_byte :
    (a d : ℕ) (r o : Ordering)
    → r ≡ then_compare (compare (a % 4) (d % 4)) o
    → then_compare (compare (a / 4) (d / 4)) r ≡ then_compare (compare a d) o
one_byte a d r o h =
    ap (then_compare (compare (a / 4) (d / 4))) h
    ∙ sym (then_assoc (compare (a / 4) (d / 4)) (compare (a % 4) (d % 4)) o)
    ∙ ap (λ x. then_compare x o) (sym (split_4 a d))

regroup_two :
    (a a' b b' o : Ordering)
    → then_compare a (then_compare (then_compare a' b) (then_compare b' o))
      ≡ then_compare (then_compare a a') (then_compare (then_compare b b') o)
regroup_two Ordering.lt a' b b' o = refl
regroup_two Ordering.gt a' b b' o = refl
regroup_two Ordering.eq Ordering.lt b b' o = refl
regroup_two Ordering.eq Ordering.gt b b' o = refl
regroup_two Ordering.eq Ordering.eq b b' o = sym (then_assoc b b' o)

two_bytes :
    (a b d e : ℕ) (r o : Ordering)
    → b < 256
    → e < 256
    → r ≡ then_compare (compare (b % 16) (e % 16)) o
    → then_compare
        (compare (a / 4) (d / 4))
        (then_compare (compare (a % 4 * 16 + b / 16) (d % 4 * 16 + e / 16)) r)
      ≡ then_compare (compare a d) (then_compare (compare b e) o)
two_bytes a b d e r o hb he h =
    ap (then_compare (compare (a / 4) (d / 4))) (
      ap₂ then_compare
        (join_16 (a % 4) (b / 16) (d % 4) (e / 16) (omega (arith, hb)) (omega (arith, he))) h)
    ∙ regroup_two (compare (a / 4) (d / 4)) (compare (a % 4) (d % 4)) (compare (b / 16) (e / 16))
        (compare (b % 16) (e % 16)) o
    ∙ sym (ap₂ then_compare (split_4 a d) (ap (λ x. then_compare x o) (split_16 b e)))

last_bits :
    (b e : ℕ)
    → then_compare (compare (b % 16 * 4) (e % 16 * 4)) Ordering.eq
      ≡ then_compare (compare (b % 16) (e % 16)) Ordering.eq
last_bits b e = ground arith

sextets-compare :
    (s t : Bytes)
    → IsBytes s
    → IsBytes t
    → compare_bytes (sextets s) (sextets t) ≡ compare_bytes s t
unfolding sextets compare_bytes
sextets-compare [] [] hs ht = refl
sextets-compare [] (a ∷ []) hs ht = refl
sextets-compare [] (a ∷ b ∷ []) hs ht = refl
sextets-compare [] (a ∷ b ∷ c ∷ t) hs ht = refl
sextets-compare (a ∷ []) [] hs ht = refl
sextets-compare (a ∷ b ∷ []) [] hs ht = refl
sextets-compare (a ∷ b ∷ c ∷ s) [] hs ht = refl
sextets-compare (a ∷ []) (d ∷ []) hs ht = ground arith
sextets-compare (a ∷ []) (d ∷ e ∷ []) hs ht =
    one_byte a d _ Ordering.lt
      (zero_bits_lt (a % 4) (d % 4) (e / 16) (let h = ht.1.0 in omega (arith, h)))
sextets-compare (a ∷ []) (d ∷ e ∷ f ∷ t) hs ht =
    one_byte a d _ Ordering.lt
      (zero_bits_lt (a % 4) (d % 4) (e / 16) (let h = ht.1.0 in omega (arith, h)))
sextets-compare (a ∷ b ∷ []) (d ∷ []) hs ht =
    one_byte a d _ Ordering.gt
      (zero_bits_gt (d % 4) (a % 4) (b / 16) (let h = hs.1.0 in omega (arith, h)))
sextets-compare (a ∷ b ∷ []) (d ∷ e ∷ []) hs ht =
    two_bytes a b d e _ Ordering.eq hs.1.0 ht.1.0 (last_bits b e)
sextets-compare (a ∷ b ∷ []) (d ∷ e ∷ f ∷ t) hs ht =
    two_bytes a b d e _ Ordering.lt hs.1.0 ht.1.0
      (zero_bits_4_lt (b % 16) (e % 16) (f / 64) (let h = ht.1.1.0 in omega (arith, h)))
sextets-compare (a ∷ b ∷ c ∷ s) (d ∷ []) hs ht =
    one_byte a d _ Ordering.gt
      (zero_bits_gt (d % 4) (a % 4) (b / 16) (let h = hs.1.0 in omega (arith, h)))
sextets-compare (a ∷ b ∷ c ∷ s) (d ∷ e ∷ []) hs ht =
    two_bytes a b d e _ Ordering.gt hs.1.0 ht.1.0
      (zero_bits_4_gt (e % 16) (b % 16) (c / 64) (let h = hs.1.1.0 in omega (arith, h)))
sextets-compare (a ∷ b ∷ c ∷ s) (d ∷ e ∷ f ∷ t) (ha, (hb, (hc, hs))) (hd, (he, (hf, ht))) =
    ap₂ then_compare {x = compare (a / 4) (d / 4)} refl (
      ap₂ then_compare
        (join_16 (a % 4) (b / 16) (d % 4) (e / 16) (omega (arith, hb)) (omega (arith, he)))
        (ap₂ then_compare
          (join_4 (b % 16) (c / 64) (e % 16) (f / 64) (omega (arith, hc)) (omega (arith, hf)))
          (ap (then_compare (compare (c % 64) (f % 64))) (sextets-compare s t hs ht))))
    ∙ regroup (compare (a / 4) (d / 4)) (compare (a % 4) (d % 4)) (compare (b / 16) (e / 16))
        (compare (b % 16) (e % 16)) (compare (c / 64) (f / 64)) (compare (c % 64) (f % 64))
        (compare_bytes s t)
    ∙ sym (
        ap₂ then_compare (split_4 a d) (
          ap₂ then_compare (split_16 b e)
            (ap (λ o. then_compare o (compare_bytes s t)) (split_64 c f))))

sextets-All : (s : Bytes) → IsBytes s → All (λ i. i < 64) (sextets s)
unfolding sextets
sextets-All [] h = tt
sextets-All (a ∷ []) (ha, h) = (omega (arith, ha), (omega arith, tt))
sextets-All (a ∷ b ∷ []) (ha, (hb, h)) = (omega (arith, ha), (omega (arith, hb), (omega arith, tt)))
sextets-All (a ∷ b ∷ c ∷ s) (ha, (hb, (hc, h))) =
    (omega (arith, ha), (omega (arith, hb), (omega (arith, hc), (omega arith, sextets-All s h))))

-- Each element is below the next.
unfoldable increasing : Bytes → Bool
increasing [] = true
increasing (x ∷ []) = true
increasing (x ∷ y ∷ xs) = ltb x y && increasing (y ∷ xs)

and-both : (a b : Bool) → (a && b) ≡ true → (a ≡ true) × (b ≡ true)
and-both true b h = (refl, h)
and-both false b h = absurd (cc h)

at-lt : (x : ℕ) (xs : Bytes) (i : ℕ) → increasing (x ∷ xs) ≡ true → i < length xs → x < at xs i
unfolding increasing at
at-lt x [] i h l = absurd (omega (arith, l))
at-lt x (y ∷ xs) zero h l = (let p = and-both (ltb x y) _ h in let q = p.0 in ground (arith, q))
at-lt x (y ∷ xs) (suc i) h l =
    let p = and-both (ltb x y) _ h in
    let q = p.0 in let r = at-lt y xs i p.1 (omega (arith, l)) in ground (arith, q, r)

increasing-rest : (x : ℕ) (xs : Bytes) → increasing (x ∷ xs) ≡ true → increasing xs ≡ true
unfolding increasing
increasing-rest x [] h = refl
increasing-rest x (y ∷ xs) h = (and-both (ltb x y) _ h).1

at-compare :
    (xs : Bytes) (i j : ℕ)
    → increasing xs ≡ true
    → i < length xs
    → j < length xs
    → compare (at xs i) (at xs j) ≡ compare i j
unfolding at
at-compare [] i j h li lj = absurd (omega (arith, li))
at-compare (x ∷ xs) zero zero h li lj = ground arith
at-compare (x ∷ xs) zero (suc j) h li lj =
    (let p = at-lt x xs j h (omega (arith, lj)) in ground (arith, p))
at-compare (x ∷ xs) (suc i) zero h li lj =
    (let p = at-lt x xs i h (omega (arith, li)) in ground (arith, p))
at-compare (x ∷ xs) (suc i) (suc j) h li lj =
    at-compare xs i j (increasing-rest x xs h) (omega (arith, li)) (omega (arith, lj))
    ∙ ground arith

base64encoder-increasing : increasing base64encoder ≡ true
unfolding increasing
base64encoder-increasing = refl

letters-compare :
    (xs ys : Bytes)
    → All (λ i. i < 64) xs
    → All (λ i. i < 64) ys
    → compare_bytes (letters base64encoder xs) (letters base64encoder ys) ≡ compare_bytes xs ys
unfolding letters compare_bytes
letters-compare [] [] hx hy = refl
letters-compare [] (y ∷ ys) hx hy = refl
letters-compare (x ∷ xs) [] hx hy = refl
letters-compare (x ∷ xs) (y ∷ ys) (lx, hx) (ly, hy) =
    ap₂ then_compare (at-compare base64encoder x y base64encoder-increasing lx ly)
      (letters-compare xs ys hx hy)

at-45 : (i : ℕ) → i < 64 → 45 ≤ at base64encoder i
unfolding at
at-45 zero h = omega arith
at-45 (suc i) h =
    let p = at-lt 45 _ i base64encoder-increasing (omega (arith, h)) in omega (arith, p)

letters-All : (xs : Bytes) → All (λ i. i < 64) xs → All (λ b. 45 ≤ b) (letters base64encoder xs)
unfolding letters
letters-All [] h = tt
letters-All (x ∷ xs) (l, h) = (at-45 x l, letters-All xs h)

-- The encodings of two byte strings behind an empty buffer compare as the byte strings do.
pub append_base64-compare :
    (b64 : Base64) (s t : Bytes)
    → IsBytes s
    → IsBytes t
    → compare_bytes (append_base64 b64 [] s) (append_base64 b64 [] t) ≡ compare_bytes s t
unfolding append_base64
append_base64-compare b64 s t hs ht =
    ap₂ compare_bytes (b64.encode-sextets base64encoder s hs)
      (b64.encode-sextets base64encoder t ht)
    ∙ letters-compare (sextets s) (sextets t) (sextets-All s hs) (sextets-All t ht)
    ∙ sextets-compare s t hs ht

-- They are made of letters of the alphabet, which begins with '-'.
pub append_base64-All :
    (b64 : Base64) (s : Bytes) → IsBytes s → All (λ b. 45 ≤ b) (append_base64 b64 [] s)
unfolding append_base64
append_base64-All b64 s hs =
    subst (All (λ b. 45 ≤ b)) (sym (b64.encode-sextets base64encoder s hs))
      (letters-All (sextets s) (sextets-All s hs))

pub append_base64-nil : (b64 : Base64) → append_base64 b64 [] [] ≡ []
unfolding append_base64 letters sextets
append_base64-nil b64 = b64.encode-sextets base64encoder [] tt
