-- ===== src/Database/Index/Search.antt =====
-- The searches in the store of an index (internal/database/index.go).
use genji.Prelude.{
  ℕ, zero, suc, ◌+◌, ◌<◌, ◌≡◌, refl, sym, ap, ap₂, subst, ◌∙◌, ◌⊎◌, inl, inr, true, false, Option,
  none, some, [], ◌∷◌, ◌++◌, Bytes, bytes_eq, bytes_eq_self, bytes_eq→eq, ltb, ltb→lt, length, take,
  drop, if◌then◌else◌, compare_bytes, compare_bytes_self, compare_bytes_trans, Ordering, arith,
  Bool-cases,
}
use genji.Database.Store.{Store, get, items_from, Above, IsStore, not-eq_of_lt}
use genji.Database.Index.{exists_from, find_entry, in_scope}

-- A key at the pivot or behind it.
abbrev pub NotBefore : Bytes → Bytes → Type 0
NotBefore pivot j = compare_bytes j pivot ≡ Ordering.lt → ⊥

Above-get :
    {V : Type 0} (j t : Bytes) (st : Store V) (n : V)
    → Above j st
    → get t st ≡ some n
    → compare_bytes j t ≡ Ordering.lt
unfolding get
Above-get j t [] n a h = absurd (cc h)
Above-get j t ((i, w) ∷ st) n a h = elim (Bool-cases (bytes_eq i t)) [
  | inl p ↦ subst (λ x. compare_bytes j x ≡ Ordering.lt) (bytes_eq→eq i t p) a.0
  | inr p ↦ Above-get j t st n a.1 (ap (λ b. if b then some w else get t st) (sym p) ∙ h)
]

-- A key of the rest is one of the whole.
get_tail :
    {V : Type 0} (i t : Bytes) (w n : V) (st : Store V)
    → Above i st
    → get t st ≡ some n
    → get t ((i, w) ∷ st) ≡ some n
unfolding get
get_tail i t w n st a h = rw (not-eq_of_lt i t (Above-get i t st n a h)) h

pub items_from-IsStore :
    {V : Type 0} (s : Bytes) (st : Store V) → IsStore st → IsStore (items_from s st)
unfolding items_from
items_from-IsStore s [] h = tt
items_from-IsStore s ((i, w) ∷ st) h =
    elim (compare_bytes i s)
      as (λ o. IsStore (elim o [
        | Ordering.lt ↦ items_from s st
        | Ordering.eq ↦ (i, w) ∷ st
        | Ordering.gt ↦ (i, w) ∷ st
      ])) [ Ordering.lt ↦ items_from-IsStore s st h.1 | Ordering.eq ↦ h | Ordering.gt ↦ h ]

not_before_trans : (s i j : Bytes) → NotBefore s i → compare_bytes i j ≡ Ordering.lt → NotBefore s j
not_before_trans s i j h q p = h (compare_bytes_trans i j s q p)

before-cases : (i s : Bytes) → (compare_bytes i s ≡ Ordering.lt) ⊎ NotBefore s i
before-cases i s = by_order (compare_bytes i s) refl
  where
    by_order :
        (o : Ordering) → compare_bytes i s ≡ o → (compare_bytes i s ≡ Ordering.lt) ⊎ NotBefore s i
    by_order Ordering.lt h = inl h
    by_order Ordering.eq h = inr (λ p. cc (h, p))
    by_order Ordering.gt h = inr (λ p. cc (h, p))

from_nil : {V : Type 0} (s : Bytes) → items_from {V = V} s [] ≡ []
unfolding items_from
from_nil s = refl

from_before :
    {V : Type 0} (s i : Bytes) (w : V) (st : Store V)
    → compare_bytes i s ≡ Ordering.lt
    → items_from s ((i, w) ∷ st) ≡ items_from s st
unfolding items_from
from_before s i w st h = rw (h, items_from) refl

from_at :
    {V : Type 0} (s i : Bytes) (w : V) (st : Store V)
    → NotBefore s i
    → items_from s ((i, w) ∷ st) ≡ (i, w) ∷ st
unfolding items_from
from_at s i w st h = by_order (compare_bytes i s) refl
  where
    by_order : (o : Ordering) → compare_bytes i s ≡ o → items_from s ((i, w) ∷ st) ≡ (i, w) ∷ st
    by_order Ordering.lt q = absurd (h q)
    by_order Ordering.eq q = rw (q, items_from) refl
    by_order Ordering.gt q = rw (q, items_from) refl

ne_of_before :
    (s i t : Bytes) → compare_bytes i s ≡ Ordering.lt → NotBefore s t → bytes_eq i t ≡ false
ne_of_before s i t h k = elim (Bool-cases (bytes_eq i t)) [
  | inr p ↦ p
  | inl p ↦ absurd (k (ap (λ x. compare_bytes x s) (sym (bytes_eq→eq i t p)) ∙ h))
]

-- What an iterator goes through from a pivot on are the pairs of the store from there on.
pub get-items_from :
    {V : Type 0} (s t : Bytes) (st : Store V) → NotBefore s t → get t (items_from s st) ≡ get t st
unfolding get
get-items_from s t [] h = unfold items_from in refl
get-items_from s t ((i, w) ∷ st) h = elim (before-cases i s) [
  | inl p ↦ rw (from_before s i w st p, ne_of_before s i t p h) (get-items_from s t st h)
  | inr p ↦ rw (from_at s i w st p) refl
]

pub items_from-NotBefore :
    {V : Type 0} (s t : Bytes) (st : Store V) (n : V)
    → IsStore st
    → get t (items_from s st) ≡ some n
    → NotBefore s t
unfolding get
items_from-NotBefore {V = V} s t [] n h g =
    (let q = ap (get t) (sym (from_nil {V = V} s)) ∙ g in absurd (cc q))
items_from-NotBefore s t ((i, w) ∷ st) n h g = elim (before-cases i s) [
  | inl p ↦ items_from-NotBefore s t st n h.1 (ap (get t) (sym (from_before s i w st p)) ∙ g)
  | inr p ↦
      (let g' = ap (get t) (sym (from_at s i w st p)) ∙ g in
        elim (Bool-cases (bytes_eq i t)) [
          | inl q ↦ subst (NotBefore s) (bytes_eq→eq i t q) p
          | inr q ↦
              not_before_trans s i t p
                (Above-get i t st n h.0 (ap (λ b. if b then some w else get t st) (sym q) ∙ g'))
        ])
]

-- The search of Delete finds the entry `t` of a key that has only one.
pub find_entry-some :
    (sc : Option ℕ) (k t : Bytes) (st : Store ℕ) (n : ℕ)
    → IsStore st
    → ((j : Bytes) (m : ℕ) → get j st ≡ some m → drop m j ≡ k → j ≡ t)
    → ((j : Bytes) (m : ℕ)
        → get j st ≡ some m
        → compare_bytes j t ≡ Ordering.lt
        → in_scope sc j ≡ true)
    → get t st ≡ some n
    → drop n t ≡ k
    → in_scope sc t ≡ true
    → find_entry sc k st ≡ some t
unfolding find_entry get
find_entry-some sc k t [] n s u c g d i = absurd (cc g)
find_entry-some sc k t ((j, m) ∷ st) n s u c g d i = elim (Bool-cases (bytes_eq j t)) [
  | inl p ↦
      (let e = bytes_eq→eq j t p in
        let q : m ≡ n = (let z = ap (λ b. if b then some m else get t st) (sym p) ∙ g in cc z) in
        rw (e, i, q, d, bytes_eq_self k) refl)
  | inr p ↦
      (let g' = ap (λ b. if b then some m else get t st) (sym p) ∙ g in
        let lt = Above-get j t st n s.0 g' in
        let here : get j ((j, m) ∷ st) ≡ some m = rw (bytes_eq_self j) refl in
        let ih =
          find_entry-some sc k t st n s.1 (λ j' m' h. u j' m' (get_tail j j' m m' st s.0 h))
            (λ j' m' h. c j' m' (get_tail j j' m m' st s.0 h)) g' d i in
        rw (c j m here lt) (elim (Bool-cases (bytes_eq (drop m j) k)) [
          | inr q ↦ rw q ih
          | inl q ↦
              (let e = u j m here (bytes_eq→eq (drop m j) k q) in
                let z = sym p ∙ ap (λ x. bytes_eq x t) e ∙ bytes_eq_self t in absurd (cc z))
        ]))
]

-- The bytes of values, before a key.
pub drop-append : (e k : Bytes) → drop (length e) (e ++ k) ≡ k
drop-append [] k = refl
drop-append (c ∷ e) k = drop-append e k

take-append : (e k : Bytes) → take (length e) (e ++ k) ≡ e
take-append [] k = refl
take-append (c ∷ e) k = ap (λ x. c ∷ x) (take-append e k)

take-drop : (n : ℕ) (j : Bytes) → take n j ++ drop n j ≡ j
take-drop zero j = refl
take-drop (suc n) [] = refl
take-drop (suc n) (c ∷ j) = ap (λ x. c ∷ x) (take-drop n j)

length-append : (e k : Bytes) → length (e ++ k) ≡ length e + length k
length-append [] k = omega arith
length-append (c ∷ e) k = let ih = length-append e k in omega (arith, ih)

pub prefix-NotBefore : (e k : Bytes) → NotBefore e (e ++ k)
unfolding compare_bytes
prefix-NotBefore [] [] h = cc h
prefix-NotBefore [] (c ∷ k) h = cc h
prefix-NotBefore (c ∷ e) k h = prefix-NotBefore e k (ground (arith, h))

-- A shorter key behind the pivot is behind all that begins with it.
short_behind :
    (e k j : Bytes) → NotBefore e j → length j < length e → compare_bytes (e ++ k) j ≡ Ordering.lt
unfolding compare_bytes
short_behind [] k j h l = absurd (omega (arith, l))
short_behind (c ∷ e) k [] h l = absurd (h refl)
short_behind (c ∷ e) k (b ∷ j) h l = let ih = short_behind e k j in grind (arith, h, ih, l)

exists_from_nil : (e : Bytes) → exists_from e [] ≡ none
unfolding exists_from
exists_from_nil e = refl

at_short :
    (e j : Bytes) (m : ℕ) (st : Store ℕ)
    → ltb (length j) (length e) ≡ true
    → exists_from e ((j, m) ∷ st) ≡ none
unfolding exists_from
at_short e j m st p = rw p refl

at_prefix :
    (e j : Bytes) (m : ℕ) (st : Store ℕ)
    → ltb (length j) (length e) ≡ false
    → bytes_eq e (take (length e) j) ≡ true
    → exists_from e ((j, m) ∷ st) ≡ some (drop (length e) j)
unfolding exists_from
at_prefix e j m st p q = rw (p, q) refl

at_other :
    (e j : Bytes) (m : ℕ) (st : Store ℕ)
    → ltb (length j) (length e) ≡ false
    → bytes_eq e (take (length e) j) ≡ false
    → exists_from e ((j, m) ∷ st) ≡ exists_from e st
unfolding exists_from
at_other e j m st p q = rw (p, q) refl

not_itself : (j : Bytes) → compare_bytes j j ≡ Ordering.lt → ⊥
not_itself j h = let q = sym (compare_bytes_self j) ∙ h in cc q

first_prefix :
    (e k : Bytes) (m : ℕ) (st : Store ℕ)
    → exists_from e ((e ++ k, m) ∷ st) ≡ some (drop (length e) (e ++ k))
first_prefix e k m st =
    let l = length-append e k in
    at_prefix e (e ++ k) m st (ground (arith, l))
      (ap (bytes_eq e) (take-append e k) ∙ bytes_eq_self e)

pub exists_from-none :
    (e k : Bytes) (st : Store ℕ) (n : ℕ)
    → IsStore st
    → ((j : Bytes) (m : ℕ) → get j st ≡ some m → NotBefore e j)
    → exists_from e st ≡ none
    → get (e ++ k) st ≡ some n
    → ⊥
unfolding get
exists_from-none e k [] n s b x g = cc g
exists_from-none e k ((j, m) ∷ st) n s b x g = elim (Bool-cases (bytes_eq j (e ++ k))) [
  | inl p ↦
      (let z =
          sym (first_prefix e k m st)
          ∙ ap (λ i. exists_from e ((i, m) ∷ st)) (sym (bytes_eq→eq j (e ++ k) p))
          ∙ x in
        cc z)
  | inr p ↦
      (let g' = ap (λ b. if b then some m else get (e ++ k) st) (sym p) ∙ g in
        let lt = Above-get j (e ++ k) st n s.0 g' in
        let here : get j ((j, m) ∷ st) ≡ some m = rw (bytes_eq_self j) refl in
        elim (Bool-cases (ltb (length j) (length e))) [
          | inl q ↦ not_itself j (
              compare_bytes_trans j (e ++ k) j lt
                (short_behind e k j (b j m here) (ltb→lt (length j) (length e) q)))
          | inr q ↦ elim (Bool-cases (bytes_eq e (take (length e) j))) [
            | inl r ↦ (let z = sym (at_prefix e j m st q r) ∙ x in cc z)
            | inr r ↦
                exists_from-none e k st n s.1 (λ j' m' h. b j' m' (get_tail j j' m m' st s.0 h))
                  (sym (at_other e j m st q r) ∙ x) g'
          ]
        ])
]

pub exists_from-some :
    (e d : Bytes) (st : Store ℕ)
    → IsStore st
    → exists_from e st ≡ some d
    → (n : ℕ) × (get (e ++ d) st ≡ some n)
unfolding get
exists_from-some e d [] s h = (let z = sym (exists_from_nil e) ∙ h in absurd (cc z))
exists_from-some e d ((j, m) ∷ st) s h = elim (Bool-cases (ltb (length j) (length e))) [
  | inl p ↦ (let z = sym (at_short e j m st p) ∙ h in absurd (cc z))
  | inr p ↦ elim (Bool-cases (bytes_eq e (take (length e) j))) [
    | inl q ↦
        (let z = sym (at_prefix e j m st p q) ∙ h in
          let y : drop (length e) j ≡ d = cc z in
          let whole =
            ap₂ (λ a b. a ++ b) (bytes_eq→eq e (take (length e) j) q) (sym y)
            ∙ take-drop (length e) j in
          (m, rw (whole, bytes_eq_self j) refl))
    | inr q ↦
        (let r = exists_from-some e d st s.1 (sym (at_other e j m st p q) ∙ h) in
          (r.0, get_tail j (e ++ d) m r.0 st s.0 r.1))
  ]
]
