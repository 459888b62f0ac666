-- ===== src/Database/Store.antt =====
-- engine/engine.go: the interface Store by its contract. A store is the list of its pairs in the order
-- of the keys, which an iterator goes through; no call of it fails.
use genji.Prelude.{
  ◌≡◌, refl, sym, ap, subst, ◌∙◌, ◌⊎◌, inl, inr, Bool, true, false, Option, none, some, List, [],
  ◌∷◌, Bytes, bytes_eq, bytes_eq_comm, bytes_eq→eq, compare_bytes, compare_bytes_self,
  compare_bytes-flip, flip, compare_bytes-eq→eq, compare_bytes_trans, Ordering, if◌then◌else◌, All,
  All-map, Bool-cases,
}

abbrev pub Store : Type 0 → Type 0
Store V = List (Bytes × V)

module _ {V : Type 0} where
  -- Get
  unfoldable pub get : Bytes → Store V → Option V
  get k [] = none
  get k ((j, v) ∷ st) = let rest = get k st in if bytes_eq j k then some v else rest

  -- Put
  unfoldable pub put : Bytes → V → Store V → Store V
  put k v [] = (k, v) ∷ []
  put k v ((j, w) ∷ st) =
      let rest = put k v st in
      elim (compare_bytes k j) [
        | Ordering.lt ↦ (k, v) ∷ (j, w) ∷ st
        | Ordering.eq ↦ (k, v) ∷ st
        | Ordering.gt ↦ (j, w) ∷ rest
      ]

  -- Delete, of a key that is there
  unfoldable pub remove : Bytes → Store V → Store V
  remove k [] = []
  remove k ((j, w) ∷ st) = let rest = remove k st in if bytes_eq j k then st else (j, w) ∷ rest

  -- The items from Seek on.
  unfoldable pub items_from : Bytes → Store V → Store V
  items_from pivot [] = []
  items_from pivot ((j, w) ∷ st) =
      let rest = items_from pivot st in
      elim (compare_bytes j pivot) [
        | Ordering.lt ↦ rest
        | Ordering.eq ↦ (j, w) ∷ st
        | Ordering.gt ↦ (j, w) ∷ st
      ]

  abbrev pub Above : Bytes → Store V → Type 0
  Above k st = All (λ (e : Bytes × V). compare_bytes k e.0 ≡ Ordering.lt) st

  -- The keys are in order.
  abbrev pub IsStore : Store V → Type 0
  IsStore [] = Unit
  IsStore ((k, v) ∷ st) = Above k st × IsStore st

Ordering-cases : (o : Ordering) → (o ≡ Ordering.lt) ⊎ ((o ≡ Ordering.eq) ⊎ (o ≡ Ordering.gt))
Ordering-cases Ordering.lt = inl refl
Ordering-cases Ordering.eq = inr (inl refl)
Ordering-cases Ordering.gt = inr (inr refl)

pub not-eq_of_lt : (k j : Bytes) → compare_bytes k j ≡ Ordering.lt → bytes_eq k j ≡ false
not-eq_of_lt k j h = elim (Bool-cases (bytes_eq k j)) [
  | inr p ↦ p
  | inl p ↦
      (let q = sym h ∙ ap (compare_bytes k) (sym (bytes_eq→eq k j p)) ∙ compare_bytes_self k in
        absurd (cc q))
]

pub lt_of_gt : (k j : Bytes) → compare_bytes k j ≡ Ordering.gt → compare_bytes j k ≡ Ordering.lt
lt_of_gt k j h = compare_bytes-flip k j ∙ ap flip h

module _ {V : Type 0} where
  put_before :
      (k i : Bytes) (v w : V) (st : Store V)
      → compare_bytes k i ≡ Ordering.lt
      → put k v ((i, w) ∷ st) ≡ (k, v) ∷ (i, w) ∷ st
  unfolding put
  put_before k i v w st h = rw (h, put) refl

  put_at :
      (k i : Bytes) (v w : V) (st : Store V)
      → compare_bytes k i ≡ Ordering.eq
      → put k v ((i, w) ∷ st) ≡ (k, v) ∷ st
  unfolding put
  put_at k i v w st h = rw (h, put) refl

  put_behind :
      (k i : Bytes) (v w : V) (st : Store V)
      → compare_bytes k i ≡ Ordering.gt
      → put k v ((i, w) ∷ st) ≡ (i, w) ∷ put k v st
  unfolding put
  put_behind k i v w st h = rw (h, put) refl

  get-put_later :
      (k j i : Bytes) (v w : V) (st : Store V)
      → compare_bytes k i ≡ Ordering.gt
      → (if bytes_eq i j then some w else (if bytes_eq k j then some v else get j st))
        ≡ (if bytes_eq k j then some v else (if bytes_eq i j then some w else get j st))
  get-put_later k j i v w st h = elim (Bool-cases (bytes_eq k j)) [
    | inr p ↦ rw p refl
    | inl p ↦
        (let q = not-eq_of_lt i k (lt_of_gt k i h) in
          rw (p, sym (ap (λ x. bytes_eq i x) (bytes_eq→eq k j p)) ∙ q) refl)
  ]

  pub get-put :
      (k j : Bytes) (v : V) (st : Store V)
      → get j (put k v st) ≡ (if bytes_eq k j then some v else get j st)
  unfolding get put
  get-put k j v [] = refl
  get-put k j v ((i, w) ∷ st) = elim (Ordering-cases (compare_bytes k i)) [
    | inl p ↦ rw (put_before k i v w st p) refl
    | inr (inl p) ↦
        (let e = compare_bytes-eq→eq k i p in
          rw (put_at k i v w st p)
            (rw (sym e) (same_key (bytes_eq k j) (some v) (some w) (get j st))))
    | inr (inr p) ↦ rw (put_behind k i v w st p) (
        ap (λ x. if bytes_eq i j then some w else x) (get-put k j v st)
        ∙ get-put_later k j i v w st p)
  ]
    where
      same_key :
          (b : Bool) (x y z : Option V)
          → (if b then x else z) ≡ (if b then x else (if b then y else z))
      same_key true x y z = refl
      same_key false x y z = refl

  put-Above :
      (a k : Bytes) (v : V) (st : Store V)
      → compare_bytes a k ≡ Ordering.lt
      → Above a st
      → Above a (put k v st)
  unfolding put
  put-Above a k v [] h s = (h, tt)
  put-Above a k v ((i, w) ∷ st) h s = elim (Ordering-cases (compare_bytes k i)) [
    | inl p ↦ rw (put_before k i v w st p) (h, s)
    | inr (inl p) ↦ rw (put_at k i v w st p) (h, s.1)
    | inr (inr p) ↦ rw (put_behind k i v w st p) (s.0, put-Above a k v st h s.1)
  ]

  Above-trans :
      (k i : Bytes) (st : Store V) → compare_bytes k i ≡ Ordering.lt → Above i st → Above k st
  Above-trans k i st h = All-map st (λ e q. compare_bytes_trans k i e.0 h q)

  pub put-IsStore : (k : Bytes) (v : V) (st : Store V) → IsStore st → IsStore (put k v st)
  unfolding put
  put-IsStore k v [] h = (tt, tt)
  put-IsStore k v ((i, w) ∷ st) h = elim (Ordering-cases (compare_bytes k i)) [
    | inl p ↦ rw (put_before k i v w st p) ((p, Above-trans k i st p h.0), h)
    | inr (inl p) ↦
        rw (put_at k i v w st p)
          (subst (λ a. Above a st) (sym (compare_bytes-eq→eq k i p)) h.0, h.1)
    | inr (inr p) ↦
        rw (put_behind k i v w st p)
          (put-Above i k v st (lt_of_gt k i p) h.0, put-IsStore k v st h.1)
  ]

  pub get-Above :
      (k j : Bytes) (st : Store V) → Above k st → (bytes_eq k j ≡ true) → get j st ≡ none
  unfolding get
  get-Above k j [] h p = refl
  get-Above k j ((i, w) ∷ st) h p =
      let q = ap (λ x. compare_bytes x i) (sym (bytes_eq→eq k j p)) ∙ h.0 in
      rw (bytes_eq_comm i j ∙ not-eq_of_lt j i q) (get-Above k j st h.1 p)

  pub get-remove :
      (k j : Bytes) (st : Store V)
      → IsStore st
      → get j (remove k st) ≡ (if bytes_eq k j then none else get j st)
  unfolding get remove
  get-remove k j [] h = elim (Bool-cases (bytes_eq k j)) [ inl p ↦ rw p refl | inr p ↦ rw p refl ]
  get-remove k j ((i, w) ∷ st) h = elim (Bool-cases (bytes_eq i k)) [
    | inl p ↦ rw p (elim (Bool-cases (bytes_eq k j)) [
      | inl q ↦ rw q (get-Above i j st h.0 (ap (bytes_eq i) (sym (bytes_eq→eq k j q)) ∙ p))
      | inr q ↦ rw (q, ap (λ x. bytes_eq x j) (bytes_eq→eq i k p) ∙ q) refl
    ])
    | inr p ↦ rw p (
        ap (λ x. if bytes_eq i j then some w else x) (get-remove k j st h.1)
        ∙ (elim (Bool-cases (bytes_eq k j)) [
          | inl q ↦ rw (q, ap (bytes_eq i) (sym (bytes_eq→eq k j q)) ∙ p) refl
          | inr q ↦ rw q refl
        ]))
  ]

  remove-Above : (a k : Bytes) (st : Store V) → Above a st → Above a (remove k st)
  unfolding remove
  remove-Above a k [] h = tt
  remove-Above a k ((i, w) ∷ st) h = elim (Bool-cases (bytes_eq i k)) [
    | inl p ↦ rw p h.1
    | inr p ↦ rw p (h.0, remove-Above a k st h.1)
  ]

  pub remove-IsStore : (k : Bytes) (st : Store V) → IsStore st → IsStore (remove k st)
  unfolding remove
  remove-IsStore k [] h = tt
  remove-IsStore k ((i, w) ∷ st) h = elim (Bool-cases (bytes_eq i k)) [
    | inl p ↦ rw p h.1
    | inr p ↦ rw p (remove-Above i k st h.0, remove-IsStore k st h.1)
  ]
