-- ===== src/MemoryEngine/Iterator/Loading.antt =====
-- What the loops of iterator.Valid (engine/memoryengine/store.go) leave: the items of the walk that
-- are still to come, those in the buffer before those behind it.
use genji.Prelude.{
  ℕ, zero, suc, ◌<◌, ◌≤◌, ◌≡◌, refl, ap, ◌⊎◌, inl, inr, Bool, false, List, [], ◌∷◌, ◌++◌, length,
  take, drop, if◌then◌else◌, arith, Bool-cases,
}
use genji.MemoryEngine.Iterator.{Walk, last_of, skip_deleted}

-- The items that are not deleted.
unfoldable pub undeleted : (ℕ → Bool) → List ℕ → List ℕ
undeleted d [] = []
undeleted d (i ∷ is) = let rest = undeleted d is in if d i then rest else i ∷ rest

unfoldable pub drop_deleted : (ℕ → Bool) → List ℕ → List ℕ
drop_deleted d [] = []
drop_deleted d (i ∷ is) = let rest = drop_deleted d is in if d i then rest else i ∷ is

pub undeleted-drop_deleted :
    (d : ℕ → Bool) (is post : List ℕ)
    → undeleted d (drop_deleted d is ++ post) ≡ undeleted d (is ++ post)
unfolding undeleted drop_deleted
undeleted-drop_deleted d [] post = refl
undeleted-drop_deleted d (i ∷ is) post = elim (Bool-cases (d i)) [
  | inl p ↦ rw p (undeleted-drop_deleted d is post)
  | inr p ↦ rw p (rw p refl)
]

pub length-drop_deleted :
    (d : ℕ → Bool) (is post : List ℕ) → length (drop_deleted d is ++ post) ≤ length (is ++ post)
unfolding drop_deleted
length-drop_deleted d [] post = omega arith
length-drop_deleted d (i ∷ is) post = elim (Bool-cases (d i)) [
  | inl p ↦ rw p (let h = length-drop_deleted d is post in omega arith)
  | inr p ↦ rw p (omega arith)
]

-- Behind the deleted items there is nothing, or one that is not deleted.
pub data Found (d : ℕ → Bool) : List ℕ → Type 0 where
  nothing : Found d []
  found : (i : ℕ) (is : List ℕ) → d i ≡ false → Found d (i ∷ is)

pub drop_deleted-Found : (d : ℕ → Bool) (is : List ℕ) → Found d (drop_deleted d is)
unfolding drop_deleted
drop_deleted-Found d [] = nothing
drop_deleted-Found d (i ∷ is) = elim (Bool-cases (d i)) [
  | inl p ↦ rw p (drop_deleted-Found d is)
  | inr p ↦ rw p (found i is p)
]

tail_of : List ℕ → List ℕ
tail_of [] = []
tail_of (i ∷ is) = is

pub drop_tail : (c : ℕ) (b : List ℕ) (i : ℕ) (is : List ℕ) → drop c b ≡ i ∷ is → drop (suc c) b ≡ is
unfolding tail_of
drop_tail zero [] i is h = ap tail_of h
drop_tail zero (j ∷ b) i is h = ap tail_of h
drop_tail (suc c) [] i is h = ap tail_of h
drop_tail (suc c) (j ∷ b) i is h = drop_tail c b i is h

pub init_last : (i : ℕ) (is : List ℕ) → (init : List ℕ) × (i ∷ is ≡ init ++ last_of i is ∷ [])
unfolding last_of
init_last i [] = ([], refl)
init_last i (j ∷ is) = let r = init_last j is in (i ∷ r.0, ap (λ ks. i ∷ ks) r.1)

pub take-drop : (n : ℕ) (xs : List ℕ) → xs ≡ take n xs ++ drop n xs
take-drop zero xs = refl
take-drop (suc n) [] = refl
take-drop (suc n) (x ∷ xs) = ap (λ ks. x ∷ ks) (take-drop n xs)

pub take_full :
    (n : ℕ) (xs : List ℕ) → (length (take n xs) ≡ n) ⊎ ((length (take n xs) < n) × (drop n xs ≡ []))
take_full zero xs = inl refl
take_full (suc n) [] = inr (omega arith, refl)
take_full (suc n) (x ∷ xs) = elim (take_full n xs) [
  | inl h ↦ inl (ap suc h)
  | inr h ↦ inr (omega (arith, h.0), h.1)
]

module _ (w : Walk) (size : ℕ) where
  pub drop_skip :
      (is : List ℕ) (c : ℕ) (b : List ℕ)
      → drop c b ≡ is
      → drop (skip_deleted w size is c) b ≡ drop_deleted w.deleted is
  unfolding skip_deleted drop_deleted
  drop_skip [] c b h = h
  drop_skip (i ∷ is) c b h = elim (Bool-cases (w.deleted i)) [
    | inl p ↦ rw p (drop_skip is (suc c) b (drop_tail c b i is h))
    | inr p ↦ rw p h
  ]
