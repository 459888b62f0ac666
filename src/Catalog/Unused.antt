-- ===== src/Catalog/Unused.antt =====
-- The loop of generateUnusedName (internal/catalog/cache.go) ends.
use genji.Prelude.{
  ℕ, zero, suc, ◌<◌, ◌≤◌, ◌≡◌, ◌≢◌, refl, sym, ap, ◌∙◌, ◌⊎◌, inl, inr, true, false, some, List, [],
  ◌∷◌, Bytes, length, Bool-cases, arith,
}
use genji.Catalog.{CatalogCache, object_exists, unused_from, generate_unused_name}
use genji.Catalog.Rollback.{unused_from-unused}

abbrev pub In : Bytes → List Bytes → Type 0
In x [] = ⊥
In x (y ∷ ys) = (x ≡ y) ⊎ In x ys

-- What is left of a list without one of its elements.
record Without (x : Bytes) (ys : List Bytes) : Type 0 where
  rest : List Bytes
  shorter : length ys ≡ suc (length rest)
  kept : (z : Bytes) → z ≢ x → In z ys → In z rest

drop_name : (x : Bytes) (ys : List Bytes) → In x ys → Without x ys
drop_name x [] h = absurd h
drop_name x (y ∷ ys) (inl p) = record {
  rest = ys;
  shorter = refl;
  kept = λ z n m. elim m [ inl q ↦ absurd (n (q ∙ sym p)) | inr q ↦ q ];
}
drop_name x (y ∷ ys) (inr p) =
    let w = drop_name x ys p in
    record {
      rest = y ∷ w.rest;
      shorter = ap suc w.shorter;
      kept = λ z n m. elim m [ inl q ↦ inl q | inr q ↦ inr (w.kept z n q) ];
    }

-- The decimal number behind a base name: Sprintf("%s%d").
pub record Numbering : Type 0 where
  pub numbered : Bytes → ℕ → Bytes
  pub numbered-injective : (base : Bytes) (i j : ℕ) → numbered base i ≡ numbered base j → i ≡ j
  pub numbered-base : (base : Bytes) (i : ℕ) → numbered base i ≢ base

module _ (g : Numbering) (c : CatalogCache) (base : Bytes) where
  -- The names that the loop tries.
  abbrev tried : ℕ → Bytes
  tried zero = base
  tried (suc i) = g.numbered base (suc i)

  tried_ne : (i j : ℕ) → i < j → tried j ≢ tried i
  tried_ne i zero h e = omega (arith, h)
  tried_ne zero (suc j) h e = g.numbered-base base (suc j) e
  tried_ne (suc i) (suc j) h e =
      (let q = g.numbered-injective base (suc j) (suc i) e in omega (arith, h, q))

  unused_from-some :
      (i fuel : ℕ) (names : List Bytes)
      → length names < fuel
      → ((j : ℕ) → i ≤ j → object_exists c (tried j) ≡ true → In (tried j) names)
      → (n : Bytes) × (unused_from g.numbered c base i fuel (tried i) ≡ some n)
  unfolding unused_from
  unused_from-some i zero names l h = absurd (omega (arith, l))
  unused_from-some i (suc fuel) names l h = elim (Bool-cases (object_exists c (tried i))) [
    | inr p ↦ (tried i, rw p refl)
    | inl p ↦
        (let w = drop_name (tried i) names (h i (omega arith) p) in
          let r =
            unused_from-some (suc i) fuel w.rest (omega (arith, l, w.shorter))
              (λ j k q. w.kept (tried j) (tried_ne i j k) (h j (omega (arith, k)) q)) in
          (r.0, rw p (r.1)))
  ]

  -- generateUnusedName returns a name that is not taken, with a round more than there are names taken,
  -- where different numbers make different names.
  pub generate_unused_name-unused :
      (fuel : ℕ) (names : List Bytes)
      → length names < fuel
      → ((n : Bytes) → object_exists c n ≡ true → In n names)
      → (n : Bytes) × ((generate_unused_name g.numbered c fuel base ≡ some n)
          × (object_exists c n ≡ false))
  unfolding generate_unused_name
  generate_unused_name-unused fuel names l h =
      let r = unused_from-some 0 fuel names l (λ j k q. h (tried j) q) in
      (r.0, (r.1, unused_from-unused g.numbered c base 0 fuel base r.0 r.1))
