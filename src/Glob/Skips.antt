-- ===== src/Glob/Skips.antt =====
-- The case of a '%' in MatchLike (internal/expr/glob/like.go).
use genji.Prelude.{
  ℕ, suc, ◌≤◌, ◌≡◌, refl, sym, ap, ◌∙◌, Bool, true, false, ◌||◌, Option, none, some, List, [], ◌∷◌,
  length, arith,
}
use genji.Glob.{Rune, all, one, esc, ordinary, rune, skip_rune, skip_wildcards}
use genji.Glob.Meaning.{Token, single, tokens, any_part, matches, any_part_twice, tokens-rune}

pub or_false : (b : Bool) → b || false ≡ b
or_false true = refl
or_false false = refl

-- What is found behind the wildcards.
pub data Found (a b : ℕ) : Option (List ℕ × List ℕ) → Type 0 where
  not_found : Found a b none
  found : (p s : List ℕ) → length p ≤ a → length s ≤ b → Found a b (some (p, s))

wider :
    {a b a' b' : ℕ} (o : Option (List ℕ × List ℕ)) → a ≤ a' → b ≤ b' → Found a b o → Found a' b' o
wider none h k not_found = not_found
wider (some (p, s)) h k (found _ _ x y) = found p s (omega (arith, h, x)) (omega (arith, k, y))

pub skip_wildcards-Found : (p s : List ℕ) → Found (length p) (length s) (skip_wildcards p s)
unfolding skip_wildcards
skip_wildcards-Found [] s = found [] s (omega arith) (omega arith)
skip_wildcards-Found (c ∷ p) [] =
    elim (rune c)
      as (λ x. Found (suc (length p)) 0 (elim x [
        | all ↦ skip_wildcards p []
        | one ↦ none
        | esc ↦ some (c ∷ p, [])
        | ordinary ↦ some (c ∷ p, [])
      ])) [
        | all ↦ wider _ (omega arith) (omega arith) (skip_wildcards-Found p [])
        | one ↦ not_found
        | esc ↦ found _ _ (omega arith) (omega arith)
        | ordinary ↦ found _ _ (omega arith) (omega arith)
      ]
skip_wildcards-Found (c ∷ p) (r ∷ s) =
    elim (rune c)
      as (λ x. Found (suc (length p)) (suc (length s)) (elim x [
        | all ↦ skip_wildcards p (r ∷ s)
        | one ↦ skip_wildcards p s
        | esc ↦ some (c ∷ p, r ∷ s)
        | ordinary ↦ some (c ∷ p, r ∷ s)
      ])) [
        | all ↦ wider _ (omega arith) (omega arith) (skip_wildcards-Found p (r ∷ s))
        | one ↦ wider _ (omega arith) (omega arith) (skip_wildcards-Found p s)
        | esc ↦ found _ _ (omega arith) (omega arith)
        | ordinary ↦ found _ _ (omega arith) (omega arith)
      ]

stays_esc : (c : ℕ) (p s : List ℕ) → rune c ≡ esc → skip_wildcards (c ∷ p) s ≡ some (c ∷ p, s)
unfolding skip_wildcards
stays_esc c p [] h = rw (h, skip_wildcards) refl
stays_esc c p (r ∷ s) h = rw (h, skip_wildcards) refl

stays_ordinary :
    (c : ℕ) (p s : List ℕ) → rune c ≡ ordinary → skip_wildcards (c ∷ p) s ≡ some (c ∷ p, s)
unfolding skip_wildcards
stays_ordinary c p [] h = rw (h, skip_wildcards) refl
stays_ordinary c p (r ∷ s) h = rw (h, skip_wildcards) refl

module _ (same : ℕ → ℕ → Bool) where
  -- Whether what is found matches a last part of the string.
  unfoldable pub found_matches : Option (List ℕ × List ℕ) → Bool
  unfolding any_part matches tokens
  found_matches none = false
  found_matches (some (p, s)) = any_part (matches same (tokens false p)) s

  pub any_part-single :
      (ts : List Token) (r : ℕ) (s : List ℕ)
      → any_part (matches same (single ∷ ts)) (r ∷ s) ≡ any_part (matches same ts) s
  unfolding any_part matches
  any_part-single ts r [] = or_false (matches same ts [])
  any_part-single ts r (q ∷ s) = ap (λ b. matches same ts (q ∷ s) || b) (any_part-single ts q s)

  by_rune :
      (c : ℕ) (p s : List ℕ) (k : Rune)
      → rune c ≡ k
      → found_matches (skip_wildcards p s) ≡ any_part (matches same (tokens false p)) s
      → found_matches (skip_wildcards p (skip_rune s))
        ≡ any_part (matches same (tokens false p)) (skip_rune s)
      → found_matches (skip_wildcards (c ∷ p) s) ≡ any_part (matches same (tokens false (c ∷ p))) s
  unfolding found_matches skip_wildcards tokens matches skip_rune
  by_rune c p [] all h i j =
      rw (h, skip_wildcards) i
      ∙ sym (any_part_twice (matches same (tokens false p)) [])
      ∙ ap (λ ts. any_part (matches same ts) []) (sym (tokens-rune c p all h))
  by_rune c p (r ∷ s) all h i j =
      rw (h, skip_wildcards) i
      ∙ sym (any_part_twice (matches same (tokens false p)) (r ∷ s))
      ∙ ap (λ ts. any_part (matches same ts) (r ∷ s)) (sym (tokens-rune c p all h))
  by_rune c p [] one h i j =
      rw (h, skip_wildcards) (unfold any_part in refl)
      ∙ ap (λ ts. any_part (matches same ts) []) (sym (tokens-rune c p one h))
  by_rune c p (r ∷ s) one h i j =
      rw (h, skip_wildcards) j
      ∙ sym (any_part-single (tokens false p) r s)
      ∙ ap (λ ts. any_part (matches same ts) (r ∷ s)) (sym (tokens-rune c p one h))
  by_rune c p [] esc h i j = ap found_matches (stays_esc c p [] h)
  by_rune c p (r ∷ s) esc h i j = ap found_matches (stays_esc c p (r ∷ s) h)
  by_rune c p [] ordinary h i j = ap found_matches (stays_ordinary c p [] h)
  by_rune c p (r ∷ s) ordinary h i j = ap found_matches (stays_ordinary c p (r ∷ s) h)

  -- Skipping the wildcards loses no match.
  pub skip_wildcards-matches :
      (p s : List ℕ)
      → found_matches (skip_wildcards p s) ≡ any_part (matches same (tokens false p)) s
  unfolding found_matches skip_wildcards
  skip_wildcards-matches [] s = refl
  skip_wildcards-matches (c ∷ p) s =
      by_rune c p s (rune c) refl (skip_wildcards-matches p s)
        (skip_wildcards-matches p (skip_rune s))
