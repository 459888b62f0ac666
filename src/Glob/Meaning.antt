-- ===== src/Glob/Meaning.antt =====
-- The meaning of the patterns of LIKE (internal/expr/glob/like.go), independent of the search.
use genji.Prelude.{ℕ, ◌≡◌, refl, sym, ap, ◌∙◌, Bool, true, false, ◌&&◌, ◌||◌, List, [], ◌∷◌}
use genji.Glob.{Rune, all, one, esc, ordinary, rune, rest_matches, is_empty}

pub data Token : Type 0 where
  any single : Token
  exactly : ℕ → Token

-- The tokens of a pattern; the argument says whether an escape stands before it. An escape at the end
-- stands for nothing.
unfoldable pub tokens : Bool → List ℕ → List Token
unfolding rune
tokens e [] = []
tokens true (c ∷ p) = exactly c ∷ tokens false p
tokens false (c ∷ p) = elim (rune c) [
  | all ↦ any ∷ tokens false p
  | one ↦ single ∷ tokens false p
  | esc ↦ tokens true p
  | ordinary ↦ exactly c ∷ tokens false p
]

-- What begins with a rune that is not escaped.
abbrev pub first_tokens : Rune → ℕ → List ℕ → List Token
first_tokens all c p = any ∷ tokens false p
first_tokens one c p = single ∷ tokens false p
first_tokens esc c p = tokens true p
first_tokens ordinary c p = exactly c ∷ tokens false p

pub tokens-rune :
    (c : ℕ) (p : List ℕ) (k : Rune) → rune c ≡ k → tokens false (c ∷ p) ≡ first_tokens k c p
unfolding tokens
tokens-rune c p all h = rw (h, tokens) refl
tokens-rune c p one h = rw (h, tokens) refl
tokens-rune c p esc h = rw (h, tokens) refl
tokens-rune c p ordinary h = rw (h, tokens) refl

-- Some last part of the string has the property.
unfoldable pub any_part : (List ℕ → Bool) → List ℕ → Bool
any_part f [] = f []
any_part f (r ∷ s) = f (r ∷ s) || any_part f s

module _ (same : ℕ → ℕ → Bool) where
  unfoldable pub matches : List Token → List ℕ → Bool
  unfolding any_part is_empty
  matches [] s = is_empty s
  matches (any ∷ ts) s = any_part (matches ts) s
  matches (single ∷ ts) [] = false
  matches (single ∷ ts) (r ∷ s) = matches ts s
  matches (exactly c ∷ ts) [] = false
  matches (exactly c ∷ ts) (r ∷ s) = same c r && matches ts s

  pub matches-rest : (p : List ℕ) → rest_matches p ≡ matches (tokens false p) []
  unfolding rest_matches matches tokens any_part is_empty
  matches-rest [] = refl
  matches-rest (c ∷ p) =
      let ih = matches-rest p in
      elim (rune c)
        as (λ x.
          (elim x [ all ↦ rest_matches p | one ↦ false | esc ↦ is_empty p | ordinary ↦ false ])
          ≡ matches
              (elim x [
                | all ↦ any ∷ tokens false p
                | one ↦ single ∷ tokens false p
                | esc ↦ tokens true p
                | ordinary ↦ exactly c ∷ tokens false p
              ])
              []) [ all ↦ ih | one ↦ refl | esc ↦ escape_end p | ordinary ↦ refl ]
    where
      escape_end : (p : List ℕ) → is_empty p ≡ matches (tokens true p) []
      escape_end [] = refl
      escape_end (c ∷ p) = refl

or_assoc : (a b c : Bool) → a || (b || c) ≡ (a || b) || c
or_assoc true b c = refl
or_assoc false b c = refl

or_true : (a b : Bool) → a ≡ true → a || b ≡ true
or_true true b h = refl
or_true false b h = absurd (cc h)

pub or_true_right : (a b : Bool) → b ≡ true → a || b ≡ true
or_true_right true b h = refl
or_true_right false b h = h

pub or_absorbed : (a b : Bool) → (b ≡ true → a ≡ true) → a || b ≡ a
or_absorbed true b h = refl
or_absorbed false true h = sym (h refl)
or_absorbed false false h = refl

-- A last part of a last part is one.
pub any_part_twice : (f : List ℕ → Bool) (s : List ℕ) → any_part (any_part f) s ≡ any_part f s
unfolding any_part
any_part_twice f [] = refl
any_part_twice f (r ∷ s) =
    ap (λ b. any_part f (r ∷ s) || b) (any_part_twice f s)
    ∙ or_absorbed (any_part f (r ∷ s)) (any_part f s)
        (λ h. or_true_right (f (r ∷ s)) (any_part f s) h)
