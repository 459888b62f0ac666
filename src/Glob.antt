-- ===== src/Glob.antt =====
-- internal/expr/glob/like.go: the patterns of LIKE. A string is the list of runes that readRune takes
-- from it one by one. Whether two runes that are not both ASCII fold to each other is a parameter, for
-- the loop over unicode.SimpleFold.
pub mod Meaning
pub mod Skips
pub mod Rounds
pub mod Decides
mod Samples
use genji.Prelude.{
  ℕ, zero, suc, ◌+◌, Bool, true, false, not, ◌&&◌, Option, none, some, List, [], ◌∷◌, ltb, leb,
  ◌==◌, if◌then◌else◌,
}

abbrev match_one : ℕ
match_one = 95

abbrev match_all : ℕ
match_all = 37

abbrev match_esc : ℕ
match_esc = 92

-- What a rune of a pattern that is not escaped does; an ordinary one stands for itself.
pub data Rune : Type 0 where
  one all esc ordinary : Rune

unfoldable pub rune : ℕ → Rune
rune c =
    if c == match_all
    then all
    else if c == match_one
    then one
    else if c == match_esc
    then esc
    else ordinary

-- skipRune
unfoldable pub skip_rune : List ℕ → List ℕ
skip_rune [] = []
skip_rune (r ∷ s) = s

unfoldable pub is_empty : List ℕ → Bool
is_empty [] = true
is_empty (r ∷ s) = false

-- equalFold
unfoldable pub equal_fold : (ℕ → ℕ → Bool) → ℕ → ℕ → Bool
equal_fold folds s t =
    let lo = if ltb t s then t else s in
    let hi = if ltb t s then s else t in
    if t == s
    then true
    else if ltb hi 128
    then leb 65 lo && (leb lo 90 && (hi == lo + 32))
    else folds lo hi

-- The rest of the pattern and of the string, prevEscape, and the backtracking state.
pub record State : Type 0 where
  pub pattern : List ℕ
  pub s : List ℕ
  pub escaped : Bool
  pub w : List ℕ
  pub t : List ℕ

-- A return, or the next round of the loop.
pub data Next : Type 0 where
  stop : Bool → Next
  go : State → Next

-- The wildcards that follow a '%', with a rune skipped for each '_'; `none` is the return of false.
unfoldable pub skip_wildcards : List ℕ → List ℕ → Option (List ℕ × List ℕ)
unfolding rune
skip_wildcards [] s = some ([], s)
skip_wildcards (c ∷ p) [] = elim (rune c) [
  | all ↦ skip_wildcards p []
  | one ↦ none
  | esc ↦ some (c ∷ p, [])
  | ordinary ↦ some (c ∷ p, [])
]
skip_wildcards (c ∷ p) (r ∷ s) = elim (rune c) [
  | all ↦ skip_wildcards p (r ∷ s)
  | one ↦ skip_wildcards p s
  | esc ↦ some (c ∷ p, r ∷ s)
  | ordinary ↦ some (c ∷ p, r ∷ s)
]

-- Case 1, at a '%' before the pattern.
unfoldable pub after_all : Option (List ℕ × List ℕ) → Next
after_all none = stop false
after_all (some ([], s)) = stop true
after_all (some (c ∷ p, s)) =
    go (record { pattern = c ∷ p; s = s; escaped = false; w = c ∷ p; t = s })

-- The label `backtrack`.
unfoldable pub backtrack : State → Next
unfolding skip_wildcards after_all is_empty skip_rune
backtrack st = elim st.w [
  | [] ↦ stop (st.escaped && is_empty st.s)
  | c ∷ p ↦ after_all (skip_wildcards (c ∷ p) (skip_rune st.t))
]

-- The check at the end of the string: the rest of the pattern is '%', but for an escape at its end.
unfoldable pub rest_matches : List ℕ → Bool
unfolding rune
rest_matches [] = true
rest_matches (c ∷ p) = elim (rune c) [
  | all ↦ rest_matches p
  | one ↦ false
  | esc ↦ is_empty p
  | ordinary ↦ false
]

module _ (folds : ℕ → ℕ → Bool) where
  -- Case 4.
  unfoldable pub ordinary_case : ℕ → List ℕ → ℕ → List ℕ → State → Next
  unfolding backtrack equal_fold
  ordinary_case c p r s st =
      let next = record st { pattern = p; s = s; escaped = false } in
      if equal_fold folds c r then go next else backtrack next

  -- A round of the loop, for a string that begins with the rune `r`.
  unfoldable pub step : ℕ → List ℕ → State → Next
  unfolding rune backtrack ordinary_case after_all skip_wildcards
  step r s st = elim st.pattern [
    | [] ↦ backtrack st
    | c ∷ p ↦ elim st.escaped [
      | true ↦ ordinary_case c p r s st
      | false ↦ elim (rune c) [
        | all ↦ after_all (skip_wildcards p (r ∷ s))
        | one ↦ go (record st { pattern = p; s = s })
        | esc ↦ go (record st { pattern = p; escaped = true })
        | ordinary ↦ ordinary_case c p r s st
      ]
    ]
  ]

  -- The loop, with fuel for as many rounds.
  unfoldable pub loop : ℕ → State → Option Bool
  unfolding step rest_matches
  loop zero st = none
  loop (suc n) st = elim st.s [
    | [] ↦ some (rest_matches st.pattern)
    | r ∷ s ↦ elim (step r s st) [ stop b ↦ some b | go next ↦ loop n next ]
  ]

  -- MatchLike
  unfoldable pub match_like : ℕ → List ℕ → List ℕ → Option Bool
  unfolding loop
  match_like fuel pattern s =
      loop fuel (record { pattern = pattern; s = s; escaped = false; w = []; t = [] })
