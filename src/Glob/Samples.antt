-- ===== src/Glob/Samples.antt =====
-- A pattern of LIKE with both wildcards.
use genji.Prelude.{◌≡◌, true, false, some, [], ◌∷◌, arith}
use genji.Glob.{match_like, equal_fold, rune, is_empty}
use genji.Glob.Meaning.{tokens, matches, any_part}
use genji.Glob.Decides.{match_like-matches}

-- 'ABCBD' LIKE '%b_': the search has to go back from the first B to the second.
match_like-matches_example :
    match_like (λ s t. false) 24 (37 ∷ 98 ∷ 95 ∷ []) (65 ∷ 66 ∷ 67 ∷ 66 ∷ 68 ∷ []) ≡ some true
unfolding tokens matches any_part equal_fold rune is_empty
match_like-matches_example =
    match_like-matches (λ s t. false) 24 (37 ∷ 98 ∷ 95 ∷ []) (65 ∷ 66 ∷ 67 ∷ 66 ∷ 68 ∷ [])
      (omega arith)
