-- ===== src/Glob/Decides.antt =====
-- The search of MatchLike (internal/expr/glob/like.go) against the meaning of its patterns.
use genji.Prelude.{
  ℕ, zero, suc, ◌+◌, ◌*◌, ◌<◌, ◌≤◌, ◌≡◌, refl, sym, ap, subst, ◌∙◌, Bool, true, false, ◌||◌, some,
  List, [], ◌∷◌, length, arith,
}
use genji.Glob.{
  Rune, all, one, esc, ordinary, rune, is_empty, equal_fold, State, Next, stop, go, skip_wildcards,
  after_all, ordinary_case, step, loop, match_like,
}
use genji.Glob.Meaning.{Token, tokens, any_part, matches, or_absorbed, matches-rest, tokens-rune}
use genji.Glob.Skips.{skip_wildcards-Found, any_part-single, skip_wildcards-matches, or_false}
use genji.Glob.Rounds.{
  Backs, no_back, retry, ahead, worth, Sound, Outcome, stops, goes, after_all-Outcome,
  backtrack-Outcome, ordinary_case-Outcome, closer, mul_le,
}
use genji.Glob.Meaning.{any_part_twice, first_tokens}

module _ (folds : ℕ → ℕ → Bool) where
  abbrev at : List ℕ → List ℕ → Bool → List ℕ → List ℕ → State
  at p s e w t = record { pattern = p; s = s; escaped = e; w = w; t = t }

  abbrev same : ℕ → ℕ → Bool
  same = equal_fold folds

  -- A round, by what it does and what the answer is.
  by_parts :
      (l n : ℕ) (v v' : Bool) (next next' : Next)
      → next ≡ next'
      → v' ≡ v
      → Outcome same l n v' next'
      → Outcome same l n v next
  by_parts l n v v' next next' h k o =
      subst (λ x. Outcome same l n v x) (sym h) (subst (λ x. Outcome same l n x next') k o)

  abbrev first_step : Rune → ℕ → ℕ → List ℕ → List ℕ → List ℕ → List ℕ → Next
  first_step all r c p s w t = after_all (skip_wildcards p (r ∷ s))
  first_step one r c p s w t = go (at p s false w t)
  first_step esc r c p s w t = go (at p (r ∷ s) true w t)
  first_step ordinary r c p s w t = ordinary_case folds c p r s (at (c ∷ p) (r ∷ s) false w t)

  step-rune :
      (r c : ℕ) (p s w t : List ℕ) (x : Rune)
      → rune c ≡ x
      → step folds r s (at (c ∷ p) (r ∷ s) false w t) ≡ first_step x r c p s w t
  unfolding step
  step-rune r c p s w t all h = rw (h, step) refl
  step-rune r c p s w t one h = rw (h, step) refl
  step-rune r c p s w t esc h = rw (h, step) refl
  step-rune r c p s w t ordinary h = rw (h, step) refl

  -- Whether the tokens match, or the backtracking does.
  abbrev answer : List Token → ℕ → List ℕ → List ℕ → List ℕ → Bool
  answer ts r s w t = matches same ts (r ∷ s) || retry same w t

  first_step-Outcome :
      (l n k r c : ℕ) (p s w t : List ℕ) (x : Rune)
      → (retry same w t ≡ true → any_part (matches same (first_tokens x c p)) (r ∷ s) ≡ true)
      → suc (length s) ≤ k
      → length p ≤ l
      → Backs l k (suc (length s)) w t
      → k * suc l + suc (length p) < suc n
      → Outcome same l n (answer (first_tokens x c p) r s w t) (first_step x r c p s w t)
  unfolding matches worth ahead
  first_step-Outcome l n k r c p s w t all cov a i b j =
      let q = mul_le same (suc (length s)) k (suc l) a in
      let ts = tokens false p in
      after_all-Outcome same l n (length (r ∷ s)) (length p) _ (skip_wildcards p (r ∷ s))
        (skip_wildcards-Found p (r ∷ s))
        (skip_wildcards-matches same p (r ∷ s)
          ∙ sym (
              or_absorbed (any_part (matches same ts) (r ∷ s)) (retry same w t)
                (λ h. sym (any_part_twice (matches same ts) (r ∷ s)) ∙ cov h)))
        i (omega (arith, q, j))
  first_step-Outcome l n k r c p s w t one cov a i b j =
      goes k _ refl
        (record {
          covers = λ h. sym (any_part-single same (tokens false p) r s) ∙ cov h;
          escapes = λ h. absurd (cc h);
          pattern_short = i;
          s_short = omega (arith, a);
          backs = closer same l k (length s) w t b;
        })
        (omega (arith, j))
  first_step-Outcome l n k r c p s w t esc cov a i b j =
      goes k _ refl
        (record { covers = cov; escapes = λ h. refl; pattern_short = i; s_short = a; backs = b })
        (omega (arith, j))
  first_step-Outcome l n k r c p s w t ordinary cov a i b j =
      ordinary_case-Outcome folds l n k c r p s (c ∷ p) (r ∷ s) false w t _ b j i a refl cov

  step-Outcome :
      (l n k r : ℕ) (p s : List ℕ) (e : Bool) (w t : List ℕ)
      → Sound same l k (at p (r ∷ s) e w t)
      → k * suc l + length p < suc n
      → Outcome same l n (worth same (at p (r ∷ s) e w t)) (step folds r s (at p (r ∷ s) e w t))
  unfolding step worth ahead matches tokens is_empty
  step-Outcome l n k r [] s true w t v j =
      backtrack-Outcome same l n k (length s) [] (r ∷ s) true w t v.backs (omega (arith, j)) refl
  step-Outcome l n k r [] s false w t v j =
      backtrack-Outcome same l n k (length s) [] (r ∷ s) false w t v.backs (omega (arith, j)) refl
  step-Outcome l n k r (c ∷ p) s true w t v j =
      let sh = v.pattern_short in
      ordinary_case-Outcome folds l n k c r p s (c ∷ p) (r ∷ s) true w t _ v.backs j
        (omega (arith, sh)) v.s_short refl v.covers
  step-Outcome l n k r (c ∷ p) s false w t v j =
      let sh = v.pattern_short in
      let q = tokens-rune c p (rune c) refl in
      by_parts l n _ _ _ _ (step-rune r c p s w t (rune c) refl)
        (ap (λ ts. answer ts r s w t) (sym q))
        (first_step-Outcome l n k r c p s w t (rune c)
          (λ h. ap (λ ts. any_part (matches same ts) (r ∷ s)) (sym q) ∙ v.covers h) v.s_short
          (omega (arith, sh)) v.backs j)

  followed :
      (l n : ℕ) (v : Bool) (o : Next)
      → Outcome same l n v o
      → ((k : ℕ) (st : State)
          → Sound same l k st
          → k * suc l + length st.pattern < n
          → loop folds n st ≡ some (worth same st))
      → (elim o [ stop b ↦ some b | go next ↦ loop folds n next ]) ≡ some v
  followed l n v (stop b) (stops _ h) ih = ap some h
  followed l n v (go st) (goes k _ h x j) ih = ih k st x j ∙ ap some h

  -- The loop gives the answer, given fuel for each place of the string and each rune of the pattern.
  loop-worth :
      (n l k : ℕ) (p s : List ℕ) (e : Bool) (w t : List ℕ)
      → Sound same l k (at p s e w t)
      → k * suc l + length p < n
      → loop folds n (at p s e w t) ≡ some (worth same (at p s e w t))
  unfolding loop worth ahead is_empty any_part
  loop-worth zero l k p s e w t v j = absurd (omega (arith, j))
  loop-worth (suc n) l k p [] true w t v j = absurd (cc (v.escapes refl))
  loop-worth (suc n) l k p [] false w t v j = ap some (
      matches-rest same p
      ∙ sym (or_absorbed (matches same (tokens false p) []) (retry same w t) v.covers))
  loop-worth (suc n) l k p (r ∷ s) e w t v j =
      followed l n _ _ (step-Outcome l n k r p s e w t v j)
        (λ k' st' v' j'. loop-worth n l k' st'.pattern st'.s st'.escaped st'.w st'.t v' j')

-- MatchLike returns, whatever the pattern and the string, and says whether the string matches the
-- tokens of the pattern, where each '%' stands for any runes; this with fuel for m * (n + 1) + n + 1
-- rounds, for a pattern of n runes and a string of m.
pub match_like-matches :
    (folds : ℕ → ℕ → Bool) (fuel : ℕ) (pattern s : List ℕ)
    → length s * suc (length pattern) + length pattern < fuel
    → match_like folds fuel pattern s ≡ some (matches (equal_fold folds) (tokens false pattern) s)
unfolding match_like
match_like-matches folds fuel pattern s h =
    loop-worth folds fuel (length pattern) (length s) pattern s false [] []
      (record {
        covers = unfold retry in λ q. absurd (cc q);
        escapes = λ q. absurd (cc q);
        pattern_short = omega arith;
        s_short = omega arith;
        backs = no_back [];
      })
      h
    ∙ ap some (unfold worth in unfold ahead in unfold retry in or_false _)
