-- ===== src/Glob/Rounds.antt =====
-- Parts of a round of MatchLike's loop (internal/expr/glob/like.go): a '%', an ordinary rune, and going
-- back to the last '%'.
use genji.Prelude.{
  ℕ, zero, suc, ◌+◌, ◌*◌, ◌<◌, ◌≤◌, ◌≡◌, refl, sym, ap, subst, ◌∙◌, Bool, true, false, ◌&&◌, ◌||◌,
  Option, none, some, List, [], ◌∷◌, length, arith, inl, inr, Bool-cases,
}
use genji.Glob.{
  skip_rune, is_empty, equal_fold, State, Next, stop, go, skip_wildcards, after_all, backtrack,
  ordinary_case,
}
use genji.Glob.Meaning.{Token, exactly, tokens, any_part, matches, or_absorbed, or_true_right}
use genji.Glob.Skips.{
  Found, found, skip_wildcards-Found, found_matches, skip_wildcards-matches, or_false,
}

-- The lengths that the backtracking state keeps to.
pub data Backs (l k a : ℕ) : List ℕ → List ℕ → Type 0 where
  no_back : (t : List ℕ) → Backs l k a [] t
  back :
      (c : ℕ) (p t : List ℕ)
      → length (c ∷ p) ≤ l
      → a ≤ length t
      → length t ≤ k
      → Backs l k a (c ∷ p) t

and_right : (a b : Bool) → a && b ≡ true → b ≡ true
and_right true b h = h
and_right false b h = absurd (cc h)

or_step : (a b c d : Bool) → (a && b) || c ≡ true → (c ≡ true → d ≡ true) → b || d ≡ true
or_step a true c d h k = refl
or_step true false c d h k = k h
or_step false false c d h k = k h

module _ (same : ℕ → ℕ → Bool) where
  -- Whether the backtracking finds a match.
  unfoldable pub retry : List ℕ → List ℕ → Bool
  unfolding matches any_part tokens skip_rune
  retry [] t = false
  retry (c ∷ p) t = any_part (matches same (tokens false (c ∷ p))) (skip_rune t)

  -- Whether the rest of the pattern matches the rest of the string.
  unfoldable pub ahead : State → Bool
  unfolding matches tokens
  ahead st = matches same (tokens st.escaped st.pattern) st.s

  unfoldable pub worth : State → Bool
  unfolding ahead retry
  worth st = ahead st || retry st.w st.t

  -- A later match of the backtracking is also one of the rest of the pattern, at a later place.
  pub record Sound (l k : ℕ) (st : State) : Type 0 where
    pub covers :
        retry st.w st.t ≡ true → any_part (matches same (tokens st.escaped st.pattern)) st.s ≡ true
    pub escapes : st.escaped ≡ true → is_empty st.s ≡ false
    pub pattern_short : length st.pattern ≤ l
    pub s_short : length st.s ≤ k
    pub backs : Backs l k (length st.s) st.w st.t

  -- What a round leads to, given the answer `v` and fuel for `n` more.
  pub data Outcome (l n : ℕ) (v : Bool) : Next → Type 0 where
    stops : (b : Bool) → b ≡ v → Outcome l n v (stop b)
    goes :
        (k : ℕ) (st : State)
        → worth st ≡ v
        → Sound l k st
        → k * suc l + length st.pattern < n
        → Outcome l n v (go st)

  pub any_part_all : (s : List ℕ) → any_part (matches same []) s ≡ true
  unfolding any_part matches is_empty
  any_part_all [] = refl
  any_part_all (r ∷ s) = any_part_all s

  part_or_later : (f : List ℕ → Bool) (s : List ℕ) → f s || any_part f (skip_rune s) ≡ any_part f s
  unfolding any_part skip_rune
  part_or_later f [] = or_absorbed (f []) (f []) (λ h. h)
  part_or_later f (r ∷ s) = refl

  pub later_part :
      (f : List ℕ → Bool) (s : List ℕ) → any_part f (skip_rune s) ≡ true → any_part f s ≡ true
  later_part f s h = sym (part_or_later f s) ∙ or_true_right (f s) (any_part f (skip_rune s)) h

  -- Behind a '%' the search begins anew.
  pub after_all-Outcome :
      (l n k a : ℕ) (v : Bool) (o : Option (List ℕ × List ℕ))
      → Found a k o
      → found_matches same o ≡ v
      → a ≤ l
      → k * suc l + a < n
      → Outcome l n v (after_all o)
  unfolding after_all found_matches worth ahead retry
  after_all-Outcome l n k a v none x h i j = stops false h
  after_all-Outcome l n k a v (some ([], s)) x h i j = stops true (sym (any_part_all s) ∙ h)
  after_all-Outcome l n k a v (some (c ∷ p, s)) (found _ _ x y) h i j =
      goes k _ (part_or_later (matches same (tokens false (c ∷ p))) s ∙ h)
        (record {
          covers = later_part (matches same (tokens false (c ∷ p))) s;
          escapes = λ q. absurd (cc q);
          pattern_short = omega (arith, x, i);
          s_short = y;
          backs = back c p s (omega (arith, x, i)) (omega arith) y;
        })
        (omega (arith, x, j))

  pub mul_le : (a b c : ℕ) → a ≤ b → a * c ≤ b * c
  mul_le zero b c h = omega arith
  mul_le (suc a) zero c h = absurd (omega (arith, h))
  mul_le (suc a) (suc b) c h = let q = mul_le a b c (omega (arith, h)) in omega (arith, q)

  -- A place in the string, as fuel.
  place : (l n k x : ℕ) → suc x ≤ k → k * suc l < suc n → x * suc l + suc l ≤ n
  place l n k x h j = let q = mul_le (suc x) k (suc l) h in omega (arith, q, j)

  pub backtrack-Outcome :
      (l n k a : ℕ) (p s : List ℕ) (e : Bool) (w t : List ℕ)
      → Backs l k (suc a) w t
      → k * suc l < suc n
      → (e && is_empty s) ≡ false
      → Outcome l n
          (retry w t)
          (backtrack (record { pattern = p; s = s; escaped = e; w = w; t = t }))
  unfolding backtrack retry skip_rune
  backtrack-Outcome l n k a p s e [] t b j h = stops (e && is_empty s) h
  backtrack-Outcome l n k a p s e (c ∷ w) [] (back _ _ _ x y z) j h = absurd (omega (arith, y))
  backtrack-Outcome l n k a p s e (c ∷ w) (r ∷ t) (back _ _ _ x y z) j h =
      let q = place l n k (length t) z j in
      after_all-Outcome l n (length t) (length (c ∷ w)) _ (skip_wildcards (c ∷ w) t)
        (skip_wildcards-Found (c ∷ w) t) (skip_wildcards-matches same (c ∷ w) t) x
        (omega (arith, q, x))

  pub closer : (l k a : ℕ) (w t : List ℕ) → Backs l k (suc a) w t → Backs l k a w t
  closer l k a [] t b = no_back t
  closer l k a (c ∷ w) t (back _ _ _ x y z) = back c w t x (omega (arith, y)) z

  pub any_part-exactly :
      (c : ℕ) (ts : List Token) (r : ℕ) (s : List ℕ)
      → any_part (matches same (exactly c ∷ ts)) (r ∷ s) ≡ true
      → any_part (matches same ts) s ≡ true
  unfolding any_part matches
  any_part-exactly c ts r [] h = and_right (same c r) (matches same ts []) (sym (or_false _) ∙ h)
  any_part-exactly c ts r (q ∷ s) h =
      or_step (same c r) (matches same ts (q ∷ s)) _ _ h (any_part-exactly c ts q s)

  equal_ordinary :
      (l n k c r : ℕ) (p s : List ℕ) (w t : List ℕ) (v : Bool)
      → Backs l k (suc (length s)) w t
      → k * suc l + length p < n
      → length p ≤ l
      → suc (length s) ≤ k
      → (same c r && matches same (tokens false p) s) || retry w t ≡ v
      → (retry w t ≡ true → any_part (matches same (exactly c ∷ tokens false p)) (r ∷ s) ≡ true)
      → same c r ≡ true
      → Outcome l n v (go (record { pattern = p; s = s; escaped = false; w = w; t = t }))
  unfolding worth ahead
  equal_ordinary l n k c r p s w t v b j i a hv cov q =
      goes k _ (ap (λ x. (x && matches same (tokens false p) s) || retry w t) (sym q) ∙ hv)
        (record {
          covers = λ h. any_part-exactly c (tokens false p) r s (cov h);
          escapes = λ h. absurd (cc h);
          pattern_short = i;
          s_short = omega (arith, a);
          backs = closer l k (length s) w t b;
        })
        j

module _ (folds : ℕ → ℕ → Bool) where
  pub ordinary_case-Outcome :
      (l n k c r : ℕ) (p s p' s' : List ℕ) (e : Bool) (w t : List ℕ) (v : Bool)
      → Backs l k (suc (length s)) w t
      → k * suc l + suc (length p) < suc n
      → length p ≤ l
      → suc (length s) ≤ k
      → (equal_fold folds c r && matches (equal_fold folds) (tokens false p) s)
          || retry (equal_fold folds) w t
        ≡ v
      → (retry (equal_fold folds) w t ≡ true
          → any_part (matches (equal_fold folds) (exactly c ∷ tokens false p)) (r ∷ s) ≡ true)
      → Outcome
          (equal_fold folds)
          l
          n
          v
          (ordinary_case folds c p r s (record { pattern = p'; s = s'; escaped = e; w = w; t = t }))
  unfolding ordinary_case
  ordinary_case-Outcome l n k c r p s p' s' e w t v b j i a hv cov =
      elim (Bool-cases (equal_fold folds c r)) [
        | inl q ↦ rw q (
            equal_ordinary (equal_fold folds) l n k c r p s w t v b (omega (arith, j)) i a hv cov q)
        | inr q ↦ rw q (
            subst
              (λ x.
                Outcome (equal_fold folds) l n x
                  (backtrack (record { pattern = p; s = s; escaped = false; w = w; t = t })))
              (ap
                  (λ x.
                    (x && matches (equal_fold folds) (tokens false p) s)
                    || retry (equal_fold folds) w t)
                  (sym q)
                ∙ hv)
              (backtrack-Outcome (equal_fold folds) l n k (length s) p s false w t b
                (omega (arith, j)) refl))
      ]
