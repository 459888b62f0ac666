-- ===== src/Stream/Trace/Refines.antt =====
-- Iterate against the trace of a stream.
use genji.Prelude.{
  ℕ, zero, suc, ◌+◌, ◌≡◌, refl, sym, ap, ◌∙◌, Bool, true, false, Option, none, some, List, [], ◌∷◌,
  if◌then◌else◌, arith,
}
use genji.Prelude.Int.{ℤ, pos, pos_part, ltb_ℤ}
use genji.Prelude.Results.{Result, ok, err}
use genji.Document.Floats.{Floats}
use genji.Expr.{Expr}
use genji.Environment.{Environment, Doc}
use genji.Stream.{StreamError, stream_closed, Step, and_call, each_doc}
use genji.Stream.Iterate.{with_doc, mapped, each_expr, beside, forget}
use genji.Stream.Trace.{
  Trace, replay, before, through, limited, behind, followed, each_in, kept, kept_if, each_document,
}

module _ {S : Type 0} where
  -- What follows the call of `f`.
  abbrev pub next : Step S → (S → Step S) → Step S
  next (ok u, s) g = g s
  next (err e, s) g = (err e, s)

  replay_cons :
      (f : Environment → S → Step S) (x : Environment) (xs : List Environment)
      (e : Option StreamError) (s : S)
      → replay f (x ∷ xs) e s ≡ next (f x s) (replay f xs e)
  unfolding replay
  replay_cons f x xs e s = by_result (f x s)
    where
      by_result :
          (r : Step S)
          → (elim r.0 [ ok u ↦ replay f xs e r.1 | err y ↦ r ]) ≡ next r (replay f xs e)
      by_result (ok u, s) = refl
      by_result (err y, s) = refl

  pub next-eq :
      (r r' : Step S) (g h : S → Step S) → r ≡ r' → ((s : S) → g s ≡ h s) → next r g ≡ next r' h
  next-eq (ok u, s) r' g h p q = ap (λ r. next r g) p ∙ second r'
    where
      second : (r : Step S) → next r g ≡ next r h
      second (ok u, s) = q s
      second (err e, s) = refl
  next-eq (err e, s) r' g h p q = ap (λ r. next r g) p ∙ second r'
    where
      second : (r : Step S) → next r g ≡ next r h
      second (ok u, s) = q s
      second (err e, s) = refl

  -- Equal calls give equal replays.
  pub replay_cong :
      (f g : Environment → S → Step S)
      → ((x : Environment) (s : S) → f x s ≡ g x s)
      → (xs : List Environment) (e : Option StreamError) (s : S) → replay f xs e s ≡ replay g xs e s
  replay_cong f g h [] none s = unfold replay in refl
  replay_cong f g h [] (some e) s = unfold replay in refl
  replay_cong f g h (x ∷ xs) e s =
      replay_cons f x xs e s
      ∙ next-eq _ _ _ _ (h x s) (replay_cong f g h xs e)
      ∙ sym (replay_cons g x xs e s)

  -- The call for an environment that is replaced or dropped.
  abbrev call : (Environment → S → Step S) → S → Option Environment → Step S
  call f s none = (ok tt, s)
  call f s (some x) = f x s

  pub replay-through :
      (f : Environment → S → Step S) (g : Environment → Result StreamError (Option Environment))
      (xs : List Environment) (e : Option StreamError) (s : S)
      → replay (λ x t. and_call (g x) t (call f t)) xs e s
        ≡ replay f (through g xs e).0 (through g xs e).1 s
  replay-through f g [] none s = unfold replay through in refl
  replay-through f g [] (some e) s = unfold replay through in refl
  replay-through f g (x ∷ xs) e s =
      replay_cons _ x xs e s
      ∙ next-eq _ _ _ _ refl (replay-through f g xs e)
      ∙ (unfold through in by_result (g x))
    where
      by_result :
          (r : Result StreamError (Option Environment))
          → next (and_call r s (call f s)) (replay f (through g xs e).0 (through g xs e).1) ≡ (
              let t : Trace = elim r [
                | err y ↦ ([], some y)
                | ok none ↦ through g xs e
                | ok (some new) ↦ before new (through g xs e)
              ] in
              replay f t.0 t.1 s)
      by_result (err y) = unfold replay in refl
      by_result (ok none) = refl
      by_result (ok (some new)) = sym (replay_cons f new _ _ s)

  pub kept-call :
      (f : Environment → S → Step S) (r : Result StreamError Environment) (t : S)
      → and_call r t (λ new. f new t) ≡ and_call (kept r) t (call f t)
  kept-call f (ok x) t = refl
  kept-call f (err e) t = refl

  pub kept_if-call :
      (f : Environment → S → Step S) (x : Environment) (r : Result StreamError Bool) (t : S)
      → and_call r t (λ b. if b then f x t else (ok tt, t)) ≡ and_call (kept_if x r) t (call f t)
  kept_if-call f x (ok true) t = refl
  kept_if-call f x (ok false) t = refl
  kept_if-call f x (err e) t = refl

  each_doc_cons :
      (env : Environment) (f : Environment → S → Step S) (d : Doc) (ds : List Doc)
      (e : Option StreamError) (s : S)
      → each_doc env f (d ∷ ds) e s ≡ next (f (with_doc env d) s) (each_doc env f ds e)
  unfolding each_doc
  each_doc_cons env f d ds e s = by_result (f (with_doc env d) s)
    where
      by_result :
          (r : Step S)
          → (elim r.0 [ ok u ↦ each_doc env f ds e r.1 | err y ↦ r ]) ≡ next r (each_doc env f ds e)
      by_result (ok u, s) = refl
      by_result (err y, s) = refl

  pub each_doc-replay :
      (env : Environment) (f : Environment → S → Step S) (ds : List Doc) (e : Option StreamError)
      (s : S)
      → each_doc env f ds e s ≡ replay f (each_in env ds) e s
  each_doc-replay env f [] none s = unfold each_doc each_in replay in refl
  each_doc-replay env f [] (some e) s = unfold each_doc each_in replay in refl
  each_doc-replay env f (d ∷ ds) e s =
      each_doc_cons env f d ds e s
      ∙ next-eq _ _ _ _ refl (each_doc-replay env f ds e)
      ∙ sym (replay_cons f (with_doc env d) (each_in env ds) e s)
      ∙ (unfold each_in in refl)

  -- One round of each_expr.
  each_expr_round :
      (fl : Floats) (env : Environment) (f : Environment → S → Step S) (e : Expr Environment)
      (es : List (Expr Environment)) (s : S)
      → ((t : S)
          → each_expr fl env f es t
            ≡ replay f (each_document fl env es).0 (each_document fl env es).1 t)
      → each_expr fl env f (e ∷ es) s
        ≡ replay f (each_document fl env (e ∷ es)).0 (each_document fl env (e ∷ es)).1 s
  unfolding each_expr each_document
  each_expr_round fl env f e es s h = by_document (mapped fl e env)
    where
      by_result :
          (r : Step S)
          → (elim r.0 [ ok u ↦ each_expr fl env f es r.1 | err x ↦ r ])
            ≡ next r (replay f (each_document fl env es).0 (each_document fl env es).1)
      by_result (ok u, t) = h t
      by_result (err x, t) = refl

      by_document :
          (r : Result StreamError Environment)
          → (let q : Step S = and_call r s (λ out. f out s) in
              elim q.0 [ ok u ↦ each_expr fl env f es q.1 | err x ↦ q ])
            ≡ (let t : Trace = elim r [
              | ok x ↦ before x (each_document fl env es)
              | err y ↦ ([], some y)
            ] in
                replay f t.0 t.1 s)
      by_document (err y) = unfold replay in refl
      by_document (ok x) = by_result (f x s) ∙ sym (replay_cons f x _ _ s)

  pub each_expr-replay :
      (fl : Floats) (env : Environment) (f : Environment → S → Step S)
      (es : List (Expr Environment)) (s : S)
      → each_expr fl env f es s ≡ replay f (each_document fl env es).0 (each_document fl env es).1 s
  each_expr-replay fl env f [] s = unfold each_expr each_document replay in refl
  each_expr-replay fl env f (e ∷ es) s =
      each_expr_round fl env f e es s (each_expr-replay fl env f es)

  -- Two streams, one behind the other.
  pub replay-followed :
      (f : Environment → S → Step S) (xs : List Environment) (e : Option StreamError) (t : Trace)
      (s : S)
      → next (replay f xs e s) (replay f t.0 t.1)
        ≡ replay f (followed xs e t).0 (followed xs e t).1 s
  replay-followed f [] none t s = unfold replay followed in refl
  replay-followed f [] (some e) t s = unfold replay followed in refl
  replay-followed f (x ∷ xs) e t s =
      ap (λ r. next r (replay f t.0 t.1)) (replay_cons f x xs e s)
      ∙ assoc (f x s)
      ∙ next-eq (f x s) _ _ _ refl (replay-followed f xs e t)
      ∙ sym (replay_cons f x _ _ s)
      ∙ (unfold followed in refl)
    where
      assoc :
          (r : Step S)
          → next (next r (replay f xs e)) (replay f t.0 t.1)
            ≡ next r (λ s. next (replay f xs e s) (replay f t.0 t.1))
      assoc (ok u, s) = refl
      assoc (err x, s) = refl

-- The operators with a variable of their own.
module _ {S : Type 0} (n : ℤ) (f : Environment → S → Step S) where
  abbrev take_call : Environment → ℕ × S → Step (ℕ × S)
  take_call out t =
      if ltb_ℤ (pos t.0) n then beside (suc t.0) (f out t.1) else (err stream_closed, t)

  abbrev skip_call : Environment → ℕ × S → Step (ℕ × S)
  skip_call out t = if ltb_ℤ (pos t.0) n then (ok tt, (suc t.0, t.1)) else beside t.0 (f out t.1)

  forget-next :
      (a : ℕ) (r : Step S) (g : ℕ × S → Step (ℕ × S)) (h : S → Step S)
      → ((s : S) → forget (g (a, s)) ≡ h s)
      → forget (next (beside a r) g) ≡ next r h
  forget-next a (ok u, s) g h k = k s
  forget-next a (err e, s) g h k = refl

  pub replay-take :
      (k c : ℕ) (xs : List Environment) (e : Option StreamError) (s : S)
      → c + k ≡ pos_part n
      → forget (replay take_call xs e (c, s)) ≡ replay f (limited k xs e).0 (limited k xs e).1 s
  replay-take k c [] none s h = unfold replay limited in refl
  replay-take k c [] (some e) s h = unfold replay limited in refl
  replay-take zero c (x ∷ xs) e s h =
      let p : ltb_ℤ (pos c) n ≡ false = ground arith in
      ap forget (replay_cons take_call x xs e (c, s))
      ∙ ap
          (λ b. forget (
            next (if b then beside (suc c) (f x s) else (err stream_closed, (c, s)))
              (replay take_call xs e)))
          p
      ∙ (unfold replay limited in refl)
  replay-take (suc k) c (x ∷ xs) e s h =
      let p : ltb_ℤ (pos c) n ≡ true = ground arith in
      ap forget (replay_cons take_call x xs e (c, s))
      ∙ ap
          (λ b. forget (
            next (if b then beside (suc c) (f x s) else (err stream_closed, (c, s)))
              (replay take_call xs e)))
          p
      ∙ forget-next (suc c) (f x s) _ _ (λ t. replay-take k (suc c) xs e t (omega arith))
      ∙ sym (replay_cons f x _ _ s)
      ∙ (unfold limited in refl)

  pub replay-skip :
      (k c : ℕ) (xs : List Environment) (e : Option StreamError) (s : S)
      → c + k ≡ pos_part n
      → forget (replay skip_call xs e (c, s)) ≡ replay f (behind k xs) e s
  replay-skip zero c [] none s h = unfold replay behind in refl
  replay-skip zero c [] (some e) s h = unfold replay behind in refl
  replay-skip (suc k) c [] none s h = unfold replay behind in refl
  replay-skip (suc k) c [] (some e) s h = unfold replay behind in refl
  replay-skip zero c (x ∷ xs) e s h =
      let p : ltb_ℤ (pos c) n ≡ false = ground arith in
      ap forget (replay_cons skip_call x xs e (c, s))
      ∙ ap
          (λ b.
            forget
              (next (if b then (ok tt, (suc c, s)) else beside c (f x s)) (replay skip_call xs e)))
          p
      ∙ forget-next c (f x s) (replay skip_call xs e) (replay f xs e)
          (λ t. replay-skip zero c xs e t h ∙ (unfold behind in refl))
      ∙ sym (replay_cons f x xs e s)
      ∙ (unfold behind in refl)
  replay-skip (suc k) c (x ∷ xs) e s h =
      let p : ltb_ℤ (pos c) n ≡ true = ground arith in
      ap forget (replay_cons skip_call x xs e (c, s))
      ∙ ap
          (λ b.
            forget
              (next (if b then (ok tt, (suc c, s)) else beside c (f x s)) (replay skip_call xs e)))
          p
      ∙ replay-skip k (suc c) xs e s (omega arith)
      ∙ (unfold behind in refl)

-- A single environment, and none.
module _ {S : Type 0} (f : Environment → S → Step S) where
  pub replay_one : (x : Environment) (s : S) → f x s ≡ replay f (x ∷ []) none s
  replay_one x s = by_result (f x s) ∙ sym (replay_cons f x [] none s)
    where
      by_result : (r : Step S) → r ≡ next r (replay f [] none)
      by_result (ok u, t) = unfold replay in refl
      by_result (err e, t) = refl

  pub replay_nil : (s : S) → (ok tt, s) ≡ replay f [] none s
  unfolding replay
  replay_nil s = refl
