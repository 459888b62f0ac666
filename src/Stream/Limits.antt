-- ===== src/Stream/Limits.antt =====
-- LIMIT and OFFSET on the traces (TakeOperator, SkipOperator and ConcatOperator of internal/stream).
use genji.Prelude.{
  ℕ, zero, suc, ◌+◌, ◌<◌, ◌≤◌, ◌≡◌, refl, sym, ap, ◌∙◌, Bool, true, false, Option, none, some, List,
  [], ◌∷◌, ltb, length, arith,
}
use genji.Prelude
use genji.Prelude.Int.{ℤ, pos_part}
use genji.Document.Floats.{Floats}
use genji.Environment.{Environment}
use genji.Stream.{Stream, pipe, take, concat, StreamError, stream_closed}
use genji.Stream.Trace.{Trace, before, limited, followed, trace}

followed_stopped :
    (xs : List Environment) (e : StreamError) (t : Trace) → followed xs (some e) t ≡ (xs, some e)
unfolding followed
followed_stopped [] e t = refl
followed_stopped (x ∷ xs) e t = ap (before x) (followed_stopped xs e t)

limited_closed :
    (k : ℕ) (xs : List Environment) (e : Option StreamError)
    → k < length xs
    → limited k xs e ≡ (Prelude.take k xs, some stream_closed)
unfolding limited
limited_closed zero [] e h = absurd (omega arith)
limited_closed (suc k) [] e h = absurd (omega arith)
limited_closed zero (x ∷ xs) e h = refl
limited_closed (suc k) (x ∷ xs) e h = ap (before x) (limited_closed k xs e (omega arith))

module _ (fl : Floats) where
  -- UNION ALL behind a LIMIT that cuts its stream off: nothing of the second stream is passed on.
  pub trace-concat :
      (a b prev : Stream) (n : ℤ) (env : Environment)
      → pos_part n < length (trace fl a env).0
      → trace fl (pipe prev (concat (pipe a (take n)) b)) env
        ≡ (Prelude.take (pos_part n) (trace fl a env).0, some stream_closed)
  unfolding trace
  trace-concat a b prev n env h =
      let c = limited_closed (pos_part n) (trace fl a env).0 (trace fl a env).1 h in
      ap (λ (t : Trace). followed t.0 t.1 (trace fl b env)) c
      ∙ followed_stopped _ stream_closed (trace fl b env)
