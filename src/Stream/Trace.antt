-- ===== src/Stream/Trace.antt =====
-- What a stream passes on, as a list of environments and the error that ends it: a description of
-- internal/stream that is independent of the function that Iterate calls.
pub mod Refines
pub mod Iterates
use genji.Prelude.{
  ℕ, zero, suc, Bool, true, false, Option, none, some, List, [], ◌∷◌, Bytes, if◌then◌else◌,
}
use genji.Prelude.Int.{ℤ, pos_part}
use genji.Prelude.Results.{Result, ok, err}
use genji.Document.Floats.{Floats}
use genji.Expr.{Expr}
use genji.Environment.{Environment, Doc}
use genji.Stream.{
  Stream, empty_stream, pipe, Operator, scan, documents, expressions, map, filter, take, skip,
  group_by, project, unset, iter_rename, concat, StreamError, stream_closed, Step, Column, mask,
}
use genji.Stream.Iterate.{with_doc, mapped, grouped, unsetting, renaming, passes, no_operator}

-- The environments, and the error behind them.
abbrev pub Trace : Type 0
Trace = List Environment × Option StreamError

-- `f` is called for each environment up to its first error.
unfoldable pub replay :
    {S : Type 0} → (Environment → S → Step S) → List Environment → Option StreamError → S → Step S
replay f [] none s = (ok tt, s)
replay f [] (some e) s = (err e, s)
replay f (x ∷ xs) e s =
    let r = f x s in let rest = replay f xs e r.1 in elim r.0 [ ok u ↦ rest | err y ↦ r ]

abbrev pub before : Environment → Trace → Trace
before x t = (x ∷ t.0, t.1)

-- Each environment is replaced, dropped, or ends the trace with an error.
unfoldable pub through :
    (Environment → Result StreamError (Option Environment))
    → List Environment
    → Option StreamError
    → Trace
through g [] e = ([], e)
through g (x ∷ xs) e =
    let rest = through g xs e in
    elim (g x) [ err y ↦ ([], some y) | ok none ↦ rest | ok (some new) ↦ before new rest ]

-- The first `k`; one more closes the stream.
unfoldable pub limited : ℕ → List Environment → Option StreamError → Trace
limited k [] e = ([], e)
limited zero (x ∷ xs) e = ([], some stream_closed)
limited (suc k) (x ∷ xs) e = before x (limited k xs e)

-- Those behind the first `k`.
unfoldable pub behind : ℕ → List Environment → List Environment
behind zero xs = xs
behind (suc k) [] = []
behind (suc k) (x ∷ xs) = behind k xs

-- One trace, and where it ends without an error the other.
unfoldable pub followed : List Environment → Option StreamError → Trace → Trace
followed [] none t = t
followed [] (some e) t = ([], some e)
followed (x ∷ xs) e t = before x (followed xs e t)

unfoldable pub each_in : Environment → List Doc → List Environment
each_in env [] = []
each_in env (d ∷ ds) = with_doc env d ∷ each_in env ds

abbrev pub kept : Result StreamError Environment → Result StreamError (Option Environment)
kept (ok x) = ok (some x)
kept (err e) = err e

abbrev pub kept_if : Environment → Result StreamError Bool → Result StreamError (Option Environment)
kept_if x (ok true) = ok (some x)
kept_if x (ok false) = ok none
kept_if x (err e) = err e

module _ (fl : Floats) where
  unfoldable pub each_document : Environment → List (Expr Environment) → Trace
  each_document env [] = ([], none)
  each_document env (e ∷ es) =
      let rest = each_document env es in
      elim (mapped fl e env) [ ok x ↦ before x rest | err y ↦ ([], some y) ]

  unfoldable pub trace : Stream → Environment → Trace
  unfolding each_in each_document through limited behind followed
  trace empty_stream env = ([], none)
  trace (pipe prev (scan g)) env = (each_in env (g env).0, (g env).1)
  trace (pipe prev (documents ds)) env = (each_in env ds, none)
  trace (pipe prev (expressions es)) env = each_document env es
  trace (pipe prev (map e)) env =
      let t = trace prev env in through (λ x. kept (mapped fl e x)) t.0 t.1
  trace (pipe prev (filter e)) env =
      let t = trace prev env in through (λ x. kept_if x (passes fl e x)) t.0 t.1
  trace (pipe prev (take n)) env = let t = trace prev env in limited (pos_part n) t.0 t.1
  trace (pipe prev (skip n)) env = let t = trace prev env in (behind (pos_part n) t.0, t.1)
  trace (pipe prev (group_by e n)) env =
      let t = trace prev env in through (λ x. kept (grouped fl e n x)) t.0 t.1
  trace (pipe prev (project cs)) env =
      let t = trace prev env in
      let over = through (λ x. ok (some (with_doc x (mask fl x cs)))) t.0 t.1 in
      if no_operator prev then (with_doc env (mask fl env cs) ∷ [], none) else over
  trace (pipe prev (unset n)) env =
      let t = trace prev env in through (λ x. kept (unsetting fl n x)) t.0 t.1
  trace (pipe prev (iter_rename ns)) env =
      let t = trace prev env in through (λ x. kept (renaming fl ns x)) t.0 t.1
  trace (pipe prev (concat a b)) env = let t = trace a env in followed t.0 t.1 (trace b env)
