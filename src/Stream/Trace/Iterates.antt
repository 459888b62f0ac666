-- ===== src/Stream/Trace/Iterates.antt =====
-- Iterate against the trace, for whole streams.
use genji.Prelude.{◌≡◌}
use genji.Document.Floats.{Floats}
use genji.Environment.{Environment}
use genji.Stream.{Stream, Step}
use genji.Stream.Iterate.{iterate}
use genji.Stream.Trace.{Trace, replay, trace}

module _ (fl : Floats) where
  -- The stream that iterates as its trace, whatever the function does.
  abbrev Replays : Type 0 → Stream → Type 0
  Replays S st =
      (env : Environment) (f : Environment → S → Step S) (s : S)
      → iterate fl st env f s ≡ replay f (trace fl st env).0 (trace fl st env).1 s
