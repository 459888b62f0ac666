-- ===== src/Sequence/Covered.antt =====
-- The lease against the values handed out, for sequences that count up by one
-- (internal/database/sequence.go, Next).
use genji.Sequence.{Sequence}
