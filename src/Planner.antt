-- ===== src/Planner.antt =====
-- internal/planner/optimizer.go: the rules that rewrite expressions and streams.
pub mod Fold
mod Samples
pub mod Rules
