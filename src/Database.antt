-- ===== src/Database.antt =====
-- internal/database: tables and their indexes, over stores of the engine.
pub mod Store
pub mod Table
pub mod Index
mod Samples
