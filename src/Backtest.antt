-- ===== src/Backtest.antt =====
-- engine/backtest: purging of partitions.
pub mod Purge
pub mod Isolation
pub mod Repository
pub mod Clock
pub mod Progress
mod Tests
