-- ===== src/Entry.antt =====
-- engine/risk/xauusd_execution.py: simulated entries.
pub mod Policy
pub mod Fill
pub mod Market
pub mod Limit
pub mod Eligible
pub mod Timing
pub mod LimitFills
pub mod Price
mod Tests
