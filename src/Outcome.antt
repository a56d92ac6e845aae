-- ===== src/Outcome.antt =====
-- engine/backtest/xauusd_outcomes.py: how a simulated trade of a plan ends.
pub mod Trade
pub mod Engine
pub mod Horizon
pub mod Window
pub mod Walk
pub mod Terms
pub mod Resolve
pub mod Reached
pub mod LimitZone
pub mod Ends
pub mod Settled
pub mod Closed
pub mod Finite
pub mod Steady
pub mod Total
pub mod Sample
mod Tests
