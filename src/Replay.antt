-- ===== src/Replay.antt =====
-- engine/backtest/xauusd_replay.py: the replay of signals, plans and trades.
pub mod Engine
pub mod Traded
pub mod Bounded
mod Tests
