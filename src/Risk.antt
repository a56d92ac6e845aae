-- ===== src/Risk.antt =====
-- engine/risk: validation of market evidence and the side-aware intrabar resolver.
pub mod Validation
pub mod Validity
pub mod Sequence
pub mod Grid
pub mod Barrier
pub mod Intrabar
pub mod FirstTouch
pub mod Evidence
pub mod TakeProfit
pub mod StopLoss
pub mod ExitTime
pub mod ExactStop
pub mod BeforeFill
mod Tests
