-- ===== src/Structure.antt =====
-- engine/structure: causal swing detection and the structure engine.
pub mod Swings
pub mod Range
pub mod Order
pub mod Confirmed
pub mod Causality
pub mod Engine
pub mod Breaks
mod Tests
