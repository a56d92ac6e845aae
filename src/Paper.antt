-- ===== src/Paper.antt =====
-- engine/paper: the continuity gate of live paper observation.
pub mod Closure
pub mod Interval
pub mod Closes
pub mod Tracker
pub mod Gate
mod Tests
