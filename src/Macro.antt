-- ===== src/Macro.antt =====
-- engine/cycles/events.py: the risk gate of macroeconomic events.
pub mod Events
pub mod Hindsight
pub mod Blackout
mod Tests
