-- ===== src/Signals.antt =====
-- engine/signals: the calibration profile, the safety gates, the candidate matrix, publication.
pub mod Profile
pub mod HardGate
pub mod SelectiveGate
pub mod Candidate
pub mod Blocking
pub mod Precedence
pub mod Symmetry
pub mod Qualified
pub mod Nested
mod Tests
