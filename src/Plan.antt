-- ===== src/Plan.antt =====
-- engine/risk: the risk plan of a signal, with its policy, its zones, its stop and its targets.
pub mod Policy
pub mod Zones
pub mod Stops
pub mod Targets
pub mod LongTargets
pub mod ShortTargets
pub mod Snapshot
pub mod LongPlan
pub mod ShortPlan
pub mod LongStopsSound
pub mod LongTargetsSound
pub mod Demotion
pub mod ZoneOrder
pub mod Nearest
pub mod Alike
pub mod PointInTime
pub mod LongSound
pub mod ShortStopsSound
pub mod ShortTargetsSound
pub mod ShortSound
pub mod Sample
mod Tests
