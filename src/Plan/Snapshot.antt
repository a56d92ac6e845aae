-- ===== src/Plan/Snapshot.antt =====
-- engine/risk/xauusd_planner.py: what a plan is made of, and a plan that is not valid. The hash of the
-- plan and the names of its versions are left out.
use aurum_iq.Prelude.Int.{pos}
use aurum_iq.Core.Enums.{SignalState, UserDecision}
use aurum_iq.Core.Candle.{Datetime}
use aurum_iq.Plan.Targets.{Targets, TargetError}
use aurum_iq.Plan.Zones.{PlanOps, StructureZone}
use aurum_iq.Risk.Barrier.{RiskSide}
use aurum_iq.Plan.Stops.{StopError, Stops}
use aurum_iq.Prelude.{Bool, true, List, ℕ, none, false, Option, some, ◌∷◌, []}
use aurum_iq.Core.Decimal.{Decimal, add, fin}

pub data Instrument : Type 0 where
  xauusd other : Instrument

-- What the planner reads of a DualSideSignalSnapshot.
pub record DualSideSignalSnapshot : Type 0 where
  pub instrument : Instrument
  pub timestamp : Datetime
  pub analysis_fingerprint : ℕ
  pub candidate_state : SignalState
  pub candidate_user_decision : UserDecision

pub data RiskCandidateStatus : Type 0 where
  valid_long_risk_candidate valid_short_risk_candidate invalid_risk_candidate : RiskCandidateStatus

pub data PlanReason : Type 0 where
  not_eligible not_configured missing_zone established atr_unavailable : PlanReason
  bad_stops : StopError → PlanReason
  bad_targets : TargetError → PlanReason

pub record SideRiskPlanSnapshot : Type 0 where
  pub side : RiskSide
  pub source_phase4_fingerprint : ℕ
  pub source_candidate_state : SignalState
  pub source_candidate_decision : UserDecision
  pub signal_generated_at : Datetime
  pub entry_min : Option Decimal
  pub entry_mid : Option Decimal
  pub entry_max : Option Decimal
  pub stop_structure : Option Decimal
  pub stop_atr : Option Decimal
  pub stop_final : Option Decimal
  pub stop_distance_atr : Option Decimal
  pub tp1 : Option Decimal
  pub tp2 : Option Decimal
  pub planned_rr_tp1 : Option Decimal
  pub planned_rr_tp2 : Option Decimal
  pub risk_candidate_valid : Bool
  pub risk_candidate_status : RiskCandidateStatus
  pub simulation_eligible : Bool
  pub candidate_effective_action : UserDecision
  pub publication_effective_action : UserDecision
  pub reason : PlanReason
  pub entry_zone_fingerprint : Option ℕ
  pub tp1_zone_fingerprint : Option ℕ
  pub tp2_zone_fingerprint : Option ℕ

-- `_build_invalid_snapshot` without prices.
unfoldable pub invalid_snapshot :
    RiskSide → DualSideSignalSnapshot → PlanReason → SideRiskPlanSnapshot
invalid_snapshot side s reason = record {
  side = side;
  source_phase4_fingerprint = s.analysis_fingerprint;
  source_candidate_state = s.candidate_state;
  source_candidate_decision = s.candidate_user_decision;
  signal_generated_at = s.timestamp;
  entry_min = none;
  entry_mid = none;
  entry_max = none;
  stop_structure = none;
  stop_atr = none;
  stop_final = none;
  stop_distance_atr = none;
  tp1 = none;
  tp2 = none;
  planned_rr_tp1 = none;
  planned_rr_tp2 = none;
  risk_candidate_valid = false;
  risk_candidate_status = RiskCandidateStatus.invalid_risk_candidate;
  simulation_eligible = false;
  candidate_effective_action = UserDecision.wait;
  publication_effective_action = UserDecision.wait;
  reason = reason;
  entry_zone_fingerprint = none;
  tp1_zone_fingerprint = none;
  tp2_zone_fingerprint = none;
}

-- The middle of a zone.
abbrev pub entry_mid_of : PlanOps → StructureZone → Decimal
entry_mid_of D z = D.div (add z.price_low z.price_high) (fin (pos 2))

-- The prices of the entry zone and of the stops.
abbrev pub with_stops :
    PlanOps → StructureZone → Stops → SideRiskPlanSnapshot → SideRiskPlanSnapshot
with_stops D z stops p = record p {
  entry_min = some z.price_low;
  entry_mid = some (entry_mid_of D z);
  entry_max = some z.price_high;
  stop_structure = some stops.stop_structure;
  stop_atr = some stops.stop_atr;
  stop_final = some stops.stop_final;
  stop_distance_atr = some stops.stop_distance_atr;
  entry_zone_fingerprint = some (D.zone_fingerprint z);
}

-- The targets.
abbrev pub with_targets : Targets → SideRiskPlanSnapshot → SideRiskPlanSnapshot
with_targets targets p = record p {
  tp1 = targets.tp1;
  tp2 = targets.tp2;
  planned_rr_tp1 = targets.planned_rr_tp1;
  planned_rr_tp2 = targets.planned_rr_tp2;
  tp1_zone_fingerprint = targets.tp1_zone_fingerprint;
  tp2_zone_fingerprint = targets.tp2_zone_fingerprint;
}

-- `candidates[0]`, if there is one.
abbrev pub first_zone : List StructureZone → Option StructureZone
first_zone [] = none
first_zone (z ∷ zs) = some z

-- `instrument == "XAUUSD"`.
abbrev pub is_xauusd : Instrument → Bool
is_xauusd Instrument.xauusd = true
is_xauusd Instrument.other = false
