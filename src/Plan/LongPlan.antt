-- ===== src/Plan/LongPlan.antt =====
-- engine/risk/xauusd_planner.py: `plan_long`.
use aurum_iq.Risk.Barrier.{RiskSide}
use aurum_iq.Plan.LongTargets.{calculate_long_targets}
use aurum_iq.Plan.Targets.{Targets}
use aurum_iq.Plan.Stops.{Stops, calculate_long_stops}
use aurum_iq.Plan.Policy.{XauUsdRiskProfile, SideRiskPolicy, is_configured}
use aurum_iq.Plan.Zones.{
  PlanOps, StructureZone, is_support, ZoneStructure, ZoneKey, is_known, sort_zones,
}
use aurum_iq.Core.Enums.{SignalState, UserDecision}
use aurum_iq.Prelude.{
  Bool, ℕ, Option, true, false, ◌&&◌, Result, if◌then◌else◌, some, not, none, value_error, filter,
  ok,
}
use aurum_iq.Core.Decimal.{Decimal, negate}
use aurum_iq.Plan.Snapshot.{
  SideRiskPlanSnapshot, DualSideSignalSnapshot, PlanReason, with_stops, invalid_snapshot,
  first_zone, is_xauusd, with_targets, entry_mid_of, RiskCandidateStatus,
}

-- `candidate_state == BUY_WINDOW and candidate_user_decision == BUY`.
unfoldable pub is_long_candidate : SignalState → UserDecision → Bool
is_long_candidate SignalState.buy_window UserDecision.buy = true
is_long_candidate _ _ = false

abbrev pub is_long_entry : ℕ → StructureZone → Bool
is_long_entry authoritative_t z =
    is_support z && z.is_active && is_known authoritative_t z.created_at

abbrev pub long_entry_key : PlanOps → StructureZone → ZoneKey
long_entry_key D z = record {
  first_price = negate z.price_high;
  created = z.created_at.utc;
  second_price = z.price_low;
  fingerprint = D.zone_fingerprint z;
}

-- The support zone that a LONG enters at.
unfoldable pub long_entry_zone : PlanOps → Option ZoneStructure → ℕ → Option StructureZone
long_entry_zone D none authoritative_t = none
long_entry_zone D (some s) authoritative_t =
    if is_known authoritative_t s.timestamp
    then first_zone (sort_zones (long_entry_key D) (filter (is_long_entry authoritative_t) s.zones))
    else none

module _ (D : PlanOps) (s : DualSideSignalSnapshot) (policy : SideRiskPolicy)
    (structure_15m : Option ZoneStructure) (atr14 : Decimal)
    (structure_4h : Option ZoneStructure) where
  abbrev pub invalid_long : PlanReason → SideRiskPlanSnapshot
  invalid_long reason = invalid_snapshot RiskSide.long s reason

  -- The plan from its stops and targets.
  abbrev pub long_from_targets : StructureZone → Stops → Targets → SideRiskPlanSnapshot
  long_from_targets z stops targets =
      let priced : PlanReason → SideRiskPlanSnapshot =
        λ reason. with_targets targets (with_stops D z stops (invalid_long reason)) in
      elim targets.error [
        | some e ↦ priced (PlanReason.bad_targets e)
        | none ↦ record (priced PlanReason.established) {
          risk_candidate_valid = true;
          risk_candidate_status = RiskCandidateStatus.valid_long_risk_candidate;
          simulation_eligible = true;
          candidate_effective_action = UserDecision.buy;
        }
      ]

  abbrev pub long_from_stops : StructureZone → Stops → SideRiskPlanSnapshot
  long_from_stops z stops = elim stops.error [
    | some e ↦ with_stops D z stops (invalid_long (PlanReason.bad_stops e))
    | none ↦ long_from_targets z stops (
        calculate_long_targets D (entry_mid_of D z) z.price_high stops.stop_final structure_15m
          atr14 s.timestamp.utc policy structure_4h)
  ]

  -- The plan from the zone that it enters at.
  abbrev pub long_from_zone : Option StructureZone → SideRiskPlanSnapshot
  long_from_zone none = invalid_long PlanReason.missing_zone
  long_from_zone (some z) =
      long_from_stops z
        (calculate_long_stops D (some z) z.price_low (entry_mid_of D z) z.price_high atr14 policy)

  abbrev pub long_plan : SideRiskPlanSnapshot
  long_plan =
      if not (is_long_candidate s.candidate_state s.candidate_user_decision)
      then invalid_long PlanReason.not_eligible
      else if not (is_configured policy)
      then invalid_long PlanReason.not_configured
      else long_from_zone (long_entry_zone D structure_15m s.timestamp.utc)

-- `plan_long`; an instrument other than XAUUSD and a naive timestamp raise.
unfoldable pub plan_long :
    PlanOps
    → XauUsdRiskProfile
    → DualSideSignalSnapshot
    → Option ZoneStructure
    → Decimal
    → Option ZoneStructure
    → Result SideRiskPlanSnapshot
plan_long D profile s structure_15m atr14 structure_4h =
    if not (is_xauusd s.instrument)
    then value_error
    else if not s.timestamp.aware
    then value_error
    else ok (long_plan D s profile.long_risk_policy structure_15m atr14 structure_4h)
