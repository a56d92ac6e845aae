-- ===== src/Plan/ShortPlan.antt =====
-- engine/risk/xauusd_planner.py: `plan_short`.
use aurum_iq.Risk.Barrier.{RiskSide}
use aurum_iq.Plan.ShortTargets.{calculate_short_targets}
use aurum_iq.Plan.Targets.{Targets}
use aurum_iq.Plan.Stops.{Stops, calculate_short_stops}
use aurum_iq.Plan.Policy.{XauUsdRiskProfile, SideRiskPolicy, is_configured}
use aurum_iq.Plan.Zones.{
  PlanOps, StructureZone, ZoneStructure, is_resistance, ZoneKey, is_known, sort_zones,
}
use aurum_iq.Core.Enums.{SignalState, UserDecision}
use aurum_iq.Prelude.{
  Bool, ℕ, Option, true, false, ◌&&◌, Result, some, if◌then◌else◌, not, none, value_error, filter,
  ok,
}
use aurum_iq.Core.Decimal.{Decimal, negate}
use aurum_iq.Plan.Snapshot.{
  SideRiskPlanSnapshot, DualSideSignalSnapshot, PlanReason, with_stops, invalid_snapshot,
  first_zone, is_xauusd, entry_mid_of, with_targets, RiskCandidateStatus,
}

-- `candidate_state == SELL_WINDOW and candidate_user_decision == SELL`.
unfoldable pub is_short_candidate : SignalState → UserDecision → Bool
is_short_candidate SignalState.sell_window UserDecision.sell = true
is_short_candidate _ _ = false

abbrev pub is_short_entry : ℕ → StructureZone → Bool
is_short_entry authoritative_t z =
    is_resistance z && z.is_active && is_known authoritative_t z.created_at

abbrev pub short_entry_key : PlanOps → StructureZone → ZoneKey
short_entry_key D z = record {
  first_price = z.price_low;
  created = z.created_at.utc;
  second_price = negate z.price_high;
  fingerprint = D.zone_fingerprint z;
}

-- The resistance zone that a SHORT enters at.
unfoldable pub short_entry_zone : PlanOps → Option ZoneStructure → ℕ → Option StructureZone
short_entry_zone D none authoritative_t = none
short_entry_zone D (some s) authoritative_t =
    if is_known authoritative_t s.timestamp
    then first_zone
        (sort_zones (short_entry_key D) (filter (is_short_entry authoritative_t) s.zones))
    else none

module _ (D : PlanOps) (s : DualSideSignalSnapshot) (policy : SideRiskPolicy)
    (structure_15m : Option ZoneStructure) (atr14 : Decimal)
    (structure_4h : Option ZoneStructure) where
  abbrev pub invalid_short : PlanReason → SideRiskPlanSnapshot
  invalid_short reason = invalid_snapshot RiskSide.short s reason

  -- The plan from its stops and targets.
  abbrev pub short_from_targets : StructureZone → Stops → Targets → SideRiskPlanSnapshot
  short_from_targets z stops targets =
      let priced : PlanReason → SideRiskPlanSnapshot =
        λ reason. with_targets targets (with_stops D z stops (invalid_short reason)) in
      elim targets.error [
        | some e ↦ priced (PlanReason.bad_targets e)
        | none ↦ record (priced PlanReason.established) {
          risk_candidate_valid = true;
          risk_candidate_status = RiskCandidateStatus.valid_short_risk_candidate;
          simulation_eligible = true;
          candidate_effective_action = UserDecision.sell;
        }
      ]

  abbrev pub short_from_stops : StructureZone → Stops → SideRiskPlanSnapshot
  short_from_stops z stops = elim stops.error [
    | some e ↦ with_stops D z stops (invalid_short (PlanReason.bad_stops e))
    | none ↦ short_from_targets z stops (
        calculate_short_targets D (entry_mid_of D z) z.price_low stops.stop_final structure_15m
          atr14 s.timestamp.utc policy structure_4h)
  ]

  -- The plan from the zone that it enters at.
  abbrev pub short_from_zone : Option StructureZone → SideRiskPlanSnapshot
  short_from_zone none = invalid_short PlanReason.missing_zone
  short_from_zone (some z) =
      short_from_stops z
        (calculate_short_stops D (some z) z.price_low (entry_mid_of D z) z.price_high atr14 policy)

  abbrev pub short_plan : SideRiskPlanSnapshot
  short_plan =
      if not (is_short_candidate s.candidate_state s.candidate_user_decision)
      then invalid_short PlanReason.not_eligible
      else if not (is_configured policy)
      then invalid_short PlanReason.not_configured
      else short_from_zone (short_entry_zone D structure_15m s.timestamp.utc)

-- `plan_short`; an instrument other than XAUUSD and a naive timestamp raise.
unfoldable pub plan_short :
    PlanOps
    → XauUsdRiskProfile
    → DualSideSignalSnapshot
    → Option ZoneStructure
    → Decimal
    → Option ZoneStructure
    → Result SideRiskPlanSnapshot
plan_short D profile s structure_15m atr14 structure_4h =
    if not (is_xauusd s.instrument)
    then value_error
    else if not s.timestamp.aware
    then value_error
    else ok (short_plan D s profile.short_risk_policy structure_15m atr14 structure_4h)
