-- ===== src/Plan/LongTargets.antt =====
-- engine/risk/xauusd_targets.py: `calculate_long_targets`.
use aurum_iq.Plan.Policy.{SideRiskPolicy}
use aurum_iq.Plan.Zones.{
  StructureZone, PlanOps, ZoneKey, is_resistance, ZoneStructure, sort_zones, collect_pit_zones,
}
use aurum_iq.Prelude.{
  Bool, Option, List, ◌∷◌, some, given_or, ◌&&◌, none, [], if◌then◌else◌, ℕ, filter,
}
use aurum_iq.Core.Decimal.{Decimal, sub, lt, add, le, zero_price}
use aurum_iq.Plan.Targets.{Targets, TargetError, Tp2, no_targets, tp2_price, tp2_fingerprint}

-- The zones that can be a target of a LONG, nearest first.
abbrev pub is_long_target : Decimal → StructureZone → Bool
is_long_target entry_max z = is_resistance z && lt entry_max z.price_low

abbrev pub long_key : PlanOps → StructureZone → ZoneKey
long_key D z = record {
  first_price = z.price_low;
  created = z.created_at.utc;
  second_price = z.price_high;
  fingerprint = D.zone_fingerprint z;
}

unfoldable pub long_candidates :
    PlanOps → Decimal → Option ZoneStructure → Option ZoneStructure → ℕ → List StructureZone
long_candidates D entry_max structure_15m structure_4h authoritative_t = sort_zones (long_key D) (
    filter (is_long_target entry_max)
      (collect_pit_zones D structure_15m structure_4h authoritative_t))

-- The loop for TP2: the first candidate strictly beyond TP1.
abbrev pub next_long_target : PlanOps → Decimal → List StructureZone → Tp2
next_long_target D tp1 [] = none
next_long_target D tp1 (z ∷ zs) =
    if lt tp1 z.price_low
    then some (z.price_low, some (D.zone_fingerprint z))
    else next_long_target D tp1 zs

-- The synthetic TP2, if it is configured and strictly beyond TP1.
abbrev pub synthetic_long_tp2 : PlanOps → Decimal → Decimal → Decimal → Option Decimal → Tp2
synthetic_long_tp2 D tp1 entry_mid atr14 none = none
synthetic_long_tp2 D tp1 entry_mid atr14 (some multiplier) =
    let syn_tp2 = add entry_mid (D.mul multiplier atr14) in
    if lt tp1 syn_tp2 then some (syn_tp2, none) else none

abbrev pub long_tp2 :
    PlanOps → Decimal → List StructureZone → Decimal → Decimal → SideRiskPolicy → Tp2
long_tp2 D tp1 zs entry_mid atr14 policy =
    given_or (next_long_target D tp1 zs)
      (synthetic_long_tp2 D tp1 entry_mid atr14 policy.tp2_atr_multiplier)

abbrev pub long_rr : PlanOps → Decimal → Decimal → Decimal → Decimal
long_rr D entry_max planned_risk target = D.div (sub target entry_max) planned_risk

abbrev pub long_rr_tp2 : PlanOps → Decimal → Decimal → Tp2 → Option Decimal
long_rr_tp2 D entry_max planned_risk none = none
long_rr_tp2 D entry_max planned_risk (some (price, fp)) =
    some (long_rr D entry_max planned_risk price)

-- The targets from the nearest candidate and the others.
abbrev pub long_targets_at :
    PlanOps
    → Decimal
    → Decimal
    → Decimal
    → Decimal
    → Decimal
    → SideRiskPolicy
    → StructureZone
    → List StructureZone
    → Targets
long_targets_at D entry_mid entry_max planned_risk atr14 min_rr_tp1 policy z zs =
    let tp1 = z.price_low in
    let tp2 = long_tp2 D tp1 zs entry_mid atr14 policy in
    let planned_rr_tp1 = long_rr D entry_max planned_risk tp1 in
    record {
      tp1 = some tp1;
      tp2 = tp2_price tp2;
      planned_rr_tp1 = some planned_rr_tp1;
      planned_rr_tp2 = long_rr_tp2 D entry_max planned_risk tp2;
      tp1_zone_fingerprint = some (D.zone_fingerprint z);
      tp2_zone_fingerprint = tp2_fingerprint tp2;
      error = if lt planned_rr_tp1 min_rr_tp1 then some TargetError.rr_too_low else none;
    }

abbrev pub long_targets_from :
    PlanOps
    → Decimal
    → Decimal
    → Decimal
    → Decimal
    → Decimal
    → SideRiskPolicy
    → List StructureZone
    → Targets
long_targets_from D entry_mid entry_max planned_risk atr14 min_rr_tp1 policy [] =
    no_targets TargetError.no_target
long_targets_from D entry_mid entry_max planned_risk atr14 min_rr_tp1 policy (z ∷ zs) =
    long_targets_at D entry_mid entry_max planned_risk atr14 min_rr_tp1 policy z zs

abbrev pub long_targets_with :
    PlanOps
    → Decimal
    → Decimal
    → Decimal
    → Decimal
    → Option Decimal
    → SideRiskPolicy
    → List StructureZone
    → Targets
long_targets_with D entry_mid entry_max planned_risk atr14 none policy zs =
    no_targets TargetError.no_min_rr
long_targets_with D entry_mid entry_max planned_risk atr14 (some min_rr_tp1) policy zs =
    long_targets_from D entry_mid entry_max planned_risk atr14 min_rr_tp1 policy zs

unfoldable pub calculate_long_targets :
    PlanOps
    → Decimal
    → Decimal
    → Decimal
    → Option ZoneStructure
    → Decimal
    → ℕ
    → SideRiskPolicy
    → Option ZoneStructure
    → Targets
calculate_long_targets D entry_mid entry_max stop_final structure_15m atr14 authoritative_t policy
      structure_4h =
    let planned_risk = sub entry_max stop_final in
    if le planned_risk zero_price
    then no_targets TargetError.no_risk
    else long_targets_with D entry_mid entry_max planned_risk atr14 policy.min_rr_tp1 policy
        (long_candidates D entry_max structure_15m structure_4h authoritative_t)
