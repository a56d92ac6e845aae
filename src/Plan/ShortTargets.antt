-- ===== src/Plan/ShortTargets.antt =====
-- engine/risk/xauusd_targets.py: `calculate_short_targets`.
use aurum_iq.Plan.Policy.{SideRiskPolicy}
use aurum_iq.Plan.Zones.{
  StructureZone, PlanOps, ZoneKey, is_support, ZoneStructure, sort_zones, collect_pit_zones,
}
use aurum_iq.Prelude.{
  Bool, Option, List, ◌&&◌, some, given_or, none, ◌∷◌, ℕ, if◌then◌else◌, [], filter,
}
use aurum_iq.Core.Decimal.{Decimal, sub, negate, lt, le, zero_price}
use aurum_iq.Plan.Targets.{Targets, TargetError, Tp2, no_targets, tp2_price, tp2_fingerprint}

-- The zones that can be a target of a SHORT, nearest first.
abbrev pub is_short_target : Decimal → StructureZone → Bool
is_short_target entry_min z = is_support z && lt z.price_high entry_min

abbrev pub short_key : PlanOps → StructureZone → ZoneKey
short_key D z = record {
  first_price = negate z.price_high;
  created = z.created_at.utc;
  second_price = negate z.price_low;
  fingerprint = D.zone_fingerprint z;
}

unfoldable pub short_candidates :
    PlanOps → Decimal → Option ZoneStructure → Option ZoneStructure → ℕ → List StructureZone
short_candidates D entry_min structure_15m structure_4h authoritative_t = sort_zones (short_key D) (
    filter (is_short_target entry_min)
      (collect_pit_zones D structure_15m structure_4h authoritative_t))

-- The loop for TP2: the first candidate strictly beyond TP1.
abbrev pub next_short_target : PlanOps → Decimal → List StructureZone → Tp2
next_short_target D tp1 [] = none
next_short_target D tp1 (z ∷ zs) =
    if lt z.price_high tp1
    then some (z.price_high, some (D.zone_fingerprint z))
    else next_short_target D tp1 zs

-- The synthetic TP2, if it is configured and strictly beyond TP1.
abbrev pub synthetic_short_tp2 : PlanOps → Decimal → Decimal → Decimal → Option Decimal → Tp2
synthetic_short_tp2 D tp1 entry_mid atr14 none = none
synthetic_short_tp2 D tp1 entry_mid atr14 (some multiplier) =
    let syn_tp2 = sub entry_mid (D.mul multiplier atr14) in
    if lt syn_tp2 tp1 then some (syn_tp2, none) else none

abbrev pub short_tp2 :
    PlanOps → Decimal → List StructureZone → Decimal → Decimal → SideRiskPolicy → Tp2
short_tp2 D tp1 zs entry_mid atr14 policy =
    given_or (next_short_target D tp1 zs)
      (synthetic_short_tp2 D tp1 entry_mid atr14 policy.tp2_atr_multiplier)

abbrev pub short_rr : PlanOps → Decimal → Decimal → Decimal → Decimal
short_rr D entry_min planned_risk target = D.div (sub entry_min target) planned_risk

abbrev pub short_rr_tp2 : PlanOps → Decimal → Decimal → Tp2 → Option Decimal
short_rr_tp2 D entry_min planned_risk none = none
short_rr_tp2 D entry_min planned_risk (some (price, fp)) =
    some (short_rr D entry_min planned_risk price)

-- The targets from the nearest candidate and the others.
abbrev pub short_targets_at :
    PlanOps
    → Decimal
    → Decimal
    → Decimal
    → Decimal
    → Decimal
    → SideRiskPolicy
    → StructureZone
    → List StructureZone
    → Targets
short_targets_at D entry_mid entry_min planned_risk atr14 min_rr_tp1 policy z zs =
    let tp1 = z.price_high in
    let tp2 = short_tp2 D tp1 zs entry_mid atr14 policy in
    let planned_rr_tp1 = short_rr D entry_min planned_risk tp1 in
    record {
      tp1 = some tp1;
      tp2 = tp2_price tp2;
      planned_rr_tp1 = some planned_rr_tp1;
      planned_rr_tp2 = short_rr_tp2 D entry_min planned_risk tp2;
      tp1_zone_fingerprint = some (D.zone_fingerprint z);
      tp2_zone_fingerprint = tp2_fingerprint tp2;
      error = if lt planned_rr_tp1 min_rr_tp1 then some TargetError.rr_too_low else none;
    }

abbrev pub short_targets_from :
    PlanOps
    → Decimal
    → Decimal
    → Decimal
    → Decimal
    → Decimal
    → SideRiskPolicy
    → List StructureZone
    → Targets
short_targets_from D entry_mid entry_min planned_risk atr14 min_rr_tp1 policy [] =
    no_targets TargetError.no_target
short_targets_from D entry_mid entry_min planned_risk atr14 min_rr_tp1 policy (z ∷ zs) =
    short_targets_at D entry_mid entry_min planned_risk atr14 min_rr_tp1 policy z zs

abbrev pub short_targets_with :
    PlanOps
    → Decimal
    → Decimal
    → Decimal
    → Decimal
    → Option Decimal
    → SideRiskPolicy
    → List StructureZone
    → Targets
short_targets_with D entry_mid entry_min planned_risk atr14 none policy zs =
    no_targets TargetError.no_min_rr
short_targets_with D entry_mid entry_min planned_risk atr14 (some min_rr_tp1) policy zs =
    short_targets_from D entry_mid entry_min planned_risk atr14 min_rr_tp1 policy zs

unfoldable pub calculate_short_targets :
    PlanOps
    → Decimal
    → Decimal
    → Decimal
    → Option ZoneStructure
    → Decimal
    → ℕ
    → SideRiskPolicy
    → Option ZoneStructure
    → Targets
calculate_short_targets D entry_mid entry_min stop_final structure_15m atr14 authoritative_t policy
      structure_4h =
    let planned_risk = sub stop_final entry_min in
    if le planned_risk zero_price
    then no_targets TargetError.no_risk
    else short_targets_with D entry_mid entry_min planned_risk atr14 policy.min_rr_tp1 policy
        (short_candidates D entry_min structure_15m structure_4h authoritative_t)
