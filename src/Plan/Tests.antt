-- ===== src/Plan/Tests.antt =====
-- Plans of engine/risk/xauusd_planner.py at concrete zones.
use aurum_iq.Plan.Sample.{
  ops, price, at, zone, sound_policy, profile, zones, structure, buy_signal, sell_signal,
}
use aurum_iq.Plan.ShortTargets.{calculate_short_targets, short_candidates}
use aurum_iq.Plan.Stops.{calculate_short_stops, calculate_long_stops}
use aurum_iq.Plan.LongTargets.{is_long_target, calculate_long_targets, long_candidates}
use aurum_iq.Plan.Nearest.{IsKnownTarget, known_zones, tp1_nearest}
use aurum_iq.Plan.PointInTime.{insert_zone, without_zone, hidden_zone_ignored}
use aurum_iq.Plan.LongSound.{IsLongPlan, plan_long-IsLongPlan}
use aurum_iq.Plan.Demotion.{IsDemotion, plans-IsDemotion}
use aurum_iq.Plan.ZoneOrder.{HasApart}
use aurum_iq.Plan.ShortSound.{IsShortPlan, plan_short-IsShortPlan}
use aurum_iq.Prelude.Int.{◌-ℤ◌, ◌+ℤ◌}
use aurum_iq.Plan.LongPlan.{long_plan, plan_long, is_long_candidate, long_entry_zone}
use aurum_iq.Plan.ShortPlan.{short_plan, plan_short, is_short_candidate, short_entry_zone}
use aurum_iq.Core.Decimal.{Decimal, is_finite, lt, le}
use aurum_iq.Plan.Policy.{is_configured}
use aurum_iq.Core.Enums.{none}
use aurum_iq.Plan.Snapshot.{SideRiskPlanSnapshot, invalid_snapshot}
use aurum_iq.Plan.Zones.{ZoneType, StructureZone, collect_pit_zones, unique_zones}
use aurum_iq.Prelude.{
  some, true, none, [], ◌≡◌, ok, All, arith, refl, sort_with, false, insert_with, inl,
}

abbrev planned_long : SideRiskPlanSnapshot
planned_long = long_plan ops buy_signal sound_policy structure (price 3) none

-- The SHORT enters at the resistance from 120 to 122, below which the support at 102 is nearest.
abbrev planned_short : SideRiskPlanSnapshot
planned_short = short_plan ops sell_signal sound_policy structure (price 3) none

long_made : plan_long ops profile buy_signal structure (price 3) none ≡ ok planned_long
unfolding plan_long
long_made = refl

short_made : plan_short ops profile sell_signal structure (price 3) none ≡ ok planned_short
unfolding plan_short
short_made = refl

long_valid : planned_long.risk_candidate_valid ≡ true
unfolding invalid_snapshot is_long_candidate is_configured long_entry_zone sort_with insert_with lt
    le is_finite ◌-ℤ◌ ◌+ℤ◌ calculate_long_stops calculate_long_targets long_candidates
    collect_pit_zones unique_zones
long_valid = refl

long_tp1 : planned_long.tp1 ≡ some (price 120)
unfolding invalid_snapshot is_long_candidate is_configured long_entry_zone sort_with insert_with lt
    le is_finite ◌-ℤ◌ ◌+ℤ◌ calculate_long_stops calculate_long_targets long_candidates
    collect_pit_zones unique_zones
long_tp1 = refl

short_valid : planned_short.risk_candidate_valid ≡ true
unfolding invalid_snapshot is_short_candidate is_configured short_entry_zone sort_with insert_with
    lt le is_finite ◌-ℤ◌ ◌+ℤ◌ calculate_short_stops calculate_short_targets short_candidates
    collect_pit_zones unique_zones
short_valid = refl

zones_finite : All (λ y. is_finite y.price_low ≡ true) (known_zones structure none 10)
unfolding is_finite
zones_finite = (refl, (refl, (refl, (refl, tt))))

zones_apart : HasApart ops (known_zones structure none 10)
zones_apart = (
  (
    (λ e. absurd (omega (arith, e))),
    ((λ e. absurd (omega (arith, e))), ((λ e. absurd (omega (arith, e))), tt)),
  ),
  (
    ((λ e. absurd (omega (arith, e))), ((λ e. absurd (omega (arith, e))), tt)),
    (((λ e. absurd (omega (arith, e))), tt), (tt, tt)),
  ),
)

plan_long-IsLongPlan_example : IsLongPlan ops (price 3) sound_policy buy_signal planned_long
plan_long-IsLongPlan_example =
    plan_long-IsLongPlan ops profile buy_signal structure (price 3) none long_made long_valid

plan_short-IsShortPlan_example : IsShortPlan ops (price 3) sound_policy sell_signal planned_short
plan_short-IsShortPlan_example =
    plan_short-IsShortPlan ops profile sell_signal structure (price 3) none short_made short_valid

not_short :
    plan_short ops profile buy_signal structure (price 3) none
    ≡ ok (short_plan ops buy_signal sound_policy structure (price 3) none)
unfolding plan_short
not_short = refl

plans-IsDemotion_example :
    IsDemotion buy_signal planned_long
    × IsDemotion buy_signal (short_plan ops buy_signal sound_policy structure (price 3) none)
plans-IsDemotion_example =
    plans-IsDemotion ops profile buy_signal structure (price 3) none long_made not_short

tp1_nearest_example :
    (entry_max : Decimal) × (target : StructureZone) × (planned_long.entry_max ≡ some entry_max)
    × (planned_long.tp1 ≡ some target.price_low)
    × IsKnownTarget ops profile buy_signal structure (price 3) none entry_max target
    × All
        (λ y. is_long_target entry_max y ≡ true → lt y.price_low target.price_low ≡ false)
        (known_zones structure none 10)
tp1_nearest_example =
    tp1_nearest ops profile buy_signal structure (price 3) none long_made long_valid zones_apart
      zones_finite

-- A resistance that is created after the signal.
abbrev late_zone : StructureZone
late_zone = zone ZoneType.resistance 110 111 11

hidden_zone_ignored_example :
    (plan_long ops profile buy_signal (insert_zone (at 5) zones late_zone []) (price 3) none
      ≡ plan_long ops profile buy_signal (without_zone (at 5) zones []) (price 3) none)
    × (plan_short ops profile buy_signal (insert_zone (at 5) zones late_zone []) (price 3) none
        ≡ plan_short ops profile buy_signal (without_zone (at 5) zones []) (price 3) none)
    × (plan_long ops profile buy_signal none (price 3) (insert_zone (at 5) zones late_zone [])
        ≡ plan_long ops profile buy_signal none (price 3) (without_zone (at 5) zones []))
    × (plan_short ops profile buy_signal none (price 3) (insert_zone (at 5) zones late_zone [])
        ≡ plan_short ops profile buy_signal none (price 3) (without_zone (at 5) zones []))
hidden_zone_ignored_example =
    hidden_zone_ignored ops profile buy_signal (price 3) none (at 5) zones [] late_zone
      (inl (omega arith))
