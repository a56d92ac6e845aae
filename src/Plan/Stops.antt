-- ===== src/Plan/Stops.antt =====
-- engine/risk/xauusd_stops.py.
use aurum_iq.Plan.Policy.{SideRiskPolicy}
use aurum_iq.Prelude.{Bool, not, Option, if◌then◌else◌, some, none, ◌||◌}
use aurum_iq.Core.Decimal.{Decimal, sub, zero_price, is_finite, lt, le, add}
use aurum_iq.Plan.Zones.{StructureZone, PlanOps}

pub data StopError : Type 0 where
  bad_atr no_zone incomplete_policy not_beyond_entry not_beyond_zone too_far : StopError

-- The tuple that is returned; it is valid if there is no error.
pub record Stops : Type 0 where
  pub stop_structure : Decimal
  pub stop_atr : Decimal
  pub stop_final : Decimal
  pub stop_distance_atr : Decimal
  pub error : Option StopError

abbrev pub no_stops : StopError → Stops
no_stops e = record {
  stop_structure = zero_price;
  stop_atr = zero_price;
  stop_final = zero_price;
  stop_distance_atr = zero_price;
  error = some e;
}

abbrev pub is_bad_atr : Decimal → Bool
is_bad_atr atr14 = not (is_finite atr14) || le atr14 zero_price

-- `min(a, b)` and `max(a, b)`: the first unless the second is strictly beyond it.
abbrev pub min_of : Decimal → Decimal → Decimal
min_of a b = if lt b a then b else a

abbrev pub max_of : Decimal → Decimal → Decimal
max_of a b = if lt a b then b else a

-- The gates on the final stop of a LONG, from its two stops.
abbrev pub long_gates : PlanOps → Decimal → Decimal → Decimal → Decimal → Decimal → Decimal → Stops
long_gates D stop_structure stop_atr entry_min entry_max atr14 max_distance =
    let stop_final = min_of stop_structure stop_atr in
    let planned_risk = sub entry_max stop_final in
    let stop_distance_atr = D.div planned_risk atr14 in
    let result : Decimal → Option StopError → Stops = λ distance e. record {
      stop_structure = stop_structure;
      stop_atr = stop_atr;
      stop_final = stop_final;
      stop_distance_atr = distance;
      error = e;
    } in
    if le planned_risk zero_price
    then result zero_price (some StopError.not_beyond_entry)
    else if le entry_min stop_final
    then result stop_distance_atr (some StopError.not_beyond_zone)
    else if lt max_distance stop_distance_atr
    then result stop_distance_atr (some StopError.too_far)
    else result stop_distance_atr none

abbrev pub long_stops_with :
    PlanOps
    → StructureZone
    → Decimal
    → Decimal
    → Decimal
    → Decimal
    → Option Decimal
    → Option Decimal
    → Option Decimal
    → Stops
long_stops_with D z entry_min entry_mid entry_max atr14 (some buffer) (some multiplier)
      (some max_distance) =
    long_gates D (sub z.price_low buffer) (sub entry_mid (D.mul multiplier atr14)) entry_min
      entry_max atr14 max_distance
long_stops_with D z entry_min entry_mid entry_max atr14 none multiplier max_distance =
    no_stops StopError.incomplete_policy
long_stops_with D z entry_min entry_mid entry_max atr14 (some buffer) none max_distance =
    no_stops StopError.incomplete_policy
long_stops_with D z entry_min entry_mid entry_max atr14 (some buffer) (some multiplier) none =
    no_stops StopError.incomplete_policy

abbrev pub long_stops_at :
    PlanOps → Option StructureZone → Decimal → Decimal → Decimal → Decimal → SideRiskPolicy → Stops
long_stops_at D none entry_min entry_mid entry_max atr14 policy = no_stops StopError.no_zone
long_stops_at D (some z) entry_min entry_mid entry_max atr14 policy =
    long_stops_with D z entry_min entry_mid entry_max atr14 policy.structure_buffer
      policy.atr_multiplier policy.max_stop_distance_atr

unfoldable pub calculate_long_stops :
    PlanOps → Option StructureZone → Decimal → Decimal → Decimal → Decimal → SideRiskPolicy → Stops
calculate_long_stops D support_zone entry_min entry_mid entry_max atr14 policy =
    if is_bad_atr atr14
    then no_stops StopError.bad_atr
    else long_stops_at D support_zone entry_min entry_mid entry_max atr14 policy

-- The gates on the final stop of a SHORT.
abbrev pub short_gates : PlanOps → Decimal → Decimal → Decimal → Decimal → Decimal → Decimal → Stops
short_gates D stop_structure stop_atr entry_min entry_max atr14 max_distance =
    let stop_final = max_of stop_structure stop_atr in
    let planned_risk = sub stop_final entry_min in
    let stop_distance_atr = D.div planned_risk atr14 in
    let result : Decimal → Option StopError → Stops = λ distance e. record {
      stop_structure = stop_structure;
      stop_atr = stop_atr;
      stop_final = stop_final;
      stop_distance_atr = distance;
      error = e;
    } in
    if le planned_risk zero_price
    then result zero_price (some StopError.not_beyond_entry)
    else if le stop_final entry_max
    then result stop_distance_atr (some StopError.not_beyond_zone)
    else if lt max_distance stop_distance_atr
    then result stop_distance_atr (some StopError.too_far)
    else result stop_distance_atr none

abbrev pub short_stops_with :
    PlanOps
    → StructureZone
    → Decimal
    → Decimal
    → Decimal
    → Decimal
    → Option Decimal
    → Option Decimal
    → Option Decimal
    → Stops
short_stops_with D z entry_min entry_mid entry_max atr14 (some buffer) (some multiplier)
      (some max_distance) =
    short_gates D (add z.price_high buffer) (add entry_mid (D.mul multiplier atr14)) entry_min
      entry_max atr14 max_distance
short_stops_with D z entry_min entry_mid entry_max atr14 none multiplier max_distance =
    no_stops StopError.incomplete_policy
short_stops_with D z entry_min entry_mid entry_max atr14 (some buffer) none max_distance =
    no_stops StopError.incomplete_policy
short_stops_with D z entry_min entry_mid entry_max atr14 (some buffer) (some multiplier) none =
    no_stops StopError.incomplete_policy

abbrev pub short_stops_at :
    PlanOps → Option StructureZone → Decimal → Decimal → Decimal → Decimal → SideRiskPolicy → Stops
short_stops_at D none entry_min entry_mid entry_max atr14 policy = no_stops StopError.no_zone
short_stops_at D (some z) entry_min entry_mid entry_max atr14 policy =
    short_stops_with D z entry_min entry_mid entry_max atr14 policy.structure_buffer
      policy.atr_multiplier policy.max_stop_distance_atr

unfoldable pub calculate_short_stops :
    PlanOps → Option StructureZone → Decimal → Decimal → Decimal → Decimal → SideRiskPolicy → Stops
calculate_short_stops D resistance_zone entry_min entry_mid entry_max atr14 policy =
    if is_bad_atr atr14
    then no_stops StopError.bad_atr
    else short_stops_at D resistance_zone entry_min entry_mid entry_max atr14 policy
