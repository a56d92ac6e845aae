-- ===== src/Plan/LongStopsSound.antt =====
-- engine/risk/xauusd_stops.py: what the stops of a LONG are if they have no error.
use aurum_iq.Plan.Stops.{
  long_gates, Stops, min_of, calculate_long_stops, long_stops_with, is_bad_atr,
}
use aurum_iq.Plan.Zones.{PlanOps, StructureZone}
use aurum_iq.Plan.Policy.{SideRiskPolicy}
use aurum_iq.Prelude.{◌≡◌, some, none, false, Bool-cases, inl, inr, Option, refl}
use aurum_iq.Core.Decimal.{Decimal, le, sub, zero_price, lt}

-- What stops without an error are.
pub record AreLongStops (D : PlanOps) (atr14 : Decimal) (policy : SideRiskPolicy)
    (entry_min entry_max : Decimal) (stops : Stops) : Type 0 where
  pub max_distance : Decimal
  pub max_distance_at : policy.max_stop_distance_atr ≡ some max_distance
  pub stop_below : le entry_min stops.stop_final ≡ false
  pub at_risk : le (sub entry_max stops.stop_final) zero_price ≡ false
  pub distance_is : stops.stop_distance_atr ≡ D.div (sub entry_max stops.stop_final) atr14
  pub near_enough : lt max_distance stops.stop_distance_atr ≡ false

module _ (D : PlanOps) (policy : SideRiskPolicy)
    (entry_min entry_mid entry_max atr14 : Decimal) where
  long_gates-AreLongStops :
      (stop_structure stop_atr max_distance : Decimal)
      → policy.max_stop_distance_atr ≡ some max_distance
      → (long_gates D stop_structure stop_atr entry_min entry_max atr14 max_distance).error ≡ none
      → AreLongStops D atr14 policy entry_min entry_max
          (long_gates D stop_structure stop_atr entry_min entry_max atr14 max_distance)
  long_gates-AreLongStops ss sa md at e =
      let final = min_of ss sa in
      let risk = sub entry_max final in
      elim (Bool-cases (le risk zero_price)) [
        | inl no_risk ↦ let f = rw no_risk at e in absurd (cc)
        | inr risk_ok ↦ elim (Bool-cases (le entry_min final)) [
          | inl inside ↦ let f = rw (risk_ok, inside) at e in absurd (cc)
          | inr below ↦ elim (Bool-cases (lt md (D.div risk atr14))) [
            | inl far ↦ let f = rw (risk_ok, below, far) at e in absurd (cc)
            | inr near ↦
                rw (risk_ok, below, near)
                  (record {
                    max_distance = md;
                    max_distance_at = at;
                    stop_below = below;
                    at_risk = risk_ok;
                    distance_is = refl;
                    near_enough = near;
                  })
          ]
        ]
      ]

  long_stops_with-AreLongStops :
      (z : StructureZone) (buffer multiplier : Option Decimal) (max_distance : Option Decimal)
      → policy.max_stop_distance_atr ≡ max_distance
      → (long_stops_with D z entry_min entry_mid entry_max atr14 buffer multiplier
          max_distance).error
        ≡ none
      → AreLongStops D atr14 policy entry_min entry_max
          (long_stops_with D z entry_min entry_mid entry_max atr14 buffer multiplier max_distance)
  long_stops_with-AreLongStops z (some b) (some m) (some md) at e =
      long_gates-AreLongStops (sub z.price_low b) (sub entry_mid (D.mul m atr14)) md at e
  long_stops_with-AreLongStops z none m md at e = absurd (cc)
  long_stops_with-AreLongStops z (some b) none md at e = absurd (cc)
  long_stops_with-AreLongStops z (some b) (some m) none at e = absurd (cc)

  pub calculate_long_stops-AreLongStops :
      (z : StructureZone)
      → (calculate_long_stops D (some z) entry_min entry_mid entry_max atr14 policy).error ≡ none
      → AreLongStops D atr14 policy entry_min entry_max
          (calculate_long_stops D (some z) entry_min entry_mid entry_max atr14 policy)
  unfolding calculate_long_stops
  calculate_long_stops-AreLongStops z e = elim (Bool-cases (is_bad_atr atr14)) [
    | inl bad ↦ let f = rw bad at e in absurd (cc)
    | inr good ↦ rw (good) (
        long_stops_with-AreLongStops z policy.structure_buffer policy.atr_multiplier
          policy.max_stop_distance_atr refl (rw good at e))
  ]
