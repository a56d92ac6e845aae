-- ===== src/Plan/ShortStopsSound.antt =====
-- engine/risk/xauusd_stops.py: what the stops of a SHORT are if they have no error.
use aurum_iq.Plan.Stops.{
  short_gates, Stops, max_of, calculate_short_stops, short_stops_with, is_bad_atr,
}
use aurum_iq.Plan.Zones.{PlanOps, StructureZone}
use aurum_iq.Plan.Policy.{SideRiskPolicy}
use aurum_iq.Prelude.{◌≡◌, some, none, false, Bool-cases, inl, inr, Option, refl}
use aurum_iq.Core.Decimal.{Decimal, le, sub, add, zero_price, lt, add}

-- What stops without an error are.
pub record AreShortStops (D : PlanOps) (atr14 : Decimal) (policy : SideRiskPolicy)
    (entry_min entry_max : Decimal) (stops : Stops) : Type 0 where
  pub max_distance : Decimal
  pub max_distance_at : policy.max_stop_distance_atr ≡ some max_distance
  pub stop_above : le stops.stop_final entry_max ≡ false
  pub at_risk : le (sub stops.stop_final entry_min) zero_price ≡ false
  pub distance_is : stops.stop_distance_atr ≡ D.div (sub stops.stop_final entry_min) atr14
  pub near_enough : lt max_distance stops.stop_distance_atr ≡ false

module _ (D : PlanOps) (policy : SideRiskPolicy)
    (entry_min entry_mid entry_max atr14 : Decimal) where
  short_gates-AreShortStops :
      (stop_structure stop_atr max_distance : Decimal)
      → policy.max_stop_distance_atr ≡ some max_distance
      → (short_gates D stop_structure stop_atr entry_min entry_max atr14 max_distance).error ≡ none
      → AreShortStops D atr14 policy entry_min entry_max
          (short_gates D stop_structure stop_atr entry_min entry_max atr14 max_distance)
  short_gates-AreShortStops ss sa md at e =
      let final = max_of ss sa in
      let risk = sub final entry_min in
      elim (Bool-cases (le risk zero_price)) [
        | inl no_risk ↦ let f = rw no_risk at e in absurd (cc)
        | inr risk_ok ↦ elim (Bool-cases (le final entry_max)) [
          | inl inside ↦ let f = rw (risk_ok, inside) at e in absurd (cc)
          | inr beyond ↦ elim (Bool-cases (lt md (D.div risk atr14))) [
            | inl far ↦ let f = rw (risk_ok, beyond, far) at e in absurd (cc)
            | inr near ↦
                rw (risk_ok, beyond, near)
                  (record {
                    max_distance = md;
                    max_distance_at = at;
                    stop_above = beyond;
                    at_risk = risk_ok;
                    distance_is = refl;
                    near_enough = near;
                  })
          ]
        ]
      ]

  short_stops_with-AreShortStops :
      (z : StructureZone) (buffer multiplier : Option Decimal) (max_distance : Option Decimal)
      → policy.max_stop_distance_atr ≡ max_distance
      → (short_stops_with D z entry_min entry_mid entry_max atr14 buffer multiplier
          max_distance).error
        ≡ none
      → AreShortStops D atr14 policy entry_min entry_max
          (short_stops_with D z entry_min entry_mid entry_max atr14 buffer multiplier max_distance)
  short_stops_with-AreShortStops z (some b) (some m) (some md) at e =
      short_gates-AreShortStops (add z.price_high b) (add entry_mid (D.mul m atr14)) md at e
  short_stops_with-AreShortStops z none m md at e = absurd (cc)
  short_stops_with-AreShortStops z (some b) none md at e = absurd (cc)
  short_stops_with-AreShortStops z (some b) (some m) none at e = absurd (cc)

  pub calculate_short_stops-AreShortStops :
      (z : StructureZone)
      → (calculate_short_stops D (some z) entry_min entry_mid entry_max atr14 policy).error ≡ none
      → AreShortStops D atr14 policy entry_min entry_max
          (calculate_short_stops D (some z) entry_min entry_mid entry_max atr14 policy)
  unfolding calculate_short_stops
  calculate_short_stops-AreShortStops z e = elim (Bool-cases (is_bad_atr atr14)) [
    | inl bad ↦ let f = rw bad at e in absurd (cc)
    | inr good ↦ rw (good) (
        short_stops_with-AreShortStops z policy.structure_buffer policy.atr_multiplier
          policy.max_stop_distance_atr refl (rw good at e))
  ]
