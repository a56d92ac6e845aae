-- ===== src/Plan/ShortSound.antt =====
-- engine/risk/xauusd_planner.py: what a valid plan of a SHORT promises.
use aurum_iq.Plan.ShortTargetsSound.{AreShortTargets, calculate_short_targets-AreShortTargets}
use aurum_iq.Plan.ShortStopsSound.{AreShortStops, calculate_short_stops-AreShortStops}
use aurum_iq.Plan.Targets.{Targets}
use aurum_iq.Plan.Stops.{Stops}
use aurum_iq.Core.Decimal.{Decimal, le, sub, zero_price, lt}
use aurum_iq.Plan.Snapshot.{
  DualSideSignalSnapshot, SideRiskPlanSnapshot, invalid_snapshot, entry_mid_of, is_xauusd,
}
use aurum_iq.Core.Enums.{SignalState, UserDecision}
use aurum_iq.Plan.Policy.{SideRiskPolicy, XauUsdRiskProfile, is_configured}
use aurum_iq.Plan.Zones.{PlanOps, ZoneStructure, StructureZone}
use aurum_iq.Plan.ShortPlan.{
  is_short_candidate, short_from_targets, short_from_stops, short_from_zone, short_plan, plan_short,
  short_entry_zone,
}
use aurum_iq.Prelude.{
  Option, ◌≡◌, true, some, false, arith, none, Option-cases, inr, inl, refl, Bool-cases, ok,
  after_guards, subst, ap, ◌∙◌,
}

-- The geometry and the terms of a valid SHORT plan under a policy.
pub record IsShortPlan (D : PlanOps) (atr14 : Decimal) (policy : SideRiskPolicy)
    (s : DualSideSignalSnapshot) (p : SideRiskPlanSnapshot) : Type 0 where
  pub entry_min : Decimal
  pub entry_max : Decimal
  pub stop_final : Decimal
  pub tp1 : Decimal
  pub distance : Decimal
  pub max_distance : Decimal
  pub rr : Decimal
  pub min_rr : Decimal
  pub entry_min_at : p.entry_min ≡ some entry_min
  pub entry_max_at : p.entry_max ≡ some entry_max
  pub stop_at : p.stop_final ≡ some stop_final
  pub tp1_at : p.tp1 ≡ some tp1
  pub distance_at : p.stop_distance_atr ≡ some distance
  pub rr_at : p.planned_rr_tp1 ≡ some rr
  pub max_distance_at : policy.max_stop_distance_atr ≡ some max_distance
  pub min_rr_at : policy.min_rr_tp1 ≡ some min_rr
  pub stop_above : le stop_final entry_max ≡ false
  pub at_risk : le (sub stop_final entry_min) zero_price ≡ false
  pub distance_is : distance ≡ D.div (sub stop_final entry_min) atr14
  pub near_enough : lt max_distance distance ≡ false
  pub tp1_below : lt tp1 entry_min ≡ true
  pub reward_is : rr ≡ D.div (sub entry_min tp1) (sub stop_final entry_min)
  pub enough_reward : lt rr min_rr ≡ false
  pub tp2_beyond : (tp2 : Decimal) → p.tp2 ≡ some tp2 → lt tp2 tp1 ≡ true
  pub from_window : s.candidate_state ≡ SignalState.sell_window
  pub from_sell : s.candidate_user_decision ≡ UserDecision.sell
  pub action : p.candidate_effective_action ≡ UserDecision.sell

candidate_cases :
    (state : SignalState) (decision : UserDecision)
    → is_short_candidate state decision ≡ true
    → (state ≡ SignalState.sell_window) × (decision ≡ UserDecision.sell)
unfolding is_short_candidate
candidate_cases state decision e = ground arith

module _ (D : PlanOps) (s : DualSideSignalSnapshot) (policy : SideRiskPolicy)
    (structure_15m : Option ZoneStructure) (atr14 : Decimal) (structure_4h : Option ZoneStructure)
    (eligible : is_short_candidate s.candidate_state s.candidate_user_decision ≡ true) where
  from_targets-IsShortPlan :
      (z : StructureZone) (stops : Stops) (targets : Targets)
      → AreShortStops D atr14 policy z.price_low z.price_high stops
      → (targets.error ≡ none
          → AreShortTargets D (sub stops.stop_final z.price_low) policy z.price_low targets)
      → (short_from_targets D s policy structure_15m atr14 structure_4h z stops
          targets).risk_candidate_valid
        ≡ true
      → IsShortPlan D atr14 policy s
          (short_from_targets D s policy structure_15m atr14 structure_4h z stops targets)
  unfolding invalid_snapshot
  from_targets-IsShortPlan z stops targets are_stops are_targets valid =
      elim (Option-cases targets.error) [
        | inr (e, bad) ↦ let f = rw bad at valid in absurd (cc)
        | inl good ↦
            let t = are_targets good in
            let (window, sells) =
              candidate_cases s.candidate_state s.candidate_user_decision eligible in
            rw (good) (record {
              entry_min = z.price_low;
              entry_max = z.price_high;
              stop_final = stops.stop_final;
              tp1 = t.tp1;
              distance = stops.stop_distance_atr;
              max_distance = are_stops.max_distance;
              rr = t.rr;
              min_rr = t.min_rr;
              entry_min_at = refl;
              entry_max_at = refl;
              stop_at = refl;
              tp1_at = t.tp1_at;
              distance_at = refl;
              rr_at = t.rr_at;
              max_distance_at = are_stops.max_distance_at;
              min_rr_at = t.min_rr_at;
              stop_above = are_stops.stop_above;
              at_risk = are_stops.at_risk;
              distance_is = are_stops.distance_is;
              near_enough = are_stops.near_enough;
              tp1_below = t.tp1_below;
              reward_is = t.reward_is;
              enough_reward = t.enough_reward;
              tp2_beyond = t.tp2_beyond;
              from_window = window;
              from_sell = sells;
              action = refl;
            })
      ]

  from_stops-IsShortPlan :
      (z : StructureZone) (stops : Stops)
      → (stops.error ≡ none → AreShortStops D atr14 policy z.price_low z.price_high stops)
      → (short_from_stops D s policy structure_15m atr14 structure_4h z stops).risk_candidate_valid
        ≡ true
      → IsShortPlan D atr14 policy s
          (short_from_stops D s policy structure_15m atr14 structure_4h z stops)
  unfolding invalid_snapshot
  from_stops-IsShortPlan z stops are_stops valid = elim (Option-cases stops.error) [
    | inr (e, bad) ↦ let f = rw bad at valid in absurd (cc)
    | inl good ↦ rw (good) (
        from_targets-IsShortPlan z stops _ (are_stops good)
          (calculate_short_targets-AreShortTargets D (entry_mid_of D z) z.price_low stops.stop_final
            structure_15m atr14 s.timestamp.utc policy structure_4h)
          (rw good at valid))
  ]

  from_zone-IsShortPlan :
      (zone : Option StructureZone)
      → (short_from_zone D s policy structure_15m atr14 structure_4h zone).risk_candidate_valid
        ≡ true
      → IsShortPlan D atr14 policy s
          (short_from_zone D s policy structure_15m atr14 structure_4h zone)
  unfolding invalid_snapshot
  from_zone-IsShortPlan none valid = absurd (cc)
  from_zone-IsShortPlan (some z) valid =
      from_stops-IsShortPlan z _
        (calculate_short_stops-AreShortStops D policy z.price_low (entry_mid_of D z) z.price_high
          atr14 z)
        valid

module _ (D : PlanOps) (profile : XauUsdRiskProfile) (s : DualSideSignalSnapshot)
    (structure_15m : Option ZoneStructure) (atr14 : Decimal)
    (structure_4h : Option ZoneStructure) where
  short_plan-IsShortPlan :
      (short_plan D s profile.short_risk_policy structure_15m atr14
          structure_4h).risk_candidate_valid
        ≡ true
      → IsShortPlan D atr14 profile.short_risk_policy s
          (short_plan D s profile.short_risk_policy structure_15m atr14 structure_4h)
  unfolding invalid_snapshot
  short_plan-IsShortPlan valid =
      elim (Bool-cases (is_short_candidate s.candidate_state s.candidate_user_decision)) [
        | inr other ↦ let f = rw other at valid in absurd (cc)
        | inl eligible ↦ elim (Bool-cases (is_configured profile.short_risk_policy)) [
          | inr unset ↦ let f = rw (eligible, unset) at valid in absurd (cc)
          | inl set ↦
              rw (eligible, set)
                (from_zone-IsShortPlan D s profile.short_risk_policy structure_15m atr14
                  structure_4h eligible (short_entry_zone D structure_15m s.timestamp.utc)
                  (rw (eligible, set) at valid))
        ]
      ]

  -- A SHORT plan that is valid comes from a SELL_WINDOW / SELL candidate and keeps the terms of its
  -- policy: the stop lies strictly above the entry zone, and the reported distance, which is the
  -- distance of the stop from the bottom of the zone per ATR, is at most the greatest one; TP1 lies
  -- strictly below the zone, TP2, if there is one, strictly beyond TP1, and the reported reward to
  -- risk, which is the distance of TP1 from the bottom of the zone per that of the stop, is at least
  -- the least one. Quotients are those of the given Decimal division. Its action is SELL.
  pub plan_short-IsShortPlan :
      {p : SideRiskPlanSnapshot}
      → plan_short D profile s structure_15m atr14 structure_4h ≡ ok p
      → p.risk_candidate_valid ≡ true
      → IsShortPlan D atr14 profile.short_risk_policy s p
  unfolding plan_short
  plan_short-IsShortPlan {p} planned valid =
      let same = after_guards (is_xauusd s.instrument) s.timestamp.aware planned in
      subst (IsShortPlan D atr14 profile.short_risk_policy s) same
        (short_plan-IsShortPlan (ap (λ q. q.risk_candidate_valid) same ∙ valid))
