-- ===== src/Plan/LongTargetsSound.antt =====
-- engine/risk/xauusd_targets.py: what the targets of a LONG are if they have no error.
use aurum_iq.Plan.Targets.{Targets, Tp2, tp2_price}
use aurum_iq.Core.Decimal.{Decimal, lt, le, add, sub, zero_price}
use aurum_iq.Plan.Policy.{SideRiskPolicy}
use aurum_iq.Plan.LongTargets.{
  long_candidates, calculate_long_targets, next_long_target, synthetic_long_tp2, long_targets_at,
  long_targets_with, long_rr, is_long_target, long_key,
}
use aurum_iq.Plan.Zones.{
  PlanOps, StructureZone, ZoneStructure, collect_pit_zones, key_less, is_resistance,
}
use aurum_iq.Prelude.{
  List, Option, ◌≡◌, All, ℕ, some, none, Bool-cases, true, false, ◌∷◌, given_or, [], inl, filter,
  subst, inr, sort_with-All, refl, All-map, both_right, All-filtered,
}

-- What targets without an error are.
pub record AreLongTargets (D : PlanOps) (planned_risk : Decimal) (policy : SideRiskPolicy)
    (entry_max : Decimal) (t : Targets) : Type 0 where
  pub tp1 : Decimal
  pub rr : Decimal
  pub min_rr : Decimal
  pub tp1_at : t.tp1 ≡ some tp1
  pub rr_at : t.planned_rr_tp1 ≡ some rr
  pub min_rr_at : policy.min_rr_tp1 ≡ some min_rr
  pub tp1_above : lt entry_max tp1 ≡ true
  pub reward_is : rr ≡ D.div (sub tp1 entry_max) planned_risk
  pub enough_reward : lt rr min_rr ≡ false
  pub tp2_beyond : (tp2 : Decimal) → t.tp2 ≡ some tp2 → lt tp1 tp2 ≡ true

module _ (D : PlanOps) (policy : SideRiskPolicy)
    (entry_mid entry_max planned_risk atr14 : Decimal) where
  next_beyond :
      (tp1 : Decimal) (zs : List StructureZone) (tp2 : Decimal)
      → tp2_price (next_long_target D tp1 zs) ≡ some tp2
      → lt tp1 tp2 ≡ true
  next_beyond tp1 [] tp2 e = absurd (cc)
  next_beyond tp1 (z ∷ zs) tp2 e = elim (Bool-cases (lt tp1 z.price_low)) [
    | inl beyond ↦ let f : z.price_low ≡ tp2 = cc in subst (λ p. lt tp1 p ≡ true) f beyond
    | inr not_beyond ↦ next_beyond tp1 zs tp2 (rw not_beyond at e)
  ]

  synthetic_beyond :
      (tp1 : Decimal) (multiplier : Option Decimal) (tp2 : Decimal)
      → tp2_price (synthetic_long_tp2 D tp1 entry_mid atr14 multiplier) ≡ some tp2
      → lt tp1 tp2 ≡ true
  synthetic_beyond tp1 none tp2 e = absurd (cc)
  synthetic_beyond tp1 (some m) tp2 e = elim (Bool-cases (lt tp1 (add entry_mid (D.mul m atr14)))) [
    | inl beyond ↦
        let f = rw beyond at e in
        let price : add entry_mid (D.mul m atr14) ≡ tp2 = cc in
        subst (λ p. lt tp1 p ≡ true) price beyond
    | inr not_beyond ↦ let f = rw not_beyond at e in absurd (cc)
  ]

  given_beyond :
      (tp1 tp2 : Decimal) (first second : Tp2)
      → (tp2_price first ≡ some tp2 → lt tp1 tp2 ≡ true)
      → (tp2_price second ≡ some tp2 → lt tp1 tp2 ≡ true)
      → tp2_price (given_or first second) ≡ some tp2
      → lt tp1 tp2 ≡ true
  given_beyond tp1 tp2 none second h k e = k e
  given_beyond tp1 tp2 (some x) second h k e = h e

  long_targets_at-AreLongTargets :
      (min_rr : Decimal) (z : StructureZone) (zs : List StructureZone)
      → policy.min_rr_tp1 ≡ some min_rr
      → lt entry_max z.price_low ≡ true
      → (long_targets_at D entry_mid entry_max planned_risk atr14 min_rr policy z zs).error ≡ none
      → AreLongTargets D planned_risk policy entry_max
          (long_targets_at D entry_mid entry_max planned_risk atr14 min_rr policy z zs)
  long_targets_at-AreLongTargets min_rr z zs at above e =
      let reward = long_rr D entry_max planned_risk z.price_low in
      elim (Bool-cases (lt reward min_rr)) [
        | inl low ↦ let f = rw low at e in absurd (cc)
        | inr enough ↦ record {
          tp1 = z.price_low;
          rr = reward;
          min_rr = min_rr;
          tp1_at = refl;
          rr_at = refl;
          min_rr_at = at;
          tp1_above = above;
          reward_is = refl;
          enough_reward = enough;
          tp2_beyond = λ tp2 e.
              given_beyond z.price_low tp2 (next_long_target D z.price_low zs)
                (synthetic_long_tp2 D z.price_low entry_mid atr14 policy.tp2_atr_multiplier)
                (next_beyond z.price_low zs tp2)
                (synthetic_beyond z.price_low policy.tp2_atr_multiplier tp2) e;
        }
      ]

  long_targets_with-AreLongTargets :
      (min_rr : Option Decimal) (zs : List StructureZone)
      → policy.min_rr_tp1 ≡ min_rr
      → All (λ z. lt entry_max z.price_low ≡ true) zs
      → (long_targets_with D entry_mid entry_max planned_risk atr14 min_rr policy zs).error ≡ none
      → AreLongTargets D planned_risk policy entry_max
          (long_targets_with D entry_mid entry_max planned_risk atr14 min_rr policy zs)
  long_targets_with-AreLongTargets none zs at above e = absurd (cc)
  long_targets_with-AreLongTargets (some m) [] at above e = absurd (cc)
  long_targets_with-AreLongTargets (some m) (z ∷ zs) at (above, _) e =
      long_targets_at-AreLongTargets m z zs at above e

above_entry :
    (D : PlanOps) (entry_max : Decimal) (structure_15m structure_4h : Option ZoneStructure) (at : ℕ)
    → All
        (λ z. lt entry_max z.price_low ≡ true)
        (long_candidates D entry_max structure_15m structure_4h at)
unfolding long_candidates
above_entry D entry_max structure_15m structure_4h at =
    let targets =
      filter (is_long_target entry_max) (collect_pit_zones D structure_15m structure_4h at) in
    sort_with-All (λ y z. key_less (long_key D y) (long_key D z))
      (λ z. lt entry_max z.price_low ≡ true) targets
      (All-map (λ z. is_long_target entry_max z ≡ true) (λ z. lt entry_max z.price_low ≡ true)
        targets (λ z h. both_right (is_resistance z) h)
        (All-filtered (is_long_target entry_max)
          (collect_pit_zones D structure_15m structure_4h at)))

pub calculate_long_targets-AreLongTargets :
    (D : PlanOps) (entry_mid entry_max stop_final : Decimal) (structure_15m : Option ZoneStructure)
    (atr14 : Decimal) (at : ℕ) (policy : SideRiskPolicy) (structure_4h : Option ZoneStructure)
    → (calculate_long_targets D entry_mid entry_max stop_final structure_15m atr14 at policy
        structure_4h).error
      ≡ none
    → AreLongTargets D (sub entry_max stop_final) policy entry_max (
        calculate_long_targets D entry_mid entry_max stop_final structure_15m atr14 at policy
          structure_4h)
unfolding calculate_long_targets
calculate_long_targets-AreLongTargets D mid entry_max stop s15 atr14 at policy s4h e =
    elim (Bool-cases (le (sub entry_max stop) zero_price)) [
      | inl no_risk ↦ let f = rw no_risk at e in absurd (cc)
      | inr risk ↦ rw (risk) (
          long_targets_with-AreLongTargets D policy mid entry_max (sub entry_max stop) atr14
            policy.min_rr_tp1 (long_candidates D entry_max s15 s4h at) refl
            (above_entry D entry_max s15 s4h at) (rw risk at e))
    ]
