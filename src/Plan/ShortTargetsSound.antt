-- ===== src/Plan/ShortTargetsSound.antt =====
-- engine/risk/xauusd_targets.py: what the targets of a SHORT are if they have no error.
use aurum_iq.Plan.Targets.{Targets, Tp2, tp2_price}
use aurum_iq.Core.Decimal.{Decimal, lt, le, sub, zero_price}
use aurum_iq.Plan.Policy.{SideRiskPolicy}
use aurum_iq.Plan.ShortTargets.{
  short_candidates, calculate_short_targets, next_short_target, synthetic_short_tp2,
  short_targets_at, short_targets_with, short_rr, is_short_target, short_key,
}
use aurum_iq.Plan.Zones.{
  PlanOps, StructureZone, ZoneStructure, collect_pit_zones, key_less, is_support,
}
use aurum_iq.Prelude.{
  List, Option, ◌≡◌, All, ℕ, some, none, Bool-cases, true, false, ◌∷◌, given_or, [], inl, filter,
  subst, inr, sort_with-All, refl, All-map, both_right, All-filtered,
}

-- What targets without an error are.
pub record AreShortTargets (D : PlanOps) (planned_risk : Decimal) (policy : SideRiskPolicy)
    (entry_min : Decimal) (t : Targets) : Type 0 where
  pub tp1 : Decimal
  pub rr : Decimal
  pub min_rr : Decimal
  pub tp1_at : t.tp1 ≡ some tp1
  pub rr_at : t.planned_rr_tp1 ≡ some rr
  pub min_rr_at : policy.min_rr_tp1 ≡ some min_rr
  pub tp1_below : lt tp1 entry_min ≡ true
  pub reward_is : rr ≡ D.div (sub entry_min tp1) planned_risk
  pub enough_reward : lt rr min_rr ≡ false
  pub tp2_beyond : (tp2 : Decimal) → t.tp2 ≡ some tp2 → lt tp2 tp1 ≡ true

module _ (D : PlanOps) (policy : SideRiskPolicy)
    (entry_mid entry_min planned_risk atr14 : Decimal) where
  next_beyond :
      (tp1 : Decimal) (zs : List StructureZone) (tp2 : Decimal)
      → tp2_price (next_short_target D tp1 zs) ≡ some tp2
      → lt tp2 tp1 ≡ true
  next_beyond tp1 [] tp2 e = absurd (cc)
  next_beyond tp1 (z ∷ zs) tp2 e = elim (Bool-cases (lt z.price_high tp1)) [
    | inl beyond ↦ let f : z.price_high ≡ tp2 = cc in subst (λ p. lt p tp1 ≡ true) f beyond
    | inr not_beyond ↦ next_beyond tp1 zs tp2 (rw not_beyond at e)
  ]

  synthetic_beyond :
      (tp1 : Decimal) (multiplier : Option Decimal) (tp2 : Decimal)
      → tp2_price (synthetic_short_tp2 D tp1 entry_mid atr14 multiplier) ≡ some tp2
      → lt tp2 tp1 ≡ true
  synthetic_beyond tp1 none tp2 e = absurd (cc)
  synthetic_beyond tp1 (some m) tp2 e = elim (Bool-cases (lt (sub entry_mid (D.mul m atr14)) tp1)) [
    | inl beyond ↦
        let f = rw beyond at e in
        let price : sub entry_mid (D.mul m atr14) ≡ tp2 = cc in
        subst (λ p. lt p tp1 ≡ true) price beyond
    | inr not_beyond ↦ let f = rw not_beyond at e in absurd (cc)
  ]

  given_beyond :
      (tp1 tp2 : Decimal) (first second : Tp2)
      → (tp2_price first ≡ some tp2 → lt tp2 tp1 ≡ true)
      → (tp2_price second ≡ some tp2 → lt tp2 tp1 ≡ true)
      → tp2_price (given_or first second) ≡ some tp2
      → lt tp2 tp1 ≡ true
  given_beyond tp1 tp2 none second h k e = k e
  given_beyond tp1 tp2 (some x) second h k e = h e

  short_targets_at-AreShortTargets :
      (min_rr : Decimal) (z : StructureZone) (zs : List StructureZone)
      → policy.min_rr_tp1 ≡ some min_rr
      → lt z.price_high entry_min ≡ true
      → (short_targets_at D entry_mid entry_min planned_risk atr14 min_rr policy z zs).error ≡ none
      → AreShortTargets D planned_risk policy entry_min
          (short_targets_at D entry_mid entry_min planned_risk atr14 min_rr policy z zs)
  short_targets_at-AreShortTargets min_rr z zs at below e =
      let reward = short_rr D entry_min planned_risk z.price_high in
      elim (Bool-cases (lt reward min_rr)) [
        | inl low ↦ let f = rw low at e in absurd (cc)
        | inr enough ↦ record {
          tp1 = z.price_high;
          rr = reward;
          min_rr = min_rr;
          tp1_at = refl;
          rr_at = refl;
          min_rr_at = at;
          tp1_below = below;
          reward_is = refl;
          enough_reward = enough;
          tp2_beyond = λ tp2 e.
              given_beyond z.price_high tp2 (next_short_target D z.price_high zs)
                (synthetic_short_tp2 D z.price_high entry_mid atr14 policy.tp2_atr_multiplier)
                (next_beyond z.price_high zs tp2)
                (synthetic_beyond z.price_high policy.tp2_atr_multiplier tp2) e;
        }
      ]

  short_targets_with-AreShortTargets :
      (min_rr : Option Decimal) (zs : List StructureZone)
      → policy.min_rr_tp1 ≡ min_rr
      → All (λ z. lt z.price_high entry_min ≡ true) zs
      → (short_targets_with D entry_mid entry_min planned_risk atr14 min_rr policy zs).error ≡ none
      → AreShortTargets D planned_risk policy entry_min
          (short_targets_with D entry_mid entry_min planned_risk atr14 min_rr policy zs)
  short_targets_with-AreShortTargets none zs at below e = absurd (cc)
  short_targets_with-AreShortTargets (some m) [] at below e = absurd (cc)
  short_targets_with-AreShortTargets (some m) (z ∷ zs) at (below, _) e =
      short_targets_at-AreShortTargets m z zs at below e

below_entry :
    (D : PlanOps) (entry_min : Decimal) (structure_15m structure_4h : Option ZoneStructure) (at : ℕ)
    → All
        (λ z. lt z.price_high entry_min ≡ true)
        (short_candidates D entry_min structure_15m structure_4h at)
unfolding short_candidates
below_entry D entry_min structure_15m structure_4h at =
    let targets =
      filter (is_short_target entry_min) (collect_pit_zones D structure_15m structure_4h at) in
    sort_with-All (λ y z. key_less (short_key D y) (short_key D z))
      (λ z. lt z.price_high entry_min ≡ true) targets
      (All-map (λ z. is_short_target entry_min z ≡ true) (λ z. lt z.price_high entry_min ≡ true)
        targets (λ z h. both_right (is_support z) h)
        (All-filtered (is_short_target entry_min)
          (collect_pit_zones D structure_15m structure_4h at)))

pub calculate_short_targets-AreShortTargets :
    (D : PlanOps) (entry_mid entry_min stop_final : Decimal) (structure_15m : Option ZoneStructure)
    (atr14 : Decimal) (at : ℕ) (policy : SideRiskPolicy) (structure_4h : Option ZoneStructure)
    → (calculate_short_targets D entry_mid entry_min stop_final structure_15m atr14 at policy
        structure_4h).error
      ≡ none
    → AreShortTargets D (sub stop_final entry_min) policy entry_min (
        calculate_short_targets D entry_mid entry_min stop_final structure_15m atr14 at policy
          structure_4h)
unfolding calculate_short_targets
calculate_short_targets-AreShortTargets D mid entry_min stop s15 atr14 at policy s4h e =
    elim (Bool-cases (le (sub stop entry_min) zero_price)) [
      | inl no_risk ↦ let f = rw no_risk at e in absurd (cc)
      | inr risk ↦ rw (risk) (
          short_targets_with-AreShortTargets D policy mid entry_min (sub stop entry_min) atr14
            policy.min_rr_tp1 (short_candidates D entry_min s15 s4h at) refl
            (below_entry D entry_min s15 s4h at) (rw risk at e))
    ]
