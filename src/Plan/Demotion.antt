-- ===== src/Plan/Demotion.antt =====
-- engine/risk/xauusd_planner.py: a plan never does more than its signal.
use aurum_iq.Plan.Targets.{Targets}
use aurum_iq.Plan.Stops.{Stops}
use aurum_iq.Core.Decimal.{Decimal}
use aurum_iq.Core.Enums.{SignalState, UserDecision}
use aurum_iq.Plan.Policy.{SideRiskPolicy, is_configured, XauUsdRiskProfile}
use aurum_iq.Plan.LongPlan.{
  is_long_candidate, long_plan, long_from_stops, long_from_targets, long_entry_zone, plan_long,
}
use aurum_iq.Plan.ShortPlan.{
  is_short_candidate, short_plan, short_from_targets, short_from_stops, short_entry_zone,
  plan_short,
}
use aurum_iq.Plan.Zones.{PlanOps, ZoneStructure, StructureZone}
use aurum_iq.Plan.Snapshot.{
  DualSideSignalSnapshot, SideRiskPlanSnapshot, invalid_snapshot, is_xauusd,
}
use aurum_iq.Prelude.{
  ◌≡◌, Option, true, false, ◌⊎◌, arith, Bool-cases, inr, Option-cases, inl, refl, sym, ok, subst,
  after_guards,
}

-- The plan waits or does what the candidate does, it is published as WAIT, it may be simulated if it
-- is valid, and it names its signal.
pub record IsDemotion (s : DualSideSignalSnapshot) (p : SideRiskPlanSnapshot) : Type 0 where
  pub published : p.publication_effective_action ≡ UserDecision.wait
  pub action :
      ((p.candidate_effective_action ≡ UserDecision.wait) × (p.risk_candidate_valid ≡ false))
      ⊎ ((p.candidate_effective_action ≡ s.candidate_user_decision)
          × (p.risk_candidate_valid ≡ true))
  pub simulated : p.simulation_eligible ≡ p.risk_candidate_valid
  pub source : p.source_phase4_fingerprint ≡ s.analysis_fingerprint
  pub generated : p.signal_generated_at ≡ s.timestamp

-- The five parts at once, of a plan that computes.
from_parts :
    (s : DualSideSignalSnapshot) (p : SideRiskPlanSnapshot)
    → p.publication_effective_action ≡ UserDecision.wait
    → ((p.candidate_effective_action ≡ UserDecision.wait) × (p.risk_candidate_valid ≡ false))
      ⊎ ((p.candidate_effective_action ≡ s.candidate_user_decision)
          × (p.risk_candidate_valid ≡ true))
    → p.simulation_eligible ≡ p.risk_candidate_valid
    → p.source_phase4_fingerprint ≡ s.analysis_fingerprint
    → p.signal_generated_at ≡ s.timestamp
    → IsDemotion s p
from_parts s p a b c d e = record {
  published = a;
  action = b;
  simulated = c;
  source = d;
  generated = e;
}

long_decision :
    (state : SignalState) (decision : UserDecision)
    → is_long_candidate state decision ≡ true
    → decision ≡ UserDecision.buy
unfolding is_long_candidate
long_decision state decision e = ground arith

short_decision :
    (state : SignalState) (decision : UserDecision)
    → is_short_candidate state decision ≡ true
    → decision ≡ UserDecision.sell
unfolding is_short_candidate
short_decision state decision e = ground arith

module _ (D : PlanOps) (s : DualSideSignalSnapshot) (policy : SideRiskPolicy)
    (structure_15m : Option ZoneStructure) (atr14 : Decimal)
    (structure_4h : Option ZoneStructure) where
  long_from_targets-IsDemotion :
      (z : StructureZone) (stops : Stops) (targets : Targets)
      → is_long_candidate s.candidate_state s.candidate_user_decision ≡ true
      → IsDemotion s (long_from_targets D s policy structure_15m atr14 structure_4h z stops targets)
  unfolding invalid_snapshot
  long_from_targets-IsDemotion z stops targets eligible = elim (Option-cases targets.error) [
    | inr (e, bad) ↦ rw (bad) (from_parts s _ refl (inl (refl, refl)) refl refl refl)
    | inl good ↦ rw (good) (
        from_parts s _ refl
          (inr (sym (long_decision s.candidate_state s.candidate_user_decision eligible), refl))
          refl refl refl)
  ]

  long_from_stops-IsDemotion :
      (z : StructureZone) (stops : Stops)
      → is_long_candidate s.candidate_state s.candidate_user_decision ≡ true
      → IsDemotion s (long_from_stops D s policy structure_15m atr14 structure_4h z stops)
  unfolding invalid_snapshot
  long_from_stops-IsDemotion z stops eligible = elim (Option-cases stops.error) [
    | inr (e, bad) ↦ rw (bad) (from_parts s _ refl (inl (refl, refl)) refl refl refl)
    | inl good ↦ rw (good) (long_from_targets-IsDemotion z stops _ eligible)
  ]

  long_plan-IsDemotion : IsDemotion s (long_plan D s policy structure_15m atr14 structure_4h)
  unfolding invalid_snapshot
  long_plan-IsDemotion =
      elim (Bool-cases (is_long_candidate s.candidate_state s.candidate_user_decision)) [
        | inr other ↦ rw (other) (from_parts s _ refl (inl (refl, refl)) refl refl refl)
        | inl eligible ↦ elim (Bool-cases (is_configured policy)) [
          | inr unset ↦ rw (eligible, unset) (from_parts s _ refl (inl (refl, refl)) refl refl refl)
          | inl set ↦ elim (Option-cases (long_entry_zone D structure_15m s.timestamp.utc)) [
            | inl missing ↦
                rw (eligible, set, missing) (from_parts s _ refl (inl (refl, refl)) refl refl refl)
            | inr (z, found) ↦ rw (eligible, set, found) (long_from_stops-IsDemotion z _ eligible)
          ]
        ]
      ]

module _ (D : PlanOps) (s : DualSideSignalSnapshot) (policy : SideRiskPolicy)
    (structure_15m : Option ZoneStructure) (atr14 : Decimal)
    (structure_4h : Option ZoneStructure) where
  short_from_targets-IsDemotion :
      (z : StructureZone) (stops : Stops) (targets : Targets)
      → is_short_candidate s.candidate_state s.candidate_user_decision ≡ true
      → IsDemotion s
          (short_from_targets D s policy structure_15m atr14 structure_4h z stops targets)
  unfolding invalid_snapshot
  short_from_targets-IsDemotion z stops targets eligible = elim (Option-cases targets.error) [
    | inr (e, bad) ↦ rw (bad) (from_parts s _ refl (inl (refl, refl)) refl refl refl)
    | inl good ↦ rw (good) (
        from_parts s _ refl
          (inr (sym (short_decision s.candidate_state s.candidate_user_decision eligible), refl))
          refl refl refl)
  ]

  short_from_stops-IsDemotion :
      (z : StructureZone) (stops : Stops)
      → is_short_candidate s.candidate_state s.candidate_user_decision ≡ true
      → IsDemotion s (short_from_stops D s policy structure_15m atr14 structure_4h z stops)
  unfolding invalid_snapshot
  short_from_stops-IsDemotion z stops eligible = elim (Option-cases stops.error) [
    | inr (e, bad) ↦ rw (bad) (from_parts s _ refl (inl (refl, refl)) refl refl refl)
    | inl good ↦ rw (good) (short_from_targets-IsDemotion z stops _ eligible)
  ]

  short_plan-IsDemotion : IsDemotion s (short_plan D s policy structure_15m atr14 structure_4h)
  unfolding invalid_snapshot
  short_plan-IsDemotion =
      elim (Bool-cases (is_short_candidate s.candidate_state s.candidate_user_decision)) [
        | inr other ↦ rw (other) (from_parts s _ refl (inl (refl, refl)) refl refl refl)
        | inl eligible ↦ elim (Bool-cases (is_configured policy)) [
          | inr unset ↦ rw (eligible, unset) (from_parts s _ refl (inl (refl, refl)) refl refl refl)
          | inl set ↦ elim (Option-cases (short_entry_zone D structure_15m s.timestamp.utc)) [
            | inl missing ↦
                rw (eligible, set, missing) (from_parts s _ refl (inl (refl, refl)) refl refl refl)
            | inr (z, found) ↦ rw (eligible, set, found) (short_from_stops-IsDemotion z _ eligible)
          ]
        ]
      ]

-- A plan of either side never does more than its signal: it is published as WAIT, its action is WAIT
-- if it is not valid and the candidate's own decision if it is, it may be simulated just if it is
-- valid, and it names the fingerprint and the time of its signal.
pub plans-IsDemotion :
    (D : PlanOps) (profile : XauUsdRiskProfile) (s : DualSideSignalSnapshot)
    (structure_15m : Option ZoneStructure) (atr14 : Decimal) (structure_4h : Option ZoneStructure)
    {long short : SideRiskPlanSnapshot}
    → plan_long D profile s structure_15m atr14 structure_4h ≡ ok long
    → plan_short D profile s structure_15m atr14 structure_4h ≡ ok short
    → IsDemotion s long × IsDemotion s short
unfolding plan_long plan_short
plans-IsDemotion D profile s s15 atr14 s4h planned_long planned_short = (
  subst (IsDemotion s) (after_guards (is_xauusd s.instrument) s.timestamp.aware planned_long)
      (long_plan-IsDemotion D s profile.long_risk_policy s15 atr14 s4h),
  subst (IsDemotion s) (after_guards (is_xauusd s.instrument) s.timestamp.aware planned_short)
      (short_plan-IsDemotion D s profile.short_risk_policy s15 atr14 s4h),
)
