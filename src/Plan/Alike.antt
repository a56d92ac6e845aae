-- ===== src/Plan/Alike.antt =====
-- engine/risk/xauusd_planner.py: a plan depends on the structures by the entry zone and the known zones.
use aurum_iq.Plan.Stops.{Stops}
use aurum_iq.Plan.LongPlan.{
  long_entry_zone, long_plan, long_from_zone, long_from_stops, is_long_candidate, long_from_targets,
}
use aurum_iq.Plan.LongTargets.{calculate_long_targets, long_candidates}
use aurum_iq.Plan.ShortTargets.{calculate_short_targets, short_candidates}
use aurum_iq.Plan.ShortPlan.{
  short_entry_zone, short_plan, short_from_zone, short_from_stops, is_short_candidate,
  short_from_targets,
}
use aurum_iq.Core.Decimal.{Decimal}
use aurum_iq.Plan.Policy.{SideRiskPolicy, is_configured}
use aurum_iq.Plan.Snapshot.{DualSideSignalSnapshot, entry_mid_of}
use aurum_iq.Plan.Zones.{PlanOps, ZoneStructure, collect_pit_zones, StructureZone}
use aurum_iq.Prelude.{Option, ◌≡◌, Bool-cases, some, Option-cases, none, inr, inl, ap, ◌∙◌, refl}

module _ (D : PlanOps) (s : DualSideSignalSnapshot) (policy : SideRiskPolicy) (atr14 : Decimal)
    (a b a_4h b_4h : Option ZoneStructure)
    (alike : collect_pit_zones D a a_4h s.timestamp.utc
      ≡ collect_pit_zones D b b_4h s.timestamp.utc) where
  long_targets-alike :
      (mid entry_max stop : Decimal)
      → calculate_long_targets D mid entry_max stop a atr14 s.timestamp.utc policy a_4h
        ≡ calculate_long_targets D mid entry_max stop b atr14 s.timestamp.utc policy b_4h
  unfolding calculate_long_targets long_candidates
  long_targets-alike mid entry_max stop = rw (alike) refl

  long_stops-alike :
      (z : StructureZone) (stops : Stops)
      → long_from_stops D s policy a atr14 a_4h z stops
        ≡ long_from_stops D s policy b atr14 b_4h z stops
  long_stops-alike z stops = elim (Option-cases stops.error) [
    | inr (e, bad) ↦ rw (bad) refl
    | inl good ↦ rw (good) (
        ap (λ t. long_from_targets D s policy a atr14 a_4h z stops t)
          (long_targets-alike (entry_mid_of D z) z.price_high stops.stop_final))
  ]

  long_zone-alike :
      (zone : Option StructureZone)
      → long_from_zone D s policy a atr14 a_4h zone ≡ long_from_zone D s policy b atr14 b_4h zone
  long_zone-alike none = refl
  long_zone-alike (some z) = long_stops-alike z _

  pub long_plan-alike :
      long_entry_zone D a s.timestamp.utc ≡ long_entry_zone D b s.timestamp.utc
      → long_plan D s policy a atr14 a_4h ≡ long_plan D s policy b atr14 b_4h
  long_plan-alike entry =
      elim (Bool-cases (is_long_candidate s.candidate_state s.candidate_user_decision)) [
        | inr other ↦ rw (other) refl
        | inl eligible ↦ elim (Bool-cases (is_configured policy)) [
          | inr unset ↦ rw (eligible, unset) refl
          | inl set ↦
              rw (eligible, set)
                (long_zone-alike (long_entry_zone D a s.timestamp.utc)
                  ∙ ap (long_from_zone D s policy b atr14 b_4h) entry)
        ]
      ]

module _ (D : PlanOps) (s : DualSideSignalSnapshot) (policy : SideRiskPolicy) (atr14 : Decimal)
    (a b a_4h b_4h : Option ZoneStructure)
    (alike : collect_pit_zones D a a_4h s.timestamp.utc
      ≡ collect_pit_zones D b b_4h s.timestamp.utc) where
  short_targets-alike :
      (mid entry_min stop : Decimal)
      → calculate_short_targets D mid entry_min stop a atr14 s.timestamp.utc policy a_4h
        ≡ calculate_short_targets D mid entry_min stop b atr14 s.timestamp.utc policy b_4h
  unfolding calculate_short_targets short_candidates
  short_targets-alike mid entry_min stop = rw (alike) refl

  short_stops-alike :
      (z : StructureZone) (stops : Stops)
      → short_from_stops D s policy a atr14 a_4h z stops
        ≡ short_from_stops D s policy b atr14 b_4h z stops
  short_stops-alike z stops = elim (Option-cases stops.error) [
    | inr (e, bad) ↦ rw (bad) refl
    | inl good ↦ rw (good) (
        ap (λ t. short_from_targets D s policy a atr14 a_4h z stops t)
          (short_targets-alike (entry_mid_of D z) z.price_low stops.stop_final))
  ]

  short_zone-alike :
      (zone : Option StructureZone)
      → short_from_zone D s policy a atr14 a_4h zone ≡ short_from_zone D s policy b atr14 b_4h zone
  short_zone-alike none = refl
  short_zone-alike (some z) = short_stops-alike z _

  pub short_plan-alike :
      short_entry_zone D a s.timestamp.utc ≡ short_entry_zone D b s.timestamp.utc
      → short_plan D s policy a atr14 a_4h ≡ short_plan D s policy b atr14 b_4h
  short_plan-alike entry =
      elim (Bool-cases (is_short_candidate s.candidate_state s.candidate_user_decision)) [
        | inr other ↦ rw (other) refl
        | inl eligible ↦ elim (Bool-cases (is_configured policy)) [
          | inr unset ↦ rw (eligible, unset) refl
          | inl set ↦
              rw (eligible, set)
                (short_zone-alike (short_entry_zone D a s.timestamp.utc)
                  ∙ ap (short_from_zone D s policy b atr14 b_4h) entry)
        ]
      ]
