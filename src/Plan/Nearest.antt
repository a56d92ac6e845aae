-- ===== src/Plan/Nearest.antt =====
-- engine/risk/xauusd_planner.py: the target that a LONG plan takes.
use mathlib.Core.List.{Memᴰ}
use aurum_iq.Plan.ZoneOrder.{unique_zones-All, All-unique_zones, first_zone_least, HasApart}
use aurum_iq.Plan.Targets.{Targets}
use aurum_iq.Plan.LongPlan.{
  long_plan, long_from_stops, long_from_targets, is_long_candidate, long_entry_zone, plan_long,
}
use aurum_iq.Plan.Stops.{Stops}
use aurum_iq.Plan.Policy.{SideRiskPolicy, is_configured, XauUsdRiskProfile}
use aurum_iq.Core.Decimal.{Decimal, le, sub, zero_price, is_finite, lt}
use aurum_iq.Plan.Snapshot.{
  DualSideSignalSnapshot, SideRiskPlanSnapshot, invalid_snapshot, entry_mid_of, is_xauusd,
}
use aurum_iq.Plan.Zones.{
  PlanOps, ZoneStructure, StructureZone, pit_zones, collect_pit_zones, unique_zones, ZoneType,
  key_less,
}
use aurum_iq.Plan.LongTargets.{
  calculate_long_targets, long_targets_with, long_candidates, is_long_target, long_key,
}
use aurum_iq.Prelude.{
  Option, List, ℕ, ◌≡◌, some, true, none, ◌∷◌, Bool-cases, Option-cases, [], inr, refl, inl, ◌++◌,
  All, ok, false, filter, after_guards, subst, filter-All, ap, ◌∙◌, All-kept, arith, All-members,
  sort_with-All, All-filtered,
}

-- What a valid plan is made of.
record LongParts (D : PlanOps) (policy : SideRiskPolicy) (s : DualSideSignalSnapshot)
    (structure_15m : Option ZoneStructure) (atr14 : Decimal) (structure_4h : Option ZoneStructure)
    (p : SideRiskPlanSnapshot) : Type 0 where
  zone : StructureZone
  stop : Decimal
  target : StructureZone
  others : List StructureZone
  entry_max_at : p.entry_max ≡ some zone.price_high
  tp1_at : p.tp1 ≡ some target.price_low
  nearest :
      long_candidates D zone.price_high structure_15m structure_4h s.timestamp.utc ≡ target ∷ others

module _ (D : PlanOps) (entry_mid entry_max planned_risk atr14 : Decimal)
    (policy : SideRiskPolicy) where
  first_target :
      (min_rr : Option Decimal) (zs : List StructureZone)
      → (long_targets_with D entry_mid entry_max planned_risk atr14 min_rr policy zs).error ≡ none
      → (z : StructureZone) × (rest : List StructureZone) × (zs ≡ z ∷ rest)
        × ((long_targets_with D entry_mid entry_max planned_risk atr14 min_rr policy zs).tp1
            ≡ some z.price_low)
  first_target none zs e = absurd (cc)
  first_target (some m) [] e = absurd (cc)
  first_target (some m) (z ∷ rest) e = (z, rest, refl, refl)

first_of_all :
    (D : PlanOps) (entry_mid entry_max stop_final : Decimal) (structure_15m : Option ZoneStructure)
    (atr14 : Decimal) (at : ℕ) (policy : SideRiskPolicy) (structure_4h : Option ZoneStructure)
    → (calculate_long_targets D entry_mid entry_max stop_final structure_15m atr14 at policy
        structure_4h).error
      ≡ none
    → (z : StructureZone) × (rest : List StructureZone) × (long_candidates D entry_max structure_15m
          structure_4h at
        ≡ z ∷ rest)
      × ((calculate_long_targets D entry_mid entry_max stop_final structure_15m atr14 at policy
            structure_4h).tp1
          ≡ some z.price_low)
unfolding calculate_long_targets
first_of_all D mid entry_max stop s15 atr14 at policy s4h e =
    elim (Bool-cases (le (sub entry_max stop) zero_price)) [
      | inl no_risk ↦ let f = rw no_risk at e in absurd (cc)
      | inr risk ↦
          let (z, rest, first, tp1) =
            first_target D mid entry_max (sub entry_max stop) atr14 policy policy.min_rr_tp1
              (long_candidates D entry_max s15 s4h at) (rw risk at e) in
          rw (risk) (z, rest, first, tp1)
    ]

module _ (D : PlanOps) (s : DualSideSignalSnapshot) (policy : SideRiskPolicy)
    (structure_15m : Option ZoneStructure) (atr14 : Decimal)
    (structure_4h : Option ZoneStructure) where
  from_targets-LongParts :
      (z : StructureZone) (stops : Stops) (targets : Targets)
      → (targets.error ≡ none
          → (t : StructureZone) × (rest : List StructureZone) × (long_candidates D z.price_high
                structure_15m structure_4h s.timestamp.utc
              ≡ t ∷ rest)
            × (targets.tp1 ≡ some t.price_low))
      → (long_from_targets D s policy structure_15m atr14 structure_4h z stops
          targets).risk_candidate_valid
        ≡ true
      → LongParts D policy s structure_15m atr14 structure_4h
          (long_from_targets D s policy structure_15m atr14 structure_4h z stops targets)
  unfolding invalid_snapshot
  from_targets-LongParts z stops targets first valid = elim (Option-cases targets.error) [
    | inr (e, bad) ↦ let f = rw bad at valid in absurd (cc)
    | inl good ↦
        let (t, rest, nearest, tp1) = first good in
        rw (good) (record {
          zone = z;
          stop = stops.stop_final;
          target = t;
          others = rest;
          entry_max_at = refl;
          tp1_at = tp1;
          nearest = nearest;
        })
  ]

  from_stops-LongParts :
      (z : StructureZone) (stops : Stops)
      → (long_from_stops D s policy structure_15m atr14 structure_4h z stops).risk_candidate_valid
        ≡ true
      → LongParts D policy s structure_15m atr14 structure_4h
          (long_from_stops D s policy structure_15m atr14 structure_4h z stops)
  unfolding invalid_snapshot
  from_stops-LongParts z stops valid = elim (Option-cases stops.error) [
    | inr (e, bad) ↦ let f = rw bad at valid in absurd (cc)
    | inl good ↦ rw (good) (
        from_targets-LongParts z stops _
          (first_of_all D (entry_mid_of D z) z.price_high stops.stop_final structure_15m atr14
            s.timestamp.utc policy structure_4h)
          (rw good at valid))
  ]

  plan-LongParts :
      (long_plan D s policy structure_15m atr14 structure_4h).risk_candidate_valid ≡ true
      → LongParts D policy s structure_15m atr14 structure_4h
          (long_plan D s policy structure_15m atr14 structure_4h)
  unfolding invalid_snapshot
  plan-LongParts valid =
      elim (Bool-cases (is_long_candidate s.candidate_state s.candidate_user_decision)) [
        | inr other ↦ let f = rw other at valid in absurd (cc)
        | inl eligible ↦ elim (Bool-cases (is_configured policy)) [
          | inr unset ↦ let f = rw (eligible, unset) at valid in absurd (cc)
          | inl set ↦ elim (Option-cases (long_entry_zone D structure_15m s.timestamp.utc)) [
            | inl missing ↦ let f = rw (eligible, set, missing) at valid in absurd (cc)
            | inr (z, found) ↦
                rw (eligible, set, found)
                  (from_stops-LongParts z _ (rw (eligible, set, found) at valid))
          ]
        ]
      ]

-- The zones of both structures that a plan may look at.
abbrev pub known_zones : Option ZoneStructure → Option ZoneStructure → ℕ → List StructureZone
known_zones structure_15m structure_4h at = pit_zones at structure_15m ++ pit_zones at structure_4h

target_parts :
    (entry_max : Decimal) (z : StructureZone)
    → is_long_target entry_max z ≡ true
    → (z.zone_type ≡ ZoneType.resistance) × (lt entry_max z.price_low ≡ true)
target_parts entry_max z e = ground arith

module _ (D : PlanOps) (profile : XauUsdRiskProfile) (s : DualSideSignalSnapshot)
    (structure_15m : Option ZoneStructure) (atr14 : Decimal)
    (structure_4h : Option ZoneStructure) where
  -- A resistance that one of the structures knows, above the entry zone.
  abbrev pub IsKnownTarget : Decimal → StructureZone → Type 0
  IsKnownTarget entry_max z =
      Memᴰ z (known_zones structure_15m structure_4h s.timestamp.utc)
      × (z.zone_type ≡ ZoneType.resistance)
      × (lt entry_max z.price_low ≡ true)

  nearest_candidate :
      (entry_max : Decimal) {z : StructureZone} {rest : List StructureZone}
      → HasApart D (known_zones structure_15m structure_4h s.timestamp.utc)
      → All
          (λ y. is_finite y.price_low ≡ true)
          (known_zones structure_15m structure_4h s.timestamp.utc)
      → long_candidates D entry_max structure_15m structure_4h s.timestamp.utc ≡ z ∷ rest
      → All
          (λ y. is_long_target entry_max y ≡ true → lt y.price_low z.price_low ≡ false)
          (known_zones structure_15m structure_4h s.timestamp.utc)
  unfolding long_candidates collect_pit_zones
  nearest_candidate entry_max {z} apart finite e =
      let known = known_zones structure_15m structure_4h s.timestamp.utc in
      let kept = filter (is_long_target entry_max) (unique_zones D known) in
      let finite_kept =
        filter-All (λ y. is_finite y.price_low ≡ true) (is_long_target entry_max)
          (unique_zones D known)
          (unique_zones-All D (λ y. is_finite y.price_low ≡ true) known finite) in
      All-unique_zones D
        (λ y. is_long_target entry_max y ≡ true → lt y.price_low z.price_low ≡ false) known apart
        (All-kept (λ y. lt y.price_low z.price_low ≡ false) (is_long_target entry_max)
          (unique_zones D known) (first_zone_least (long_key D) kept finite_kept e))

  target_known :
      (entry_max : Decimal) {z : StructureZone} {rest : List StructureZone}
      → long_candidates D entry_max structure_15m structure_4h s.timestamp.utc ≡ z ∷ rest
      → IsKnownTarget entry_max z
  unfolding long_candidates collect_pit_zones
  target_known entry_max {z} {rest} e =
      let known = known_zones structure_15m structure_4h s.timestamp.utc in
      let listed = unique_zones-All D (λ y. Memᴰ y known) known (All-members known) in
      let kept = filter (is_long_target entry_max) (unique_zones D known) in
      let listed_kept =
        filter-All (λ y. Memᴰ y known) (is_long_target entry_max) (unique_zones D known) listed in
      let sorted = λ (a b : StructureZone). key_less (long_key D a) (long_key D b) in
      let member = sort_with-All sorted (λ y. Memᴰ y known) kept listed_kept in
      let passed =
        sort_with-All sorted (λ y. is_long_target entry_max y ≡ true) kept
          (All-filtered (is_long_target entry_max) (unique_zones D known)) in
      let at_head = subst (All (λ y. Memᴰ y known)) e member in
      let head_passed = subst (All (λ y. is_long_target entry_max y ≡ true)) e passed in
      let (resistance, above) = target_parts entry_max z head_passed.0 in
      (at_head.0, resistance, above)

  -- The TP1 of a valid LONG plan is the nearest target: it is the lower price of a resistance above
  -- the entry zone that one of the two structures knows by the time of the signal, and no such
  -- resistance starts below it. The prices of the known zones are finite, and the fingerprint tells
  -- them apart.
  pub tp1_nearest :
      {p : SideRiskPlanSnapshot}
      → plan_long D profile s structure_15m atr14 structure_4h ≡ ok p
      → p.risk_candidate_valid ≡ true
      → HasApart D (known_zones structure_15m structure_4h s.timestamp.utc)
      → All
          (λ y. is_finite y.price_low ≡ true)
          (known_zones structure_15m structure_4h s.timestamp.utc)
      → (entry_max : Decimal) × (target : StructureZone) × (p.entry_max ≡ some entry_max)
        × (p.tp1 ≡ some target.price_low)
        × IsKnownTarget entry_max target
        × All
            (λ y. is_long_target entry_max y ≡ true → lt y.price_low target.price_low ≡ false)
            (known_zones structure_15m structure_4h s.timestamp.utc)
  unfolding plan_long
  tp1_nearest {p} planned valid apart finite =
      let same = after_guards (is_xauusd s.instrument) s.timestamp.aware planned in
      let parts =
        subst (LongParts D profile.long_risk_policy s structure_15m atr14 structure_4h) same (
          plan-LongParts D s profile.long_risk_policy structure_15m atr14 structure_4h
            (ap (λ q. q.risk_candidate_valid) same ∙ valid)) in
      (
        parts.zone.price_high,
        parts.target,
        parts.entry_max_at,
        parts.tp1_at,
        target_known parts.zone.price_high parts.nearest,
        nearest_candidate parts.zone.price_high apart finite parts.nearest,
      )
