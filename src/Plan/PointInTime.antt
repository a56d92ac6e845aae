-- ===== src/Plan/PointInTime.antt =====
-- engine/risk/xauusd_planner.py: what a plan does not look at.
use aurum_iq.Plan.Alike.{long_plan-alike, short_plan-alike}
use aurum_iq.Core.Decimal.{Decimal}
use aurum_iq.Plan.Snapshot.{DualSideSignalSnapshot}
use aurum_iq.Plan.Policy.{XauUsdRiskProfile}
use aurum_iq.Plan.LongPlan.{long_entry_zone, is_long_entry, plan_long}
use aurum_iq.Plan.ShortPlan.{short_entry_zone, is_short_entry, plan_short}
use aurum_iq.Plan.Zones.{
  StructureZone, is_eligible_zone, ZoneStructure, pit_zones, collect_pit_zones, is_known, PlanOps,
  is_support, unique_zones, is_resistance,
}
use aurum_iq.Core.Candle.{Datetime}
use aurum_iq.Prelude.{
  Bool, ℕ, List, ◌≡◌, Option, false, filter, some, ◌&&◌, ◌++◌, ◌∷◌, ap, refl, [], arith, inl, ◌<◌,
  inr, ◌⊎◌,
}

-- A structure with one more zone.
abbrev pub insert_zone :
    Datetime → List StructureZone → StructureZone → List StructureZone → Option ZoneStructure
insert_zone t before z after = some (record { timestamp = t; zones = before ++ z ∷ after })

abbrev pub without_zone : Datetime → List StructureZone → List StructureZone → Option ZoneStructure
without_zone t before after = some (record { timestamp = t; zones = before ++ after })

filter-skip :
    (p : StructureZone → Bool) (before after : List StructureZone) (z : StructureZone)
    → p z ≡ false
    → filter p (before ++ z ∷ after) ≡ filter p (before ++ after)
filter-skip p [] after z hidden = rw (hidden) refl
filter-skip p (y ∷ before) after z hidden = rw (filter-skip p before after z hidden) refl

reordered :
    (known active right : Bool) → (known && active) ≡ false → (right && active && known) ≡ false
reordered known active right h = ground arith

module _ (at : ℕ) (t : Datetime) (before after : List StructureZone) (z : StructureZone)
    (hidden : is_eligible_zone at z ≡ false) where
  pit_zones-skip :
      pit_zones at (insert_zone t before z after) ≡ pit_zones at (without_zone t before after)
  pit_zones-skip = rw (filter-skip (is_eligible_zone at) before after z hidden) refl

  hidden_entry : (b : Bool) → (b && z.is_active && is_known at z.created_at) ≡ false
  hidden_entry b = reordered (is_known at z.created_at) z.is_active b hidden

  long_entry_zone-skip :
      (D : PlanOps)
      → long_entry_zone D (insert_zone t before z after) at
        ≡ long_entry_zone D (without_zone t before after) at
  unfolding long_entry_zone
  long_entry_zone-skip D =
      rw (filter-skip (is_long_entry at) before after z (hidden_entry (is_support z))) refl

  short_entry_zone-skip :
      (D : PlanOps)
      → short_entry_zone D (insert_zone t before z after) at
        ≡ short_entry_zone D (without_zone t before after) at
  unfolding short_entry_zone
  short_entry_zone-skip D =
      rw (filter-skip (is_short_entry at) before after z (hidden_entry (is_resistance z))) refl

  collect-skip :
      (D : PlanOps) (structure_4h : Option ZoneStructure)
      → collect_pit_zones D (insert_zone t before z after) structure_4h at
        ≡ collect_pit_zones D (without_zone t before after) structure_4h at
  unfolding collect_pit_zones
  collect-skip D structure_4h =
      ap (λ zs. unique_zones D (zs ++ pit_zones at structure_4h)) pit_zones-skip

  collect_4h-skip :
      (D : PlanOps) (structure_15m : Option ZoneStructure)
      → collect_pit_zones D structure_15m (insert_zone t before z after) at
        ≡ collect_pit_zones D structure_15m (without_zone t before after) at
  unfolding collect_pit_zones
  collect_4h-skip D structure_15m =
      ap (λ zs. unique_zones D (pit_zones at structure_15m ++ zs)) pit_zones-skip

-- What hides a zone from a plan at an instant.
abbrev pub IsHidden : ℕ → StructureZone → Type 0
IsHidden at z = (at < z.created_at.utc) ⊎ (z.created_at.aware ≡ false) ⊎ (z.is_active ≡ false)

IsHidden-not_eligible : (at : ℕ) (z : StructureZone) → IsHidden at z → is_eligible_zone at z ≡ false
IsHidden-not_eligible at z (inl later) = ground arith
IsHidden-not_eligible at z (inr (inl naive)) = ground arith
IsHidden-not_eligible at z (inr (inr inactive)) = ground arith

-- A zone that the time of the signal hides from a plan changes neither the LONG plan nor the SHORT
-- plan, wherever it stands in the zones of the 15m structure or in those of the 4h structure: one that
-- is created after the signal, that is created at a naive time, or that is not active.
pub hidden_zone_ignored :
    (D : PlanOps) (profile : XauUsdRiskProfile) (s : DualSideSignalSnapshot) (atr14 : Decimal)
    (other : Option ZoneStructure) (t : Datetime) (before after : List StructureZone)
    (z : StructureZone)
    → IsHidden s.timestamp.utc z
    → (plan_long D profile s (insert_zone t before z after) atr14 other
        ≡ plan_long D profile s (without_zone t before after) atr14 other)
      × (plan_short D profile s (insert_zone t before z after) atr14 other
          ≡ plan_short D profile s (without_zone t before after) atr14 other)
      × (plan_long D profile s other atr14 (insert_zone t before z after)
          ≡ plan_long D profile s other atr14 (without_zone t before after))
      × (plan_short D profile s other atr14 (insert_zone t before z after)
          ≡ plan_short D profile s other atr14 (without_zone t before after))
unfolding plan_long plan_short
hidden_zone_ignored D profile s atr14 other t before after z is_hidden =
    let hidden = IsHidden-not_eligible s.timestamp.utc z is_hidden in
    let at = s.timestamp.utc in
    let full = insert_zone t before z after in
    let bare = without_zone t before after in
    let as_15m = collect-skip at t before after z hidden D other in
    let as_4h = collect_4h-skip at t before after z hidden D other in
    (
      rw
          (long_plan-alike D s profile.long_risk_policy atr14 full bare other other as_15m
            (long_entry_zone-skip at t before after z hidden D))
          refl,
      rw
          (short_plan-alike D s profile.short_risk_policy atr14 full bare other other as_15m
            (short_entry_zone-skip at t before after z hidden D))
          refl,
      rw (long_plan-alike D s profile.long_risk_policy atr14 other other full bare as_4h refl) refl,
      rw (short_plan-alike D s profile.short_risk_policy atr14 other other full bare as_4h refl)
          refl,
    )
