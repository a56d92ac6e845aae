-- ===== src/Plan/ZoneOrder.antt =====
-- engine/risk/xauusd_targets.py: which zone a sort of zones puts first.
use aurum_iq.Plan.Zones.{
  ZoneKey, StructureZone, key_less, sort_zones, same, unique_zones, PlanOps, has_fingerprint,
}
use aurum_iq.Core.Decimal.{lt, le, is_finite, Decimal}
use aurum_iq.Prelude.{
  Bool, List, ◌≡◌, All, false, true, Bool-cases, arith, ◌∷◌, inl, both_right, both_left, inr,
  sort_with-Chained, subst, Chained, All-sort_with, sym, filter, not, [], filter-All,
}

lt_asym : (a b : Decimal) → lt a b ≡ true → lt b a ≡ false
unfolding lt
lt_asym a b h = ground arith

le_not : (a b : Decimal) → le b a ≡ true → lt a b ≡ false
unfolding lt le
le_not a b h = ground arith

-- What is not above a finite decimal that is not above another is not above that one.
lt_chain : (x y z : Decimal) → is_finite y ≡ true → lt y x ≡ false → lt z y ≡ false → lt z x ≡ false
unfolding lt is_finite
lt_chain x y z f h k = ground arith

key_first : (a b : ZoneKey) → key_less a b ≡ true → lt b.first_price a.first_price ≡ false
key_first a b h = elim (Bool-cases (same a.first_price b.first_price)) [
  | inl equal ↦ le_not b.first_price a.first_price (both_left _ _ equal)
  | inr apart ↦ lt_asym a.first_price b.first_price (rw apart at h)
]

key_later : (a b : ZoneKey) → key_less a b ≡ false → lt a.first_price b.first_price ≡ false
key_later a b h = elim (Bool-cases (same a.first_price b.first_price)) [
  | inl equal ↦ le_not a.first_price b.first_price (both_right _ equal)
  | inr apart ↦ rw apart at h
]

lt_irrefl : (a : Decimal) → lt a a ≡ false
unfolding lt
lt_irrefl a = ground arith

-- The first price of `y` is not below that of `x`.
abbrev NotAbove : (StructureZone → ZoneKey) → StructureZone → StructureZone → Type 0
NotAbove key x y = lt (key y).first_price (key x).first_price ≡ false

abbrev less : (StructureZone → ZoneKey) → StructureZone → StructureZone → Bool
less key y z = key_less (key y) (key z)

abbrev HasFinite : (StructureZone → ZoneKey) → StructureZone → Type 0
HasFinite key y = is_finite (key y).first_price ≡ true

-- No zone is above one that comes after it.
abbrev InOrder : (StructureZone → ZoneKey) → List StructureZone → Type 0
InOrder key =
    Chained (less key) (HasFinite key) (NotAbove key) (λ x y h. key_first (key x) (key y) h)
      (λ x y h. key_later (key x) (key y) h)
      (λ x y z f h k. lt_chain (key x).first_price (key y).first_price (key z).first_price f h k)

sort_zones-InOrder :
    (key : StructureZone → ZoneKey) (zs : List StructureZone)
    → All (HasFinite key) zs
    → InOrder key (sort_zones key zs)
sort_zones-InOrder key zs finite =
    sort_with-Chained (less key) (HasFinite key) (NotAbove key)
      (λ x y h. key_first (key x) (key y) h) (λ x y h. key_later (key x) (key y) h)
      (λ x y z f h k. lt_chain (key x).first_price (key y).first_price (key z).first_price f h k) zs
      finite

-- The first zone after sorting has the least first price, if all first prices are finite.
pub first_zone_least :
    (key : StructureZone → ZoneKey) (zs : List StructureZone) {z : StructureZone}
    {rest : List StructureZone}
    → All (λ y. is_finite (key y).first_price ≡ true) zs
    → sort_zones key zs ≡ z ∷ rest
    → All (λ y. lt (key y).first_price (key z).first_price ≡ false) zs
first_zone_least key zs {z} {rest} finite e =
    let (first, _) = subst (InOrder key) e (sort_zones-InOrder key zs finite) in
    All-sort_with (less key) (NotAbove key z) zs
      (subst (All (NotAbove key z)) (sym e) (lt_irrefl (key z).first_price, first))

pub unique_zones-All {κ} :
    (D : PlanOps) (P : StructureZone → Type κ) (zs : List StructureZone)
    → All P zs
    → All P (unique_zones D zs)
unfolding unique_zones
unique_zones-All D P [] _ = tt
unique_zones-All D P (z ∷ zs) (h, hs) =
    (h, filter-All P _ (unique_zones D zs) (unique_zones-All D P zs hs))

-- The fingerprint tells the zones of a list apart.
abbrev pub HasApart : PlanOps → List StructureZone → Type 0
HasApart D [] = Unit
HasApart D (z ∷ zs) =
    All (λ y. D.zone_fingerprint z ≡ D.zone_fingerprint y → z ≡ y) zs × HasApart D zs

module _ {κ} (D : PlanOps) (P : StructureZone → Type κ) where
  All-new :
      (z : StructureZone) (ys : List StructureZone)
      → P z
      → All (λ y. D.zone_fingerprint z ≡ D.zone_fingerprint y → z ≡ y) ys
      → All P (filter (λ y. not (has_fingerprint D (D.zone_fingerprint z) y)) ys)
      → All P ys
  All-new z [] h _ _ = tt
  All-new z (y ∷ ys) h (apart, rest) k =
      elim (Bool-cases (has_fingerprint D (D.zone_fingerprint z) y)) [
        | inl again ↦
            let same_print : D.zone_fingerprint z ≡ D.zone_fingerprint y = ground arith in
            (subst P (apart same_print) h, All-new z ys h rest (rw again at k))
        | inr new ↦ let (here, more) = rw new at k in (here, All-new z ys h rest more)
      ]

  -- What holds of every zone that a dictionary keeps holds of all that are apart.
  pub All-unique_zones :
      (zs : List StructureZone) → HasApart D zs → All P (unique_zones D zs) → All P zs
  unfolding unique_zones
  All-unique_zones [] _ _ = tt
  All-unique_zones (z ∷ zs) (apart, rest) (h, hs) = (
    h,
    All-unique_zones zs rest (
        All-new z (unique_zones D zs) h
          (unique_zones-All D (λ y. D.zone_fingerprint z ≡ D.zone_fingerprint y → z ≡ y) zs apart)
          hs),
  )
