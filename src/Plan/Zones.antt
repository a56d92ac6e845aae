-- ===== src/Plan/Zones.antt =====
-- engine/risk/xauusd_targets.py: the zones that a plan may use, and engine/core/types.py:
-- `StructureZone`. The canonical timestamps that the sorts compare have a fixed width, so that they
-- compare as the instants do.
use aurum_iq.Core.Candle.{Datetime}
use aurum_iq.Prelude.{
  Bool, true, Option, false, ℕ, if◌then◌else◌, List, ◌==◌, ◌++◌, ◌&&◌, [], not, ◌∷◌, sort_with,
  some, filter, leb, none, ltb,
}
use aurum_iq.Core.Decimal.{Decimal, le, lt}

pub data ZoneType : Type 0 where
  support resistance : ZoneType

pub record StructureZone : Type 0 where
  pub zone_type : ZoneType
  pub price_low : Decimal
  pub price_high : Decimal
  pub created_at : Datetime
  pub touches : ℕ
  pub is_active : Bool

-- What the planner reads of a StructureResult.
pub record ZoneStructure : Type 0 where
  pub timestamp : Datetime
  pub zones : List StructureZone

-- Products and quotients of Decimals, which the context rounds, and the hash of a zone, whose 64
-- hexadecimal digits are compared as the number that they spell.
pub record PlanOps : Type 0 where
  pub mul : Decimal → Decimal → Decimal
  pub div : Decimal → Decimal → Decimal
  pub zone_fingerprint : StructureZone → ℕ

abbrev pub is_support : StructureZone → Bool
is_support z = elim z.zone_type [ ZoneType.support ↦ true | ZoneType.resistance ↦ false ]

abbrev pub is_resistance : StructureZone → Bool
is_resistance z = elim z.zone_type [ ZoneType.support ↦ false | ZoneType.resistance ↦ true ]

-- `t` is aware and no later than the plan.
abbrev pub is_known : ℕ → Datetime → Bool
is_known authoritative_t t = t.aware && leb t.utc authoritative_t

abbrev pub is_eligible_zone : ℕ → StructureZone → Bool
is_eligible_zone authoritative_t z = is_known authoritative_t z.created_at && z.is_active

-- The zones of one structure.
abbrev pub pit_zones : ℕ → Option ZoneStructure → List StructureZone
pit_zones authoritative_t none = []
pit_zones authoritative_t (some s) =
    if is_known authoritative_t s.timestamp
    then filter (is_eligible_zone authoritative_t) s.zones
    else []

abbrev pub has_fingerprint : PlanOps → ℕ → StructureZone → Bool
has_fingerprint D fp z = D.zone_fingerprint z == fp

-- A dictionary keeps the first zone of every fingerprint, in the order in which they came.
unfoldable pub unique_zones : PlanOps → List StructureZone → List StructureZone
unique_zones D [] = []
unique_zones D (z ∷ zs) =
    z ∷ filter (λ y. not (has_fingerprint D (D.zone_fingerprint z) y)) (unique_zones D zs)

unfoldable pub collect_pit_zones :
    PlanOps → Option ZoneStructure → Option ZoneStructure → ℕ → List StructureZone
collect_pit_zones D structure_15m structure_4h authoritative_t =
    unique_zones D
      (pit_zones authoritative_t structure_15m ++ pit_zones authoritative_t structure_4h)

-- The key of a sort: two prices, a time between them and the fingerprint last.
pub record ZoneKey : Type 0 where
  pub first_price : Decimal
  pub created : ℕ
  pub second_price : Decimal
  pub fingerprint : ℕ

-- `a == b` of Decimals.
abbrev pub same : Decimal → Decimal → Bool
same a b = le a b && le b a

-- `a < b` of tuples.
abbrev pub key_less : ZoneKey → ZoneKey → Bool
key_less a b =
    if not (same a.first_price b.first_price)
    then lt a.first_price b.first_price
    else if not (a.created == b.created)
    then ltb a.created b.created
    else if not (same a.second_price b.second_price)
    then lt a.second_price b.second_price
    else ltb a.fingerprint b.fingerprint

-- `xs.sort(key=...)`.
abbrev pub sort_zones : (StructureZone → ZoneKey) → List StructureZone → List StructureZone
sort_zones key zs = sort_with (λ y z. key_less (key y) (key z)) zs
