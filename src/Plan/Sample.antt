-- ===== src/Plan/Sample.antt =====
-- Sample zones, a policy and signals for the plans of engine/risk/xauusd_planner.py.
use aurum_iq.Prelude.Int.{pos}
use aurum_iq.Core.Candle.{Datetime}
use aurum_iq.Plan.Zones.{PlanOps, ZoneType, ZoneStructure, StructureZone}
use aurum_iq.Core.Decimal.{Decimal, fin, nan}
use aurum_iq.Plan.Policy.{SideRiskPolicy, XauUsdRiskProfile}
use aurum_iq.Core.Enums.{SignalState, UserDecision, none}
use aurum_iq.Plan.Snapshot.{DualSideSignalSnapshot, Instrument}
use aurum_iq.Prelude.{[], List, ℕ, Option, some, none, true, ◌∷◌, ◌*◌, ◌/◌}

-- Whole numbers stand for the products and quotients; the hash of a zone is its lower price.
abbrev pub product : Decimal → Decimal → Decimal
product (fin (pos a)) (fin (pos b)) = fin (pos (a * b))
product _ _ = nan

abbrev pub quotient : Decimal → Decimal → Decimal
quotient (fin (pos a)) (fin (pos b)) = fin (pos (a / b))
quotient _ _ = nan

abbrev pub whole : Decimal → ℕ
whole (fin (pos a)) = a
whole _ = 0

abbrev pub ops : PlanOps
ops = record { mul = product; div = quotient; zone_fingerprint = λ z. whole z.price_low }

abbrev pub price : ℕ → Decimal
price n = fin (pos n)

abbrev pub at : ℕ → Datetime
at n = record { aware = true; utc = n }

abbrev pub zone : ZoneType → ℕ → ℕ → ℕ → StructureZone
zone kind low high created = record {
  zone_type = kind;
  price_low = price low;
  price_high = price high;
  created_at = at created;
  touches = 2;
  is_active = true;
}

abbrev pub sound_policy : SideRiskPolicy
sound_policy = record {
  structure_buffer = some (price 1);
  atr_multiplier = some (price 1);
  max_stop_distance_atr = some (price 5);
  min_rr_tp1 = some (price 1);
  tp2_atr_multiplier = none;
}

abbrev pub profile : XauUsdRiskProfile
profile = record { long_risk_policy = sound_policy; short_risk_policy = sound_policy }

abbrev pub zones : List StructureZone
zones =
    zone ZoneType.support 100 102 1
    ∷ zone ZoneType.resistance 130 132 2
    ∷ zone ZoneType.resistance 120 122 3
    ∷ zone ZoneType.support 80 82 1
    ∷ []

abbrev pub structure : Option ZoneStructure
structure = some (record { timestamp = at 5; zones = zones })

abbrev pub signal : SignalState → UserDecision → DualSideSignalSnapshot
signal state decision = record {
  instrument = Instrument.xauusd;
  timestamp = at 10;
  analysis_fingerprint = 77;
  candidate_state = state;
  candidate_user_decision = decision;
}

abbrev pub buy_signal : DualSideSignalSnapshot
buy_signal = signal SignalState.buy_window UserDecision.buy

abbrev pub sell_signal : DualSideSignalSnapshot
sell_signal = signal SignalState.sell_window UserDecision.sell
