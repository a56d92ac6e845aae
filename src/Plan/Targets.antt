-- ===== src/Plan/Targets.antt =====
-- engine/risk/xauusd_targets.py: what the calculation of targets returns.
use aurum_iq.Prelude.{none, Option, ℕ, some}
use aurum_iq.Core.Decimal.{Decimal}

pub data TargetError : Type 0 where
  no_risk no_min_rr no_target rr_too_low : TargetError

-- The tuple that is returned; it is valid if there is no error.
pub record Targets : Type 0 where
  pub tp1 : Option Decimal
  pub tp2 : Option Decimal
  pub planned_rr_tp1 : Option Decimal
  pub planned_rr_tp2 : Option Decimal
  pub tp1_zone_fingerprint : Option ℕ
  pub tp2_zone_fingerprint : Option ℕ
  pub error : Option TargetError

abbrev pub no_targets : TargetError → Targets
no_targets e = record {
  tp1 = none;
  tp2 = none;
  planned_rr_tp1 = none;
  planned_rr_tp2 = none;
  tp1_zone_fingerprint = none;
  tp2_zone_fingerprint = none;
  error = some e;
}

-- A price, with the zone that it comes from unless it is synthetic.
abbrev pub Tp2 : Type 0
Tp2 = Option (Decimal × Option ℕ)

abbrev pub tp2_price : Tp2 → Option Decimal
tp2_price none = none
tp2_price (some (price, fp)) = some price

abbrev pub tp2_fingerprint : Tp2 → Option ℕ
tp2_fingerprint none = none
tp2_fingerprint (some (price, fp)) = fp
