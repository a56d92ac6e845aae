-- ===== src/Plan/Policy.antt =====
-- engine/risk/xauusd_policy.py: `SideRiskPolicy` and the risk part of `XauUsdRiskProfile`.
use aurum_iq.Prelude.{Bool, ◌&&◌, none, Option, true, false, not, some}
use aurum_iq.Core.Decimal.{Decimal, is_finite, le, zero_price}

pub record SideRiskPolicy : Type 0 where
  pub structure_buffer : Option Decimal
  pub atr_multiplier : Option Decimal
  pub max_stop_distance_atr : Option Decimal
  pub min_rr_tp1 : Option Decimal
  pub tp2_atr_multiplier : Option Decimal

-- `v.is_finite() and v > 0`.
abbrev pub is_positive : Decimal → Bool
is_positive v = is_finite v && not (le v zero_price)

-- Present, finite and more than 0.
abbrev pub is_core : Option Decimal → Bool
is_core none = false
is_core (some v) = is_positive v

-- Missing, or finite and more than 0.
abbrev pub is_optional : Option Decimal → Bool
is_optional none = true
is_optional (some v) = is_positive v

unfoldable pub is_configured : SideRiskPolicy → Bool
is_configured p =
    is_core p.structure_buffer
    && is_core p.atr_multiplier
    && is_core p.max_stop_distance_atr
    && is_core p.min_rr_tp1
    && is_optional p.tp2_atr_multiplier

-- What the planner reads of the profile.
pub record XauUsdRiskProfile : Type 0 where
  pub long_risk_policy : SideRiskPolicy
  pub short_risk_policy : SideRiskPolicy

abbrev pub unset_policy : SideRiskPolicy
unset_policy = record {
  structure_buffer = none;
  atr_multiplier = none;
  max_stop_distance_atr = none;
  min_rr_tp1 = none;
  tp2_atr_multiplier = none;
}

abbrev pub uncalibrated_xauusd_risk_profile : XauUsdRiskProfile
uncalibrated_xauusd_risk_profile = record {
  long_risk_policy = unset_policy;
  short_risk_policy = unset_policy;
}
