-- ===== src/Entry/Policy.antt =====
-- engine/risk/xauusd_policy.py: `XauUsdExecutionPolicy` and its completeness check. The latency is
-- a number of microseconds, spelled as a Decimal so that it can be infinite or NaN as a float can.
use aurum_iq.Prelude.{ℕ, Bool, true, false, not, ◌&&◌, ◌||◌, Option, none, some, if◌then◌else◌}
use aurum_iq.Prelude.Int.{pos_part}
use aurum_iq.Core.Decimal.{Decimal, fin, pos_inf, neg_inf, nan, is_finite, le, lt, zero_price}

pub data EntryExecutionPolicy : Type 0 where
  next_bar_open market_after_signal limit_zone : EntryExecutionPolicy

pub record XauUsdExecutionPolicy : Type 0 where
  pub latency : Option Decimal
  pub synthetic_spread_pct : Option Decimal
  pub slippage_pct : Option Decimal
  pub synthetic_spread_points : Option Decimal
  pub point_size : Option Decimal
  pub modeled_execution_gap_points : Option Decimal

-- `x is not None and x.is_finite() and x >= 0`.
unfoldable pub is_amount : Option Decimal → Bool
is_amount none = false
is_amount (some d) = is_finite d && le zero_price d

-- The test on the latency that makes the check fail.
unfoldable pub is_bad_latency : Option Decimal → Bool
is_bad_latency none = true
is_bad_latency (some d) = lt d zero_price || not (is_finite d)

abbrev pub is_spread_configured : XauUsdExecutionPolicy → EntryExecutionPolicy → Bool
is_spread_configured p EntryExecutionPolicy.market_after_signal = true
is_spread_configured p EntryExecutionPolicy.next_bar_open =
    is_amount p.synthetic_spread_pct || is_amount p.synthetic_spread_points
is_spread_configured p EntryExecutionPolicy.limit_zone = true

unfoldable pub is_configured_for : XauUsdExecutionPolicy → EntryExecutionPolicy → Bool
is_configured_for p policy =
    if is_bad_latency p.latency
    then false
    else if not (is_amount p.slippage_pct || is_amount p.modeled_execution_gap_points)
    then false
    else is_spread_configured p policy

-- `latency_seconds if not None else 0.0`, once the check has found it finite and not negative.
abbrev pub latency_of : Option Decimal → ℕ
latency_of none = 0
latency_of (some (fin a)) = pos_part a
latency_of (some pos_inf) = 0
latency_of (some neg_inf) = 0
latency_of (some nan) = 0
