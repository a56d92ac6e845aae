-- ===== src/Outcome/Trade.antt =====
-- engine/backtest/xauusd_outcomes.py: what `XauUsdOutcomeEngine.resolve_trade` reads and returns. The
-- prices of a risk plan are finite; waits and horizons are microseconds and not negative. Names,
-- fingerprints, regime and session of a trade are left out.
use aurum_iq.Prelude.Int.{ℤ}
use aurum_iq.Core.Candle.{Datetime, CandleData, QuoteData}
use aurum_iq.Risk.Barrier.{RiskSide, IntrabarPolicy}
use aurum_iq.Entry.Policy.{XauUsdExecutionPolicy, EntryExecutionPolicy}
use aurum_iq.Prelude.{value_error, Bool, Result, List, ℕ, ok, Option, none, false, some}
use aurum_iq.Core.Decimal.{Decimal}

-- ValueError, AttributeError and the exceptions of decimal, such as decimal.InvalidOperation.
pub data PythonError : Type 0 where
  value_kind attribute_kind decimal_kind : PythonError

-- What a call returns, or the exception that it raises.
pub data Attempt {ℓ} (A : Type ℓ) : Type ℓ where
  done : A → Attempt A
  raises : PythonError → Attempt A

abbrev pub raises_value_error {ℓ} : {A : Type ℓ} → Attempt A
raises_value_error = raises PythonError.value_kind

abbrev pub raises_attribute_error {ℓ} : {A : Type ℓ} → Attempt A
raises_attribute_error = raises PythonError.attribute_kind

abbrev pub raises_decimal_error {ℓ} : {A : Type ℓ} → Attempt A
raises_decimal_error = raises PythonError.decimal_kind

infixl 5 ◌>>=◌
abbrev pub ◌>>=◌ {ℓ κ} : {A : Type ℓ} {B : Type κ} → Attempt A → (A → Attempt B) → Attempt B
done a >>= f = f a
raises error >>= f = raises error

abbrev pub from_result {ℓ κ} : {A : Type ℓ} {B : Type κ} → Result A → (A → Attempt B) → Attempt B
from_result (ok a) f = f a
from_result value_error f = raises_value_error

abbrev pub map_attempt {ℓ κ} : {A : Type ℓ} {B : Type κ} → (A → B) → Attempt A → Attempt B
map_attempt f (done a) = done (f a)
map_attempt f (raises error) = raises error

-- A Decimal, or the exception of decimal in its place.
abbrev pub computed : Option Decimal → Attempt Decimal
computed none = raises_decimal_error
computed (some d) = done d

-- What is read of a SideRiskPlanSnapshot.
pub record RiskPlan : Type 0 where
  pub side : RiskSide
  pub is_valid_risk_plan : Bool
  pub execution_eligible : Bool
  pub entry_min : Option ℤ
  pub entry_max : Option ℤ
  pub stop_final : Option ℤ
  pub tp1 : Option ℤ
  pub tp2 : Option ℤ

pub record XauUsdCostConfig : Type 0 where
  pub entry_fee_bps : Decimal
  pub exit_fee_bps : Decimal
  pub synthetic_spread_bps : Decimal
  pub entry_slippage_bps : Decimal
  pub exit_slippage_bps : Decimal

-- The engine. A bar is 15 minutes.
pub record XauUsdOutcomeEngine : Type 0 where
  pub cost_config : XauUsdCostConfig
  pub long_entry_policy : XauUsdExecutionPolicy
  pub short_entry_policy : XauUsdExecutionPolicy
  pub holding_horizon_bars_15m : Option ℕ
  pub holding_horizon : Option ℕ
  pub max_fill_wait_bars_15m : Option ℕ
  pub max_fill_wait : Option ℕ

-- The arguments of `resolve_trade`. A list that is not given is empty.
pub record TradeRequest : Type 0 where
  pub signal_timestamp : Datetime
  pub risk_plan : RiskPlan
  pub future_candles_15m : List CandleData
  pub future_candles_5m : List CandleData
  pub future_candles_1m : List CandleData
  pub future_quotes : List QuoteData
  pub execution_policy : EntryExecutionPolicy
  pub intrabar_policy : IntrabarPolicy
  pub holding_horizon_bars_15m : Option ℕ
  pub holding_horizon : Option ℕ
  pub run_end_time : Option Datetime
  pub max_fill_wait_bars_15m : Option ℕ
  pub max_fill_wait : Option ℕ

pub data XauUsdTradeOutcome : Type 0 where
  tp1_first sl_first no_fill timeout unresolved skipped : XauUsdTradeOutcome
  conservative_sl_first entry_invalidated_stale_risk_plan : XauUsdTradeOutcome

-- The results that a closed trade adds.
pub record Payoff : Type 0 where
  pub gross_pnl_per_unit : Decimal
  pub net_pnl_per_unit : Decimal
  pub gross_r : Decimal
  pub net_r : Decimal
  pub gross_return_pct : Decimal
  pub net_return_pct : Decimal
  pub mfe_r : Decimal
  pub mae_r : Decimal
  pub holding_duration : ℤ
  pub entry_fee : Decimal
  pub exit_fee : Decimal
  pub entry_spread : Decimal
  pub exit_spread : Decimal
  pub entry_slippage : Decimal
  pub exit_slippage : Decimal

pub record XauUsdSimulatedTrade : Type 0 where
  pub side : RiskSide
  pub signal_timestamp : ℕ
  pub planned_risk_amount : Decimal
  pub outcome : XauUsdTradeOutcome
  pub fill_timestamp : Option ℕ
  pub fill_price : Option Decimal
  pub exit_timestamp : Option ℕ
  pub exit_price : Option Decimal
  pub dependency_end_timestamp : ℕ
  pub dependency_window : ℕ × ℕ
  pub payoff : Option Payoff
  pub tp2_reached_after_tp1 : Bool

-- The rounded arithmetic of the payoff; none where it raises, as at a quotient by 0 or at the rounding
-- of an infinity.
pub record TradeOps : Type 0 where
  -- `a / b`.
  pub div : Decimal → Decimal → Option Decimal
  -- `a.quantize(Decimal("0.0001"))`.
  pub quantize : Decimal → Option Decimal
  -- `a * (bps * Decimal("0.0001"))`.
  pub bps_of : Decimal → Decimal → Option Decimal
  -- `a * Decimal("100.0")`.
  pub percent : Decimal → Option Decimal

-- A trade that has not ended, up to `end`.
abbrev pub open_trade :
    RiskSide
    → ℕ
    → Decimal
    → XauUsdTradeOutcome
    → Option ℕ
    → Option Decimal
    → ℕ
    → XauUsdSimulatedTrade
open_trade side signal_ts planned_risk outcome fill_ts fill_price end = record {
  side = side;
  signal_timestamp = signal_ts;
  planned_risk_amount = planned_risk;
  outcome = outcome;
  fill_timestamp = fill_ts;
  fill_price = fill_price;
  exit_timestamp = none;
  exit_price = none;
  dependency_end_timestamp = end;
  dependency_window = (signal_ts, end);
  payoff = none;
  tp2_reached_after_tp1 = false;
}
