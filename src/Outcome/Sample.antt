-- ===== src/Outcome/Sample.antt =====
-- A sample bar and engine for the trades of engine/backtest/xauusd_outcomes.py.
use aurum_iq.Prelude.Int.{pos}
use aurum_iq.Core.Decimal.{fin, zero_price}
use aurum_iq.Core.Candle.{CandleData, Datetime}
use aurum_iq.Entry.Policy.{XauUsdExecutionPolicy}
use aurum_iq.Entry.Fill.{DecimalOps}
use aurum_iq.Outcome.Trade.{TradeOps, XauUsdOutcomeEngine}
use aurum_iq.Prelude.{ℕ, some, true, none}

abbrev pub rounded : DecimalOps
rounded = record { percent_of = λ a p. zero_price; scale = λ a b. a; default_point = fin (pos 1) }

-- Quotients are 0 and fees are nothing.
abbrev pub ops : TradeOps
ops = record {
  div = λ a b. some zero_price;
  quantize = λ a. some a;
  bps_of = λ a b. some zero_price;
  percent = λ a. some a;
}

abbrev pub at : ℕ → Datetime
at n = record { aware = true; utc = n }

abbrev pub bar : CandleData
bar = record {
  timestamp_open = at 120;
  timestamp_close = at 135;
  open_price = fin (pos 2000);
  high = fin (pos 2010);
  low = fin (pos 1985);
  close = fin (pos 2005);
  volume = fin (pos 1);
  is_closed = true;
  close_usd = none;
}

abbrev pub free : XauUsdExecutionPolicy
free = record {
  latency = some (fin (pos 5));
  synthetic_spread_pct = some (fin (pos 0));
  slippage_pct = some (fin (pos 0));
  synthetic_spread_points = none;
  point_size = none;
  modeled_execution_gap_points = none;
}

abbrev pub engine : XauUsdOutcomeEngine
engine = record {
  cost_config = record {
    entry_fee_bps = zero_price;
    exit_fee_bps = zero_price;
    synthetic_spread_bps = zero_price;
    entry_slippage_bps = zero_price;
    exit_slippage_bps = zero_price;
  };
  long_entry_policy = free;
  short_entry_policy = free;
  holding_horizon_bars_15m = none;
  holding_horizon = some 1000;
  max_fill_wait_bars_15m = none;
  max_fill_wait = some 500;
}
