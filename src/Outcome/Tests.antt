-- ===== src/Outcome/Tests.antt =====
-- `resolve_trade` of engine/backtest/xauusd_outcomes.py at a LONG plan and one bar.
use aurum_iq.Outcome.Reached.{ReachesEntry}
use aurum_iq.Outcome.Sample.{rounded, ops, at, bar, engine}
use aurum_iq.Risk.Intrabar.{resolve}
use aurum_iq.Risk.Validation.{validate_xauusd_candle}
use aurum_iq.Outcome.LimitZone.{limit_zone_raises}
use aurum_iq.Entry.Market.{simulate_next_bar_open, eligible_bars}
use aurum_iq.Outcome.Closed.{resolve_trade-IsSettled}
use aurum_iq.Prelude.Int.{pos}
use aurum_iq.Risk.Barrier.{RiskSide, IntrabarPolicy, touches_tp, touches_sl}
use aurum_iq.Outcome.Window.{
  admit, all_closes_aware, all_opens_aware, all_quotes_aware, fill_search,
}
use aurum_iq.Core.Decimal.{fin, is_finite, le, lt, zero_price, Decimal}
use aurum_iq.Outcome.Settled.{IsOpen, IsClosed, IsFrom}
use aurum_iq.Outcome.Walk.{Ending, walk, reaches_tp2}
use aurum_iq.Outcome.Resolve.{resolve_trade, entry_order, closed_trade}
use aurum_iq.Outcome.Trade.{
  XauUsdSimulatedTrade, RiskPlan, TradeRequest, XauUsdTradeOutcome, done, raises, Payoff,
  PythonError,
}
use aurum_iq.Entry.Policy.{EntryExecutionPolicy, is_configured_for, is_bad_latency, is_amount}
use aurum_iq.Entry.Fill.{Order}
use aurum_iq.Prelude.Int.{◌-ℤ◌, ◌+ℤ◌}
use aurum_iq.Risk.Intrabar.{resolve_barriers}
use aurum_iq.Prelude.{[], ◌∷◌, some, ◌⊎◌, ◌≡◌, false, none, true, refl, sort_by, insert_by}

abbrev plan : RiskPlan
plan = record {
  side = RiskSide.long;
  is_valid_risk_plan = true;
  execution_eligible = true;
  entry_min = some (pos 1995);
  entry_max = some (pos 2000);
  stop_final = some (pos 1980);
  tp1 = some (pos 2008);
  tp2 = some (pos 2020);
}

abbrev request : EntryExecutionPolicy → TradeRequest
request policy = record {
  signal_timestamp = at 100;
  risk_plan = plan;
  future_candles_15m = bar ∷ [];
  future_candles_5m = [];
  future_candles_1m = [];
  future_quotes = [];
  execution_policy = policy;
  intrabar_policy = IntrabarPolicy.conservative_sl_first;
  holding_horizon_bars_15m = none;
  holding_horizon = none;
  run_end_time = some (at 2000);
  max_fill_wait_bars_15m = none;
  max_fill_wait = none;
}

reaches_entry : (policy : EntryExecutionPolicy) → ReachesEntry engine (request policy)
unfolding all_closes_aware all_opens_aware all_quotes_aware fill_search ◌-ℤ◌
reaches_entry policy = record {
  planned_risk = pos 20;
  wait = 500;
  signal_aware = refl;
  plan_valid = refl;
  plan_eligible = refl;
  risk_given = refl;
  risk_positive = refl;
  end_aware = refl;
  evidence_aware = refl;
  opens_aware = refl;
  wait_given = refl;
}

limit_zone_raises_example :
    resolve_trade rounded ops engine (request EntryExecutionPolicy.limit_zone)
    ≡ raises PythonError.attribute_kind
limit_zone_raises_example =
    limit_zone_raises rounded ops engine (request EntryExecutionPolicy.limit_zone)
      (reaches_entry EntryExecutionPolicy.limit_zone) refl

abbrev next_bar : TradeRequest
next_bar = request EntryExecutionPolicy.next_bar_open

abbrev order : Order
order =
    entry_order rounded ops engine next_bar (record { effective = 600; is_run_end_binding = false })

abbrev end : Ending
end = record {
  outcome = XauUsdTradeOutcome.tp1_first;
  exit_ts = some 135;
  exit_price = some (fin (pos 2008));
  remaining = bar ∷ [];
  max_favorable = fin (pos 2010);
  max_adverse = fin (pos 1985);
}

abbrev payoff : Payoff
payoff = record {
  gross_pnl_per_unit = fin (pos 8);
  net_pnl_per_unit = fin (pos 8);
  gross_r = zero_price;
  net_r = zero_price;
  gross_return_pct = zero_price;
  net_return_pct = zero_price;
  mfe_r = zero_price;
  mae_r = zero_price;
  holding_duration = pos 15;
  entry_fee = zero_price;
  exit_fee = zero_price;
  entry_spread = zero_price;
  exit_spread = zero_price;
  entry_slippage = zero_price;
  exit_slippage = zero_price;
}

abbrev trade : XauUsdSimulatedTrade
trade =
    closed_trade rounded ops engine next_bar (fin (pos 20)) (fin (pos 2000)) 120
      XauUsdTradeOutcome.tp1_first 135 (fin (pos 2008)) payoff false

trade_closed : resolve_trade rounded ops engine next_bar ≡ done trade
unfolding resolve_trade admit all_closes_aware all_opens_aware all_quotes_aware fill_search walk
    simulate_next_bar_open is_configured_for is_bad_latency is_amount eligible_bars
    validate_xauusd_candle is_finite le lt sort_by insert_by reaches_tp2 resolve touches_tp
    touches_sl ◌-ℤ◌ ◌+ℤ◌ resolve_barriers
trade_closed = refl

resolve_trade-IsSettled_example : IsFrom next_bar trade × (IsOpen trade ⊎ IsClosed next_bar trade)
resolve_trade-IsSettled_example =
    resolve_trade-IsSettled rounded ops engine next_bar trade trade_closed
