-- ===== src/Replay/Tests.antt =====
-- `run_from_cache` of engine/backtest/xauusd_replay.py at a signal to buy, a bar and a late snapshot.
use aurum_iq.Plan.Zones.{collect_pit_zones, unique_zones}
use aurum_iq.Plan.LongTargets.{calculate_long_targets, long_candidates}
use aurum_iq.Plan.Stops.{calculate_long_stops}
use aurum_iq.Plan.Policy.{is_configured}
use aurum_iq.Risk.Intrabar.{resolve, resolve_barriers}
use aurum_iq.Risk.Validation.{validate_xauusd_candle}
use aurum_iq.Risk.Barrier.{IntrabarPolicy, touches_tp, touches_sl}
use aurum_iq.Entry.Market.{simulate_next_bar_open, eligible_bars}
use aurum_iq.Entry.Policy.{EntryExecutionPolicy, is_configured_for, is_bad_latency, is_amount}
use aurum_iq.Plan.LongPlan.{long_plan, plan_long, is_long_candidate, long_entry_zone}
use aurum_iq.Prelude.Int.{pos, ◌-ℤ◌, ◌+ℤ◌}
use aurum_iq.Outcome.Window.{
  admit, all_closes_aware, all_opens_aware, all_quotes_aware, fill_search,
}
use aurum_iq.Plan.Snapshot.{DualSideSignalSnapshot, invalid_snapshot}
use aurum_iq.Replay.Bounded.{IsReplayed, run_from_cache-IsReplayed}
use aurum_iq.Core.Decimal.{fin, is_finite, le, lt, zero_price}
use aurum_iq.Backtest.Repository.{tf_15m, candles_at, same_text}
use aurum_iq.Outcome.Resolve.{resolve_trade, entry_order, closed_trade}
use aurum_iq.Core.Candle.{CandleData}
use aurum_iq.Outcome.Walk.{Ending, walk, reaches_tp2}
use aurum_iq.Entry.Fill.{Order}
use aurum_iq.Outcome.Trade.{XauUsdSimulatedTrade, TradeRequest, XauUsdTradeOutcome, done, Payoff}
use aurum_iq.Replay.Engine.{
  XauUsdPointInTimeReplay, SignalEngine, run_from_cache, XauUsdReplayMarketSnapshot, request_for,
}
use aurum_iq.Outcome.Sample.{bar, engine, rounded}
use aurum_iq.Outcome.Sample.{ops as trade_ops}
use aurum_iq.Plan.Sample.{buy_signal, profile, sound_policy, structure}
use aurum_iq.Plan.Sample.{ops as plan_ops}
use aurum_iq.Prelude.{
  [], All, List, ℕ, Option, some, false, ◌∷◌, none, sort_by, insert_by, sort_with, insert_with, ◌≡◌,
  refl,
}

-- The evidence is the signal itself.
abbrev analyst : SignalEngine (Option DualSideSignalSnapshot)
analyst = record { analyze = λ snap. done snap.evidence }

abbrev snapshot :
    ℕ → Option DualSideSignalSnapshot → XauUsdReplayMarketSnapshot (Option DualSideSignalSnapshot)
snapshot t s = record {
  timestamp = t;
  evidence = s;
  structure_15m = structure;
  structure_4h = none;
  atr14 = some (fin (pos 3));
}

abbrev rising_bar : CandleData
rising_bar = record bar {
  open_price = fin (pos 103);
  high = fin (pos 121);
  low = fin (pos 101);
  close = fin (pos 118);
}

abbrev replay : XauUsdPointInTimeReplay
replay = record {
  dataset = record {
    candles = (tf_15m, rising_bar ∷ []) ∷ [];
    quotes = [];
    xau_candles = [];
    xau_references = [];
    usdt_rates = [];
    macro_events = [];
    macro_event_keys = [];
    cycle_3a = [];
  };
  risk_profile = profile;
  outcome_engine = engine;
  execution_policy = EntryExecutionPolicy.next_bar_open;
  intrabar_policy = IntrabarPolicy.conservative_sl_first;
  holding_horizon_bars_15m = none;
  holding_horizon = none;
  run_start_time = some 5;
  run_end_time = some 2000;
}

abbrev cache : List (XauUsdReplayMarketSnapshot (Option DualSideSignalSnapshot))
cache =
    snapshot 1 (some buy_signal)
    ∷ snapshot 7 none
    ∷ snapshot 10 (some buy_signal)
    ∷ snapshot 2000 (some buy_signal)
    ∷ []

abbrev request : TradeRequest
request =
    request_for plan_ops rounded trade_ops analyst replay 10 buy_signal
      (long_plan plan_ops buy_signal sound_policy structure (fin (pos 3)) none)

abbrev order : Order
order =
    entry_order rounded trade_ops engine request
      (record { effective = 510; is_run_end_binding = false })

abbrev end : Ending
end = record {
  outcome = XauUsdTradeOutcome.tp1_first;
  exit_ts = some 135;
  exit_price = some (fin (pos 120));
  remaining = rising_bar ∷ [];
  max_favorable = fin (pos 121);
  max_adverse = fin (pos 101);
}

abbrev payoff : Payoff
payoff = record {
  gross_pnl_per_unit = fin (pos 17);
  net_pnl_per_unit = fin (pos 17);
  gross_r = zero_price;
  net_r = zero_price;
  gross_return_pct = zero_price;
  net_return_pct = zero_price;
  mfe_r = zero_price;
  mae_r = zero_price;
  holding_duration = pos 15;
  entry_fee = zero_price;
  exit_fee = zero_price;
  entry_spread = zero_price;
  exit_spread = zero_price;
  entry_slippage = zero_price;
  exit_slippage = zero_price;
}

abbrev trade : XauUsdSimulatedTrade
trade =
    closed_trade rounded trade_ops engine request (fin (pos 4)) (fin (pos 103)) 120
      XauUsdTradeOutcome.tp1_first 135 (fin (pos 120)) payoff false

replayed :
    run_from_cache plan_ops rounded trade_ops analyst replay cache
    ≡ done (buy_signal ∷ [], trade ∷ [])
unfolding run_from_cache resolve_trade admit all_closes_aware all_opens_aware all_quotes_aware
    fill_search walk simulate_next_bar_open is_configured_for is_bad_latency is_amount eligible_bars
    validate_xauusd_candle is_finite le lt sort_by insert_by reaches_tp2 resolve touches_tp
    touches_sl ◌-ℤ◌ ◌+ℤ◌ resolve_barriers plan_long invalid_snapshot is_long_candidate is_configured
    long_entry_zone sort_with insert_with calculate_long_stops calculate_long_targets
    long_candidates collect_pit_zones unique_zones candles_at same_text
replayed = refl

run_from_cache-IsReplayed_example :
    All (IsReplayed plan_ops rounded trade_ops analyst replay cache) (trade ∷ [])
run_from_cache-IsReplayed_example =
    run_from_cache-IsReplayed plan_ops rounded trade_ops analyst replay cache
      {signals = buy_signal ∷ []} {trades = trade ∷ []} replayed
