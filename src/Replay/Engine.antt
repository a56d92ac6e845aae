-- ===== src/Replay/Engine.antt =====
-- engine/backtest/xauusd_replay.py: `XauUsdPointInTimeReplay.run_from_cache`. The signal engine is a
-- parameter. Names, fingerprints and folds of a trade are left out. A price of a plan that is not
-- finite is read as missing.
use aurum_iq.Outcome.Resolve.{resolve_trade}
use aurum_iq.Plan.ShortPlan.{plan_short, is_short_candidate}
use aurum_iq.Plan.LongPlan.{is_long_candidate, plan_long}
use aurum_iq.Entry.Policy.{EntryExecutionPolicy}
use aurum_iq.Macro.Events.{Text}
use aurum_iq.Outcome.Window.{all_closes_aware, all_quotes_aware}
use aurum_iq.Prelude.Int.{ℤ}
use aurum_iq.Core.Candle.{Datetime, QuoteData, CandleData, closes_at}
use aurum_iq.Entry.Fill.{DecimalOps}
use aurum_iq.Plan.Policy.{XauUsdRiskProfile}
use aurum_iq.Core.Decimal.{pos_inf, neg_inf, nan, Decimal, zero_price, fin}
use aurum_iq.Risk.Barrier.{RiskSide, IntrabarPolicy}
use aurum_iq.Plan.Zones.{PlanOps, ZoneStructure}
use aurum_iq.Outcome.Trade.{
  Attempt, RiskPlan, XauUsdSimulatedTrade, TradeOps, open_trade, XauUsdOutcomeEngine, TradeRequest,
  done, map_attempt, XauUsdTradeOutcome, from_result, raises_value_error, raises,
}
use aurum_iq.Plan.Snapshot.{
  SideRiskPlanSnapshot, DualSideSignalSnapshot, invalid_snapshot, PlanReason,
}
use aurum_iq.Backtest.Repository.{PointInTimeDataset, tf_15m, candles_at, tf_5m, tf_1m}
use aurum_iq.Prelude.{
  [], ℕ, Option, Bool, true, some, List, if◌then◌else◌, Result, ◌∷◌, ltb, filter, leb, not, ok,
  none, ◌&&◌,
}

-- A snapshot of the market; `E` is the evidence that only the signal engine reads.
pub record XauUsdReplayMarketSnapshot (E : Type 0) : Type 0 where
  pub timestamp : ℕ
  pub evidence : E
  pub structure_15m : Option ZoneStructure
  pub structure_4h : Option ZoneStructure
  pub atr14 : Option Decimal

-- The state; the start and the end of the run are in UTC.
pub record XauUsdPointInTimeReplay : Type 0 where
  pub dataset : PointInTimeDataset
  pub risk_profile : XauUsdRiskProfile
  pub outcome_engine : XauUsdOutcomeEngine
  pub execution_policy : EntryExecutionPolicy
  pub intrabar_policy : IntrabarPolicy
  pub holding_horizon_bars_15m : Option ℕ
  pub holding_horizon : Option ℕ
  pub run_start_time : Option ℕ
  pub run_end_time : Option ℕ

-- `XauUsdSignalEngine.analyze` of a snapshot.
pub record SignalEngine (E : Type 0) : Type 0 where
  pub analyze : XauUsdReplayMarketSnapshot E → Attempt (Option DualSideSignalSnapshot)

abbrev pub utc_at : ℕ → Datetime
utc_at t = record { aware = true; utc = t }

abbrev pub finite_price : Option Decimal → Option ℤ
finite_price none = none
finite_price (some (fin a)) = some a
finite_price (some pos_inf) = none
finite_price (some neg_inf) = none
finite_price (some nan) = none

-- What the outcome engine reads of a plan.
abbrev pub read_plan : SideRiskPlanSnapshot → RiskPlan
read_plan p = record {
  side = p.side;
  is_valid_risk_plan = p.risk_candidate_valid;
  execution_eligible = p.simulation_eligible;
  entry_min = finite_price p.entry_min;
  entry_max = finite_price p.entry_max;
  stop_final = finite_price p.stop_final;
  tp1 = finite_price p.tp1;
  tp2 = finite_price p.tp2;
}

-- The plan without an ATR.
abbrev pub unplanned : RiskSide → DualSideSignalSnapshot → ℕ → SideRiskPlanSnapshot
unplanned side s t = record (invalid_snapshot side s PlanReason.atr_unavailable) {
  signal_generated_at = utc_at t;
}

-- The record of a trade whose plan is not valid.
abbrev pub skipped_trade : RiskSide → ℕ → XauUsdSimulatedTrade
skipped_trade side t = open_trade side t zero_price XauUsdTradeOutcome.skipped none none t

abbrev pub before : Option ℕ → ℕ → Bool
before none t = true
before (some end) t = ltb t end

abbrev pub from_start : Option ℕ → ℕ → Bool
from_start none t = true
from_start (some start) t = leb start t

abbrev pub run_end : Option ℕ → Option Datetime
run_end none = none
run_end (some t) = some (utc_at t)

module _ {E : Type 0} (P : PlanOps) (D : DecimalOps) (R : TradeOps) (engine : SignalEngine E)
    (self : XauUsdPointInTimeReplay) where
  abbrev pub is_future_candle : ℕ → CandleData → Bool
  is_future_candle t c = ltb t (closes_at c) && before self.run_end_time (closes_at c)

  abbrev pub is_future_quote : ℕ → QuoteData → Bool
  is_future_quote t q = leb t q.timestamp.utc && before self.run_end_time q.timestamp.utc

  abbrev pub raw_candles : Text → List CandleData
  raw_candles timeframe = candles_at timeframe self.dataset.candles

  abbrev pub future_candles : Text → ℕ → List CandleData
  future_candles timeframe t = filter (is_future_candle t) (raw_candles timeframe)

  abbrev pub request_for : ℕ → DualSideSignalSnapshot → SideRiskPlanSnapshot → TradeRequest
  request_for t s plan = record {
    signal_timestamp = s.timestamp;
    risk_plan = read_plan plan;
    future_candles_15m = future_candles tf_15m t;
    future_candles_5m = future_candles tf_5m t;
    future_candles_1m = future_candles tf_1m t;
    future_quotes = filter (is_future_quote t) self.dataset.quotes;
    execution_policy = self.execution_policy;
    intrabar_policy = self.intrabar_policy;
    holding_horizon_bars_15m = self.holding_horizon_bars_15m;
    holding_horizon = self.holding_horizon;
    run_end_time = run_end self.run_end_time;
    max_fill_wait_bars_15m = none;
    max_fill_wait = none;
  }

  -- `_require_utc` of all that the lists of the future are made from.
  abbrev pub is_dataset_aware : Bool
  is_dataset_aware =
      all_closes_aware (raw_candles tf_15m)
      && all_closes_aware (raw_candles tf_5m)
      && all_closes_aware (raw_candles tf_1m)
      && all_quotes_aware self.dataset.quotes

  abbrev pub simulate :
      RiskSide → ℕ → DualSideSignalSnapshot → SideRiskPlanSnapshot → Attempt XauUsdSimulatedTrade
  simulate side t s plan =
      if not (plan.risk_candidate_valid && plan.simulation_eligible)
      then done (skipped_trade side t)
      else if not is_dataset_aware
      then raises_value_error
      else resolve_trade D R self.outcome_engine (request_for t s plan)

  abbrev pub long_plan_of :
      DualSideSignalSnapshot
      → XauUsdReplayMarketSnapshot E
      → Option Decimal
      → Result SideRiskPlanSnapshot
  long_plan_of s snap none = ok (unplanned RiskSide.long s snap.timestamp)
  long_plan_of s snap (some atr14) =
      plan_long P self.risk_profile s snap.structure_15m atr14 snap.structure_4h

  abbrev pub short_plan_of :
      DualSideSignalSnapshot
      → XauUsdReplayMarketSnapshot E
      → Option Decimal
      → Result SideRiskPlanSnapshot
  short_plan_of s snap none = ok (unplanned RiskSide.short s snap.timestamp)
  short_plan_of s snap (some atr14) =
      plan_short P self.risk_profile s snap.structure_15m atr14 snap.structure_4h

  -- The trade of a signal, if it asks for one.
  abbrev pub trade_of :
      DualSideSignalSnapshot → XauUsdReplayMarketSnapshot E → Attempt (Option XauUsdSimulatedTrade)
  trade_of s snap =
      if is_long_candidate s.candidate_state s.candidate_user_decision
      then map_attempt some
          (from_result (long_plan_of s snap snap.atr14) (simulate RiskSide.long snap.timestamp s))
      else if is_short_candidate s.candidate_state s.candidate_user_decision
      then map_attempt some
          (from_result (short_plan_of s snap snap.atr14) (simulate RiskSide.short snap.timestamp s))
      else done none

  -- The signals and the trades of the run.
  abbrev pub Records : Type 0
  Records = List DualSideSignalSnapshot × List XauUsdSimulatedTrade

  abbrev pub recorded : DualSideSignalSnapshot → Option XauUsdSimulatedTrade → Records → Records
  recorded s none (signals, trades) = (s ∷ signals, trades)
  recorded s (some t) (signals, trades) = (s ∷ signals, t ∷ trades)

  -- What is recorded of a signal before the rest of the loop.
  abbrev pub after_trade :
      DualSideSignalSnapshot
      → Attempt (Option XauUsdSimulatedTrade)
      → Attempt Records
      → Attempt Records
  after_trade s (done t) rest = map_attempt (recorded s t) rest
  after_trade s (raises error) rest = raises error

  abbrev pub after_analysis :
      XauUsdReplayMarketSnapshot E
      → Attempt (Option DualSideSignalSnapshot)
      → Attempt Records
      → Attempt Records
  after_analysis snap (done none) rest = rest
  after_analysis snap (done (some s)) rest = after_trade s (trade_of s snap) rest
  after_analysis snap (raises error) rest = raises error

  -- The loop over the cache: what comes before the start is passed over, and the end stops it.
  unfoldable pub run_from_cache : List (XauUsdReplayMarketSnapshot E) → Attempt Records
  run_from_cache [] = done ([], [])
  run_from_cache (snap ∷ cache) =
      let rest = run_from_cache cache in
      if not (from_start self.run_start_time snap.timestamp)
      then rest
      else if not (before self.run_end_time snap.timestamp)
      then done ([], [])
      else after_analysis snap (engine.analyze snap) rest
