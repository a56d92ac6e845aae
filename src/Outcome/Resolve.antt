-- ===== src/Outcome/Resolve.antt =====
-- engine/backtest/xauusd_outcomes.py: `XauUsdOutcomeEngine.resolve_trade`.
use aurum_iq.Outcome.Terms.{
  tp2_reached, barriers, holding_time, capped, planned_risk_of, first_bars, gain, nonzero_or,
  is_post_fill, is_unordered,
}
use aurum_iq.Entry.Market.{simulate_next_bar_open, simulate_market_after_signal}
use aurum_iq.Entry.Policy.{XauUsdExecutionPolicy, EntryExecutionPolicy}
use aurum_iq.Outcome.Window.{
  Evidence, Deadline, passed_deadline, deadline_with, entry_candles, all_opens_aware, fill_search,
  entry_quotes, admit,
}
use aurum_iq.Core.Decimal.{Decimal, sub, fin, add, zero_price}
use aurum_iq.Prelude.Int.{ℤ, sub_ℕ, leb_ℤ, pos}
use aurum_iq.Core.Candle.{CandleData}
use aurum_iq.Risk.Barrier.{RiskSide}
use aurum_iq.Entry.Fill.{DecimalOps, SideAwareFillResult, Order}
use aurum_iq.Prelude.{
  ℕ, Option, some, List, if◌then◌else◌, none, filter, ◌||◌, true, not, ◌+◌, Bool,
}
use aurum_iq.Outcome.Trade.{
  TradeRequest, TradeOps, XauUsdTradeOutcome, XauUsdOutcomeEngine, Attempt, XauUsdSimulatedTrade,
  Payoff, from_result, done, open_trade, map_attempt, raises, ◌>>=◌, raises_attribute_error,
  raises_value_error, computed, raises_decimal_error,
}
use aurum_iq.Outcome.Walk.{Position, Ending, walk}

module _ (D : DecimalOps) (R : TradeOps) (e : XauUsdOutcomeEngine) (x : TradeRequest) where
  open R use {div, quantize, bps_of, percent}

  abbrev pub side : RiskSide
  side = x.risk_plan.side

  abbrev pub signal_ts : ℕ
  signal_ts = x.signal_timestamp.utc

  abbrev pub entry_policy : RiskSide → XauUsdExecutionPolicy
  entry_policy RiskSide.long = e.long_entry_policy
  entry_policy RiskSide.short = e.short_entry_policy

  -- `(a / b).quantize(...)`.
  abbrev pub ratio : Decimal → Decimal → Attempt Decimal
  ratio a b = computed (div a b) >>= (λ q. computed (quantize q))

  -- `((a / b) * 100).quantize(...)`.
  abbrev pub share : Decimal → Decimal → Attempt Decimal
  share a b = computed (div a b) >>= (λ q. computed (percent q)) >>= (λ p. computed (quantize p))

  -- The costs and the results of a trade that has ended.
  abbrev pub payoff_of :
      Decimal → SideAwareFillResult → Decimal → ℕ → ℕ → Decimal → Decimal → Decimal → Attempt Payoff
  payoff_of planned_risk fill fill_price fill_ts exit_ts exit_price best worst = do
    let gross_pnl = gain side fill_price exit_price
    mfe_r ← ratio (gain side fill_price best) planned_risk
    mae_r ← ratio (gain side worst fill_price) planned_risk
    entry_fee ← computed (bps_of fill_price e.cost_config.entry_fee_bps)
    exit_fee ← computed (bps_of exit_price e.cost_config.exit_fee_bps)
    exit_spread ← computed (bps_of exit_price e.cost_config.synthetic_spread_bps)
    exit_slippage ← computed (bps_of exit_price e.cost_config.exit_slippage_bps)
    let net_pnl = sub (sub gross_pnl entry_fee) (add (add exit_fee exit_spread) exit_slippage)
    gross ← computed (quantize gross_pnl)
    net ← computed (quantize net_pnl)
    gross_r ← ratio gross_pnl planned_risk
    net_r ← ratio net_pnl planned_risk
    gross_share ← share gross_pnl fill_price
    net_share ← share net_pnl fill_price
    done (record {
      gross_pnl_per_unit = gross;
      net_pnl_per_unit = net;
      gross_r = gross_r;
      net_r = net_r;
      gross_return_pct = gross_share;
      net_return_pct = net_share;
      mfe_r = mfe_r;
      mae_r = mae_r;
      holding_duration = sub_ℕ exit_ts fill_ts;
      entry_fee = entry_fee;
      exit_fee = exit_fee;
      entry_spread = add fill.observed_spread fill.synthetic_spread;
      exit_spread = exit_spread;
      entry_slippage = fill.adverse_slippage;
      exit_slippage = exit_slippage;
    })

  -- A trade with an exit.
  abbrev pub closed_trade :
      Decimal
      → Decimal
      → ℕ
      → XauUsdTradeOutcome
      → ℕ
      → Decimal
      → Payoff
      → Bool
      → XauUsdSimulatedTrade
  closed_trade planned_risk fill_price fill_ts outcome exit_ts exit_price payoff reached = record {
    side = side;
    signal_timestamp = signal_ts;
    planned_risk_amount = planned_risk;
    outcome = outcome;
    fill_timestamp = some fill_ts;
    fill_price = some fill_price;
    exit_timestamp = some exit_ts;
    exit_price = some exit_price;
    dependency_end_timestamp = exit_ts;
    dependency_window = (signal_ts, exit_ts);
    payoff = some payoff;
    tp2_reached_after_tp1 = reached;
  }

  -- The trade from the end of the loop.
  abbrev pub ended :
      Decimal
      → SideAwareFillResult
      → Decimal
      → ℕ
      → ℕ
      → Ending
      → Option ℕ
      → Option Decimal
      → Attempt XauUsdSimulatedTrade
  ended planned_risk fill fill_price fill_ts max_search_ts end (some exit_ts) (some exit_price) =
      tp2_reached side end.outcome x.risk_plan.tp2 end.remaining >>= (λ reached.
        map_attempt
          (λ payoff.
            closed_trade planned_risk fill_price fill_ts end.outcome exit_ts exit_price payoff
              reached)
          (payoff_of planned_risk fill fill_price fill_ts exit_ts exit_price end.max_favorable
            end.max_adverse))
  ended planned_risk fill fill_price fill_ts max_search_ts end none exit_price = done (
      open_trade side signal_ts planned_risk XauUsdTradeOutcome.unresolved (some fill_ts)
        (some fill_price) max_search_ts)
  ended planned_risk fill fill_price fill_ts max_search_ts end (some exit_ts) none = done (
      open_trade side signal_ts planned_risk XauUsdTradeOutcome.unresolved (some fill_ts)
        (some fill_price) max_search_ts)

  -- The bars that are looked at after the fill.
  abbrev pub eval_candles : Evidence → ℕ → ℕ → List CandleData
  eval_candles ev fill_ts max_search_ts =
      first_bars (nonzero_or x.holding_horizon_bars_15m e.holding_horizon_bars_15m)
        (filter (is_post_fill fill_ts max_search_ts) ev.candles_15m)

  abbrev pub position : Evidence → Decimal → ℕ → ℤ → ℤ → Position
  position ev fill_price fill_ts tp1 stop = record {
    side = side;
    tp1 = tp1;
    stop = stop;
    fill_ts = fill_ts;
    fill_price = fill_price;
    policy = x.intrabar_policy;
    evidence = ev;
  }

  abbrev pub after_fill :
      Evidence
      → Decimal
      → SideAwareFillResult
      → Decimal
      → ℕ
      → ℤ
      → ℤ
      → Option ℕ
      → Attempt XauUsdSimulatedTrade
  after_fill ev planned_risk fill fill_price fill_ts tp1 stop none = raises_value_error
  after_fill ev planned_risk fill fill_price fill_ts tp1 stop (some duration) =
      let max_search_ts = capped x.run_end_time (fill_ts + duration) in
      let bars = eval_candles ev fill_ts max_search_ts in
      walk (position ev fill_price fill_ts tp1 stop) fill_price fill_price bars >>= (λ end.
        ended planned_risk fill fill_price fill_ts max_search_ts end end.exit_ts end.exit_price)

  -- Part 2: the plan must surround the fill.
  abbrev pub filled_at :
      Evidence
      → Decimal
      → SideAwareFillResult
      → Decimal
      → ℕ
      → Option (ℤ × ℤ)
      → Attempt XauUsdSimulatedTrade
  filled_at ev planned_risk fill fill_price fill_ts none = done (
      open_trade side signal_ts planned_risk XauUsdTradeOutcome.entry_invalidated_stale_risk_plan
        (some fill_ts) (some fill_price) fill_ts)
  filled_at ev planned_risk fill fill_price fill_ts (some (tp1, stop)) =
      after_fill ev planned_risk fill fill_price fill_ts tp1 stop (
        holding_time (nonzero_or x.holding_horizon_bars_15m e.holding_horizon_bars_15m)
          (nonzero_or x.holding_horizon e.holding_horizon))

  abbrev pub from_fill :
      Evidence
      → Decimal
      → Deadline
      → SideAwareFillResult
      → Option Decimal
      → Option ℕ
      → Attempt XauUsdSimulatedTrade
  from_fill ev planned_risk d fill (some fill_price) (some fill_ts) =
      if not fill.is_filled
      then done
          (open_trade side signal_ts planned_risk XauUsdTradeOutcome.no_fill none none d.effective)
      else if is_unordered fill_price x.risk_plan.tp1 x.risk_plan.stop_final
      then raises_decimal_error
      else filled_at ev planned_risk fill fill_price fill_ts
          (barriers side fill_price x.risk_plan.tp1 x.risk_plan.stop_final)
  from_fill ev planned_risk d fill none fill_ts =
      done (open_trade side signal_ts planned_risk XauUsdTradeOutcome.no_fill none none d.effective)
  from_fill ev planned_risk d fill (some fill_price) none =
      done (open_trade side signal_ts planned_risk XauUsdTradeOutcome.no_fill none none d.effective)

  abbrev pub entry_order : Deadline → Order
  entry_order d = record {
    policy = entry_policy side;
    side = side;
    signal_generated_at = record { aware = true; utc = signal_ts };
    fill_deadline = passed_deadline d;
  }

  -- Part 1: the simulated entry. The enumeration has no LIMIT_TOUCH, with which every policy but the
  -- first two is compared.
  abbrev pub simulate_entry :
      EntryExecutionPolicy → Evidence → Deadline → Attempt SideAwareFillResult
  simulate_entry EntryExecutionPolicy.next_bar_open ev d =
      from_result (simulate_next_bar_open D (entry_order d) (entry_candles d ev.candles_15m)) done
  simulate_entry EntryExecutionPolicy.market_after_signal ev d =
      from_result (simulate_market_after_signal D (entry_order d) (entry_quotes d ev.quotes)) done
  simulate_entry EntryExecutionPolicy.limit_zone ev d = raises_attribute_error

  abbrev pub with_evidence : Decimal → Option ℕ → Attempt Evidence → Attempt XauUsdSimulatedTrade
  with_evidence planned_risk wait (raises error) = raises error
  with_evidence planned_risk none (done ev) = raises_value_error
  with_evidence planned_risk (some wait) (done ev) =
      let d = deadline_with x.run_end_time (signal_ts + wait) in
      if not (all_opens_aware ev.candles_15m)
      then raises_value_error
      else simulate_entry x.execution_policy ev d
        >>= (λ fill. from_fill ev planned_risk d fill fill.fill_price fill.fill_timestamp)

  abbrev pub with_risk : Option ℤ → Attempt XauUsdSimulatedTrade
  with_risk none = raises_value_error
  with_risk (some planned_risk) =
      if leb_ℤ planned_risk (pos 0)
      then raises_value_error
      else with_evidence (fin planned_risk) (fill_search e x) (admit x)

  unfoldable pub resolve_trade : Attempt XauUsdSimulatedTrade
  resolve_trade =
      if not x.signal_timestamp.aware
      then raises_value_error
      else if not x.risk_plan.is_valid_risk_plan || not x.risk_plan.execution_eligible
      then done
          (open_trade side signal_ts zero_price XauUsdTradeOutcome.skipped none none signal_ts)
      else with_risk (planned_risk_of side x.risk_plan)
