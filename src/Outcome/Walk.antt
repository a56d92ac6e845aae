-- ===== src/Outcome/Walk.antt =====
-- engine/backtest/xauusd_outcomes.py: the bars after the fill.
use aurum_iq.Risk.Intrabar.{resolve}
use aurum_iq.Outcome.Window.{Evidence, all_opens_aware}
use aurum_iq.Prelude.Int.{ℤ}
use aurum_iq.Core.Candle.{CandleData, opens_at, closes_at}
use aurum_iq.Risk.Barrier.{
  RiskSide, Request, IntrabarPolicy, SideIntrabarResolutionResult, touches_tp, ParentTimeframe,
  BarrierHitType,
}
use aurum_iq.Core.Decimal.{nan, Decimal, lt, le, zero_price, fin}
use aurum_iq.Prelude.{
  Bool, Option, if◌then◌else◌, List, ℕ, leb, some, true, false, or_else, filter, ◌&&◌, ◌∷◌, none,
  [], not, ◌||◌,
}
use aurum_iq.Outcome.Trade.{
  XauUsdTradeOutcome, Attempt, done, from_result, raises_decimal_error, raises_value_error,
}

-- A trade that is filled between its barriers.
pub record Position : Type 0 where
  pub side : RiskSide
  pub tp1 : ℤ
  pub stop : ℤ
  pub fill_ts : ℕ
  pub fill_price : Decimal
  pub policy : IntrabarPolicy
  pub evidence : Evidence

-- The most favourable and the most adverse price so far.
abbrev pub favorable : RiskSide → CandleData → Decimal → Decimal
favorable RiskSide.long c best = if lt best c.high then c.high else best
favorable RiskSide.short c best = if lt c.low best then c.low else best

abbrev pub adverse : RiskSide → CandleData → Decimal → Decimal
adverse RiskSide.long c worst = if lt c.low worst then c.low else worst
adverse RiskSide.short c worst = if lt worst c.high then c.high else worst

-- A comparison with NaN raises; the two comparisons of a bar look at these four prices.
abbrev pub is_nan : Decimal → Bool
is_nan nan = true
is_nan d = false

abbrev pub is_comparable : CandleData → Decimal → Decimal → Bool
is_comparable bar best worst =
    not (is_nan bar.high || is_nan bar.low || is_nan best || is_nan worst)

-- Where the loop ends: the outcome, the exit, and the bars from the one that is hit on.
pub record Ending : Type 0 where
  pub outcome : XauUsdTradeOutcome
  pub exit_ts : Option ℕ
  pub exit_price : Option Decimal
  pub remaining : List CandleData
  pub max_favorable : Decimal
  pub max_adverse : Decimal

abbrev pub within_bar : CandleData → CandleData → Bool
within_bar bar c = leb (opens_at bar) (opens_at c) && leb (closes_at c) (closes_at bar)

-- The call of the resolver for one bar.
abbrev pub bar_request : Position → CandleData → Request
bar_request p bar = record {
  side = p.side;
  parent_candle = bar;
  tp_price = p.tp1;
  sl_price = p.stop;
  fill_timestamp = some (record { aware = true; utc = p.fill_ts });
  fill_price = some p.fill_price;
  candles_1m = filter (within_bar bar) p.evidence.candles_1m;
  candles_5m = filter (within_bar bar) p.evidence.candles_5m;
  candles_15m = [];
  parent_timeframe = ParentTimeframe.other;
  policy = p.policy;
  worst_case_adverse_gap = none;
}

-- `hit_res.exit_price or price`: a price of 0 is falsy.
abbrev pub price_or : Option Decimal → Decimal → Decimal
price_or none price = price
price_or (some d) price = if le d zero_price && le zero_price d then price else d

-- The loop ends at a bar.
abbrev pub ends_at :
    CandleData
    → List CandleData
    → Decimal
    → Decimal
    → SideIntrabarResolutionResult
    → XauUsdTradeOutcome
    → Decimal
    → Ending
ends_at bar bars best worst hit outcome price = record {
  outcome = outcome;
  exit_ts = some (or_else hit.exit_timestamp (closes_at bar));
  exit_price = some price;
  remaining = bar ∷ bars;
  max_favorable = best;
  max_adverse = worst;
}

-- What follows from the barrier that is hit; `rest` is the rest of the loop.
abbrev pub after_hit :
    BarrierHitType
    → Position
    → CandleData
    → List CandleData
    → Decimal
    → Decimal
    → SideIntrabarResolutionResult
    → Attempt Ending
    → Attempt Ending
after_hit BarrierHitType.tp_first p bar bars best worst hit rest = done (
    ends_at bar bars best worst hit XauUsdTradeOutcome.tp1_first
      (price_or hit.exit_price (fin p.tp1)))
after_hit BarrierHitType.sl_first p bar bars best worst hit rest = done (
    ends_at bar bars best worst hit XauUsdTradeOutcome.sl_first
      (price_or hit.exit_price (fin p.stop)))
after_hit BarrierHitType.skipped p bar bars best worst hit rest =
    done (ends_at bar bars best worst hit XauUsdTradeOutcome.skipped p.fill_price)
after_hit BarrierHitType.unresolved p bar bars best worst hit rest = rest

-- The loop over the bars.
unfoldable pub walk : Position → Decimal → Decimal → List CandleData → Attempt Ending
walk p best worst [] = done (record {
  outcome = XauUsdTradeOutcome.unresolved;
  exit_ts = none;
  exit_price = none;
  remaining = [];
  max_favorable = best;
  max_adverse = worst;
})
walk p best worst (bar ∷ bars) =
    let best_now = favorable p.side bar best in
    let worst_now = adverse p.side bar worst in
    let rest = walk p best_now worst_now bars in
    if not (is_comparable bar best worst)
    then raises_decimal_error
    else if not (all_opens_aware p.evidence.candles_1m && all_opens_aware p.evidence.candles_5m)
    then raises_value_error
    else from_result (resolve (bar_request p bar))
        (λ hit. after_hit hit.barrier_hit p bar bars best_now worst_now hit rest)

-- The price of a bar that is compared with TP2.
abbrev pub tp2_side : RiskSide → CandleData → Decimal
tp2_side RiskSide.long bar = bar.high
tp2_side RiskSide.short bar = bar.low

-- Whether one of the bars reaches TP2.
unfoldable pub reaches_tp2 : RiskSide → ℤ → List CandleData → Attempt Bool
reaches_tp2 side tp2 [] = done false
reaches_tp2 side tp2 (bar ∷ bars) =
    let later = reaches_tp2 side tp2 bars in
    if is_nan (tp2_side side bar)
    then raises_decimal_error
    else if touches_tp side tp2 bar
    then done true
    else later
