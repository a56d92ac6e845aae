-- ===== src/Entry/Market.antt =====
-- engine/risk/xauusd_execution.py: `simulate_market_after_signal` and `simulate_next_bar_open`.
use aurum_iq.Prelude.{
  ℕ, Bool, true, not, ◌&&◌, Option, none, some, List, [], ◌∷◌, if◌then◌else◌, or_else, filter,
  sort_by, Result, ok, value_error,
}
use aurum_iq.Core.Decimal.{Decimal, zero_price, add, sub}
use aurum_iq.Core.Candle.{CandleData, QuoteData, opens_at}
use aurum_iq.Risk.Barrier.{RiskSide}
use aurum_iq.Risk.Validation.{validate_xauusd_quote, validate_xauusd_candle}
use aurum_iq.Entry.Policy.{
  EntryExecutionPolicy, XauUsdExecutionPolicy, is_configured_for, latency_of,
}
use aurum_iq.Entry.Fill.{
  DecimalOps, EvidenceType, FillReason, SideAwareFillResult, Order, unfilled, in_window,
  slippage_pct_of,
}

abbrev pub quoted_at : QuoteData → ℕ
quoted_at q = q.timestamp.utc

abbrev pub is_eligible_quote : Order → QuoteData → Bool
is_eligible_quote o q = validate_xauusd_quote q && in_window o (quoted_at q)

-- `valid_quotes`, sorted.
unfoldable pub eligible_quotes : Order → List QuoteData → List QuoteData
eligible_quotes o quotes = sort_by quoted_at (filter (is_eligible_quote o) quotes)

abbrev pub is_eligible_bar : Order → CandleData → Bool
is_eligible_bar o c = validate_xauusd_candle c && in_window o (opens_at c)

-- `valid_bars`, sorted.
unfoldable pub eligible_bars : Order → List CandleData → List CandleData
eligible_bars o candles = sort_by opens_at (filter (is_eligible_bar o) candles)

-- LONG buys at the ask, SHORT sells at the bid.
abbrev pub executable_price : RiskSide → QuoteData → Decimal
executable_price RiskSide.long q = q.ask
executable_price RiskSide.short q = q.bid

-- An amount moves the price against the trade.
abbrev pub against : RiskSide → Decimal → Decimal → Decimal
against RiskSide.long price amount = add price amount
against RiskSide.short price amount = sub price amount

module _ (D : DecimalOps) where
  open D use {percent_of, scale, default_point}

  abbrev pub market_fill_at : Order → QuoteData → SideAwareFillResult
  market_fill_at o q =
      let raw_fill = executable_price o.side q in
      let adverse_slippage = percent_of raw_fill (slippage_pct_of o) in
      record {
        side = o.side;
        fill_policy = EntryExecutionPolicy.market_after_signal;
        raw_executable_price = some raw_fill;
        fill_price = some (against o.side raw_fill adverse_slippage);
        fill_timestamp = some (quoted_at q);
        latency = latency_of o.policy.latency;
        observed_spread = sub q.ask q.bid;
        synthetic_spread = zero_price;
        adverse_slippage = adverse_slippage;
        is_filled = true;
        reason = FillReason.filled_market;
        source_evidence_type = some EvidenceType.quote;
      }

  abbrev pub market_fill : Order → List QuoteData → SideAwareFillResult
  market_fill o [] = unfilled o EntryExecutionPolicy.market_after_signal FillReason.no_quote
  market_fill o (q ∷ qs) = market_fill_at o q

  unfoldable pub simulate_market_after_signal : Order → List QuoteData → Result SideAwareFillResult
  simulate_market_after_signal o quotes =
      if not o.signal_generated_at.aware
      then value_error
      else if not (is_configured_for o.policy EntryExecutionPolicy.market_after_signal)
      then value_error
      else ok (market_fill o (eligible_quotes o quotes))

  -- Points of the given size, where there are any, and otherwise the percentage of the price.
  abbrev pub amount_of : Option Decimal → Option Decimal → Decimal → Decimal → Decimal
  amount_of none point_size price pct = percent_of price pct
  amount_of (some points) point_size price pct = scale points (or_else point_size default_point)

  abbrev pub spread_amount : XauUsdExecutionPolicy → Decimal → Decimal
  spread_amount p price =
      amount_of p.synthetic_spread_points p.point_size price
        (or_else p.synthetic_spread_pct zero_price)

  abbrev pub slippage_amount : Order → Decimal → Decimal
  slippage_amount o price =
      amount_of o.policy.modeled_execution_gap_points o.policy.point_size price (slippage_pct_of o)

  abbrev pub next_bar_fill_at : Order → CandleData → SideAwareFillResult
  next_bar_fill_at o bar =
      let raw_fill = bar.open_price in
      let spread = spread_amount o.policy raw_fill in
      let slippage = slippage_amount o raw_fill in
      record {
        side = o.side;
        fill_policy = EntryExecutionPolicy.next_bar_open;
        raw_executable_price = some raw_fill;
        fill_price = some (against o.side (against o.side raw_fill spread) slippage);
        fill_timestamp = some (opens_at bar);
        latency = latency_of o.policy.latency;
        observed_spread = zero_price;
        synthetic_spread = spread;
        adverse_slippage = slippage;
        is_filled = true;
        reason = FillReason.filled_next_bar;
        source_evidence_type = some EvidenceType.candle;
      }

  abbrev pub next_bar_fill : Order → List CandleData → SideAwareFillResult
  next_bar_fill o [] = unfilled o EntryExecutionPolicy.next_bar_open FillReason.no_candle
  next_bar_fill o (bar ∷ bars) = next_bar_fill_at o bar

  unfoldable pub simulate_next_bar_open : Order → List CandleData → Result SideAwareFillResult
  simulate_next_bar_open o candles =
      if not o.signal_generated_at.aware
      then value_error
      else if not (is_configured_for o.policy EntryExecutionPolicy.next_bar_open)
      then value_error
      else ok (next_bar_fill o (eligible_bars o candles))
