-- ===== src/Entry/Limit.antt =====
-- engine/risk/xauusd_execution.py: `simulate_limit_zone`. A missing list of quotes or candles is the
-- empty one, which leads to the same result.
use aurum_iq.Prelude.{
  Bool, true, false, not, ◌&&◌, ◌||◌, Option, none, some, List, [], ◌∷◌, if◌then◌else◌, ltb, is_nil,
  or_else, Result, ok, value_error,
}
use aurum_iq.Core.Decimal.{Decimal, le, lt, zero_price, add, sub}
use aurum_iq.Core.Candle.{CandleData, QuoteData, opens_at, closes_at}
use aurum_iq.Risk.Barrier.{RiskSide}
use aurum_iq.Risk.Validation.{is_bad_price, validate_xauusd_candle}
use aurum_iq.Entry.Policy.{EntryExecutionPolicy, is_configured_for, latency_of}
use aurum_iq.Entry.Fill.{
  DecimalOps, EvidenceType, FillReason, SideAwareFillResult, Order, unfilled, earliest,
  slippage_pct_of,
}
use aurum_iq.Entry.Market.{quoted_at, eligible_quotes, eligible_bars, executable_price}

-- LONG triggers on ask <= limit, SHORT on bid >= limit.
abbrev pub triggers : RiskSide → Decimal → QuoteData → Bool
triggers RiskSide.long limit q = le q.ask limit
triggers RiskSide.short limit q = le limit q.bid

abbrev pub touches : RiskSide → Decimal → CandleData → Bool
touches RiskSide.long limit bar = le bar.low limit
touches RiskSide.short limit bar = le limit bar.high

-- `min(limit, raw + slippage)`, or `max(limit, raw - slippage)`.
abbrev pub protected_price : RiskSide → Decimal → Decimal → Decimal → Decimal
protected_price RiskSide.long limit raw slippage =
    if lt (add raw slippage) limit then add raw slippage else limit
protected_price RiskSide.short limit raw slippage =
    if lt limit (sub raw slippage) then sub raw slippage else limit

-- The signal becomes active inside this bar.
abbrev pub is_midbar : Order → CandleData → Bool
is_midbar o c =
    validate_xauusd_candle c && ltb (opens_at c) (earliest o) && ltb (earliest o) (closes_at c)

unfoldable pub has_midbar : Order → List CandleData → Bool
has_midbar o [] = false
has_midbar o (c ∷ cs) = let rest = has_midbar o cs in is_midbar o c || rest

abbrev pub limit_on_bar : Order → Decimal → CandleData → SideAwareFillResult
limit_on_bar o limit bar = record {
  side = o.side;
  fill_policy = EntryExecutionPolicy.limit_zone;
  raw_executable_price = some limit;
  fill_price = some limit;
  fill_timestamp = some (opens_at bar);
  latency = latency_of o.policy.latency;
  observed_spread = zero_price;
  synthetic_spread = zero_price;
  adverse_slippage = zero_price;
  is_filled = true;
  reason = FillReason.limit_on_bar;
  source_evidence_type = some EvidenceType.candle;
}

-- `for bar in eligible_bars`.
unfoldable pub first_touch : Order → Decimal → List CandleData → Option SideAwareFillResult
first_touch o limit [] = none
first_touch o limit (bar ∷ bars) =
    let rest = first_touch o limit bars in
    if touches o.side limit bar then some (limit_on_bar o limit bar) else rest

-- Part 2 and what follows it.
abbrev pub by_candles : Order → Decimal → List CandleData → SideAwareFillResult
by_candles o limit candles = elim (first_touch o limit (eligible_bars o candles)) [
  | some fill ↦ fill
  | none ↦
      if has_midbar o candles && is_nil (eligible_bars o candles)
      then unfilled o EntryExecutionPolicy.limit_zone FillReason.mid_bar_activation
      else unfilled o EntryExecutionPolicy.limit_zone FillReason.limit_not_reached
]

module _ (D : DecimalOps) where
  open D use {percent_of}

  abbrev pub limit_by_quote : Order → Decimal → QuoteData → SideAwareFillResult
  limit_by_quote o limit q =
      let raw_fill = executable_price o.side q in
      let slippage = percent_of raw_fill (slippage_pct_of o) in
      record {
        side = o.side;
        fill_policy = EntryExecutionPolicy.limit_zone;
        raw_executable_price = some raw_fill;
        fill_price = some (protected_price o.side limit raw_fill slippage);
        fill_timestamp = some (quoted_at q);
        latency = latency_of o.policy.latency;
        observed_spread = sub q.ask q.bid;
        synthetic_spread = zero_price;
        adverse_slippage = slippage;
        is_filled = true;
        reason = FillReason.limit_by_quote;
        source_evidence_type = some EvidenceType.quote;
      }

  -- `for q in valid_quotes`.
  unfoldable pub first_trigger : Order → Decimal → List QuoteData → Option SideAwareFillResult
  first_trigger o limit [] = none
  first_trigger o limit (q ∷ qs) =
      let rest = first_trigger o limit qs in
      if triggers o.side limit q then some (limit_by_quote o limit q) else rest

  abbrev pub limit_fill : Order → Decimal → List QuoteData → List CandleData → SideAwareFillResult
  limit_fill o limit quotes candles =
      or_else (first_trigger o limit (eligible_quotes o quotes)) (by_candles o limit candles)

  unfoldable pub simulate_limit_zone :
      Order → Decimal → List QuoteData → List CandleData → Result SideAwareFillResult
  simulate_limit_zone o limit quotes candles =
      if not o.signal_generated_at.aware
      then value_error
      else if is_bad_price limit
      then value_error
      else if not (is_configured_for o.policy EntryExecutionPolicy.limit_zone)
      then value_error
      else ok (limit_fill o limit quotes candles)
