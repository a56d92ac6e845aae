-- ===== src/Entry/Tests.antt =====
-- The simulated entries of engine/risk/xauusd_execution.py at three quotes and two bars. Products of
-- Decimals are rounded down here.
use aurum_iq.Prelude.{
  ℕ, ◌+◌, ◌*◌, ◌/◌, ◌≡◌, refl, ◌⊎◌, inr, true, false, none, some, List, [], ◌∷◌, All, arith, ok,
  sort_by, insert_by,
}
use aurum_iq.Prelude.Int.{ℤ, pos, negsuc, ◌≤ℤ◌, ◌<ℤ◌}
use aurum_iq.Core.Decimal.{Decimal, fin, nan, is_finite, le, lt}
use aurum_iq.Core.Candle.{Datetime, CandleData, QuoteData, opens_at}
use aurum_iq.Risk.Barrier.{RiskSide}
use aurum_iq.Risk.Validation.{validate_xauusd_quote, validate_xauusd_candle}
use aurum_iq.Risk.Validity.{IsQuote, IsCandle}
use aurum_iq.Entry.Policy.{XauUsdExecutionPolicy, is_amount, is_bad_latency, is_configured_for}
use aurum_iq.Entry.Fill.{DecimalOps, DecimalLaws, SideAwareFillResult, Order}
use aurum_iq.Entry.Market.{
  quoted_at, eligible_quotes, eligible_bars, executable_price, market_fill_at,
  simulate_market_after_signal, next_bar_fill_at, simulate_next_bar_open,
}
use aurum_iq.Entry.Limit.{limit_by_quote, first_trigger, simulate_limit_zone}
use aurum_iq.Entry.Eligible.{InWindow, IsFirstQuote, IsFirstBar}
use aurum_iq.Entry.Timing.{market_order_outcome, next_bar_outcome}
use aurum_iq.Entry.LimitFills.{IsLimitFill, IsNoFill, limit_fills_or_untouched}
use aurum_iq.Entry.Price.{
  QuotesAt, IsAdverse, market_price-IsAdverse, gap_points_admit_better_price,
}

-- A percentage in hundredths, of a price; a negative percentage takes 1 off.
abbrev percent : Decimal → Decimal → Decimal
percent (fin (pos a)) (fin (pos p)) = fin (pos (a * p / 10000))
percent (fin (pos a)) (fin (negsuc p)) = fin (negsuc 0)
percent a p = nan

abbrev rounded : DecimalOps
rounded = record { percent_of = percent; scale = λ a b. a; default_point = fin (pos 1) }

percent_sound :
    (a p : ℤ) → pos 0 ≤ℤ a → pos 0 ≤ℤ p → (s : ℤ) × (percent (fin a) (fin p) ≡ fin s) × (pos 0 ≤ℤ s)
percent_sound (pos a) (pos p) h k = (pos (a * p / 10000), refl, omega arith)
percent_sound (pos a) (negsuc p) h k = absurd (omega arith)
percent_sound (negsuc a) p h k = absurd (omega arith)

abbrev rounded_laws : DecimalLaws rounded
rounded_laws = record { percent_nonneg = percent_sound }

abbrev at : ℕ → Datetime
at n = record { aware = true; utc = n }

abbrev quote_at : ℕ → ℕ → ℕ → QuoteData
quote_at t bid ask = record { timestamp = at t; bid = fin (pos bid); ask = fin (pos ask) }

-- The first comes before the signal takes effect; the others are out of order.
abbrev quotes : List QuoteData
quotes = quote_at 101 1990 1994 ∷ quote_at 120 2000 2004 ∷ quote_at 110 1998 2002 ∷ []

abbrev bar_at : ℕ → CandleData
bar_at t = record {
  timestamp_open = at t;
  timestamp_close = at (t + 15);
  open_price = fin (pos 2000);
  high = fin (pos 2010);
  low = fin (pos 1985);
  close = fin (pos 2005);
  volume = fin (pos 1);
  is_closed = true;
  close_usd = none;
}

abbrev bars : List CandleData
bars = bar_at 120 ∷ bar_at 105 ∷ []

-- One hundredth of a percent of slippage.
abbrev percent_policy : XauUsdExecutionPolicy
percent_policy = record {
  latency = some (fin (pos 5));
  synthetic_spread_pct = some (fin (pos 10));
  slippage_pct = some (fin (pos 1));
  synthetic_spread_points = none;
  point_size = none;
  modeled_execution_gap_points = none;
}

abbrev order : Order
order = record {
  policy = percent_policy;
  side = RiskSide.long;
  signal_generated_at = at 100;
  fill_deadline = some (at 200);
}

abbrev market_result : SideAwareFillResult
market_result = market_fill_at rounded order (quote_at 110 1998 2002)

abbrev next_bar_result : SideAwareFillResult
next_bar_result = next_bar_fill_at rounded order (bar_at 105)

market_filled : simulate_market_after_signal rounded order quotes ≡ ok market_result
unfolding simulate_market_after_signal is_configured_for is_bad_latency is_amount eligible_quotes
    validate_xauusd_quote is_finite le lt sort_by insert_by
market_filled = refl

market_order_outcome_example :
    ((q : QuoteData) × IsFirstQuote order quotes q
      × (true ≡ true)
      × (market_result.fill_timestamp ≡ some (quoted_at q))
      × (some (fin (pos 2002)) ≡ some (executable_price RiskSide.long q)))
    ⊎ (All (λ u. IsQuote u → InWindow order (quoted_at u) → ⊥) quotes
        × (true ≡ false)
        × (market_result.fill_timestamp ≡ none)
        × (market_result.fill_price ≡ none))
market_order_outcome_example =
    market_order_outcome rounded order quotes {r = market_result} market_filled

next_bar_filled : simulate_next_bar_open rounded order bars ≡ ok next_bar_result
unfolding simulate_next_bar_open is_configured_for is_bad_latency is_amount eligible_bars
    validate_xauusd_candle is_finite le lt sort_by insert_by
next_bar_filled = refl

next_bar_outcome_example :
    ((c : CandleData) × IsFirstBar order bars c
      × (true ≡ true)
      × (next_bar_result.fill_timestamp ≡ some (opens_at c))
      × (some (fin (pos 2000)) ≡ some c.open_price))
    ⊎ (All (λ u. IsCandle u → InWindow order (opens_at u) → ⊥) bars
        × (true ≡ false)
        × (next_bar_result.fill_timestamp ≡ none)
        × (next_bar_result.fill_price ≡ none))
next_bar_outcome_example = next_bar_outcome rounded order bars {r = next_bar_result} next_bar_filled

-- A limit that only the quote at 110 reaches.
limit_filled :
    simulate_limit_zone rounded order (fin (pos 2003)) quotes bars
    ≡ ok (limit_by_quote rounded order (fin (pos 2003)) (quote_at 110 1998 2002))
unfolding simulate_limit_zone is_configured_for is_bad_latency is_amount eligible_quotes
    first_trigger validate_xauusd_quote is_finite le lt sort_by insert_by
limit_filled = refl

limit_fills_or_untouched_example :
    IsLimitFill rounded order
      (fin (pos 2003))
      (limit_by_quote rounded order (fin (pos 2003)) (quote_at 110 1998 2002))
    ⊎ IsNoFill rounded order
        (fin (pos 2003))
        quotes
        bars
        (limit_by_quote rounded order (fin (pos 2003)) (quote_at 110 1998 2002))
limit_fills_or_untouched_example =
    limit_fills_or_untouched rounded order (fin (pos 2003)) quotes bars
      {r = limit_by_quote rounded order (fin (pos 2003)) (quote_at 110 1998 2002)} limit_filled

market_price-IsAdverse_example :
    (q : QuoteData) × (raw : ℤ) × (price : ℤ) × IsFirstQuote order quotes q
    × QuotesAt RiskSide.long q raw
    × (some (fin (pos 2002)) ≡ some (fin raw))
    × (market_result.fill_price ≡ some (fin price))
    × IsAdverse RiskSide.long raw price
unfolding is_amount is_finite le
market_price-IsAdverse_example =
    market_price-IsAdverse rounded rounded_laws order quotes {r = market_result} (inr refl)
      market_filled refl

-- Sound gap points, and a percentage of minus one hundredth.
abbrev points_policy : XauUsdExecutionPolicy
points_policy = record {
  latency = some (fin (pos 5));
  synthetic_spread_pct = none;
  slippage_pct = some (fin (negsuc 0));
  synthetic_spread_points = some (fin (pos 260));
  point_size = none;
  modeled_execution_gap_points = some (fin (pos 0));
}

abbrev points_order : Order
points_order = record order { policy = points_policy }

gap_points_admit_better_price_example :
    (r : SideAwareFillResult) × (price : ℤ) × (simulate_market_after_signal rounded points_order
        (quote_at 110 1998 2002 ∷ [])
      ≡ ok r)
    × (r.fill_price ≡ some (fin price))
    × (price <ℤ pos 2002)
unfolding is_bad_latency is_amount eligible_quotes validate_xauusd_quote is_finite le lt sort_by
    insert_by
gap_points_admit_better_price_example =
    gap_points_admit_better_price rounded points_order (quote_at 110 1998 2002 ∷ []) []
      (quote_at 110 1998 2002) (negsuc 0) (pos 2002) (negsuc 0) refl refl refl refl refl
      (omega arith) refl refl refl (omega arith)
