-- ===== src/Entry/Timing.antt =====
-- When the simulations of engine/risk/xauusd_execution.py fill, and on what.
use aurum_iq.Prelude.{◌≡◌, ◌⊎◌, inl, inr, true, false, none, some, List, All, arith, ok, cases_list}
use aurum_iq.Core.Candle.{CandleData, QuoteData, opens_at}
use aurum_iq.Risk.Validity.{IsQuote, IsCandle}
use aurum_iq.Entry.Policy.{EntryExecutionPolicy, is_configured_for}
use aurum_iq.Entry.Fill.{DecimalOps, SideAwareFillResult, Order}
use aurum_iq.Entry.Market.{
  quoted_at, eligible_quotes, eligible_bars, executable_price, market_fill,
  simulate_market_after_signal, next_bar_fill, simulate_next_bar_open,
}
use aurum_iq.Entry.Eligible.{
  InWindow, IsFirstQuote, IsFirstBar, eligible_quotes-first, eligible_quotes-none,
  eligible_bars-first, eligible_bars-none,
}

module _ (D : DecimalOps) (o : Order) where
  pub market_ok :
      (quotes : List QuoteData) {r : SideAwareFillResult}
      → simulate_market_after_signal D o quotes ≡ ok r
      → (o.signal_generated_at.aware ≡ true)
        × (is_configured_for o.policy EntryExecutionPolicy.market_after_signal ≡ true)
        × (r ≡ market_fill D o (eligible_quotes o quotes))
  unfolding simulate_market_after_signal
  market_ok quotes e = ground arith

  -- A market order that is simulated without error either fills at the first sound quote, by time,
  -- that lies no earlier than the signal and its latency and no later than the deadline, with its
  -- time and its ask (LONG) or bid (SHORT) as the raw price; or there is no such quote at all, and
  -- it is not filled and carries no price and no time.
  pub market_order_outcome :
      (quotes : List QuoteData) {r : SideAwareFillResult}
      → simulate_market_after_signal D o quotes ≡ ok r
      → ((q : QuoteData) × IsFirstQuote o quotes q
          × (r.is_filled ≡ true)
          × (r.fill_timestamp ≡ some (quoted_at q))
          × (r.raw_executable_price ≡ some (executable_price o.side q)))
        ⊎ (All (λ u. IsQuote u → InWindow o (quoted_at u) → ⊥) quotes
            × (r.is_filled ≡ false)
            × (r.fill_timestamp ≡ none)
            × (r.fill_price ≡ none))
  market_order_outcome quotes {r} e =
      let (_, _, same) = market_ok quotes e in
      elim (cases_list (eligible_quotes o quotes)) [
        | inl empty ↦
            inr (eligible_quotes-none o quotes empty, ground arith, ground arith, ground arith)
        | inr (q, qs, some_left) ↦
            inl (
              q,
              eligible_quotes-first o quotes some_left,
              ground arith,
              ground arith,
              ground arith,
            )
      ]

  next_bar_ok :
      (candles : List CandleData) {r : SideAwareFillResult}
      → simulate_next_bar_open D o candles ≡ ok r
      → (o.signal_generated_at.aware ≡ true)
        × (is_configured_for o.policy EntryExecutionPolicy.next_bar_open ≡ true)
        × (r ≡ next_bar_fill D o (eligible_bars o candles))
  unfolding simulate_next_bar_open
  next_bar_ok candles e = ground arith

  -- An entry at the next bar's open that is simulated without error either fills at the first
  -- sound bar, by time, that opens no earlier than the signal and its latency and no later than
  -- the deadline, with its open time and its open as the raw price; or there is no such bar at
  -- all, and it is not filled and carries no price and no time.
  pub next_bar_outcome :
      (candles : List CandleData) {r : SideAwareFillResult}
      → simulate_next_bar_open D o candles ≡ ok r
      → ((c : CandleData) × IsFirstBar o candles c
          × (r.is_filled ≡ true)
          × (r.fill_timestamp ≡ some (opens_at c))
          × (r.raw_executable_price ≡ some c.open_price))
        ⊎ (All (λ u. IsCandle u → InWindow o (opens_at u) → ⊥) candles
            × (r.is_filled ≡ false)
            × (r.fill_timestamp ≡ none)
            × (r.fill_price ≡ none))
  next_bar_outcome candles {r} e =
      let (_, _, same) = next_bar_ok candles e in
      elim (cases_list (eligible_bars o candles)) [
        | inl empty ↦
            inr (eligible_bars-none o candles empty, ground arith, ground arith, ground arith)
        | inr (c, cs, some_left) ↦
            inl
              (c, eligible_bars-first o candles some_left, ground arith, ground arith, ground arith)
      ]
