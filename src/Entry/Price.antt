-- ===== src/Entry/Price.antt =====
-- On which side of the market the simulated entries of engine/risk/xauusd_execution.py are priced.
use aurum_iq.Prelude.{
  ◌≡◌, refl, ap, ap₂, or_else, ◌∙◌, ◌⊎◌, inl, inr, true, false, Option, none, some, List, ◌∷◌,
  arith, ok, cases_list,
}
use aurum_iq.Prelude.Int.{ℤ, pos, ◌+ℤ◌, ◌-ℤ◌, ◌≤ℤ◌, ◌<ℤ◌, int_laws}
use aurum_iq.Core.Decimal.{Decimal, fin, pos_inf, neg_inf, nan, is_finite, le, zero_price}
use aurum_iq.Core.Candle.{QuoteData}
use aurum_iq.Risk.Barrier.{RiskSide}
use aurum_iq.Risk.Validity.{IsQuote}
use aurum_iq.Entry.Policy.{EntryExecutionPolicy, is_amount, is_bad_latency, is_configured_for}
use aurum_iq.Entry.Fill.{DecimalOps, DecimalLaws, SideAwareFillResult, Order, slippage_pct_of}
use aurum_iq.Entry.Market.{
  eligible_quotes, executable_price, against, market_fill, market_fill_at,
  simulate_market_after_signal,
}
use aurum_iq.Entry.Eligible.{eligible_quotes-first, IsFirstQuote}
use aurum_iq.Entry.Timing.{market_ok}

-- No better for the trade than the raw price: LONG pays at least it, SHORT receives at most it.
abbrev pub IsAdverse : RiskSide → ℤ → ℤ → Type 0
IsAdverse RiskSide.long raw price = raw ≤ℤ price
IsAdverse RiskSide.short raw price = price ≤ℤ raw

-- The side of the quote that a trade is made on: LONG on the ask, SHORT on the bid.
abbrev pub QuotesAt : RiskSide → QuoteData → ℤ → Type 0
QuotesAt RiskSide.long q raw = q.ask ≡ fin raw
QuotesAt RiskSide.short q raw = q.bid ≡ fin raw

executable-QuotesAt :
    (side : RiskSide) (q : QuoteData) (raw : ℤ)
    → executable_price side q ≡ fin raw
    → QuotesAt side q raw
executable-QuotesAt RiskSide.long q raw e = e
executable-QuotesAt RiskSide.short q raw e = e

amount_cases : (d : Decimal) → is_amount (some d) ≡ true → (a : ℤ) × (d ≡ fin a) × (pos 0 ≤ℤ a)
unfolding is_amount is_finite le
amount_cases (fin a) e = (a, refl, ground arith)
amount_cases pos_inf e = cc
amount_cases neg_inf e = cc
amount_cases nan e = cc

slippage_cases :
    (pct : Option Decimal)
    → (pct ≡ none) ⊎ (is_amount pct ≡ true)
    → (a : ℤ) × (or_else pct zero_price ≡ fin a) × (pos 0 ≤ℤ a)
slippage_cases none h = (pos 0, refl, omega arith)
slippage_cases (some d) (inl h) = cc
slippage_cases (some d) (inr h) = amount_cases d h

against-IsAdverse :
    (side : RiskSide) (raw slip : ℤ)
    → pos 0 ≤ℤ slip
    → (price : ℤ) × (against side (fin raw) (fin slip) ≡ fin price) × IsAdverse side raw price
against-IsAdverse RiskSide.long raw slip h = (raw +ℤ slip, refl, omega int_laws)
against-IsAdverse RiskSide.short raw slip h = (raw -ℤ slip, refl, omega int_laws)

quote_price :
    (side : RiskSide) (q : QuoteData)
    → IsQuote q
    → (raw : ℤ) × (executable_price side q ≡ fin raw) × (pos 0 ≤ℤ raw)
quote_price RiskSide.long q h = (h.ask_at, h.ask_fin, omega (arith, h.bid_pos, h.bid_ask))
quote_price RiskSide.short q h = (h.bid_at, h.bid_fin, omega (arith, h.bid_pos))

module _ (D : DecimalOps) (laws : DecimalLaws D) (o : Order) where
  fill_price_at :
      (q : QuoteData)
      → IsQuote q
      → (o.policy.slippage_pct ≡ none) ⊎ (is_amount o.policy.slippage_pct ≡ true)
      → (raw : ℤ) × (price : ℤ) × QuotesAt o.side q raw
        × ((market_fill_at D o q).raw_executable_price ≡ some (fin raw))
        × ((market_fill_at D o q).fill_price ≡ some (fin price))
        × IsAdverse o.side raw price
  fill_price_at q h s =
      let (raw, raw_same, raw_pos) = quote_price o.side q h in
      let (pct, pct_same, pct_pos) = slippage_cases o.policy.slippage_pct s in
      let (slip, slip_same, slip_pos) = laws.percent_nonneg raw pct raw_pos pct_pos in
      let (price, price_same, adverse) = against-IsAdverse o.side raw slip slip_pos in
      let slip_at : D.percent_of (executable_price o.side q) (slippage_pct_of o) ≡ fin slip =
        ap₂ D.percent_of raw_same pct_same ∙ slip_same in
      (
        raw,
        price,
        executable-QuotesAt o.side q raw raw_same,
        ap some raw_same,
        ap some (ap₂ (against o.side) raw_same slip_at ∙ price_same),
        adverse,
      )

  -- Where the slippage percentage is missing or an amount that is not negative, a market order that
  -- fills does so on the first sound quote of its window and is priced no better than it: LONG pays at
  -- least the ask of that quote, SHORT receives at most its bid.
  pub market_price-IsAdverse :
      (quotes : List QuoteData) {r : SideAwareFillResult}
      → (o.policy.slippage_pct ≡ none) ⊎ (is_amount o.policy.slippage_pct ≡ true)
      → simulate_market_after_signal D o quotes ≡ ok r
      → r.is_filled ≡ true
      → (q : QuoteData) × (raw : ℤ) × (price : ℤ) × IsFirstQuote o quotes q
        × QuotesAt o.side q raw
        × (r.raw_executable_price ≡ some (fin raw))
        × (r.fill_price ≡ some (fin price))
        × IsAdverse o.side raw price
  market_price-IsAdverse quotes {r} s e filled =
      let (_, _, same) = market_ok D o quotes e in
      elim (cases_list (eligible_quotes o quotes)) [
        | inl empty ↦ absurd (ground arith)
        | inr (q, qs, some_left) ↦
            let first = eligible_quotes-first o quotes some_left in
            let (raw, price, quoted, raw_at, price_at, adverse) = fill_price_at q first.sound s in
            let fills : r ≡ market_fill_at D o q = same ∙ ap (market_fill D o) some_left in
            (
              q,
              raw,
              price,
              first,
              quoted,
              ap (λ f. f.raw_executable_price) fills ∙ raw_at,
              ap (λ f. f.fill_price) fills ∙ price_at,
              adverse,
            )
      ]

module _ (D : DecimalOps) (o : Order) (quotes rest : List QuoteData) (q : QuoteData) where
  configured :
      is_bad_latency o.policy.latency ≡ false
      → is_amount o.policy.modeled_execution_gap_points ≡ true
      → is_configured_for o.policy EntryExecutionPolicy.market_after_signal ≡ true
  unfolding is_configured_for
  configured latency gap = ground arith

  -- The completeness check asks for a sound slippage percentage or for sound gap points, and the
  -- market simulation uses the percentage in either case. With sound points and a negative
  -- percentage, whose share of the ask is negative, a LONG market order is accepted and filled
  -- below the ask of its quote.
  pub gap_points_admit_better_price :
      (pct ask slip : ℤ)
      → o.signal_generated_at.aware ≡ true
      → o.side ≡ RiskSide.long
      → is_bad_latency o.policy.latency ≡ false
      → is_amount o.policy.modeled_execution_gap_points ≡ true
      → o.policy.slippage_pct ≡ some (fin pct)
      → pct <ℤ pos 0
      → eligible_quotes o quotes ≡ q ∷ rest
      → q.ask ≡ fin ask
      → D.percent_of (fin ask) (fin pct) ≡ fin slip
      → slip <ℤ pos 0
      → (r : SideAwareFillResult) × (price : ℤ) × (simulate_market_after_signal D o quotes ≡ ok r)
        × (r.fill_price ≡ some (fin price))
        × (price <ℤ ask)
  unfolding simulate_market_after_signal eligible_quotes
  gap_points_admit_better_price pct ask slip aware long latency gap slippage neg first at share
        less =
      let raw_at : executable_price o.side q ≡ fin ask = ap (λ s. executable_price s q) long ∙ at in
      let pct_at : slippage_pct_of o ≡ fin pct = ap (λ p. or_else p zero_price) slippage in
      let slip_at : D.percent_of (executable_price o.side q) (slippage_pct_of o) ≡ fin slip =
        ap₂ D.percent_of raw_at pct_at ∙ share in
      (
        market_fill_at D o q,
        ask +ℤ slip,
        rw (aware, configured latency gap, first) refl,
        ap some
            (ap₂ (against o.side) raw_at slip_at ∙ ap (λ s. against s (fin ask) (fin slip)) long),
        omega int_laws,
      )
