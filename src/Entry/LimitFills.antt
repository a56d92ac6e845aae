-- ===== src/Entry/LimitFills.antt =====
-- When, and at what price, `simulate_limit_zone` of engine/risk/xauusd_execution.py fills.
use aurum_iq.Prelude.{
  ℕ, ◌≡◌, refl, subst, ◌⊎◌, inl, inr, true, false, Bool-cases, none, some, List, [], ◌∷◌, All,
  All-map, arith, ok,
}
use aurum_iq.Core.Decimal.{Decimal, le, lt, add, sub}
use aurum_iq.Core.Candle.{CandleData, QuoteData, opens_at}
use aurum_iq.Risk.Barrier.{RiskSide}
use aurum_iq.Risk.Validation.{is_bad_price}
use aurum_iq.Risk.Validity.{IsQuote, IsCandle, price_cases}
use aurum_iq.Entry.Fill.{DecimalOps, SideAwareFillResult, Order}
use aurum_iq.Entry.Market.{
  quoted_at, is_eligible_quote, is_eligible_bar, eligible_quotes, eligible_bars,
}
use aurum_iq.Entry.Limit.{
  triggers, touches, protected_price, limit_on_bar, first_touch, limit_by_quote, first_trigger,
  limit_fill, simulate_limit_zone,
}
use aurum_iq.Entry.Eligible.{
  InWindow, IsQuote-passed, bar_passed, eligible_quotes-All, eligible_bars-All, All-eligible_quotes,
  All-eligible_bars,
}

-- No worse than the limit: at or below it for LONG, at or above it for SHORT.
abbrev pub WithinLimit : RiskSide → Decimal → Decimal → Type 0
WithinLimit RiskSide.long limit price = le price limit ≡ true
WithinLimit RiskSide.short limit price = le limit price ≡ true

lt_le : (a b : Decimal) → lt a b ≡ true → le a b ≡ true
unfolding lt le
lt_le a b h = ground arith

le_refl : (limit : Decimal) → is_bad_price limit ≡ false → le limit limit ≡ true
unfolding le
le_refl limit h = let (a, same, _) = price_cases limit h in ground arith

protected_price-WithinLimit :
    (side : RiskSide) (limit raw slippage : Decimal)
    → is_bad_price limit ≡ false
    → WithinLimit side limit (protected_price side limit raw slippage)
protected_price-WithinLimit RiskSide.long limit raw slippage h =
    elim (Bool-cases (lt (add raw slippage) limit)) [
      | inl below ↦ rw (below) (lt_le _ _ below)
      | inr above ↦ rw (above) (le_refl limit h)
    ]
protected_price-WithinLimit RiskSide.short limit raw slippage h =
    elim (Bool-cases (lt limit (sub raw slippage))) [
      | inl above ↦ rw (above) (lt_le _ _ above)
      | inr below ↦ rw (below) (le_refl limit h)
    ]

same_side :
    (side : RiskSide) (limit : Decimal) → is_bad_price limit ≡ false → WithinLimit side limit limit
same_side RiskSide.long limit h = le_refl limit h
same_side RiskSide.short limit h = le_refl limit h

module _ (D : DecimalOps) (o : Order) (limit : Decimal) where
  -- A fill in the window of the order, at a price no worse than the limit.
  pub record IsLimitFill (r : SideAwareFillResult) : Type 0 where
    pub time : ℕ
    pub price : Decimal
    pub is_filled : r.is_filled ≡ true
    pub filled_at : r.fill_timestamp ≡ some time
    pub filled_for : r.fill_price ≡ some price
    pub window : InWindow o time
    pub within : WithinLimit o.side limit price

  -- Nothing in the window reaches the limit, and nothing is filled.
  pub record IsNoFill (quotes : List QuoteData) (candles : List CandleData)
      (r : SideAwareFillResult) : Type 0 where
    pub not_filled : r.is_filled ≡ false
    pub no_time : r.fill_timestamp ≡ none
    pub no_price : r.fill_price ≡ none
    pub no_trigger :
        All (λ q. IsQuote q → InWindow o (quoted_at q) → triggers o.side limit q ≡ false) quotes
    pub no_touch :
        All (λ c. IsCandle c → InWindow o (opens_at c) → touches o.side limit c ≡ false) candles

  quote_fills :
      (q : QuoteData)
      → is_bad_price limit ≡ false
      → is_eligible_quote o q ≡ true
      → IsLimitFill (limit_by_quote D o limit q)
  quote_fills q h k = record {
    time = quoted_at q;
    price = _;
    is_filled = refl;
    filled_at = refl;
    filled_for = refl;
    window = (IsQuote-passed o q k).1;
    within = protected_price-WithinLimit o.side limit _ _ h;
  }

  bar_fills :
      (c : CandleData)
      → is_bad_price limit ≡ false
      → is_eligible_bar o c ≡ true
      → IsLimitFill (limit_on_bar o limit c)
  bar_fills c h k = record {
    time = opens_at c;
    price = limit;
    is_filled = refl;
    filled_at = refl;
    filled_for = refl;
    window = (bar_passed o c k).1;
    within = same_side o.side limit h;
  }

  -- The loop over quotes stops at one of them, or none of them triggers.
  first_trigger-cases :
      (qs : List QuoteData)
      → is_bad_price limit ≡ false
      → All (λ q. is_eligible_quote o q ≡ true) qs
      → ((r : SideAwareFillResult) × (first_trigger D o limit qs ≡ some r) × IsLimitFill r)
        ⊎ ((first_trigger D o limit qs ≡ none) × All (λ q. triggers o.side limit q ≡ false) qs)
  unfolding first_trigger
  first_trigger-cases [] h _ = inr (refl, tt)
  first_trigger-cases (q ∷ qs) h (k, ks) = elim (Bool-cases (triggers o.side limit q)) [
    | inl hit ↦ inl (limit_by_quote D o limit q, ground arith, quote_fills q h k)
    | inr miss ↦ elim (first_trigger-cases qs h ks) [
      | inl (r, found, fill) ↦ inl (r, ground arith, fill)
      | inr (left, quiet) ↦ inr (ground arith, (miss, quiet))
    ]
  ]

  first_touch-cases :
      (cs : List CandleData)
      → is_bad_price limit ≡ false
      → All (λ c. is_eligible_bar o c ≡ true) cs
      → ((r : SideAwareFillResult) × (first_touch o limit cs ≡ some r) × IsLimitFill r)
        ⊎ ((first_touch o limit cs ≡ none) × All (λ c. touches o.side limit c ≡ false) cs)
  unfolding first_touch
  first_touch-cases [] h _ = inr (refl, tt)
  first_touch-cases (c ∷ cs) h (k, ks) = elim (Bool-cases (touches o.side limit c)) [
    | inl hit ↦ inl (limit_on_bar o limit c, ground arith, bar_fills c h k)
    | inr miss ↦ elim (first_touch-cases cs h ks) [
      | inl (r, found, fill) ↦ inl (r, ground arith, fill)
      | inr (left, quiet) ↦ inr (ground arith, (miss, quiet))
    ]
  ]

  limit_ok :
      (quotes : List QuoteData) (candles : List CandleData) {r : SideAwareFillResult}
      → simulate_limit_zone D o limit quotes candles ≡ ok r
      → (is_bad_price limit ≡ false) × (r ≡ limit_fill D o limit quotes candles)
  unfolding simulate_limit_zone
  limit_ok quotes candles e = ground arith

  All-quotes :
      (quotes : List QuoteData) → All (λ q. is_eligible_quote o q ≡ true) (eligible_quotes o quotes)
  All-quotes quotes =
      All-map _ _ (eligible_quotes o quotes) (λ q h. h.1) (eligible_quotes-All o quotes)

  All-bars :
      (candles : List CandleData) → All (λ c. is_eligible_bar o c ≡ true) (eligible_bars o candles)
  All-bars candles =
      All-map _ _ (eligible_bars o candles) (λ c h. h.1) (eligible_bars-All o candles)

  -- A limit order that is simulated without error is filled no earlier than the signal and its
  -- latency, no later than the deadline and at a price no worse than the limit; or it is not filled,
  -- no sound quote in that window triggers it, and no sound bar that opens in it touches the limit.
  pub limit_fills_or_untouched :
      (quotes : List QuoteData) (candles : List CandleData) {r : SideAwareFillResult}
      → simulate_limit_zone D o limit quotes candles ≡ ok r
      → IsLimitFill r ⊎ IsNoFill quotes candles r
  limit_fills_or_untouched quotes candles {r} e =
      let (sound, same) = limit_ok quotes candles e in
      elim (first_trigger-cases (eligible_quotes o quotes) sound (All-quotes quotes)) [
        | inl (f, found, fill) ↦ inl (subst IsLimitFill (ground arith) fill)
        | inr (no_quote, quiet) ↦
            elim (first_touch-cases (eligible_bars o candles) sound (All-bars candles)) [
              | inl (f, found, fill) ↦ inl (subst IsLimitFill (ground arith) fill)
              | inr (no_bar, still) ↦ inr (record {
                not_filled = ground arith;
                no_time = ground arith;
                no_price = ground arith;
                no_trigger =
                    All-eligible_quotes o (λ q. triggers o.side limit q ≡ false) quotes quiet;
                no_touch = All-eligible_bars o (λ c. touches o.side limit c ≡ false) candles still;
              })
            ]
      ]
