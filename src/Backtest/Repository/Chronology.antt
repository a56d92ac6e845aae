-- ===== src/Backtest/Repository/Chronology.antt =====
-- engine/backtest/repository.py: the order in which a dataset keeps what it holds.
use aurum_iq.Prelude.{
  Bool, ◌≡◌, refl, inl, inr, List, [], ◌∷◌, ◌++◌, map, All, Ordered, sort_by-Ordered, Bool-cases,
}
use aurum_iq.Core.Decimal.{Decimal}
use aurum_iq.Core.Candle.{Datetime, CandleData, QuoteData, opens_at}
use aurum_iq.Macro.Events.{Text, MacroEventContext}
use aurum_iq.Backtest.Repository.{
  Cycle3ASnapshot, PointInTimeDataset, stamp, quoted_at, cycle_at, lower, same_text, candles_at,
  put_candle, new_dataset, add_candle, add_xau_reference, add_xau_candle, add_usdt_rate,
  add_macro_context, add_quote, add_cycle_3a,
}
use aurum_iq.Backtest.Repository.Changes.{Change, change, IsReachable}

abbrev HasOrderedCandles : List (Text × List CandleData) → Type 0
HasOrderedCandles = All (λ entry. Ordered opens_at entry.1)

-- Every list is in the order of its times, and the keys are the times of the macro events.
pub record IsChronological (d : PointInTimeDataset) : Type 0 where
  pub candles : HasOrderedCandles d.candles
  pub quotes : Ordered quoted_at d.quotes
  pub xau_candles : Ordered opens_at d.xau_candles
  pub xau_references : Ordered stamp d.xau_references
  pub usdt_rates : Ordered stamp d.usdt_rates
  pub macro_events : Ordered stamp d.macro_events
  pub macro_event_keys : d.macro_event_keys ≡ map stamp d.macro_events
  pub cycle_3a : Ordered cycle_at d.cycle_3a

put_candle-HasOrderedCandles :
    (tf : Text) (c : CandleData) (store : List (Text × List CandleData))
    → HasOrderedCandles store
    → HasOrderedCandles (put_candle tf c store)
unfolding put_candle
put_candle-HasOrderedCandles tf c [] _ = (sort_by-Ordered opens_at (c ∷ []), tt)
put_candle-HasOrderedCandles tf c ((key, cs) ∷ rest) (h, hs) =
    elim (Bool-cases (same_text key tf)) [
      | inl same ↦ rw (same) (sort_by-Ordered opens_at (cs ++ c ∷ []), hs)
      | inr other ↦ rw (other) (h, put_candle-HasOrderedCandles tf c rest hs)
    ]

pub candles_at-Ordered :
    (tf : Text) (store : List (Text × List CandleData))
    → HasOrderedCandles store
    → Ordered opens_at (candles_at tf store)
unfolding candles_at
candles_at-Ordered tf [] _ = tt
candles_at-Ordered tf ((key, cs) ∷ rest) (h, hs) = elim (Bool-cases (same_text key tf)) [
  | inl same ↦ rw (same) h
  | inr other ↦ rw (other) (candles_at-Ordered tf rest hs)
]

module _ (d : PointInTimeDataset) (h : IsChronological d) where
  add_candle-IsChronological :
      (timeframe : Text) (c : CandleData) → IsChronological (add_candle timeframe c d)
  unfolding add_candle
  add_candle-IsChronological timeframe c = record {
    candles = put_candle-HasOrderedCandles (lower timeframe) c d.candles h.candles;
    quotes = h.quotes;
    xau_candles = h.xau_candles;
    xau_references = h.xau_references;
    usdt_rates = h.usdt_rates;
    macro_events = h.macro_events;
    macro_event_keys = h.macro_event_keys;
    cycle_3a = h.cycle_3a;
  }

  add_xau_reference-IsChronological :
      (t : Datetime) (price : Decimal) (is_bullish : Bool)
      → IsChronological (add_xau_reference t price is_bullish d)
  unfolding add_xau_reference
  add_xau_reference-IsChronological t price is_bullish = record {
    candles = h.candles;
    quotes = h.quotes;
    xau_candles = h.xau_candles;
    xau_references = sort_by-Ordered stamp _;
    usdt_rates = h.usdt_rates;
    macro_events = h.macro_events;
    macro_event_keys = h.macro_event_keys;
    cycle_3a = h.cycle_3a;
  }

  add_xau_candle-IsChronological : (c : CandleData) → IsChronological (add_xau_candle c d)
  unfolding add_xau_candle add_xau_reference
  add_xau_candle-IsChronological c = record {
    candles = h.candles;
    quotes = h.quotes;
    xau_candles = sort_by-Ordered opens_at _;
    xau_references = sort_by-Ordered stamp _;
    usdt_rates = h.usdt_rates;
    macro_events = h.macro_events;
    macro_event_keys = h.macro_event_keys;
    cycle_3a = h.cycle_3a;
  }

  add_usdt_rate-IsChronological :
      (t : Datetime) (rate : Decimal) → IsChronological (add_usdt_rate t rate d)
  unfolding add_usdt_rate
  add_usdt_rate-IsChronological t rate = record {
    candles = h.candles;
    quotes = h.quotes;
    xau_candles = h.xau_candles;
    xau_references = h.xau_references;
    usdt_rates = sort_by-Ordered stamp _;
    macro_events = h.macro_events;
    macro_event_keys = h.macro_event_keys;
    cycle_3a = h.cycle_3a;
  }

  add_macro_context-IsChronological :
      (t : Datetime) (context : MacroEventContext) → IsChronological (add_macro_context t context d)
  unfolding add_macro_context
  add_macro_context-IsChronological t context = record {
    candles = h.candles;
    quotes = h.quotes;
    xau_candles = h.xau_candles;
    xau_references = h.xau_references;
    usdt_rates = h.usdt_rates;
    macro_events = sort_by-Ordered stamp _;
    macro_event_keys = refl;
    cycle_3a = h.cycle_3a;
  }

  add_quote-IsChronological : (q : QuoteData) → IsChronological (add_quote q d)
  unfolding add_quote
  add_quote-IsChronological q = record {
    candles = h.candles;
    quotes = sort_by-Ordered quoted_at _;
    xau_candles = h.xau_candles;
    xau_references = h.xau_references;
    usdt_rates = h.usdt_rates;
    macro_events = h.macro_events;
    macro_event_keys = h.macro_event_keys;
    cycle_3a = h.cycle_3a;
  }

  add_cycle_3a-IsChronological : (s : Cycle3ASnapshot) → IsChronological (add_cycle_3a s d)
  unfolding add_cycle_3a
  add_cycle_3a-IsChronological s = record {
    candles = h.candles;
    quotes = h.quotes;
    xau_candles = h.xau_candles;
    xau_references = h.xau_references;
    usdt_rates = h.usdt_rates;
    macro_events = h.macro_events;
    macro_event_keys = h.macro_event_keys;
    cycle_3a = sort_by-Ordered cycle_at _;
  }

  pub change-IsChronological : (c : Change) → IsChronological (change c d)
  unfolding change
  change-IsChronological (Change.candle timeframe c) = add_candle-IsChronological timeframe c
  change-IsChronological (Change.xau_reference t price is_bullish) =
      add_xau_reference-IsChronological t price is_bullish
  change-IsChronological (Change.xau_candle c) = add_xau_candle-IsChronological c
  change-IsChronological (Change.usdt_rate t rate) = add_usdt_rate-IsChronological t rate
  change-IsChronological (Change.macro_context t context) =
      add_macro_context-IsChronological t context
  change-IsChronological (Change.quote q) = add_quote-IsChronological q
  change-IsChronological (Change.cycle s) = add_cycle_3a-IsChronological s

-- The constructor and any sequence of additions leave every list of the dataset in the order of its
-- times, and the keys for the binary search equal to the times of the macro events.
pub reachable-IsChronological : (d : PointInTimeDataset) → IsReachable d → IsChronological d
unfolding new_dataset
reachable-IsChronological d (IsReachable.constructed x) = record {
  candles = (
    sort_by-Ordered opens_at _,
    (
      sort_by-Ordered opens_at _,
      (
        sort_by-Ordered opens_at _,
        (
          sort_by-Ordered opens_at _,
          (sort_by-Ordered opens_at _, (sort_by-Ordered opens_at _, tt)),
        ),
      ),
    ),
  );
  quotes = sort_by-Ordered quoted_at _;
  xau_candles = tt;
  xau_references = sort_by-Ordered stamp _;
  usdt_rates = sort_by-Ordered stamp _;
  macro_events = sort_by-Ordered stamp _;
  macro_event_keys = refl;
  cycle_3a = sort_by-Ordered cycle_at _;
}
reachable-IsChronological _ (IsReachable.changed {d} c h) =
    change-IsChronological d (reachable-IsChronological d h) c
