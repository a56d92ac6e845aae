-- ===== src/Backtest/Repository/Refines.antt =====
-- engine/backtest/repository.py: every method keeps a dataset in step with the log.
use aurum_iq.Prelude.{
  ℕ, ◌≡◌, refl, ap, ◌∙◌, inl, inr, Bool, true, false, List, [], ◌∷◌, ◌++◌, if◌then◌else◌, sort_by,
  sort_by-append, Bool-cases,
}
use aurum_iq.Core.Candle.{Datetime, CandleData, QuoteData, opens_at}
use aurum_iq.Macro.Events.{Text, MacroEventContext}
use aurum_iq.Backtest.Repository.{
  Cycle3ASnapshot, PointInTimeDataset, DatasetInput, stamp, quoted_at, cycle_at, lower, same_text,
  candles_at, put_candle, new_dataset, add_candle, add_xau_reference, add_xau_candle, add_usdt_rate,
  add_macro_context, add_quote, add_cycle_3a, Decimal,
}
use aurum_iq.Backtest.Repository.Log.{Log, log_candle, observe, observe_all, new_log, Represents}
use aurum_iq.Backtest.Repository.Store.{candles_at-put_candle}
use aurum_iq.Backtest.Repository.Changes.{Change, change, changes}

-- An element added to a sorted view of a list.
added {ℓ} :
    {A : Type ℓ} (key : A → ℕ) (x : A) (log : List A) {view : List A}
    → view ≡ sort_by key log
    → sort_by key (view ++ x ∷ []) ≡ sort_by key (log ++ x ∷ [])
added key x log {view} e = ap (λ xs. sort_by key (xs ++ x ∷ [])) e ∙ sort_by-append key log (x ∷ [])

seen_candle :
    (tf key : Text) (c : CandleData) (log : Text → List CandleData)
    (store : List (Text × List CandleData))
    → candles_at tf store ≡ sort_by opens_at (log tf)
    → candles_at tf (put_candle key c store) ≡ sort_by opens_at (log_candle key c log tf)
seen_candle tf key c log store e =
    candles_at-put_candle tf key c store ∙ elim (Bool-cases (same_text key tf)) [
      | inl asked ↦ rw (asked) (added opens_at c (log tf) e)
      | inr other ↦ rw (other) e
    ]

module _ (l : Log) (d : PointInTimeDataset) (h : Represents l d) where
  add_candle-Represents :
      (timeframe : Text) (c : CandleData)
      → Represents (observe (Change.candle timeframe c) l) (add_candle timeframe c d)
  unfolding add_candle observe
  add_candle-Represents timeframe c = record {
    candles = λ tf. seen_candle tf (lower timeframe) c l.candles d.candles (h.candles tf);
    quotes = h.quotes;
    xau_candles = h.xau_candles;
    xau_references = h.xau_references;
    usdt_rates = h.usdt_rates;
    macro_events = h.macro_events;
    macro_event_keys = h.macro_event_keys;
    cycle_3a = h.cycle_3a;
  }

  add_xau_reference-Represents :
      (t : Datetime) (price : Decimal) (is_bullish : Bool)
      → Represents
          (observe (Change.xau_reference t price is_bullish) l)
          (add_xau_reference t price is_bullish d)
  unfolding add_xau_reference observe
  add_xau_reference-Represents t price is_bullish = record {
    candles = h.candles;
    quotes = h.quotes;
    xau_candles = h.xau_candles;
    xau_references = added stamp _ l.xau_references h.xau_references;
    usdt_rates = h.usdt_rates;
    macro_events = h.macro_events;
    macro_event_keys = h.macro_event_keys;
    cycle_3a = h.cycle_3a;
  }

  add_xau_candle-Represents :
      (c : CandleData) → Represents (observe (Change.xau_candle c) l) (add_xau_candle c d)
  unfolding add_xau_candle add_xau_reference observe
  add_xau_candle-Represents c = record {
    candles = h.candles;
    quotes = h.quotes;
    xau_candles = added opens_at c l.xau_candles h.xau_candles;
    xau_references = added stamp _ l.xau_references h.xau_references;
    usdt_rates = h.usdt_rates;
    macro_events = h.macro_events;
    macro_event_keys = h.macro_event_keys;
    cycle_3a = h.cycle_3a;
  }

  add_usdt_rate-Represents :
      (t : Datetime) (rate : Decimal)
      → Represents (observe (Change.usdt_rate t rate) l) (add_usdt_rate t rate d)
  unfolding add_usdt_rate observe
  add_usdt_rate-Represents t rate = record {
    candles = h.candles;
    quotes = h.quotes;
    xau_candles = h.xau_candles;
    xau_references = h.xau_references;
    usdt_rates = added stamp _ l.usdt_rates h.usdt_rates;
    macro_events = h.macro_events;
    macro_event_keys = h.macro_event_keys;
    cycle_3a = h.cycle_3a;
  }

  add_macro_context-Represents :
      (t : Datetime) (context : MacroEventContext)
      → Represents (observe (Change.macro_context t context) l) (add_macro_context t context d)
  unfolding add_macro_context observe
  add_macro_context-Represents t context = record {
    candles = h.candles;
    quotes = h.quotes;
    xau_candles = h.xau_candles;
    xau_references = h.xau_references;
    usdt_rates = h.usdt_rates;
    macro_events = added stamp _ l.macro_events h.macro_events;
    macro_event_keys = refl;
    cycle_3a = h.cycle_3a;
  }

  add_quote-Represents : (q : QuoteData) → Represents (observe (Change.quote q) l) (add_quote q d)
  unfolding add_quote observe
  add_quote-Represents q = record {
    candles = h.candles;
    quotes = added quoted_at q l.quotes h.quotes;
    xau_candles = h.xau_candles;
    xau_references = h.xau_references;
    usdt_rates = h.usdt_rates;
    macro_events = h.macro_events;
    macro_event_keys = h.macro_event_keys;
    cycle_3a = h.cycle_3a;
  }

  add_cycle_3a-Represents :
      (s : Cycle3ASnapshot) → Represents (observe (Change.cycle s) l) (add_cycle_3a s d)
  unfolding add_cycle_3a observe
  add_cycle_3a-Represents s = record {
    candles = h.candles;
    quotes = h.quotes;
    xau_candles = h.xau_candles;
    xau_references = h.xau_references;
    usdt_rates = h.usdt_rates;
    macro_events = h.macro_events;
    macro_event_keys = h.macro_event_keys;
    cycle_3a = added cycle_at s l.cycle_3a h.cycle_3a;
  }

  pub change-Represents : (c : Change) → Represents (observe c l) (change c d)
  unfolding change
  change-Represents (Change.candle timeframe c) = add_candle-Represents timeframe c
  change-Represents (Change.xau_reference t price is_bullish) =
      add_xau_reference-Represents t price is_bullish
  change-Represents (Change.xau_candle c) = add_xau_candle-Represents c
  change-Represents (Change.usdt_rate t rate) = add_usdt_rate-Represents t rate
  change-Represents (Change.macro_context t context) = add_macro_context-Represents t context
  change-Represents (Change.quote q) = add_quote-Represents q
  change-Represents (Change.cycle s) = add_cycle_3a-Represents s

-- A choice of lists is sorted as the lists are.
chosen :
    (b : Bool) (xs zs : List CandleData) {ys : List CandleData}
    → ys ≡ sort_by opens_at zs
    → (if b then sort_by opens_at xs else ys) ≡ sort_by opens_at (if b then xs else zs)
chosen true xs zs e = refl
chosen false xs zs e = e

no_candles : [] ≡ sort_by opens_at []
unfolding sort_by
no_candles = refl

new_dataset-Represents : (x : DatasetInput) → Represents (new_log x) (new_dataset x)
unfolding new_dataset new_log candles_at
new_dataset-Represents x = record {
  candles = λ tf. chosen _ x.candles_15m _ (
      chosen _ x.candles_1h _ (
        chosen _ x.candles_4h _ (
          chosen _ x.candles_1d _ (chosen _ x.candles_5m _ (chosen _ x.candles_1m _ no_candles)))));
  quotes = refl;
  xau_candles = no_candles;
  xau_references = refl;
  usdt_rates = refl;
  macro_events = refl;
  macro_event_keys = refl;
  cycle_3a = refl;
}

changes-Represents :
    (cs : List Change) (l : Log) (d : PointInTimeDataset)
    → Represents l d
    → Represents (observe_all cs l) (changes cs d)
unfolding changes observe_all
changes-Represents [] l d h = h
changes-Represents (c ∷ cs) l d h =
    changes-Represents cs (observe c l) (change c d) (change-Represents l d h c)

pub dataset-Represents :
    (x : DatasetInput) (cs : List Change)
    → Represents (observe_all cs (new_log x)) (changes cs (new_dataset x))
dataset-Represents x cs =
    changes-Represents cs (new_log x) (new_dataset x) (new_dataset-Represents x)
