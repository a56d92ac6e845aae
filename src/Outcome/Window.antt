-- ===== src/Outcome/Window.antt =====
-- engine/backtest/xauusd_outcomes.py: the evidence that `resolve_trade` admits.
use aurum_iq.Core.Candle.{
  QuoteData, CandleData, Datetime, closes_at, microseconds_per_second, opens_at,
}
use aurum_iq.Prelude.{
  Bool, List, Option, ℕ, ◌*◌, leb, ltb, if◌then◌else◌, filter, some, given_or, true, ◌&&◌, false,
  none, ◌∷◌, not, [],
}
use aurum_iq.Outcome.Trade.{TradeRequest, Attempt, XauUsdOutcomeEngine, raises_value_error, done}

abbrev pub bar_15m : ℕ
bar_15m = 900 * microseconds_per_second

-- `run_end_utc is None or t < run_end_utc`.
abbrev pub before_end : Option Datetime → ℕ → Bool
before_end none t = true
before_end (some e) t = ltb t e.utc

abbrev pub is_valid_candle : TradeRequest → CandleData → Bool
is_valid_candle x c =
    ltb x.signal_timestamp.utc (closes_at c) && before_end x.run_end_time (closes_at c)

abbrev pub is_valid_quote : TradeRequest → QuoteData → Bool
is_valid_quote x q =
    leb x.signal_timestamp.utc q.timestamp.utc && before_end x.run_end_time q.timestamp.utc

-- `_require_utc` raises for a naive time; the comprehensions ask it of every close and every quote.
unfoldable pub all_closes_aware : List CandleData → Bool
all_closes_aware [] = true
all_closes_aware (c ∷ cs) = c.timestamp_close.aware && all_closes_aware cs

unfoldable pub all_opens_aware : List CandleData → Bool
all_opens_aware [] = true
all_opens_aware (c ∷ cs) = c.timestamp_open.aware && all_opens_aware cs

unfoldable pub all_quotes_aware : List QuoteData → Bool
all_quotes_aware [] = true
all_quotes_aware (q ∷ qs) = q.timestamp.aware && all_quotes_aware qs

abbrev pub is_end_aware : Option Datetime → Bool
is_end_aware none = true
is_end_aware (some e) = e.aware

abbrev pub is_evidence_aware : TradeRequest → Bool
is_evidence_aware x =
    all_closes_aware x.future_candles_15m
    && all_closes_aware x.future_candles_5m
    && all_closes_aware x.future_candles_1m
    && all_quotes_aware x.future_quotes

-- The admitted evidence.
pub record Evidence : Type 0 where
  pub candles_15m : List CandleData
  pub candles_5m : List CandleData
  pub candles_1m : List CandleData
  pub quotes : List QuoteData

unfoldable pub admit : TradeRequest → Attempt Evidence
admit x =
    if not (is_end_aware x.run_end_time)
    then raises_value_error
    else if not (is_evidence_aware x)
    then raises_value_error
    else done (record {
      candles_15m = filter (is_valid_candle x) x.future_candles_15m;
      candles_5m = filter (is_valid_candle x) x.future_candles_5m;
      candles_1m = filter (is_valid_candle x) x.future_candles_1m;
      quotes = filter (is_valid_quote x) x.future_quotes;
    })

-- `fill_search_seconds`, in microseconds; none raises.
abbrev pub bars_wait : Option ℕ → Option ℕ
bars_wait none = none
bars_wait (some bars) = some (bars * bar_15m)

unfoldable pub fill_search : XauUsdOutcomeEngine → TradeRequest → Option ℕ
fill_search e x =
    given_or (given_or x.max_fill_wait e.max_fill_wait)
      (bars_wait (given_or x.max_fill_wait_bars_15m e.max_fill_wait_bars_15m))

-- The end of the search for a fill: the run's end where that is no later, which is then exclusive.
pub record Deadline : Type 0 where
  pub effective : ℕ
  pub is_run_end_binding : Bool

abbrev pub deadline_with : Option Datetime → ℕ → Deadline
deadline_with none fill_deadline = record { effective = fill_deadline; is_run_end_binding = false }
deadline_with (some e) fill_deadline =
    if leb e.utc fill_deadline
    then record { effective = e.utc; is_run_end_binding = true }
    else record { effective = fill_deadline; is_run_end_binding = false }

-- `t < run_end_utc` if that binds, else `t <= fill_deadline`.
abbrev pub by_search_end : Deadline → ℕ → Bool
by_search_end d t = if d.is_run_end_binding then ltb t d.effective else leb t d.effective

-- `effective_deadline if not is_run_end_binding else None`.
abbrev pub passed_deadline : Deadline → Option Datetime
passed_deadline d =
    if d.is_run_end_binding then none else some (record { aware = true; utc = d.effective })

abbrev pub entry_candles : Deadline → List CandleData → List CandleData
entry_candles d cs = filter (λ c. by_search_end d (opens_at c)) cs

abbrev pub entry_quotes : Deadline → List QuoteData → List QuoteData
entry_quotes d qs = filter (λ q. by_search_end d q.timestamp.utc) qs
