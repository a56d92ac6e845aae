-- ===== src/Backtest/Repository.antt =====
-- engine/backtest/repository.py: the state of `PointInTimeDataset`, its constructor and what adds to
-- it. Instants stand for the datetimes that `_to_utc` makes; strings are lists of code points, of
-- which `lower` changes the ASCII capitals only.
pub mod Queries
pub mod Changes
pub mod Latest
pub mod Chronology
pub mod Future
pub mod Unseen
pub mod Log
pub mod Store
pub mod Refines
pub mod Answers
use aurum_iq.Prelude.{
  ℕ, ◌+◌, Bool, true, false, ◌&&◌, List, [], ◌∷◌, ◌++◌, map, if◌then◌else◌, ltb, leb, ◌==◌, sort_by,
}
use aurum_iq.Core.Decimal.{Decimal, le}
use aurum_iq.Core.Candle.{Datetime, CandleData, QuoteData, opens_at}
use aurum_iq.Macro.Events.{Text, MacroEventContext}

-- What the repository reads of a Cycle3ASnapshot, and its events.
pub record Cycle3ASnapshot : Type 0 where
  pub timestamp : Datetime
  pub macro_event : MacroEventContext
  pub is_blocked_by_event : Bool
  pub cycle_version : Text

abbrev pub XauReference : Type 0
XauReference = ℕ × (Decimal × Bool)

abbrev pub UsdtRate : Type 0
UsdtRate = ℕ × Decimal

abbrev pub MacroEntry : Type 0
MacroEntry = ℕ × MacroEventContext

-- `x[0]` of a tuple.
abbrev pub stamp {ℓ} : {A : Type ℓ} → ℕ × A → ℕ
stamp x = x.0

abbrev pub quoted_at : QuoteData → ℕ
quoted_at q = q.timestamp.utc

abbrev pub cycle_at : Cycle3ASnapshot → ℕ
cycle_at s = s.timestamp.utc

-- The dictionary of candles is a list of its entries.
pub record PointInTimeDataset : Type 0 where
  pub candles : List (Text × List CandleData)
  pub quotes : List QuoteData
  pub xau_candles : List CandleData
  pub xau_references : List XauReference
  pub usdt_rates : List UsdtRate
  pub macro_events : List MacroEntry
  pub macro_event_keys : List ℕ
  pub cycle_3a : List Cycle3ASnapshot

-- `timeframe.lower()`.
abbrev pub lower_char : ℕ → ℕ
lower_char c = if leb 65 c && leb c 90 then c + 32 else c

unfoldable pub lower : Text → Text
lower s = map lower_char s

-- `a == b` of strings.
unfoldable pub same_text : Text → Text → Bool
same_text [] [] = true
same_text [] (d ∷ t) = false
same_text (c ∷ s) [] = false
same_text (c ∷ s) (d ∷ t) = c == d && same_text s t

-- `self._candles.get(tf, [])`.
unfoldable pub candles_at : Text → List (Text × List CandleData) → List CandleData
candles_at tf [] = []
candles_at tf ((key, cs) ∷ rest) = if same_text key tf then cs else candles_at tf rest

-- A candle appended to the list of a timeframe, which is then sorted; a new timeframe has a new list.
unfoldable pub put_candle :
    Text → CandleData → List (Text × List CandleData) → List (Text × List CandleData)
put_candle tf c [] = (tf, sort_by opens_at (c ∷ [])) ∷ []
put_candle tf c ((key, cs) ∷ rest) =
    let later = put_candle tf c rest in
    if same_text key tf then (key, sort_by opens_at (cs ++ c ∷ [])) ∷ rest else (key, cs) ∷ later

-- The arguments of the constructor; a list that is not given is empty.
pub record DatasetInput : Type 0 where
  pub candles_15m : List CandleData
  pub candles_1h : List CandleData
  pub candles_4h : List CandleData
  pub candles_1d : List CandleData
  pub candles_5m : List CandleData
  pub candles_1m : List CandleData
  pub quotes : List QuoteData
  pub xau_references : List XauReference
  pub usdt_rates : List UsdtRate
  pub macro_events : List MacroEntry
  pub cycle_3a : List Cycle3ASnapshot

-- "15m", "1h", "4h", "1d", "5m" and "1m".
abbrev pub tf_15m : Text
tf_15m = 49 ∷ 53 ∷ 109 ∷ []

abbrev pub tf_1h : Text
tf_1h = 49 ∷ 104 ∷ []

abbrev pub tf_4h : Text
tf_4h = 52 ∷ 104 ∷ []

abbrev pub tf_1d : Text
tf_1d = 49 ∷ 100 ∷ []

abbrev pub tf_5m : Text
tf_5m = 53 ∷ 109 ∷ []

abbrev pub tf_1m : Text
tf_1m = 49 ∷ 109 ∷ []

-- `PointInTimeDataset(...)`.
unfoldable pub new_dataset : DatasetInput → PointInTimeDataset
new_dataset x =
    let events = sort_by stamp x.macro_events in
    record {
      candles =
          (tf_15m, sort_by opens_at x.candles_15m)
          ∷ (tf_1h, sort_by opens_at x.candles_1h)
          ∷ (tf_4h, sort_by opens_at x.candles_4h)
          ∷ (tf_1d, sort_by opens_at x.candles_1d)
          ∷ (tf_5m, sort_by opens_at x.candles_5m)
          ∷ (tf_1m, sort_by opens_at x.candles_1m)
          ∷ [];
      quotes = sort_by quoted_at x.quotes;
      xau_candles = [];
      xau_references = sort_by stamp x.xau_references;
      usdt_rates = sort_by stamp x.usdt_rates;
      macro_events = events;
      macro_event_keys = map stamp events;
      cycle_3a = sort_by cycle_at x.cycle_3a;
    }

unfoldable pub add_candle : Text → CandleData → PointInTimeDataset → PointInTimeDataset
add_candle timeframe c d = record d { candles = put_candle (lower timeframe) c d.candles }

unfoldable pub add_xau_reference :
    Datetime → Decimal → Bool → PointInTimeDataset → PointInTimeDataset
add_xau_reference t price is_bullish d = record d {
  xau_references = sort_by stamp (d.xau_references ++ (t.utc, (price, is_bullish)) ∷ []);
}

unfoldable pub add_xau_candle : CandleData → PointInTimeDataset → PointInTimeDataset
add_xau_candle c d =
    let is_bullish = le c.open_price c.close in
    add_xau_reference c.timestamp_close c.close is_bullish
      (record d { xau_candles = sort_by opens_at (d.xau_candles ++ c ∷ []) })

unfoldable pub add_usdt_rate : Datetime → Decimal → PointInTimeDataset → PointInTimeDataset
add_usdt_rate t rate d = record d {
  usdt_rates = sort_by stamp (d.usdt_rates ++ (t.utc, rate) ∷ []);
}

unfoldable pub add_macro_context :
    Datetime → MacroEventContext → PointInTimeDataset → PointInTimeDataset
add_macro_context t context d =
    let events = sort_by stamp (d.macro_events ++ (t.utc, context) ∷ []) in
    record d { macro_events = events; macro_event_keys = map stamp events }

unfoldable pub add_quote : QuoteData → PointInTimeDataset → PointInTimeDataset
add_quote q d = record d { quotes = sort_by quoted_at (d.quotes ++ q ∷ []) }

unfoldable pub add_cycle_3a : Cycle3ASnapshot → PointInTimeDataset → PointInTimeDataset
add_cycle_3a s d = record d { cycle_3a = sort_by cycle_at (d.cycle_3a ++ s ∷ []) }
