-- ===== src/Backtest/Repository/Log.antt =====
-- engine/backtest/repository.py: a dataset as a view of the log of what it was given. The log keeps
-- everything in the order in which it came.
use aurum_iq.Prelude.{◌≡◌, List, [], ◌∷◌, ◌++◌, map, if◌then◌else◌, sort_by}
use aurum_iq.Core.Decimal.{le}
use aurum_iq.Core.Candle.{CandleData, QuoteData, opens_at}
use aurum_iq.Macro.Events.{Text}
use aurum_iq.Backtest.Repository.{
  Cycle3ASnapshot, XauReference, UsdtRate, MacroEntry, PointInTimeDataset, DatasetInput, stamp,
  quoted_at, cycle_at, lower, same_text, candles_at, tf_15m, tf_1h, tf_4h, tf_1d, tf_5m, tf_1m,
}
use aurum_iq.Backtest.Repository.Changes.{Change}

pub record Log : Type 0 where
  pub candles : Text → List CandleData
  pub quotes : List QuoteData
  pub xau_candles : List CandleData
  pub xau_references : List XauReference
  pub usdt_rates : List UsdtRate
  pub macro_events : List MacroEntry
  pub cycle_3a : List Cycle3ASnapshot

abbrev pub log_candle : Text → CandleData → (Text → List CandleData) → Text → List CandleData
log_candle key c candles tf = if same_text key tf then candles tf ++ c ∷ [] else candles tf

-- What a call adds to the log.
unfoldable pub observe : Change → Log → Log
observe (Change.candle timeframe c) l = record l {
  candles = log_candle (lower timeframe) c l.candles;
}
observe (Change.xau_reference t price is_bullish) l = record l {
  xau_references = l.xau_references ++ (t.utc, (price, is_bullish)) ∷ [];
}
observe (Change.xau_candle c) l = record l {
  xau_candles = l.xau_candles ++ c ∷ [];
  xau_references =
      l.xau_references ++ (c.timestamp_close.utc, (c.close, le c.open_price c.close)) ∷ [];
}
observe (Change.usdt_rate t rate) l = record l { usdt_rates = l.usdt_rates ++ (t.utc, rate) ∷ [] }
observe (Change.macro_context t context) l = record l {
  macro_events = l.macro_events ++ (t.utc, context) ∷ [];
}
observe (Change.quote q) l = record l { quotes = l.quotes ++ q ∷ [] }
observe (Change.cycle s) l = record l { cycle_3a = l.cycle_3a ++ s ∷ [] }

unfoldable pub observe_all : List Change → Log → Log
observe_all [] l = l
observe_all (c ∷ cs) l = observe_all cs (observe c l)

abbrev pub initial_candles : DatasetInput → Text → List CandleData
initial_candles x tf =
    if same_text tf_15m tf
    then x.candles_15m
    else if same_text tf_1h tf
    then x.candles_1h
    else if same_text tf_4h tf
    then x.candles_4h
    else if same_text tf_1d tf
    then x.candles_1d
    else if same_text tf_5m tf
    then x.candles_5m
    else if same_text tf_1m tf
    then x.candles_1m
    else []

-- The log of what the constructor is given.
unfoldable pub new_log : DatasetInput → Log
new_log x = record {
  candles = initial_candles x;
  quotes = x.quotes;
  xau_candles = [];
  xau_references = x.xau_references;
  usdt_rates = x.usdt_rates;
  macro_events = x.macro_events;
  cycle_3a = x.cycle_3a;
}

-- A dataset holds the log, in the order of the times.
pub record Represents (l : Log) (d : PointInTimeDataset) : Type 0 where
  pub candles : (tf : Text) → candles_at tf d.candles ≡ sort_by opens_at (l.candles tf)
  pub quotes : d.quotes ≡ sort_by quoted_at l.quotes
  pub xau_candles : d.xau_candles ≡ sort_by opens_at l.xau_candles
  pub xau_references : d.xau_references ≡ sort_by stamp l.xau_references
  pub usdt_rates : d.usdt_rates ≡ sort_by stamp l.usdt_rates
  pub macro_events : d.macro_events ≡ sort_by stamp l.macro_events
  pub macro_event_keys : d.macro_event_keys ≡ map stamp d.macro_events
  pub cycle_3a : d.cycle_3a ≡ sort_by cycle_at l.cycle_3a
