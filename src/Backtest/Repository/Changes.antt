-- ===== src/Backtest/Repository/Changes.antt =====
-- engine/backtest/repository.py: the methods that add data, as the steps of a dataset, and what each
-- of them brings.
use aurum_iq.Prelude.{ℕ, Bool, List, [], ◌∷◌}
use aurum_iq.Core.Decimal.{Decimal}
use aurum_iq.Core.Candle.{Datetime, CandleData, QuoteData, closes_at}
use aurum_iq.Macro.Events.{Text, MacroEventContext}
use aurum_iq.Backtest.Repository.{
  Cycle3ASnapshot, PointInTimeDataset, DatasetInput, quoted_at, cycle_at, new_dataset, add_candle,
  add_xau_reference, add_xau_candle, add_usdt_rate, add_macro_context, add_quote, add_cycle_3a,
}

-- A call of one of the methods.
pub data Change : Type 0 where
  candle : Text → CandleData → Change
  xau_reference : Datetime → Decimal → Bool → Change
  xau_candle : CandleData → Change
  usdt_rate : Datetime → Decimal → Change
  macro_context : Datetime → MacroEventContext → Change
  quote : QuoteData → Change
  cycle : Cycle3ASnapshot → Change

unfoldable pub change : Change → PointInTimeDataset → PointInTimeDataset
change (Change.candle timeframe c) d = add_candle timeframe c d
change (Change.xau_reference t price is_bullish) d = add_xau_reference t price is_bullish d
change (Change.xau_candle c) d = add_xau_candle c d
change (Change.usdt_rate t rate) d = add_usdt_rate t rate d
change (Change.macro_context t context) d = add_macro_context t context d
change (Change.quote q) d = add_quote q d
change (Change.cycle s) d = add_cycle_3a s d

-- Several calls, the first of the list first.
unfoldable pub changes : List Change → PointInTimeDataset → PointInTimeDataset
changes [] d = d
changes (c ∷ cs) d = changes cs (change c d)

-- The instant at which the world knows what a call brings.
abbrev pub known_at : Change → ℕ
known_at (Change.candle timeframe c) = closes_at c
known_at (Change.xau_reference t price is_bullish) = t.utc
known_at (Change.xau_candle c) = closes_at c
known_at (Change.usdt_rate t rate) = t.utc
known_at (Change.macro_context t context) = t.utc
known_at (Change.quote q) = quoted_at q
known_at (Change.cycle s) = cycle_at s

-- A dataset that the constructor and the methods can make.
pub data IsReachable : PointInTimeDataset → Type 0 where
  constructed : (x : DatasetInput) → IsReachable (new_dataset x)
  changed : {d : PointInTimeDataset} (c : Change) → IsReachable d → IsReachable (change c d)
