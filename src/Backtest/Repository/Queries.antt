-- ===== src/Backtest/Repository/Queries.antt =====
-- engine/backtest/repository.py: the queries of `PointInTimeDataset`.
use aurum_iq.Prelude.{
  ℕ, zero, suc, Bool, true, ◌&&◌, Option, none, some, List, [], ◌∷◌, leb, filter, get_last?,
  get_elem?, bisect_right,
}
use aurum_iq.Core.Decimal.{Decimal}
use aurum_iq.Core.Candle.{Datetime, CandleData, QuoteData, opens_at, closes_at}
use aurum_iq.Macro.Events.{Text, MacroEventContext}
use aurum_iq.Backtest.Repository.{
  Cycle3ASnapshot, XauReference, UsdtRate, MacroEntry, PointInTimeDataset, stamp, quoted_at,
  cycle_at, lower, same_text, candles_at,
}

-- `c.is_closed and _to_utc(c.timestamp_close) <= as_of_utc`.
abbrev pub is_known : ℕ → CandleData → Bool
is_known as_of c = c.is_closed && leb (closes_at c) as_of

-- `as_of_utc is None or t <= as_of_utc`.
abbrev pub by : Option ℕ → ℕ → Bool
by none t = true
by (some as_of) t = leb t as_of

abbrev pub is_intrabar : ℕ → ℕ → Option ℕ → CandleData → Bool
is_intrabar start end as_of c =
    leb start (opens_at c) && leb (closes_at c) end && by as_of (closes_at c)

abbrev pub is_slice_quote : ℕ → ℕ → Option ℕ → QuoteData → Bool
is_slice_quote start end as_of q =
    leb start (quoted_at q) && leb (quoted_at q) end && by as_of (quoted_at q)

abbrev pub utc_of : Option Datetime → Option ℕ
utc_of none = none
utc_of (some t) = some t.utc

unfoldable pub get_xau_candles : Datetime → PointInTimeDataset → List CandleData
get_xau_candles as_of d = filter (is_known as_of.utc) d.xau_candles

unfoldable pub get_closed_candles : Text → Datetime → PointInTimeDataset → List CandleData
get_closed_candles timeframe as_of d =
    filter (is_known as_of.utc) (candles_at (lower timeframe) d.candles)

unfoldable pub get_intrabar_candles :
    Text → Datetime → Datetime → Option Datetime → PointInTimeDataset → List CandleData
get_intrabar_candles timeframe start end as_of d =
    filter (is_intrabar start.utc end.utc (utc_of as_of)) (candles_at (lower timeframe) d.candles)

unfoldable pub get_quotes :
    Datetime → Datetime → Option Datetime → PointInTimeDataset → List QuoteData
get_quotes start end as_of d = filter (is_slice_quote start.utc end.utc (utc_of as_of)) d.quotes

-- `x[0] <= as_of_utc`.
abbrev pub is_by {ℓ} : {A : Type ℓ} → ℕ → ℕ × A → Bool
is_by as_of x = leb (stamp x) as_of

abbrev pub reference_of : Option XauReference → Option Decimal × Option Bool × Option ℕ
reference_of none = (none, none, none)
reference_of (some (t, (price, is_bullish))) = (some price, some is_bullish, some t)

unfoldable pub get_xau_reference :
    Datetime → PointInTimeDataset → Option Decimal × Option Bool × Option ℕ
get_xau_reference as_of d = reference_of (get_last? (filter (is_by as_of.utc) d.xau_references))

abbrev pub rate_of : Option UsdtRate → Option Decimal × Option ℕ
rate_of none = (none, none)
rate_of (some (t, rate)) = (some rate, some t)

unfoldable pub get_usdt_rate : Datetime → PointInTimeDataset → Option Decimal × Option ℕ
get_usdt_rate as_of d = rate_of (get_last? (filter (is_by as_of.utc) d.usdt_rates))

abbrev pub context_of : Option MacroEntry → Option MacroEventContext
context_of none = none
context_of (some (t, context)) = some context

-- `self._macro_events[idx][1]` for `idx` one less than what the search finds; none at 0.
abbrev pub before_index : ℕ → List MacroEntry → Option MacroEventContext
before_index zero events = none
before_index (suc idx) events = context_of (get_elem? events idx)

-- The lookup among events whose times are `keys`; none without events.
unfoldable pub context_at : List MacroEntry → List ℕ → ℕ → Option MacroEventContext
context_at [] keys as_of = none
context_at (e ∷ es) keys as_of = before_index (bisect_right keys as_of) (e ∷ es)

unfoldable pub get_macro_context : Datetime → PointInTimeDataset → Option MacroEventContext
get_macro_context as_of d = context_at d.macro_events d.macro_event_keys as_of.utc

-- `cycle_version is None or s.cycle_version == cycle_version`.
abbrev pub is_version : Option Text → Cycle3ASnapshot → Bool
is_version none s = true
is_version (some version) s = same_text s.cycle_version version

abbrev pub is_cycle_by : ℕ → Option Text → Cycle3ASnapshot → Bool
is_cycle_by as_of version s = leb (cycle_at s) as_of && is_version version s

unfoldable pub get_cycle_3a : Datetime → Option Text → PointInTimeDataset → Option Cycle3ASnapshot
get_cycle_3a as_of version d = get_last? (filter (is_cycle_by as_of.utc version) d.cycle_3a)
