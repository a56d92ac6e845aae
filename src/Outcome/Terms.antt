-- ===== src/Outcome/Terms.antt =====
-- engine/backtest/xauusd_outcomes.py: the terms of a trade in `resolve_trade`.
use aurum_iq.Outcome.Window.{bar_15m}
use aurum_iq.Outcome.Walk.{reaches_tp2, is_nan}
use aurum_iq.Prelude.Int.{ℤ, ◌-ℤ◌}
use aurum_iq.Core.Candle.{CandleData, Datetime, closes_at, opens_at}
use aurum_iq.Core.Decimal.{Decimal, sub, le, fin}
use aurum_iq.Outcome.Trade.{RiskPlan, XauUsdTradeOutcome, Attempt, done}
use aurum_iq.Risk.Barrier.{RiskSide}
use aurum_iq.Prelude.{
  zero, [], none, false, ℕ, Option, some, List, if◌then◌else◌, Bool, suc, ◌*◌, leb, ◌∷◌, ◌==◌, ltb,
  ◌&&◌, ◌||◌,
}

-- The distance from the worst entry to the stop.
abbrev pub difference : Option ℤ → Option ℤ → Option ℤ
difference none b = none
difference (some a) none = none
difference (some a) (some b) = some (a -ℤ b)

abbrev pub planned_risk_of : RiskSide → RiskPlan → Option ℤ
planned_risk_of RiskSide.long p = difference p.entry_max p.stop_final
planned_risk_of RiskSide.short p = difference p.stop_final p.entry_min

-- The barriers, if both are there and the fill lies strictly between them.
abbrev pub is_stale : RiskSide → Decimal → ℤ → ℤ → Bool
is_stale RiskSide.long fill tp1 stop = le (fin tp1) fill || le fill (fin stop)
is_stale RiskSide.short fill tp1 stop = le fill (fin tp1) || le (fin stop) fill

-- The fill is compared with both barriers if they are there; a comparison with NaN raises.
abbrev pub is_unordered : Decimal → Option ℤ → Option ℤ → Bool
is_unordered fill none stop = false
is_unordered fill (some tp1) none = false
is_unordered fill (some tp1) (some stop) = is_nan fill

abbrev pub barriers : RiskSide → Decimal → Option ℤ → Option ℤ → Option (ℤ × ℤ)
barriers side fill none stop = none
barriers side fill (some tp1) none = none
barriers side fill (some tp1) (some stop) =
    if is_stale side fill tp1 stop then none else some (tp1, stop)

-- `a or b` of counts and times: 0 is falsy.
abbrev pub nonzero_or : Option ℕ → Option ℕ → Option ℕ
nonzero_or none b = b
nonzero_or (some a) b = if a == 0 then b else some a

-- The time that a trade is held for at most.
abbrev pub holding_time : Option ℕ → Option ℕ → Option ℕ
holding_time bars (some duration) = some duration
holding_time none none = none
holding_time (some bars) none = some (bars * bar_15m)

abbrev pub capped : Option Datetime → ℕ → ℕ
capped none t = t
capped (some e) t = if ltb e.utc t then e.utc else t

abbrev pub up_to : ℕ → List CandleData → List CandleData
up_to zero cs = []
up_to (suc n) [] = []
up_to (suc n) (c ∷ cs) = c ∷ up_to n cs

abbrev pub first_bars : Option ℕ → List CandleData → List CandleData
first_bars none cs = cs
first_bars (some n) cs = up_to n cs

abbrev pub is_post_fill : ℕ → ℕ → CandleData → Bool
is_post_fill fill_ts max_search_ts c = leb fill_ts (closes_at c) && ltb (opens_at c) max_search_ts

abbrev pub tp2_reached : RiskSide → XauUsdTradeOutcome → Option ℤ → List CandleData → Attempt Bool
tp2_reached side XauUsdTradeOutcome.tp1_first (some tp2) bars = reaches_tp2 side tp2 bars
tp2_reached side _ _ _ = done false

-- `exit - fill` for a LONG, `fill - exit` for a SHORT.
abbrev pub gain : RiskSide → Decimal → Decimal → Decimal
gain RiskSide.long fill price = sub price fill
gain RiskSide.short fill price = sub fill price
