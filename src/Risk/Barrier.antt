-- ===== src/Risk/Barrier.antt =====
-- engine/risk/xauusd_intrabar.py: the arguments and results of `SideAwareIntrabarResolver`, when a
-- bar touches a barrier, and the replay of lower-timeframe bars. TP and SL are finite decimals.
use aurum_iq.Prelude.{
  ℕ, suc, Bool, true, false, not, ◌&&◌, Option, none, some, List, [], ◌∷◌, if◌then◌else◌,
}
use aurum_iq.Prelude.Int.{ℤ}
use aurum_iq.Core.Decimal.{Decimal, fin, le}
use aurum_iq.Core.Candle.{Datetime, CandleData, closes_at}

pub data RiskSide : Type 0 where
  long short : RiskSide

pub data BarrierHitType : Type 0 where
  tp_first sl_first unresolved skipped : BarrierHitType

pub data IntrabarPolicy : Type 0 where
  lower_timeframe_replay conservative_sl_first worst_case skip_ambiguous : IntrabarPolicy

-- The parent timeframe; every string but "4H" and "1H" is handled as "15m" is.
pub data ParentTimeframe : Type 0 where
  h4 h1 other : ParentTimeframe

-- The one message that each result carries.
pub data Reason : Type 0 where
  parent_invalid fill_price_not_finite fill_outside_barriers naive_fill_timestamp : Reason
  neither_touched only_tp_touched only_sl_touched : Reason
  by_conservative_policy by_worst_case by_skip_policy : Reason
  tp_on_sub_bar sl_on_sub_bar ambiguous_sub_bar : Reason
  replay_unavailable : Reason

-- `any("ambiguous" in r for r in reasons)`. "Ambiguous collision ..." has a capital letter, and is
-- never asked about.
abbrev pub mentions_ambiguous : Reason → Bool
mentions_ambiguous Reason.ambiguous_sub_bar = true
mentions_ambiguous _ = false

pub record SideIntrabarResolutionResult : Type 0 where
  pub side : RiskSide
  pub barrier_hit : BarrierHitType
  pub exit_price : Option Decimal
  pub exit_timestamp : Option ℕ
  pub policy_applied : IntrabarPolicy
  pub replay_bars_count : ℕ
  pub reason : Reason

-- The arguments of `resolve`. A missing list of candles is the empty list: the code asks only
-- whether there are any.
pub record Request : Type 0 where
  pub side : RiskSide
  pub parent_candle : CandleData
  pub tp_price : ℤ
  pub sl_price : ℤ
  pub fill_timestamp : Option Datetime
  pub fill_price : Option Decimal
  pub candles_1m : List CandleData
  pub candles_5m : List CandleData
  pub candles_15m : List CandleData
  pub parent_timeframe : ParentTimeframe
  pub policy : IntrabarPolicy
  pub worst_case_adverse_gap : Option Decimal

unfoldable pub touches_tp : RiskSide → ℤ → CandleData → Bool
touches_tp RiskSide.long tp bar = le (fin tp) bar.high
touches_tp RiskSide.short tp bar = le bar.low (fin tp)

unfoldable pub touches_sl : RiskSide → ℤ → CandleData → Bool
touches_sl RiskSide.long sl bar = le bar.low (fin sl)
touches_sl RiskSide.short sl bar = le (fin sl) bar.high

abbrev pub hit_on_sub_bar :
    Request → CandleData → ℕ → BarrierHitType → ℤ → Reason → SideIntrabarResolutionResult
hit_on_sub_bar r bar i hit price reason = record {
  side = r.side;
  barrier_hit = hit;
  exit_price = some (fin price);
  exit_timestamp = some (closes_at bar);
  policy_applied = IntrabarPolicy.lower_timeframe_replay;
  replay_bars_count = i;
  reason = reason;
}

-- The loop of `_replay_bars`; `i` numbers the bar that is looked at, from 1.
unfoldable pub replay_from : Request → ℕ → List CandleData → Option SideIntrabarResolutionResult
replay_from r i [] = none
replay_from r i (bar ∷ bars) =
    let rest = replay_from r (suc i) bars in
    let tp = touches_tp r.side r.tp_price bar in
    let sl = touches_sl r.side r.sl_price bar in
    if tp && not sl
    then some (hit_on_sub_bar r bar i BarrierHitType.tp_first r.tp_price Reason.tp_on_sub_bar)
    else if sl && not tp
    then some (hit_on_sub_bar r bar i BarrierHitType.sl_first r.sl_price Reason.sl_on_sub_bar)
    else if tp && sl
    then some (hit_on_sub_bar r bar i BarrierHitType.sl_first r.sl_price Reason.ambiguous_sub_bar)
    else rest

unfoldable pub replay_bars : Request → List CandleData → Option SideIntrabarResolutionResult
replay_bars r bars = replay_from r 1 bars
