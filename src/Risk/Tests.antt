-- ===== src/Risk/Tests.antt =====
-- Validation and intrabar resolution of engine/risk at concrete candles. The parent lasts 15
-- minutes; a LONG trade has its TP at 110 and its SL at 90, and the parent touches both.
use aurum_iq.Prelude.{
  ◌+◌, ◌*◌, ◌<◌, ◌≡◌, refl, ◌⊎◌, ℕ, true, Option, none, some, List, [], ◌∷◌, arith, ok, not, ◌||◌,
  length, ◌↔◌,
}
use aurum_iq.Prelude.Int.{pos, ◌-ℤ◌}
use aurum_iq.Core.Decimal.{Decimal, fin, is_finite, le, lt, zero_price}
use aurum_iq.Core.Candle.{Datetime, CandleData}
use aurum_iq.Risk.Validation.{validate_xauusd_candle}
use aurum_iq.Risk.Validity.{IsCandle, validate_iff-IsCandle}
use aurum_iq.Risk.Sequence.{valid, sequence_error, validate_sequence}
use aurum_iq.Risk.Grid.{IsGrid, validate_sequence-IsGrid, validate_sequence_iff-IsGrid}
use aurum_iq.Risk.Barrier.{
  RiskSide, BarrierHitType, IntrabarPolicy, ParentTimeframe, Reason, SideIntrabarResolutionResult,
  Request, touches_tp, touches_sl, hit_on_sub_bar, replay_from, replay_bars,
}
use aurum_iq.Risk.Intrabar.{
  exit_at_close, replay_valid, replay_unambiguous, drill, replay_15m, resolve_barriers, resolve,
}
use aurum_iq.Risk.FirstTouch.{IsFirst, Decides, replay_bars-IsFirst}
use aurum_iq.Risk.TakeProfit.{TpEvidence, tp_first_needs_evidence}
use aurum_iq.Risk.StopLoss.{StopsOut, sl_first_exits_at_stop, resolve_raises}
use aurum_iq.Risk.BeforeFill.{exit_before_fill}

abbrev minute : ℕ
minute = 60000000

abbrev at : ℕ → Datetime
at n = record { aware = true; utc = n * minute }

abbrev price : ℕ → Decimal
price n = fin (pos n)

-- From minute `a` to minute `b`, with the given high and low around 100.
abbrev candle : ℕ → ℕ → ℕ → ℕ → CandleData
candle a b high low = record {
  timestamp_open = at a;
  timestamp_close = at b;
  open_price = price 100;
  high = price high;
  low = price low;
  close = price 100;
  volume = price 7;
  is_closed = true;
  close_usd = none;
}

abbrev parent : CandleData
parent = candle 0 15 112 88

abbrev quiet_bar : CandleData
quiet_bar = candle 0 1 104 96

abbrev tp_bar : CandleData
tp_bar = candle 1 2 111 97

abbrev grid : List CandleData
grid = quiet_bar ∷ tp_bar ∷ []

abbrev request : IntrabarPolicy → Option Datetime → List CandleData → Option Decimal → Request
request policy fill bars gap = record {
  side = RiskSide.long;
  parent_candle = parent;
  tp_price = pos 110;
  sl_price = pos 90;
  fill_timestamp = fill;
  fill_price = some (price 101);
  candles_1m = bars;
  candles_5m = [];
  candles_15m = [];
  parent_timeframe = ParentTimeframe.other;
  policy = policy;
  worst_case_adverse_gap = gap;
}

parent_is_valid : validate_xauusd_candle parent ≡ true
unfolding validate_xauusd_candle is_finite le lt
parent_is_valid = refl

parent-IsCandle : IsCandle parent
parent-IsCandle = record {
  open_aware = refl;
  close_aware = refl;
  in_order = omega arith;
  low_at = pos 88;
  high_at = pos 112;
  open_at = pos 100;
  close_at = pos 100;
  volume_at = pos 7;
  low_fin = refl;
  high_fin = refl;
  open_fin = refl;
  close_fin = refl;
  volume_fin = refl;
  low_pos = omega arith;
  low_open = omega arith;
  low_close = omega arith;
  open_high = omega arith;
  close_high = omega arith;
  volume_nonneg = omega arith;
}

grid_is_valid : validate_sequence grid 60 parent minute ≡ valid grid
unfolding validate_sequence sequence_error validate_xauusd_candle is_finite le lt
grid_is_valid = refl

validate_sequence_iff-IsGrid_example :
    (validate_sequence grid 60 parent minute ≡ valid grid)
    ↔ ((grid ≡ grid) × IsGrid grid 60 parent minute)
validate_sequence_iff-IsGrid_example = validate_sequence_iff-IsGrid grid 60 parent minute grid

abbrev replayed : Request
replayed = request IntrabarPolicy.lower_timeframe_replay (some (at 1)) grid none

abbrev tp_result : SideIntrabarResolutionResult
tp_result = hit_on_sub_bar replayed tp_bar 2 BarrierHitType.tp_first (pos 110) Reason.tp_on_sub_bar

replays : replay_bars replayed grid ≡ some tp_result
unfolding replay_bars replay_from touches_tp touches_sl le
replays = refl

replay_bars-IsFirst_example :
    (bar : CandleData) × (f : IsFirst replayed grid bar) × Decides replayed bar
      (1 + length f.before)
      tp_result
replay_bars-IsFirst_example = replay_bars-IsFirst replayed grid {res = tp_result} replays

takes_profit : resolve replayed ≡ ok tp_result
unfolding resolve resolve_barriers replay_15m drill replay_unambiguous replay_valid
    validate_sequence sequence_error replay_bars replay_from touches_tp touches_sl
    validate_xauusd_candle is_finite le lt
takes_profit = refl

tp_first_needs_evidence_example :
    (touches_tp RiskSide.long (pos 110) parent ≡ true)
    × (tp_result.exit_price ≡ some (fin (pos 110)))
    × TpEvidence replayed tp_result
tp_first_needs_evidence_example =
    tp_first_needs_evidence replayed {res = tp_result} takes_profit refl

-- The worst-case policy with a gap of 3.
abbrev gapped : Request
gapped = request IntrabarPolicy.worst_case none [] (some (price 3))

abbrev gapped_result : SideIntrabarResolutionResult
gapped_result =
    exit_at_close gapped BarrierHitType.sl_first (price 87) IntrabarPolicy.worst_case
      Reason.by_worst_case

stops_out : resolve gapped ≡ ok gapped_result
unfolding resolve resolve_barriers touches_tp touches_sl validate_xauusd_candle is_finite le lt ◌-ℤ◌
stops_out = refl

sl_first_exits_at_stop_example :
    (touches_sl RiskSide.long (pos 90) parent ≡ true) × StopsOut gapped gapped_result
sl_first_exits_at_stop_example = sl_first_exits_at_stop gapped {res = gapped_result} stops_out refl

abbrev no_gap : Request
no_gap = request IntrabarPolicy.worst_case none [] none

resolve_raises_example :
    (no_gap.policy ≡ IntrabarPolicy.worst_case)
    × (touches_tp RiskSide.long (pos 110) parent ≡ true)
    × (touches_sl RiskSide.long (pos 90) parent ≡ true)
    × ((no_gap.worst_case_adverse_gap ≡ none)
        ⊎ ((gap : Decimal) × (no_gap.worst_case_adverse_gap ≡ some gap)
            × ((not (is_finite gap) || lt gap zero_price) ≡ true)))
unfolding resolve resolve_barriers touches_tp touches_sl validate_xauusd_candle is_finite le lt
resolve_raises_example = resolve_raises no_gap refl

-- A fill at minute 5, after the bar that touches TP has closed at minute 1.
abbrev early_bar : CandleData
early_bar = candle 0 1 111 97

abbrev filled_late : Request
filled_late = request IntrabarPolicy.lower_timeframe_replay (some (at 5)) (early_bar ∷ []) none

early_grid_is_valid :
    validate_sequence (early_bar ∷ []) 60 parent (5 * minute) ≡ valid (early_bar ∷ [])
unfolding validate_sequence sequence_error validate_xauusd_candle is_finite le lt
early_grid_is_valid = refl

early_grid_is_grid : IsGrid (early_bar ∷ []) 60 parent (5 * minute)
early_grid_is_grid =
    (validate_sequence-IsGrid (early_bar ∷ []) 60 parent (5 * minute) {bars = early_bar ∷ []}
      early_grid_is_valid).1

exit_before_fill_example :
    (res : SideIntrabarResolutionResult) × (resolve filled_late ≡ ok res)
    × (res.barrier_hit ≡ BarrierHitType.tp_first)
    × (exit : ℕ) × (res.exit_timestamp ≡ some exit)
    × (exit < 5 * minute)
unfolding touches_tp touches_sl le is_finite
exit_before_fill_example =
    exit_before_fill filled_late (at 5) early_bar [] parent_is_valid refl refl refl refl refl refl
      refl refl early_grid_is_grid refl refl (omega arith)

validate_iff-IsCandle_example : (validate_xauusd_candle parent ≡ true) ↔ IsCandle parent
validate_iff-IsCandle_example = validate_iff-IsCandle parent
