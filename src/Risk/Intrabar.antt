-- ===== src/Risk/Intrabar.antt =====
-- engine/risk/xauusd_intrabar.py: `SideAwareIntrabarResolver.resolve`, which decides which barrier
-- of a trade was hit first inside a candle.
use aurum_iq.Prelude.{
  ℕ, Bool, true, false, not, ◌&&◌, ◌||◌, Option, none, some, List, if◌then◌else◌, is_nil, or_else,
  given_or, Result, ok, value_error,
}
use aurum_iq.Prelude.Int.{ℤ}
use aurum_iq.Core.Decimal.{Decimal, fin, is_finite, le, lt, zero_price, sub, add}
use aurum_iq.Core.Candle.{Datetime, CandleData, opens_at, closes_at}
use aurum_iq.Risk.Validation.{validate_xauusd_candle}
use aurum_iq.Risk.Sequence.{valid, invalid, validate_sequence}
use aurum_iq.Risk.Barrier.{
  RiskSide, BarrierHitType, IntrabarPolicy, ParentTimeframe, Reason, mentions_ambiguous,
  SideIntrabarResolutionResult, Request, touches_tp, touches_sl, replay_bars,
}

-- A result with no exit.
abbrev pub no_exit : Request → BarrierHitType → Reason → SideIntrabarResolutionResult
no_exit r hit reason = record {
  side = r.side;
  barrier_hit = hit;
  exit_price = none;
  exit_timestamp = none;
  policy_applied = r.policy;
  replay_bars_count = 0;
  reason = reason;
}

-- A result with an exit when the parent closes.
abbrev pub exit_at_close :
    Request → BarrierHitType → Decimal → IntrabarPolicy → Reason → SideIntrabarResolutionResult
exit_at_close r hit price policy reason = record {
  side = r.side;
  barrier_hit = hit;
  exit_price = some price;
  exit_timestamp = some (closes_at r.parent_candle);
  policy_applied = policy;
  replay_bars_count = 0;
  reason = reason;
}

-- `if candles:` validate them, and replay them if they are valid.
unfoldable pub replay_valid :
    Request → ℕ → List CandleData → ℕ → Option SideIntrabarResolutionResult
replay_valid r fill_ts candles step =
    if is_nil candles then none else elim (validate_sequence candles step r.parent_candle fill_ts) [
      | valid bars ↦ replay_bars r bars
      | invalid e ↦ none
    ]

-- The same, where an ambiguous outcome does not count.
unfoldable pub replay_unambiguous :
    Request → ℕ → List CandleData → ℕ → Option SideIntrabarResolutionResult
replay_unambiguous r fill_ts candles step = elim (replay_valid r fill_ts candles step) [
  | none ↦ none
  | some res ↦ if mentions_ambiguous res.reason then none else some res
]

abbrev pub fallback : Request → SideIntrabarResolutionResult
fallback r =
    exit_at_close r BarrierHitType.sl_first (fin r.sl_price) IntrabarPolicy.conservative_sl_first
      Reason.replay_unavailable

-- 1m is preferred to 5m.
unfoldable pub drill : Request → ℕ → Option SideIntrabarResolutionResult
drill r fill_ts =
    given_or (replay_unambiguous r fill_ts r.candles_1m 60)
      (replay_unambiguous r fill_ts r.candles_5m 300)

abbrev pub is_sl_first : BarrierHitType → Bool
is_sl_first BarrierHitType.sl_first = true
is_sl_first _ = false

-- A parent of 4H or 1H: 15m first, and 1m or 5m where the 15m replay is itself ambiguous.
unfoldable pub replay_hours : Request → ℕ → SideIntrabarResolutionResult
replay_hours r fill_ts = elim (replay_valid r fill_ts r.candles_15m 900) [
  | none ↦ fallback r
  | some res ↦
      if not (is_sl_first res.barrier_hit) || not (mentions_ambiguous res.reason)
      then res
      else or_else (drill r fill_ts) (fallback r)
]

unfoldable pub replay_15m : Request → ℕ → SideIntrabarResolutionResult
replay_15m r fill_ts = or_else (drill r fill_ts) (fallback r)

abbrev pub replay_lower : ParentTimeframe → Request → ℕ → SideIntrabarResolutionResult
replay_lower ParentTimeframe.h4 r fill_ts = replay_hours r fill_ts
replay_lower ParentTimeframe.h1 r fill_ts = replay_hours r fill_ts
replay_lower ParentTimeframe.other r fill_ts = replay_15m r fill_ts

-- The stop, moved against the trade by the gap.
abbrev pub gapped_stop : RiskSide → ℤ → Decimal → Decimal
gapped_stop RiskSide.long sl gap = sub (fin sl) gap
gapped_stop RiskSide.short sl gap = add (fin sl) gap

abbrev pub resolve_worst_case : Request → Option Decimal → Result SideIntrabarResolutionResult
resolve_worst_case r none = value_error
resolve_worst_case r (some gap) =
    if not (is_finite gap) || lt gap zero_price
    then value_error
    else ok (
        exit_at_close r BarrierHitType.sl_first (gapped_stop r.side r.sl_price gap) r.policy
          Reason.by_worst_case)

-- Case C: both barriers are touched.
abbrev pub resolve_collision : IntrabarPolicy → Request → ℕ → Result SideIntrabarResolutionResult
resolve_collision IntrabarPolicy.conservative_sl_first r fill_ts = ok (
    exit_at_close r BarrierHitType.sl_first (fin r.sl_price) r.policy Reason.by_conservative_policy)
resolve_collision IntrabarPolicy.worst_case r fill_ts =
    resolve_worst_case r r.worst_case_adverse_gap
resolve_collision IntrabarPolicy.skip_ambiguous r fill_ts =
    ok (no_exit r BarrierHitType.skipped Reason.by_skip_policy)
resolve_collision IntrabarPolicy.lower_timeframe_replay r fill_ts =
    ok (replay_lower r.parent_timeframe r fill_ts)

-- Part 1: which barriers the parent touches.
unfoldable pub resolve_barriers : Request → ℕ → Result SideIntrabarResolutionResult
resolve_barriers r fill_ts =
    let tp_hit = touches_tp r.side r.tp_price r.parent_candle in
    let sl_hit = touches_sl r.side r.sl_price r.parent_candle in
    if not tp_hit && not sl_hit
    then ok (no_exit r BarrierHitType.unresolved Reason.neither_touched)
    else if tp_hit && not sl_hit
    then ok
        (exit_at_close r BarrierHitType.tp_first (fin r.tp_price) r.policy Reason.only_tp_touched)
    else if sl_hit && not tp_hit
    then ok
        (exit_at_close r BarrierHitType.sl_first (fin r.sl_price) r.policy Reason.only_sl_touched)
    else resolve_collision r.policy r fill_ts

-- Whether the fill price, if there is one, lies strictly between the barriers.
abbrev pub fill_outside : RiskSide → ℤ → ℤ → Decimal → Bool
fill_outside RiskSide.long tp sl fill = le (fin tp) fill || le fill (fin sl)
fill_outside RiskSide.short tp sl fill = le fill (fin tp) || le (fin sl) fill

abbrev pub fill_price_error : Request → Option Decimal → Option Reason
fill_price_error r none = none
fill_price_error r (some fill) =
    if not (is_finite fill)
    then some Reason.fill_price_not_finite
    else if fill_outside r.side r.tp_price r.sl_price fill
    then some Reason.fill_outside_barriers
    else none

-- The effective fill instant; `none` for a naive timestamp.
abbrev pub effective_fill : CandleData → Option Datetime → Option ℕ
effective_fill parent none = some (opens_at parent)
effective_fill parent (some t) = if not t.aware then none else some t.utc

abbrev pub resolve_from : Request → Option ℕ → Result SideIntrabarResolutionResult
resolve_from r none = ok (no_exit r BarrierHitType.unresolved Reason.naive_fill_timestamp)
resolve_from r (some fill_ts) = resolve_barriers r fill_ts

abbrev pub resolve_priced : Request → Option Reason → Result SideIntrabarResolutionResult
resolve_priced r (some reason) = ok (no_exit r BarrierHitType.unresolved reason)
resolve_priced r none = resolve_from r (effective_fill r.parent_candle r.fill_timestamp)

unfoldable pub resolve : Request → Result SideIntrabarResolutionResult
resolve r =
    if not (validate_xauusd_candle r.parent_candle)
    then ok (no_exit r BarrierHitType.unresolved Reason.parent_invalid)
    else resolve_priced r (fill_price_error r r.fill_price)
