-- ===== src/Risk/BeforeFill.antt =====
-- `SideAwareIntrabarResolver.resolve` (engine/risk/xauusd_intrabar.py) and the sub-bars
-- before the fill.
use aurum_iq.Prelude.{◌<◌, ◌≡◌, refl, true, false, none, some, List, ◌∷◌, arith, ok, ℕ}
use aurum_iq.Core.Candle.{Datetime, CandleData, closes_at}
use aurum_iq.Risk.Validation.{validate_xauusd_candle}
use aurum_iq.Risk.Grid.{IsGrid, IsGrid-validate_sequence}
use aurum_iq.Risk.Barrier.{
  BarrierHitType, IntrabarPolicy, ParentTimeframe, SideIntrabarResolutionResult, Request, Reason,
  touches_tp, touches_sl, replay_from, replay_bars, hit_on_sub_bar,
}
use aurum_iq.Risk.Intrabar.{
  resolve, resolve_barriers, fill_price_error, replay_15m, drill, replay_unambiguous, replay_valid,
}

module _ (r : Request) (fill : Datetime) (bar : CandleData) (bars : List CandleData) where
  replayed :
      r.candles_1m ≡ bar ∷ bars
      → IsGrid (bar ∷ bars) 60 r.parent_candle fill.utc
      → touches_tp r.side r.tp_price bar ≡ true
      → touches_sl r.side r.sl_price bar ≡ false
      → replay_15m r fill.utc
        ≡ hit_on_sub_bar r bar 1 BarrierHitType.tp_first r.tp_price Reason.tp_on_sub_bar
  unfolding replay_15m drill replay_unambiguous replay_valid replay_bars replay_from
  replayed c g tp sl =
      ground (arith, IsGrid-validate_sequence (bar ∷ bars) 60 r.parent_candle fill.utc g)

  -- Take an ambiguous 15m parent under the replay policy, with an aware fill time,
  -- a fill price (if any) between the barriers, and a valid 1m
  -- grid whose first bar touches TP and not SL. If that bar closes before the fill, the resolution
  -- is still TP_FIRST, and its exit comes before its fill.
  pub exit_before_fill :
      validate_xauusd_candle r.parent_candle ≡ true
      → fill_price_error r r.fill_price ≡ none
      → r.fill_timestamp ≡ some fill
      → fill.aware ≡ true
      → r.policy ≡ IntrabarPolicy.lower_timeframe_replay
      → r.parent_timeframe ≡ ParentTimeframe.other
      → touches_tp r.side r.tp_price r.parent_candle ≡ true
      → touches_sl r.side r.sl_price r.parent_candle ≡ true
      → r.candles_1m ≡ bar ∷ bars
      → IsGrid (bar ∷ bars) 60 r.parent_candle fill.utc
      → touches_tp r.side r.tp_price bar ≡ true
      → touches_sl r.side r.sl_price bar ≡ false
      → closes_at bar < fill.utc
      → (res : SideIntrabarResolutionResult) × (resolve r ≡ ok res)
        × (res.barrier_hit ≡ BarrierHitType.tp_first)
        × (exit : ℕ) × (res.exit_timestamp ≡ some exit)
        × (exit < fill.utc)
  unfolding resolve resolve_barriers
  exit_before_fill v p t aware policy tf ptp psl c g tp sl early = (
    hit_on_sub_bar r bar 1 BarrierHitType.tp_first r.tp_price Reason.tp_on_sub_bar,
    ground (arith, replayed c g tp sl),
    refl,
    closes_at bar,
    refl,
    early,
  )
