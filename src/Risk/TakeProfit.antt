-- ===== src/Risk/TakeProfit.antt =====
-- When `SideAwareIntrabarResolver.resolve` (engine/risk/xauusd_intrabar.py) says TP_FIRST.
use aurum_iq.Prelude.{ℕ, ◌≡◌, refl, sym, ◌∙◌, ◌⊎◌, inl, inr, true, false, some, List, arith, ok}
use mathlib.Core.Path.{subst}
use aurum_iq.Core.Decimal.{fin}
use aurum_iq.Core.Candle.{CandleData, closes_at}
use aurum_iq.Risk.Grid.{IsGrid}
use aurum_iq.Risk.Barrier.{
  BarrierHitType, IntrabarPolicy, SideIntrabarResolutionResult, Request, touches_tp, touches_sl,
}
use aurum_iq.Risk.Intrabar.{resolve_collision, resolve}
use aurum_iq.Risk.FirstTouch.{IsFirst}
use aurum_iq.Risk.Evidence.{
  SubBarEvidence, ok-injective, lower-evidence, resolve_barriers-cases, resolve-fills, IsGiven,
  FillsAt,
}

module _ (r : Request) where
  -- The evidence for a take profit inside an ambiguous parent.
  pub record TpBar (res : SideIntrabarResolutionResult) : Type 0 where
    pub step : ℕ
    pub fill_ts : ℕ
    pub candles : List CandleData
    pub given : IsGiven r candles step
    pub fills : FillsAt r fill_ts
    pub grid : IsGrid candles step r.parent_candle fill_ts
    pub bar : CandleData
    pub first : IsFirst r candles bar
    pub tp_touched : touches_tp r.side r.tp_price bar ≡ true
    pub sl_untouched : touches_sl r.side r.sl_price bar ≡ false
    pub exits : res.exit_timestamp ≡ some (closes_at bar)

  tp_bar :
      {fill_ts : ℕ} (res : SideIntrabarResolutionResult)
      → FillsAt r fill_ts
      → SubBarEvidence r fill_ts res
      → res.barrier_hit ≡ BarrierHitType.tp_first
      → TpBar res × (res.exit_price ≡ some (fin r.tp_price))
  tp_bar {fill_ts} res fills v h =
      let d = v.decides in
      (
        record {
          step = v.step;
          fill_ts = fill_ts;
          candles = v.candles;
          given = v.given;
          fills = fills;
          grid = v.grid;
          bar = v.bar;
          first = v.first;
          tp_touched = ground arith;
          sl_untouched = ground arith;
          exits = ground arith;
        },
        ground arith,
      )

  abbrev pub TpEvidence : SideIntrabarResolutionResult → Type 0
  TpEvidence res =
      ((touches_sl r.side r.sl_price r.parent_candle ≡ false)
        × (res.exit_timestamp ≡ some (closes_at r.parent_candle)))
      ⊎ ((r.policy ≡ IntrabarPolicy.lower_timeframe_replay) × TpBar res)

  collision-tp :
      (policy : IntrabarPolicy) (fill_ts : ℕ) {res : SideIntrabarResolutionResult}
      → FillsAt r fill_ts
      → r.policy ≡ policy
      → resolve_collision policy r fill_ts ≡ ok res
      → res.barrier_hit ≡ BarrierHitType.tp_first
      → (res.exit_price ≡ some (fin r.tp_price)) × TpEvidence res
  collision-tp IntrabarPolicy.conservative_sl_first fill_ts fills k e h = absurd (ground arith)
  collision-tp IntrabarPolicy.worst_case fill_ts fills k e h = absurd (ground arith)
  collision-tp IntrabarPolicy.skip_ambiguous fill_ts fills k e h = absurd (ground arith)
  collision-tp IntrabarPolicy.lower_timeframe_replay fill_ts {res} fills k e h =
      elim (lower-evidence r r.parent_timeframe fill_ts) [
        | inl same ↦ absurd (ground arith)
        | inr v ↦
            let (bar, price) =
              tp_bar res fills (subst (SubBarEvidence r fill_ts) (ok-injective e) v) h in
            (price, inr (k, bar))
      ]

  -- A resolution says TP_FIRST only on evidence. The parent touches TP, and the exit is at TP.
  -- Either the parent does not touch SL, and the exit is at the parent's close; or the policy is
  -- the replay, and one of the lists of 1m, 5m or 15m candles that are given is a valid grid of its
  -- timeframe inside the parent, which starts no later than the fill (what is given, or the parent's
  -- open) and whose first touching bar touches TP and not SL; the exit is at that bar's close.
  pub tp_first_needs_evidence :
      {res : SideIntrabarResolutionResult}
      → resolve r ≡ ok res
      → res.barrier_hit ≡ BarrierHitType.tp_first
      → (touches_tp r.side r.tp_price r.parent_candle ≡ true)
        × (res.exit_price ≡ some (fin r.tp_price))
        × TpEvidence res
  tp_first_needs_evidence e h = elim (resolve-fills r) [
    | inl (reason, early) ↦ absurd (ground arith)
    | inr (fill_ts, fills, out) ↦ elim (resolve_barriers-cases r fill_ts (sym out ∙ e)) [
      | inl neither ↦ absurd (ground arith)
      | inr (inl (tp, sl, same)) ↦ (tp, ground arith, inl (sl, ground arith))
      | inr (inr (inl (sl, tp, same))) ↦ absurd (ground arith)
      | inr (inr (inr (tp, sl, same))) ↦
          let (price, v) = collision-tp r.policy fill_ts fills refl (sym same) h in (tp, price, v)
    ]
  ]
