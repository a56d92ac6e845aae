-- ===== src/Replay/Traded.antt =====
-- engine/backtest/xauusd_replay.py: the trade of one signal of a replay.
use aurum_iq.Core.Enums.{SignalState, UserDecision}
use aurum_iq.Outcome.Closed.{resolve_trade-IsSettled}
use aurum_iq.Plan.ShortPlan.{is_short_candidate}
use aurum_iq.Plan.LongPlan.{is_long_candidate}
use aurum_iq.Backtest.Repository.{candles_at, tf_15m}
use aurum_iq.Core.Candle.{CandleData, closes_at}
use aurum_iq.Outcome.Settled.{
  Returns, IsOpen, Returns-done, Returns-if, IsClosed, Returns-map, Returns-from_result,
  Returns-raises,
}
use aurum_iq.Plan.Snapshot.{DualSideSignalSnapshot, SideRiskPlanSnapshot}
use aurum_iq.Risk.Barrier.{RiskSide}
use aurum_iq.Replay.Engine.{
  SignalEngine, XauUsdPointInTimeReplay, XauUsdReplayMarketSnapshot, from_start, before, simulate,
  trade_of, request_for, long_plan_of, is_dataset_aware, short_plan_of, is_future_candle,
}
use aurum_iq.Outcome.Trade.{
  TradeOps, XauUsdSimulatedTrade, map_attempt, from_result, XauUsdTradeOutcome,
}
use aurum_iq.Entry.Fill.{DecimalOps}
use aurum_iq.Plan.Zones.{PlanOps}
use aurum_iq.Prelude.{
  not, ◌≡◌, true, ℕ, arith, Result, Option, some, ◌⊎◌, none, ◌&&◌, inl, ltb, inr, filtered-Memᴰ,
  ◌≤◌, both_left, refl, both_right, ltb→lt, ◌<◌,
}
use mathlib.Core.List.{Memᴰ}

module _ {E : Type 0} (P : PlanOps) (D : DecimalOps) (R : TradeOps) (engine : SignalEngine E)
    (self : XauUsdPointInTimeReplay) where
  -- No earlier than the start of the run, and earlier than its end.
  abbrev pub StartsBy : ℕ → Type 0
  StartsBy t = (start : ℕ) → self.run_start_time ≡ some start → start ≤ t

  abbrev pub IsBeforeEnd : ℕ → Type 0
  IsBeforeEnd t = (end : ℕ) → self.run_end_time ≡ some end → t < end

  -- A trade that is open, or that ends by the close of a bar of the dataset that closes after the
  -- snapshot at `t` and before the end of the run.
  abbrev pub EndsInRun : ℕ → XauUsdSimulatedTrade → Type 0
  EndsInRun t trade =
      IsOpen trade
      ⊎ ((bar : CandleData) × (exit_ts : ℕ) × Memᴰ bar (candles_at tf_15m self.dataset.candles)
          × (t < closes_at bar)
          × IsBeforeEnd (closes_at bar)
          × (trade.exit_timestamp ≡ some exit_ts)
          × (exit_ts ≤ closes_at bar)
          × (trade.dependency_end_timestamp ≡ exit_ts))

  -- A signal that asks for a trade.
  abbrev pub IsCandidate : DualSideSignalSnapshot → Type 0
  IsCandidate s =
      ((s.candidate_state ≡ SignalState.buy_window)
        × (s.candidate_user_decision ≡ UserDecision.buy))
      ⊎ ((s.candidate_state ≡ SignalState.sell_window)
          × (s.candidate_user_decision ≡ UserDecision.sell))

  -- A trade for a signal at a snapshot: it has the time of the signal, or of the snapshot if it
  -- is skipped without a simulation.
  pub record IsTradeOf (snap : XauUsdReplayMarketSnapshot E) (s : DualSideSignalSnapshot)
      (trade : XauUsdSimulatedTrade) : Type 0 where
    pub candidate : IsCandidate s
    pub signal_time :
        (trade.signal_timestamp ≡ s.timestamp.utc)
        ⊎ ((trade.signal_timestamp ≡ snap.timestamp) × (trade.outcome ≡ XauUsdTradeOutcome.skipped))
    pub ends : EndsInRun snap.timestamp trade

  pub from_start-StartsBy :
      (start : Option ℕ) (t : ℕ) → from_start start t ≡ true → (a : ℕ) → start ≡ some a → a ≤ t
  from_start-StartsBy start t h a e = ground arith

  pub before-IsBeforeEnd :
      (end : Option ℕ) (t : ℕ) → before end t ≡ true → (a : ℕ) → end ≡ some a → t < a
  before-IsBeforeEnd end t h a e = ground arith

  long-IsCandidate :
      (s : DualSideSignalSnapshot)
      → is_long_candidate s.candidate_state s.candidate_user_decision ≡ true
      → IsCandidate s
  unfolding is_long_candidate
  long-IsCandidate s h = ground arith

  short-IsCandidate :
      (s : DualSideSignalSnapshot)
      → is_short_candidate s.candidate_state s.candidate_user_decision ≡ true
      → IsCandidate s
  unfolding is_short_candidate
  short-IsCandidate s h = ground arith

  closed_in_run :
      (t : ℕ) (s : DualSideSignalSnapshot) (plan : SideRiskPlanSnapshot)
      (trade : XauUsdSimulatedTrade)
      → IsOpen trade ⊎ IsClosed (request_for P D R engine self t s plan) trade
      → EndsInRun t trade
  closed_in_run t s plan trade (inl unended) = inl unended
  closed_in_run t s plan trade (inr c) =
      let (listed, future) =
        filtered-Memᴰ (is_future_candle P D R engine self t) _ c.bar c.listed in
      let later = both_left (ltb t (closes_at c.bar)) _ future in
      inr (
        c.bar,
        c.exit_ts,
        listed,
        ltb→lt t (closes_at c.bar) later,
        before-IsBeforeEnd self.run_end_time (closes_at c.bar)
            (both_right (ltb t (closes_at c.bar)) future),
        c.exit_given,
        c.by_close,
        c.dependency,
      )

  simulate-IsTradeOf :
      (snap : XauUsdReplayMarketSnapshot E) (side : RiskSide) (s : DualSideSignalSnapshot)
      (plan : SideRiskPlanSnapshot)
      → IsCandidate s
      → Returns (IsTradeOf snap s) (simulate P D R engine self side snap.timestamp s plan)
  simulate-IsTradeOf snap side s plan candidate =
      Returns-if (IsTradeOf snap s) (not (plan.risk_candidate_valid && plan.simulation_eligible))
        (λ _. Returns-done (IsTradeOf snap s) (record {
          candidate = candidate;
          signal_time = inr (refl, refl);
          ends = inl (refl, refl, refl);
        }))
        (λ _.
          Returns-if (IsTradeOf snap s) (not (is_dataset_aware P D R engine self))
            (λ _. Returns-raises (IsTradeOf snap s) _)
            (λ _ trade e.
              let ((_, at_signal), settled) =
                resolve_trade-IsSettled D R self.outcome_engine _ trade e in
              record {
                candidate = candidate;
                signal_time = inl at_signal;
                ends = closed_in_run snap.timestamp s plan trade settled;
              }))

  -- What holds of a trade, if there is one.
  abbrev pub IfTraded :
      XauUsdReplayMarketSnapshot E → DualSideSignalSnapshot → Option XauUsdSimulatedTrade → Type 0
  IfTraded snap s none = Unit
  IfTraded snap s (some trade) = IsTradeOf snap s trade

  traded-IfTraded :
      (snap : XauUsdReplayMarketSnapshot E) (s : DualSideSignalSnapshot) (side : RiskSide)
      (plan : Result SideRiskPlanSnapshot)
      → IsCandidate s
      → Returns
          (IfTraded snap s)
          (map_attempt some (from_result plan (simulate P D R engine self side snap.timestamp s)))
  traded-IfTraded snap s side plan candidate = Returns-map (IfTraded snap s) some _ (
      Returns-from_result (IsTradeOf snap s) plan _
        (λ p. simulate-IsTradeOf snap side s p candidate))

  pub trade_of-IfTraded :
      (s : DualSideSignalSnapshot) (snap : XauUsdReplayMarketSnapshot E)
      → Returns (IfTraded snap s) (trade_of P D R engine self s snap)
  trade_of-IfTraded s snap =
      Returns-if (IfTraded snap s) (is_long_candidate s.candidate_state s.candidate_user_decision)
        (λ long.
          traded-IfTraded snap s RiskSide.long (long_plan_of P D R engine self s snap snap.atr14)
            (long-IsCandidate s long))
        (λ _.
          Returns-if (IfTraded snap s)
            (is_short_candidate s.candidate_state s.candidate_user_decision)
            (λ short.
              traded-IfTraded snap s RiskSide.short
                (short_plan_of P D R engine self s snap snap.atr14) (short-IsCandidate s short))
            (λ _. Returns-done (IfTraded snap s) tt))
