-- ===== src/Outcome/Closed.antt =====
-- engine/backtest/xauusd_outcomes.py: `resolve_trade` closes a trade at a bar of the run.
use aurum_iq.Outcome.Ends.{IsEnd, walk-IsEnd}
use aurum_iq.Outcome.Walk.{Ending, walk}
use aurum_iq.Outcome.Terms.{
  is_stale, is_post_fill, barriers, capped, planned_risk_of, is_unordered, tp2_reached,
}
use aurum_iq.Outcome.Resolve.{
  after_fill, eval_candles, ended, position, with_risk, resolve_trade, filled_at, from_fill,
  with_evidence, simulate_entry, closed_trade, payoff_of,
}
use aurum_iq.Core.Candle.{CandleData, closes_at}
use aurum_iq.Prelude.Int.{ℤ, leb_ℤ, pos}
use aurum_iq.Core.Decimal.{Decimal, zero_price}
use aurum_iq.Outcome.Window.{Evidence, is_valid_candle, Deadline, deadline_with, all_opens_aware}
use aurum_iq.Outcome.Trade.{
  TradeOps, XauUsdOutcomeEngine, TradeRequest, XauUsdTradeOutcome, done, open_trade,
  XauUsdSimulatedTrade, Attempt, raises, Payoff,
}
use aurum_iq.Entry.Fill.{DecimalOps, SideAwareFillResult}
use aurum_iq.Prelude.{
  ℕ, Option, ◌≡◌, some, true, false, ◌≤◌, inl, subst, sym, both_left, inr, both_right, arith, refl,
  filtered-Memᴰ, ltb, ◌⊎◌, not, ◌+◌, none, ◌||◌, Bool,
}
use mathlib.Core.List.{Memᴰ}
use aurum_iq.Outcome.Settled.{
  Returns-done, first_bars-Memᴰ, IsAdmitted, Returns, IsSettled, ExitsAt, IsClosed, IsOpen,
  Returns-if, barriers-surround, Returns-map, admit-IsAdmitted, Returns-raises, Returns-bind,
  IsFrom,
}

module _ (D : DecimalOps) (R : TradeOps) (e : XauUsdOutcomeEngine) (x : TradeRequest) where
  settle_open :
      (planned_risk : Decimal) (outcome : XauUsdTradeOutcome) (fill_ts : Option ℕ)
      (fill_price : Option Decimal) (end : ℕ)
      → Returns (IsSettled x) (
          done (
            open_trade x.risk_plan.side x.signal_timestamp.utc planned_risk outcome fill_ts
              fill_price end))
  settle_open planned_risk outcome fill_ts fill_price end =
      Returns-done (IsSettled x) ((refl, refl), inl (refl, refl, refl))

  module _ (ev : Evidence) (admitted : IsAdmitted x ev) (planned_risk : Decimal)
      (fill : SideAwareFillResult) (fill_price : Decimal) (fill_ts : ℕ) where
    evaluated_bar :
        (max_search_ts : ℕ) (bar : CandleData)
        → Memᴰ bar (eval_candles D R e x ev fill_ts max_search_ts)
        → Memᴰ bar x.future_candles_15m
          × (is_valid_candle x bar ≡ true)
          × (is_post_fill fill_ts max_search_ts bar ≡ true)
    evaluated_bar max_search_ts bar member =
        let post = first_bars-Memᴰ _ _ bar member in
        let (valid, after) = filtered-Memᴰ (is_post_fill fill_ts max_search_ts) _ bar post in
        let (listed, passed) =
          filtered-Memᴰ (is_valid_candle x) x.future_candles_15m bar
            (subst (Memᴰ bar) admitted valid) in
        (listed, passed, after)

    module _ (tp1 stop : ℤ) (target : x.risk_plan.tp1 ≡ some tp1)
        (stopped : x.risk_plan.stop_final ≡ some stop)
        (surrounds : is_stale x.risk_plan.side fill_price tp1 stop ≡ false) (max_search_ts : ℕ)
        (end : Ending) where
      abbrev trade_of : ℕ → Decimal → Payoff → Bool → XauUsdSimulatedTrade
      trade_of t price payoff reached =
          closed_trade D R e x planned_risk fill_price fill_ts end.outcome t price payoff reached

      closed_at :
          (bar : CandleData) (t : ℕ) (price : Decimal) (payoff : Payoff) (reached : Bool)
          → Memᴰ bar (eval_candles D R e x ev fill_ts max_search_ts)
          → t ≤ closes_at bar
          → ExitsAt tp1 stop fill_price (trade_of t price payoff reached)
          → IsClosed x (trade_of t price payoff reached)
      closed_at bar t price payoff reached member by_close exits =
          let (listed, passed, after) = evaluated_bar max_search_ts bar member in
          record {
            tp1 = tp1;
            stop = stop;
            fill_ts = fill_ts;
            fill_price = fill_price;
            exit_ts = t;
            bar = bar;
            target_given = target;
            stop_given = stopped;
            fill_time_given = refl;
            fill_price_given = refl;
            surrounds = surrounds;
            listed = listed;
            after_signal = both_left (ltb x.signal_timestamp.utc (closes_at bar)) _ passed;
            in_run = both_right (ltb x.signal_timestamp.utc (closes_at bar)) passed;
            after_fill = ground arith;
            exit_given = refl;
            by_close = by_close;
            dependency = refl;
            exits = exits;
          }

      abbrev ended_with : Option ℕ → Option Decimal → Attempt XauUsdSimulatedTrade
      ended_with = ended D R e x planned_risk fill fill_price fill_ts max_search_ts end

      hit-IsSettled :
          (bar : CandleData) (t : ℕ) (price : Decimal)
          → Memᴰ bar (eval_candles D R e x ev fill_ts max_search_ts)
          → t ≤ closes_at bar
          → ((payoff : Payoff) (reached : Bool)
              → ExitsAt tp1 stop fill_price (trade_of t price payoff reached))
          → Returns (IsSettled x) (ended_with (some t) (some price))
      hit-IsSettled bar t price member by_close exits =
          Returns-bind (IsSettled x)
            (tp2_reached x.risk_plan.side end.outcome x.risk_plan.tp2 end.remaining) _
            (λ reached _.
              Returns-map (IsSettled x) (λ payoff. trade_of t price payoff reached)
                (payoff_of D R e x planned_risk fill fill_price fill_ts t price end.max_favorable
                  end.max_adverse)
                (λ payoff _. (
                  (refl, refl),
                  inr (closed_at bar t price payoff reached member by_close (exits payoff reached)),
                )))

      ended-IsSettled :
          IsEnd
            (position D R e x ev fill_price fill_ts tp1 stop)
            (eval_candles D R e x ev fill_ts max_search_ts)
            end
          → Returns (IsSettled x) (ended_with end.exit_ts end.exit_price)
      ended-IsSettled (inl (outcome, exit)) =
          subst (λ ts. Returns (IsSettled x) (ended_with ts end.exit_price)) (sym exit)
            (settle_open planned_risk _ _ _ max_search_ts)
      ended-IsSettled (inr (bar, t, member, exit, by_close, inl (outcome, price))) =
          rw (exit, price)
            (hit-IsSettled bar t _ member by_close (λ payoff reached. inl (outcome, refl)))
      ended-IsSettled (inr (bar, t, member, exit, by_close, inr (inl (outcome, price)))) =
          rw (exit, price)
            (hit-IsSettled bar t _ member by_close (λ payoff reached. inr (inl (outcome, refl))))
      ended-IsSettled (inr (bar, t, member, exit, by_close, inr (inr (outcome, price)))) =
          rw (exit, price)
            (hit-IsSettled bar t _ member by_close (λ payoff reached. inr (inr (outcome, refl))))

    after_fill-IsSettled :
        (tp1 stop : ℤ) (duration : Option ℕ)
        → x.risk_plan.tp1 ≡ some tp1
        → x.risk_plan.stop_final ≡ some stop
        → is_stale x.risk_plan.side fill_price tp1 stop ≡ false
        → Returns
            (IsSettled x)
            (after_fill D R e x ev planned_risk fill fill_price fill_ts tp1 stop duration)
    after_fill-IsSettled tp1 stop none target stopped surrounds = Returns-raises (IsSettled x) _
    after_fill-IsSettled tp1 stop (some duration) target stopped surrounds =
        let p = position D R e x ev fill_price fill_ts tp1 stop in
        let max_search_ts = capped x.run_end_time (fill_ts + duration) in
        let bars = eval_candles D R e x ev fill_ts max_search_ts in
        Returns-bind (IsSettled x) (walk p fill_price fill_price bars) _ (λ end walked.
          ended-IsSettled tp1 stop target stopped surrounds max_search_ts end
            (walk-IsEnd p fill_price fill_price bars end walked))

    filled_at-IsSettled :
        (b : Option (ℤ × ℤ))
        → barriers x.risk_plan.side fill_price x.risk_plan.tp1 x.risk_plan.stop_final ≡ b
        → Returns (IsSettled x) (filled_at D R e x ev planned_risk fill fill_price fill_ts b)
    filled_at-IsSettled none h = settle_open planned_risk _ _ _ fill_ts
    filled_at-IsSettled (some (tp1, stop)) h =
        let (target, stopped, surrounds) =
          barriers-surround x.risk_plan.side fill_price _ _ (tp1, stop) h in
        after_fill-IsSettled tp1 stop _ target stopped surrounds

  from_fill-IsSettled :
      (ev : Evidence) (planned_risk : Decimal) (d : Deadline) (fill : SideAwareFillResult)
      (fill_price : Option Decimal) (fill_ts : Option ℕ)
      → IsAdmitted x ev
      → Returns (IsSettled x) (from_fill D R e x ev planned_risk d fill fill_price fill_ts)
  from_fill-IsSettled ev planned_risk d fill (some price) (some t) admitted =
      Returns-if (IsSettled x) (not fill.is_filled)
        (λ _. settle_open planned_risk _ _ _ d.effective)
        (λ _.
          Returns-if (IsSettled x) (is_unordered price x.risk_plan.tp1 x.risk_plan.stop_final)
            (λ _. Returns-raises (IsSettled x) _)
            (λ _. filled_at-IsSettled ev admitted planned_risk fill price t _ refl))
  from_fill-IsSettled ev planned_risk d fill none t admitted =
      settle_open planned_risk _ _ _ d.effective
  from_fill-IsSettled ev planned_risk d fill (some price) none admitted =
      settle_open planned_risk _ _ _ d.effective

  with_evidence-IsSettled :
      (planned_risk : Decimal) (wait : Option ℕ) (out : Attempt Evidence)
      → Returns (IsAdmitted x) out
      → Returns (IsSettled x) (with_evidence D R e x planned_risk wait out)
  with_evidence-IsSettled planned_risk wait (raises error) h = Returns-raises (IsSettled x) error
  with_evidence-IsSettled planned_risk none (done ev) h = Returns-raises (IsSettled x) _
  with_evidence-IsSettled planned_risk (some wait) (done ev) h =
      let d = deadline_with x.run_end_time (x.signal_timestamp.utc + wait) in
      Returns-if (IsSettled x) (not (all_opens_aware ev.candles_15m))
        (λ _. Returns-raises (IsSettled x) _)
        (λ _.
          Returns-bind (IsSettled x) (simulate_entry D R e x x.execution_policy ev d) _
            (λ fill _. from_fill-IsSettled ev planned_risk d fill _ _ (h ev refl)))

  with_risk-IsSettled : (planned : Option ℤ) → Returns (IsSettled x) (with_risk D R e x planned)
  with_risk-IsSettled none = Returns-raises (IsSettled x) _
  with_risk-IsSettled (some planned_risk) =
      Returns-if (IsSettled x) (leb_ℤ planned_risk (pos 0)) (λ _. Returns-raises (IsSettled x) _)
        (λ _. with_evidence-IsSettled _ _ _ (admit-IsAdmitted x))

  -- A trade that the call returns has the side of its plan and the time of its signal. It either has no
  -- exit, no exit price and no results, or it is filled strictly between the TP1 and the stop of its
  -- plan and exits by the close of a given 15-minute bar that closes after the signal, before the end
  -- of the run and no earlier than the fill: at TP1 if its outcome is TP1_FIRST, at the stop if it is
  -- SL_FIRST, at the fill price if it is SKIPPED, and it has no other outcome. The window of evidence
  -- it depends on ends at the exit.
  pub resolve_trade-IsSettled :
      (t : XauUsdSimulatedTrade)
      → resolve_trade D R e x ≡ done t
      → IsFrom x t × (IsOpen t ⊎ IsClosed x t)
  unfolding resolve_trade
  resolve_trade-IsSettled =
      Returns-if (IsSettled x) (not x.signal_timestamp.aware) (λ _. Returns-raises (IsSettled x) _)
        (λ _.
          Returns-if (IsSettled x)
            (not x.risk_plan.is_valid_risk_plan || not x.risk_plan.execution_eligible)
            (λ _. settle_open zero_price _ _ _ x.signal_timestamp.utc)
            (λ _. with_risk-IsSettled (planned_risk_of x.risk_plan.side x.risk_plan)))
