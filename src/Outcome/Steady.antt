-- ===== src/Outcome/Steady.antt =====
-- engine/backtest/xauusd_outcomes.py: the loops over finite bars do not raise.
use aurum_iq.Risk.StopLoss.{resolve_raises}
use aurum_iq.Risk.Intrabar.{resolve}
use aurum_iq.Outcome.Terms.{tp2_reached}
use aurum_iq.Outcome.Trade.{XauUsdTradeOutcome, Attempt, from_result}
use aurum_iq.Outcome.Window.{all_opens_aware}
use aurum_iq.Core.Decimal.{Decimal, lt}
use aurum_iq.Prelude.Int.{ℤ}
use aurum_iq.Outcome.Finite.{FinBar, IsFin, Gives, if-IsFin, not_nan, Gives-if}
use aurum_iq.Core.Candle.{CandleData}
use aurum_iq.Risk.Barrier.{
  RiskSide, IntrabarPolicy, BarrierHitType, SideIntrabarResolutionResult, touches_tp,
}
use aurum_iq.Outcome.Walk.{
  Position, Ending, reaches_tp2, tp2_side, adverse, favorable, is_comparable, walk, is_nan,
  bar_request, after_hit,
}
use aurum_iq.Prelude.{
  none, [], value_error, Bool, List, ◌≡◌, not, Option, All, true, false, ◌≢◌, ◌∷◌, some, refl,
  Result, Bool-cases, inl, ok, inr,
}

-- The end of a loop over finite bars.
pub record FinEnd (end : Ending) : Type 0 where
  pub favorable_fin : IsFin end.max_favorable
  pub adverse_fin : IsFin end.max_adverse
  pub remaining_fin : All FinBar end.remaining

favorable-IsFin :
    (side : RiskSide) (bar : CandleData) (best : Decimal)
    → FinBar bar
    → IsFin best
    → IsFin (favorable side bar best)
favorable-IsFin RiskSide.long bar best (high, low) b = if-IsFin (lt best bar.high) high b
favorable-IsFin RiskSide.short bar best (high, low) b = if-IsFin (lt bar.low best) low b

adverse-IsFin :
    (side : RiskSide) (bar : CandleData) (worst : Decimal)
    → FinBar bar
    → IsFin worst
    → IsFin (adverse side bar worst)
adverse-IsFin RiskSide.long bar worst (high, low) w = if-IsFin (lt bar.low worst) low w
adverse-IsFin RiskSide.short bar worst (high, low) w = if-IsFin (lt worst bar.high) high w

comparable :
    (bar : CandleData) (best worst : Decimal)
    → FinBar bar
    → IsFin best
    → IsFin worst
    → not (is_comparable bar best worst) ≡ false
comparable bar best worst (high, low) b w =
    rw (not_nan bar.high high, not_nan bar.low low, not_nan best b, not_nan worst w) refl

module _ (p : Position) (aware_1m : all_opens_aware p.evidence.candles_1m ≡ true)
    (aware_5m : all_opens_aware p.evidence.candles_5m ≡ true)
    (bounded : p.policy ≢ IntrabarPolicy.worst_case) where
  after_hit-Gives :
      (kind : BarrierHitType) (bar : CandleData) (bars : List CandleData) (best worst : Decimal)
      (hit : SideIntrabarResolutionResult) (rest : Attempt Ending)
      → All FinBar (bar ∷ bars)
      → IsFin best
      → IsFin worst
      → Gives FinEnd rest
      → Gives FinEnd (after_hit kind p bar bars best worst hit rest)
  after_hit-Gives BarrierHitType.tp_first bar bars best worst hit rest f b w h =
      (_, refl, record { favorable_fin = b; adverse_fin = w; remaining_fin = f })
  after_hit-Gives BarrierHitType.sl_first bar bars best worst hit rest f b w h =
      (_, refl, record { favorable_fin = b; adverse_fin = w; remaining_fin = f })
  after_hit-Gives BarrierHitType.skipped bar bars best worst hit rest f b w h =
      (_, refl, record { favorable_fin = b; adverse_fin = w; remaining_fin = f })
  after_hit-Gives BarrierHitType.unresolved bar bars best worst hit rest f b w h = h

  from_bar-Gives :
      (out : Result SideIntrabarResolutionResult) (bar : CandleData) (bars : List CandleData)
      (best worst : Decimal) (rest : Attempt Ending)
      → resolve (bar_request p bar) ≡ out
      → All FinBar (bar ∷ bars)
      → IsFin best
      → IsFin worst
      → Gives FinEnd rest
      → Gives FinEnd
          (from_result out (λ hit. after_hit hit.barrier_hit p bar bars best worst hit rest))
  from_bar-Gives (ok hit) bar bars best worst rest e f b w h =
      after_hit-Gives hit.barrier_hit bar bars best worst hit rest f b w h
  from_bar-Gives value_error bar bars best worst rest e f b w h =
      let (policy, _, _, _) = resolve_raises (bar_request p bar) e in absurd (bounded policy)

  pub walk-Gives :
      (best worst : Decimal) (bars : List CandleData)
      → All FinBar bars
      → IsFin best
      → IsFin worst
      → Gives FinEnd (walk p best worst bars)
  unfolding walk
  walk-Gives best worst [] f b w =
      (_, refl, record { favorable_fin = b; adverse_fin = w; remaining_fin = tt })
  walk-Gives best worst (bar ∷ bars) f b w =
      let b' = favorable-IsFin p.side bar best f.0 b in
      let w' = adverse-IsFin p.side bar worst f.0 w in
      Gives-if FinEnd (not (is_comparable bar best worst)) _ (comparable bar best worst f.0 b w) (
        rw (aware_1m, aware_5m)
          (from_bar-Gives (resolve (bar_request p bar)) bar bars (favorable p.side bar best)
            (adverse p.side bar worst) _ refl f b' w'
            (walk-Gives (favorable p.side bar best) (adverse p.side bar worst) bars f.1 b' w')))

abbrev pub Any : Bool → Type 0
Any b = Unit

tp2_side-IsFin : (side : RiskSide) (bar : CandleData) → FinBar bar → IsFin (tp2_side side bar)
tp2_side-IsFin RiskSide.long bar (high, low) = high
tp2_side-IsFin RiskSide.short bar (high, low) = low

reaches_tp2-Gives :
    (side : RiskSide) (tp2 : ℤ) (bars : List CandleData)
    → All FinBar bars
    → Gives Any (reaches_tp2 side tp2 bars)
unfolding reaches_tp2
reaches_tp2-Gives side tp2 [] f = (false, refl, tt)
reaches_tp2-Gives side tp2 (bar ∷ bars) f =
    let later = reaches_tp2-Gives side tp2 bars f.1 in
    Gives-if Any (is_nan (tp2_side side bar)) _ (not_nan _ (tp2_side-IsFin side bar f.0))
      (elim (Bool-cases (touches_tp side tp2 bar)) [
        | inl touched ↦ rw (touched) (true, refl, tt)
        | inr untouched ↦ rw (untouched) later
      ])

pub tp2_reached-Gives :
    (side : RiskSide) (outcome : XauUsdTradeOutcome) (tp2 : Option ℤ) (bars : List CandleData)
    → All FinBar bars
    → Gives Any (tp2_reached side outcome tp2 bars)
tp2_reached-Gives side XauUsdTradeOutcome.tp1_first (some tp2) bars f =
    reaches_tp2-Gives side tp2 bars f
tp2_reached-Gives side XauUsdTradeOutcome.tp1_first none bars f = (false, refl, tt)
tp2_reached-Gives side XauUsdTradeOutcome.sl_first tp2 bars f = (false, refl, tt)
tp2_reached-Gives side XauUsdTradeOutcome.no_fill tp2 bars f = (false, refl, tt)
tp2_reached-Gives side XauUsdTradeOutcome.timeout tp2 bars f = (false, refl, tt)
tp2_reached-Gives side XauUsdTradeOutcome.unresolved tp2 bars f = (false, refl, tt)
tp2_reached-Gives side XauUsdTradeOutcome.skipped tp2 bars f = (false, refl, tt)
tp2_reached-Gives side XauUsdTradeOutcome.conservative_sl_first tp2 bars f = (false, refl, tt)
tp2_reached-Gives side XauUsdTradeOutcome.entry_invalidated_stale_risk_plan tp2 bars f =
    (false, refl, tt)
