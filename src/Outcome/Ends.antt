-- ===== src/Outcome/Ends.antt =====
-- engine/backtest/xauusd_outcomes.py: where the loop over the bars ends.
use aurum_iq.Risk.ExactStop.{sl_first_exact}
use aurum_iq.Risk.ExitTime.{resolve-ExitsInside}
use aurum_iq.Risk.TakeProfit.{tp_first_needs_evidence}
use aurum_iq.Risk.Intrabar.{resolve}
use mathlib.Core.List.{Memᴰ}
use aurum_iq.Risk.Barrier.{SideIntrabarResolutionResult, BarrierHitType}
use aurum_iq.Outcome.Trade.{
  XauUsdTradeOutcome, Attempt, done, from_result, raises_value_error, raises_decimal_error,
}
use aurum_iq.Core.Decimal.{Decimal, fin, le, zero_price}
use aurum_iq.Core.Candle.{CandleData, closes_at}
use aurum_iq.Outcome.Walk.{
  Position, price_or, Ending, bar_request, walk, after_hit, ends_at, favorable, adverse,
}
use aurum_iq.Prelude.Int.{ℤ}
use aurum_iq.Prelude.{
  value_error, true, if◌then◌else◌, not, Bool, false, [], Option, ℕ, List, ◌≡◌, some, ◌∷◌, inl, ◌≤◌,
  ◌⊎◌, Bool-cases, inr, or_else, none, arith, refl, ◌&&◌, ok, ap, subst, ◌∙◌, Result, Bool,
  if◌then◌else◌, not, false,
}

-- The prices at which the loop ends by a barrier.
abbrev pub IsExit : Position → Ending → Type 0
IsExit p end =
    ((end.outcome ≡ XauUsdTradeOutcome.tp1_first) × (end.exit_price ≡ some (fin p.tp1)))
    ⊎ ((end.outcome ≡ XauUsdTradeOutcome.sl_first) × (end.exit_price ≡ some (fin p.stop)))
    ⊎ ((end.outcome ≡ XauUsdTradeOutcome.skipped) × (end.exit_price ≡ some p.fill_price))

-- Either no barrier is hit, or a bar is, by whose close the exit is.
abbrev pub IsEnd : Position → List CandleData → Ending → Type 0
IsEnd p bars end =
    ((end.outcome ≡ XauUsdTradeOutcome.unresolved) × (end.exit_ts ≡ none))
    ⊎ ((bar : CandleData) × (t : ℕ) × Memᴰ bar bars
        × (end.exit_ts ≡ some t)
        × (t ≤ closes_at bar)
        × IsExit p end)

price_or_same : (a : ℤ) → price_or (some (fin a)) (fin a) ≡ fin a
price_or_same a = elim (Bool-cases (le (fin a) zero_price && le zero_price (fin a))) [
  | inl zero_price_given ↦ rw (zero_price_given) refl
  | inr given ↦ rw (given) refl
]

later-IsEnd :
    (p : Position) (bar : CandleData) (bars : List CandleData) (end : Ending)
    → IsEnd p bars end
    → IsEnd p (bar ∷ bars) end
later-IsEnd p bar bars end (inl quiet) = inl quiet
later-IsEnd p bar bars end (inr (hit, t, member, exit, by_close, kind)) =
    inr (hit, t, Memᴰ.tail member, exit, by_close, kind)

exit_by_close :
    (exit : Option ℕ) (close : ℕ)
    → ((t : ℕ) → exit ≡ some t → t ≤ close)
    → or_else exit close ≤ close
exit_by_close none close h = omega arith
exit_by_close (some t) close h = h t refl

pub done_injective {ℓ} : {A : Type ℓ} {a b : A} → done a ≡ done b → a ≡ b
done_injective e = cc

module _ (p : Position) (bar : CandleData) (bars : List CandleData) (best worst : Decimal) where
  ends_at-IsEnd :
      (hit : SideIntrabarResolutionResult) (outcome : XauUsdTradeOutcome) (price : Decimal)
      → resolve (bar_request p bar) ≡ ok hit
      → IsExit p (ends_at bar bars best worst hit outcome price)
      → IsEnd p (bar ∷ bars) (ends_at bar bars best worst hit outcome price)
  ends_at-IsEnd hit outcome price out exit = inr (
    bar,
    or_else hit.exit_timestamp (closes_at bar),
    Memᴰ.head refl,
    refl,
    exit_by_close hit.exit_timestamp (closes_at bar) (resolve-ExitsInside (bar_request p bar) out),
    exit,
  )

  after_hit-IsEnd :
      (kind : BarrierHitType) (hit : SideIntrabarResolutionResult) (rest : Attempt Ending)
      (end : Ending)
      → hit.barrier_hit ≡ kind
      → resolve (bar_request p bar) ≡ ok hit
      → ((later : Ending) → rest ≡ done later → IsEnd p bars later)
      → after_hit kind p bar bars best worst hit rest ≡ done end
      → IsEnd p (bar ∷ bars) end
  after_hit-IsEnd BarrierHitType.tp_first hit rest end at out h e =
      let (_, price, _) = tp_first_needs_evidence (bar_request p bar) out at in
      subst (IsEnd p (bar ∷ bars)) (done_injective e) (
        ends_at-IsEnd hit _ _ out
          (inl (refl, ap some (ap (λ d. price_or d (fin p.tp1)) price ∙ price_or_same p.tp1))))
  after_hit-IsEnd BarrierHitType.sl_first hit rest end at out h e =
      let price = sl_first_exact (bar_request p bar) refl out at in
      subst (IsEnd p (bar ∷ bars)) (done_injective e) (
        ends_at-IsEnd hit _ _ out (
          inr
            (inl (refl, ap some (ap (λ d. price_or d (fin p.stop)) price ∙ price_or_same p.stop)))))
  after_hit-IsEnd BarrierHitType.skipped hit rest end at out h e =
      subst (IsEnd p (bar ∷ bars)) (done_injective e)
        (ends_at-IsEnd hit _ _ out (inr (inr (refl, refl))))
  after_hit-IsEnd BarrierHitType.unresolved hit rest end at out h e =
      later-IsEnd p bar bars end (h end e)

  from_bar-IsEnd :
      (out : Result SideIntrabarResolutionResult) (rest : Attempt Ending) (end : Ending)
      → resolve (bar_request p bar) ≡ out
      → ((later : Ending) → rest ≡ done later → IsEnd p bars later)
      → from_result out (λ hit. after_hit hit.barrier_hit p bar bars best worst hit rest) ≡ done end
      → IsEnd p (bar ∷ bars) end
  from_bar-IsEnd (ok hit) rest end out h e =
      after_hit-IsEnd hit.barrier_hit hit rest end refl out h e
  from_bar-IsEnd value_error rest end out h e = absurd (cc)

  step-IsEnd :
      (comparable aware : Bool) (rest : Attempt Ending) (end : Ending)
      → ((later : Ending) → rest ≡ done later → IsEnd p bars later)
      → (if not comparable
          then raises_decimal_error
          else if not aware
          then raises_value_error
          else from_result
              (resolve (bar_request p bar))
              (λ hit. after_hit hit.barrier_hit p bar bars best worst hit rest))
        ≡ done end
      → IsEnd p (bar ∷ bars) end
  step-IsEnd false aware rest end h e = absurd (cc)
  step-IsEnd true false rest end h e = absurd (cc)
  step-IsEnd true true rest end h e = from_bar-IsEnd (resolve (bar_request p bar)) rest end refl h e

-- The loop ends unresolved, or at one of its bars: by the close of that bar, at TP1, at the stop or,
-- where a collision is skipped, at the fill price.
pub walk-IsEnd :
    (p : Position) (best worst : Decimal) (bars : List CandleData) (end : Ending)
    → walk p best worst bars ≡ done end
    → IsEnd p bars end
unfolding walk
walk-IsEnd p best worst [] end e = subst (IsEnd p []) (done_injective e) (inl (refl, refl))
walk-IsEnd p best worst (bar ∷ bars) end e =
    step-IsEnd p bar bars (favorable p.side bar best) (adverse p.side bar worst) _ _ _ end
      (λ later f. walk-IsEnd p (favorable p.side bar best) (adverse p.side bar worst) bars later f)
      e
