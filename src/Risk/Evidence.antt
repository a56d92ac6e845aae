-- ===== src/Risk/Evidence.antt =====
-- The ways in which `SideAwareIntrabarResolver.resolve` (engine/risk/xauusd_intrabar.py) comes to a
-- result, and the sub-bars that a replay rests on.
use aurum_iq.Prelude.{
  ℕ, ◌+◌, ◌≡◌, refl, ◌⊎◌, inl, inr, true, false, Option, none, some, List, length, arith,
  Bool-cases, Result, ok,
}
use mathlib.Core.Path.{subst}
use aurum_iq.Core.Decimal.{fin}
use aurum_iq.Core.Candle.{CandleData, Datetime, opens_at}
use aurum_iq.Risk.Validation.{validate_xauusd_candle}
use aurum_iq.Risk.Sequence.{valid, validate_sequence}
use aurum_iq.Risk.Grid.{IsGrid, validate_sequence-IsGrid}
use aurum_iq.Risk.Barrier.{
  BarrierHitType, ParentTimeframe, Reason, SideIntrabarResolutionResult, Request, touches_tp,
  touches_sl, replay_bars, mentions_ambiguous,
}
use aurum_iq.Risk.Intrabar.{
  no_exit, exit_at_close, replay_valid, replay_unambiguous, fallback, drill, replay_hours,
  replay_15m, replay_lower, resolve_collision, resolve_barriers, resolve, resolve_from,
  resolve_priced, effective_fill, fill_price_error,
}
use aurum_iq.Risk.FirstTouch.{IsFirst, Decides, replay_bars-IsFirst}

pub ok-injective {ℓ} : {A : Type ℓ} {a b : A} → ok a ≡ ok b → a ≡ b
ok-injective e = cc

module _ (r : Request) where
  -- One of the lists of the request, with the seconds of its timeframe.
  abbrev pub IsGiven : List CandleData → ℕ → Type 0
  IsGiven candles step =
      ((candles ≡ r.candles_1m) × (step ≡ 60))
      ⊎ ((candles ≡ r.candles_5m) × (step ≡ 300))
      ⊎ ((candles ≡ r.candles_15m) × (step ≡ 900))

  -- A valid grid of sub-bars whose first touching bar decides the result.
  pub record SubBarEvidence (fill_ts : ℕ) (res : SideIntrabarResolutionResult) : Type 0 where
    pub step : ℕ
    pub candles : List CandleData
    pub given : IsGiven candles step
    pub grid : IsGrid candles step r.parent_candle fill_ts
    pub bar : CandleData
    pub first : IsFirst r candles bar
    pub decides : Decides r bar (1 + length first.before) res

  replay_valid-some :
      (fill_ts step : ℕ) (candles : List CandleData) {res : SideIntrabarResolutionResult}
      → replay_valid r fill_ts candles step ≡ some res
      → (bars : List CandleData) × (validate_sequence candles step r.parent_candle fill_ts
          ≡ valid bars)
        × (replay_bars r bars ≡ some res)
  unfolding replay_valid
  replay_valid-some fill_ts step candles e = ground arith

  pub replay_valid-evidence :
      (fill_ts step : ℕ) (candles : List CandleData) {res : SideIntrabarResolutionResult}
      → IsGiven candles step
      → replay_valid r fill_ts candles step ≡ some res
      → SubBarEvidence fill_ts res
  replay_valid-evidence fill_ts step candles {res} given e =
      let (bars, checked, replayed) = replay_valid-some fill_ts step candles e in
      let (same, grid) = validate_sequence-IsGrid candles step r.parent_candle fill_ts checked in
      let (bar, first, decides) =
        replay_bars-IsFirst r candles (subst (λ l. replay_bars r l ≡ some res) same replayed) in
      record {
        step = step;
        candles = candles;
        given = given;
        grid = grid;
        bar = bar;
        first = first;
        decides = decides;
      }

  unambiguous-valid :
      (fill_ts step : ℕ) (candles : List CandleData) {res : SideIntrabarResolutionResult}
      → replay_unambiguous r fill_ts candles step ≡ some res
      → (replay_valid r fill_ts candles step ≡ some res) × (mentions_ambiguous res.reason ≡ false)
  unfolding replay_unambiguous
  unambiguous-valid fill_ts step candles e = ground arith

  drill-some :
      (fill_ts : ℕ) {res : SideIntrabarResolutionResult}
      → drill r fill_ts ≡ some res
      → (replay_unambiguous r fill_ts r.candles_1m 60 ≡ some res)
        ⊎ (replay_unambiguous r fill_ts r.candles_5m 300 ≡ some res)
  unfolding drill
  drill-some fill_ts e = ground arith

  drill-evidence :
      (fill_ts : ℕ) {res : SideIntrabarResolutionResult}
      → drill r fill_ts ≡ some res
      → SubBarEvidence fill_ts res
  drill-evidence fill_ts e = elim (drill-some fill_ts e) [
    | inl by_1m ↦
        replay_valid-evidence fill_ts 60 _ (inl (refl, refl))
          (unambiguous-valid fill_ts 60 _ by_1m).0
    | inr by_5m ↦
        replay_valid-evidence fill_ts 300 _ (inr (inl (refl, refl)))
          (unambiguous-valid fill_ts 300 _ by_5m).0
  ]

  hours-cases :
      (fill_ts : ℕ)
      → (replay_hours r fill_ts ≡ fallback r)
        ⊎ (replay_valid r fill_ts r.candles_15m 900 ≡ some (replay_hours r fill_ts))
        ⊎ (drill r fill_ts ≡ some (replay_hours r fill_ts))
  unfolding replay_hours
  hours-cases fill_ts = ground arith

  minutes-cases :
      (fill_ts : ℕ)
      → (replay_15m r fill_ts ≡ fallback r) ⊎ (drill r fill_ts ≡ some (replay_15m r fill_ts))
  unfolding replay_15m
  minutes-cases fill_ts = ground arith

  hours-evidence :
      (fill_ts : ℕ)
      → (replay_hours r fill_ts ≡ fallback r) ⊎ SubBarEvidence fill_ts (replay_hours r fill_ts)
  hours-evidence fill_ts = elim (hours-cases fill_ts) [
    | inl same ↦ inl same
    | inr (inl replayed) ↦
        inr (replay_valid-evidence fill_ts 900 _ (inr (inr (refl, refl))) replayed)
    | inr (inr drilled) ↦ inr (drill-evidence fill_ts drilled)
  ]

  minutes-evidence :
      (fill_ts : ℕ)
      → (replay_15m r fill_ts ≡ fallback r) ⊎ SubBarEvidence fill_ts (replay_15m r fill_ts)
  minutes-evidence fill_ts = elim (minutes-cases fill_ts) [
    | inl same ↦ inl same
    | inr drilled ↦ inr (drill-evidence fill_ts drilled)
  ]

  pub lower-evidence :
      (tf : ParentTimeframe) (fill_ts : ℕ)
      → (replay_lower tf r fill_ts ≡ fallback r)
        ⊎ SubBarEvidence fill_ts (replay_lower tf r fill_ts)
  lower-evidence ParentTimeframe.h4 fill_ts = hours-evidence fill_ts
  lower-evidence ParentTimeframe.h1 fill_ts = hours-evidence fill_ts
  lower-evidence ParentTimeframe.other fill_ts = minutes-evidence fill_ts

  -- How a resolution ends: with no exit, at the parent's close where one barrier alone is touched,
  -- or, where both are, by the policy.
  pub resolve_barriers-cases :
      (fill_ts : ℕ) {out : Result SideIntrabarResolutionResult}
      → resolve_barriers r fill_ts ≡ out
      → (out ≡ ok (no_exit r BarrierHitType.unresolved Reason.neither_touched))
        ⊎ ((touches_tp r.side r.tp_price r.parent_candle ≡ true)
            × (touches_sl r.side r.sl_price r.parent_candle ≡ false)
            × (out
                ≡ ok (
                    exit_at_close r BarrierHitType.tp_first
                      (fin r.tp_price)
                      r.policy
                      Reason.only_tp_touched)))
        ⊎ ((touches_sl r.side r.sl_price r.parent_candle ≡ true)
            × (touches_tp r.side r.tp_price r.parent_candle ≡ false)
            × (out
                ≡ ok (
                    exit_at_close r BarrierHitType.sl_first
                      (fin r.sl_price)
                      r.policy
                      Reason.only_sl_touched)))
        ⊎ ((touches_tp r.side r.tp_price r.parent_candle ≡ true)
            × (touches_sl r.side r.sl_price r.parent_candle ≡ true)
            × (out ≡ resolve_collision r.policy r fill_ts))
  unfolding resolve_barriers
  resolve_barriers-cases fill_ts e = ground arith

  -- The instant of the fill: what is given, if it is aware, or the open of the parent.
  abbrev pub FillsAt : ℕ → Type 0
  FillsAt fill_ts =
      ((r.fill_timestamp ≡ none) × (fill_ts ≡ opens_at r.parent_candle))
      ⊎ ((t : Datetime) × (r.fill_timestamp ≡ some t) × (t.aware ≡ true) × (fill_ts ≡ t.utc))

  effective_fill-FillsAt :
      (o : Option Datetime) (fill_ts : ℕ)
      → r.fill_timestamp ≡ o
      → effective_fill r.parent_candle o ≡ some fill_ts
      → FillsAt fill_ts
  effective_fill-FillsAt none fill_ts given e = inl (given, ground arith)
  effective_fill-FillsAt (some t) fill_ts given e = inr (t, given, ground arith, ground arith)

  -- Either the resolution ends early, unresolved, or it comes to the barriers.
  abbrev pub EndsOrResolves : Result SideIntrabarResolutionResult → Type 0
  EndsOrResolves out =
      ((reason : Reason) × (out ≡ ok (no_exit r BarrierHitType.unresolved reason)))
      ⊎ ((fill_ts : ℕ) × (out ≡ resolve_barriers r fill_ts))

  -- The same, with the instant of the fill.
  abbrev pub EndsOrFills : Result SideIntrabarResolutionResult → Type 0
  EndsOrFills out =
      ((reason : Reason) × (out ≡ ok (no_exit r BarrierHitType.unresolved reason)))
      ⊎ ((fill_ts : ℕ) × FillsAt fill_ts × (out ≡ resolve_barriers r fill_ts))

  from-fills :
      (o : Option ℕ)
      → effective_fill r.parent_candle r.fill_timestamp ≡ o
      → EndsOrFills (resolve_from r o)
  from-fills none e = inl (Reason.naive_fill_timestamp, refl)
  from-fills (some t) e = inr (t, effective_fill-FillsAt r.fill_timestamp t refl e, refl)

  priced-fills : (o : Option Reason) → EndsOrFills (resolve_priced r o)
  priced-fills none = from-fills (effective_fill r.parent_candle r.fill_timestamp) refl
  priced-fills (some reason) = inl (reason, refl)

  pub resolve-fills : EndsOrFills (resolve r)
  unfolding resolve
  resolve-fills = elim (Bool-cases (validate_xauusd_candle r.parent_candle)) [
    | inl accepted ↦ rw accepted (priced-fills (fill_price_error r r.fill_price))
    | inr refused ↦ rw refused (inl (Reason.parent_invalid, refl))
  ]

  pub resolve-cases : EndsOrResolves (resolve r)
  resolve-cases = elim resolve-fills [
    | inl early ↦ inl early
    | inr (fill_ts, fills, out) ↦ inr (fill_ts, out)
  ]
