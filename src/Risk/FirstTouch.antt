-- ===== src/Risk/FirstTouch.antt =====
-- The replay of `_replay_bars` in engine/risk/xauusd_intrabar.py against the first bar that touches
-- a barrier.
use aurum_iq.Prelude.{
  ℕ, suc, ◌+◌, ◌≡◌, ◌≢◌, refl, sym, ap, ◌∙◌, ◌⊎◌, inl, inr, true, false, none, some, List, [], ◌∷◌,
  ◌++◌, All, length, arith, ◌||◌,
}
use mathlib.Core.Path.{subst}
use aurum_iq.Core.Candle.{CandleData}
use aurum_iq.Risk.Barrier.{
  Request, SideIntrabarResolutionResult, BarrierHitType, Reason, touches_tp, touches_sl,
  hit_on_sub_bar, replay_from, replay_bars,
}

module _ (r : Request) where
  abbrev pub IsQuiet : CandleData → Type 0
  IsQuiet bar =
      (touches_tp r.side r.tp_price bar ≡ false) × (touches_sl r.side r.sl_price bar ≡ false)

  -- What a bar that touches a barrier decides: TP alone, SL alone, or both, which counts as SL.
  abbrev pub Decides : CandleData → ℕ → SideIntrabarResolutionResult → Type 0
  Decides bar i res =
      ((touches_tp r.side r.tp_price bar ≡ true)
        × (touches_sl r.side r.sl_price bar ≡ false)
        × (res ≡ hit_on_sub_bar r bar i BarrierHitType.tp_first r.tp_price Reason.tp_on_sub_bar))
      ⊎ ((touches_tp r.side r.tp_price bar ≡ false)
          × (touches_sl r.side r.sl_price bar ≡ true)
          × (res ≡ hit_on_sub_bar r bar i BarrierHitType.sl_first r.sl_price Reason.sl_on_sub_bar))
      ⊎ ((touches_tp r.side r.tp_price bar ≡ true)
          × (touches_sl r.side r.sl_price bar ≡ true)
          × (res
              ≡ hit_on_sub_bar r bar i BarrierHitType.sl_first r.sl_price Reason.ambiguous_sub_bar))

  -- `bars` holds quiet bars, then `bar`, then others.
  pub record IsFirst (bars : List CandleData) (bar : CandleData) : Type 0 where
    pub before : List CandleData
    pub after : List CandleData
    pub split : bars ≡ before ++ bar ∷ after
    pub quiet : All IsQuiet before

  bar_cases :
      (bar : CandleData)
      → IsQuiet bar
        ⊎ ((touches_tp r.side r.tp_price bar || touches_sl r.side r.sl_price bar) ≡ true)
  bar_cases bar = ground arith

  decide :
      (i : ℕ) (bar : CandleData) (bars : List CandleData) {res : SideIntrabarResolutionResult}
      → (touches_tp r.side r.tp_price bar || touches_sl r.side r.sl_price bar) ≡ true
      → replay_from r i (bar ∷ bars) ≡ some res
      → Decides bar i res
  unfolding replay_from
  decide i bar bars t e = ground arith

  touched_answers :
      (i : ℕ) (bar : CandleData) (bars : List CandleData)
      → (touches_tp r.side r.tp_price bar || touches_sl r.side r.sl_price bar) ≡ true
      → replay_from r i (bar ∷ bars) ≢ none
  unfolding replay_from
  touched_answers i bar bars t e = ground arith

  skip :
      (i : ℕ) (bar : CandleData) (bars : List CandleData)
      → IsQuiet bar
      → replay_from r i (bar ∷ bars) ≡ replay_from r (suc i) bars
  unfolding replay_from
  skip i bar bars q = ground arith

  replay_from-IsFirst :
      (i : ℕ) (bars : List CandleData) {res : SideIntrabarResolutionResult}
      → replay_from r i bars ≡ some res
      → (bar : CandleData) × (f : IsFirst bars bar) × Decides bar (i + length f.before) res
  replay_from-IsFirst i [] e = unfold replay_from in cc
  replay_from-IsFirst i (bar ∷ bars) {res} e = elim (bar_cases bar) [
    | inl quiet ↦
        let (b, f, d) = replay_from-IsFirst (suc i) bars (sym (skip i bar bars quiet) ∙ e) in
        (
          b,
          record {
            before = bar ∷ f.before;
            after = f.after;
            split = ap (λ l. bar ∷ l) f.split;
            quiet = (quiet, f.quiet);
          },
          subst (λ k. Decides b k res) (omega arith) d,
        )
    | inr touched ↦ (
      bar,
      record { before = []; after = bars; split = refl; quiet = tt },
      subst (λ k. Decides bar k res) (omega arith) (decide i bar bars touched e),
    )
  ]

  -- The replay answers with the first bar that touches a barrier, all bars before it touching
  -- none: TP if the bar touches only TP, SL if it touches only SL, and SL, marked as ambiguous, if
  -- it touches both. The exit is at that bar's close, and the count is the number of bars looked
  -- at.
  pub replay_bars-IsFirst :
      (bars : List CandleData) {res : SideIntrabarResolutionResult}
      → replay_bars r bars ≡ some res
      → (bar : CandleData) × (f : IsFirst bars bar) × Decides bar (1 + length f.before) res
  unfolding replay_bars
  replay_bars-IsFirst bars e = replay_from-IsFirst 1 bars e

  -- A replay that answers nothing has met only bars that touch neither barrier: with a bar that
  -- touches one, it always answers.
  pub replay_none-IsQuiet :
      (i : ℕ) (bars : List CandleData) → replay_from r i bars ≡ none → All IsQuiet bars
  replay_none-IsQuiet i [] e = tt
  replay_none-IsQuiet i (bar ∷ bars) e = elim (bar_cases bar) [
    | inl quiet ↦ (quiet, replay_none-IsQuiet (suc i) bars (sym (skip i bar bars quiet) ∙ e))
    | inr touched ↦ absurd (touched_answers i bar bars touched e)
  ]
