-- ===== src/Signals/Precedence.antt =====
-- The precedence of `evaluate_selective_gate` in engine/signals/gate.py, against a description of
-- each decision.
use aurum_iq.Prelude.{◌≡◌, ◌≢◌, true, false, some, none, arith, ◌↔◌, ap}
use aurum_iq.Core.Enums.{RegimeType, UserDecision, SignalState}
use aurum_iq.Core.Float.{FloatOps, LiteralLaws}
use aurum_iq.Signals.HardGate.{HardGateEvaluation}
use aurum_iq.Signals.SelectiveGate.{SelectiveInput, at_least, evaluate_selective_gate}

module _ (F : FloatOps) where
  open F use {lt, of_ℕ}

  -- The conditions under which the gate may say BUY.
  pub record MayBuy (i : SelectiveInput F) (g : HardGateEvaluation) : Type 0 where
    pub not_blocked : g.is_blocked ≡ false
    pub sufficient : i.is_data_sufficient ≡ true
    pub not_bear : i.regime ≢ some RegimeType.bear_trend
    pub not_volatile : i.regime ≢ some RegimeType.high_volatility
    pub regime_known : i.regime ≢ none
    pub structure_known : i.structure ≢ none
    pub direction_80 : at_least F i.direction 80 ≡ true
    pub timing_80 : at_least F i.timing 80 ≡ true
    pub reversal : i.is_reversal_confirmed ≡ true

  -- The gate says BUY only if it is not blocked, the data suffice, regime and structure are known, the
  -- regime is not hostile, direction and timing are at least 80 and the reversal is confirmed.
  pub buy_is_safe :
      (i : SelectiveInput F) (g : HardGateEvaluation)
      → (evaluate_selective_gate F i g).1 ≡ UserDecision.buy
      → MayBuy i g
  unfolding evaluate_selective_gate
  buy_is_safe i g e = ground arith

  -- Under those conditions the gate says BUY, in the state BUY_WINDOW.
  pub buy_when_safe :
      (laws : LiteralLaws F) (i : SelectiveInput F) (g : HardGateEvaluation)
      → MayBuy i g
      → evaluate_selective_gate F i g ≡ (SignalState.buy_window, UserDecision.buy)
  unfolding evaluate_selective_gate
  buy_when_safe laws i g m =
      let strong = laws.not_below_40 i.direction m.direction_80 in ground arith

  -- The gate says BUY just if it is not blocked, the data suffice, regime and structure are known, the
  -- regime is neither BEAR_TREND nor HIGH_VOLATILITY, direction and timing are at least 80 and the
  -- reversal is confirmed; the structure does not matter, also where it is hostile (LL or LH). (What
  -- is at least 80.0 is taken to be not below 40.0.)
  pub buy_iff-MayBuy :
      (laws : LiteralLaws F) (i : SelectiveInput F) (g : HardGateEvaluation)
      → ((evaluate_selective_gate F i g).1 ≡ UserDecision.buy) ↔ MayBuy i g
  buy_iff-MayBuy laws i g = (buy_is_safe i g, λ m. ap (λ r. r.1) (buy_when_safe laws i g m))
