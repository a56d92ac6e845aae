-- ===== src/Signals/SelectiveGate.antt =====
-- engine/signals/gate.py: `evaluate_selective_gate`, the one-sided gate of the XAUT baseline.
use aurum_iq.Prelude.{ℕ, Bool, true, false, not, ◌&&◌, Option, none, some, if◌then◌else◌}
use aurum_iq.Core.Enums.{RegimeType, StructureType, UserDecision, SignalState}
use aurum_iq.Core.Float.{FloatOps}
use aurum_iq.Signals.HardGate.{HardGateEvaluation}

-- `regime.regime in (BEAR_TREND, HIGH_VOLATILITY)`.
abbrev pub is_hostile_regime : RegimeType → Bool
is_hostile_regime RegimeType.bear_trend = true
is_hostile_regime RegimeType.high_volatility = true
is_hostile_regime _ = false

-- `structure.structure_type in (LL, LH)`.
abbrev pub is_breakdown : StructureType → Bool
is_breakdown StructureType.ll = true
is_breakdown StructureType.lh = true
is_breakdown _ = false

module _ (F : FloatOps) where
  open F use {Float, le, lt, of_ℕ}

  -- What the gate reads: the two total scores, and the regime and structure where there are any.
  pub record SelectiveInput : Type 0 where
    pub direction : Float
    pub timing : Float
    pub regime : Option RegimeType
    pub structure : Option StructureType
    pub is_reversal_confirmed : Bool
    pub is_near_support : Bool
    pub is_data_sufficient : Bool

  -- `score >= n`.
  abbrev pub at_least : Float → ℕ → Bool
  at_least x n = le (of_ℕ n) x

  -- Part 3 of the function: the numerical states, the best first.
  abbrev pub score_state : SelectiveInput → SignalState × UserDecision
  score_state i =
      if at_least i.direction 80 && at_least i.timing 80 && i.is_reversal_confirmed
      then (SignalState.buy_window, UserDecision.buy)
      else if at_least i.direction 75 && at_least i.timing 70 && i.is_near_support
      then (SignalState.ready, UserDecision.wait)
      else if at_least i.direction 70
      then (SignalState.watch, UserDecision.wait)
      else (SignalState.no_trade, UserDecision.wait)

  -- Part 2: hostile conditions, once regime and structure are known.
  abbrev pub hostile_or_score :
      SelectiveInput → RegimeType → StructureType → SignalState × UserDecision
  hostile_or_score i regime structure =
      if is_hostile_regime regime
      then (SignalState.avoid, UserDecision.avoid)
      else if is_breakdown structure && lt i.direction (of_ℕ 40)
      then (SignalState.avoid, UserDecision.avoid)
      else score_state i

  abbrev pub initialised :
      SelectiveInput → Option RegimeType → Option StructureType → SignalState × UserDecision
  initialised i (some regime) (some structure) =
      if not i.is_data_sufficient
      then (SignalState.no_trade, UserDecision.wait)
      else hostile_or_score i regime structure
  initialised i (some regime) none = (SignalState.no_trade, UserDecision.wait)
  initialised i none structure = (SignalState.no_trade, UserDecision.wait)

  unfoldable pub evaluate_selective_gate :
      SelectiveInput → HardGateEvaluation → SignalState × UserDecision
  evaluate_selective_gate i hard_gate =
      if hard_gate.is_blocked
      then (SignalState.force_wait, UserDecision.wait)
      else initialised i i.regime i.structure
