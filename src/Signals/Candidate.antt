-- ===== src/Signals/Candidate.antt =====
-- engine/signals/gate.py: `evaluate_xauusd_candidate_gate`, the two-sided candidate matrix, and
-- the publication guard of engine/signals/engine.py.
use aurum_iq.Prelude.{
  Result, ok, ◌>>=◌, Bool, true, false, not, ◌&&◌, ◌||◌, Option, none, some, List, if◌then◌else◌,
  or_else,
}
use aurum_iq.Core.Enums.{UserDecision, SignalState}
use aurum_iq.Core.Float.{FloatOps}
use aurum_iq.Signals.HardGate.{BlockReason, XauUsdHardGateEvaluation}
use aurum_iq.Signals.Profile.{
  SideGatePolicy, Phase4SignalProfile, is_fully_configured, is_production_authorized,
}

-- The resolution reasons; `blocked` joins the reasons of the hard gate, and with none of them
-- stands for HARD_GATE_BLOCKED.
pub data Reason : Type 0 where
  blocked : List BlockReason → Reason
  not_configured same_tier_window window_vs_ready long_window_over_short_watch : Reason
  long_qualified ready_vs_window same_tier_ready long_ready_over_short_watch : Reason
  long_setup_developing short_window_over_long_watch short_ready_over_long_watch : Reason
  same_tier_watch long_bias_detected short_qualified short_setup_developing : Reason
  short_bias_detected no_setup_active : Reason

pub record CandidateGateResult : Type 0 where
  pub candidate_state : SignalState
  pub candidate_user_decision : UserDecision
  pub resolution_reason : Reason
  pub is_candidate_valid : Bool

-- The tier of one side. The source spells it by the states of the side: BUY_WINDOW, READY_LONG,
-- WATCH_LONG, NO_TRADE for the long side, SELL_WINDOW, READY_SHORT, WATCH_SHORT, NO_TRADE for the
-- short side.
pub data Tier : Type 0 where
  window ready watch no_trade : Tier

abbrev pub result : SignalState → UserDecision → Reason → CandidateGateResult
result s d r = record {
  candidate_state = s;
  candidate_user_decision = d;
  resolution_reason = r;
  is_candidate_valid = true;
}

-- Step 3: the sixteen combinations of the long tier and the short tier.
unfoldable pub resolve_conflict : Tier → Tier → CandidateGateResult
resolve_conflict Tier.window Tier.window =
    result SignalState.conflict UserDecision.wait Reason.same_tier_window
resolve_conflict Tier.window Tier.ready =
    result SignalState.conflict UserDecision.wait Reason.window_vs_ready
resolve_conflict Tier.window Tier.watch =
    result SignalState.buy_window UserDecision.buy Reason.long_window_over_short_watch
resolve_conflict Tier.window Tier.no_trade =
    result SignalState.buy_window UserDecision.buy Reason.long_qualified
resolve_conflict Tier.ready Tier.window =
    result SignalState.conflict UserDecision.wait Reason.ready_vs_window
resolve_conflict Tier.ready Tier.ready =
    result SignalState.conflict UserDecision.wait Reason.same_tier_ready
resolve_conflict Tier.ready Tier.watch =
    result SignalState.ready_long UserDecision.wait Reason.long_ready_over_short_watch
resolve_conflict Tier.ready Tier.no_trade =
    result SignalState.ready_long UserDecision.wait Reason.long_setup_developing
resolve_conflict Tier.watch Tier.window =
    result SignalState.sell_window UserDecision.sell Reason.short_window_over_long_watch
resolve_conflict Tier.watch Tier.ready =
    result SignalState.ready_short UserDecision.wait Reason.short_ready_over_long_watch
resolve_conflict Tier.watch Tier.watch =
    result SignalState.conflict UserDecision.wait Reason.same_tier_watch
resolve_conflict Tier.watch Tier.no_trade =
    result SignalState.watch_long UserDecision.wait Reason.long_bias_detected
resolve_conflict Tier.no_trade Tier.window =
    result SignalState.sell_window UserDecision.sell Reason.short_qualified
resolve_conflict Tier.no_trade Tier.ready =
    result SignalState.ready_short UserDecision.wait Reason.short_setup_developing
resolve_conflict Tier.no_trade Tier.watch =
    result SignalState.watch_short UserDecision.wait Reason.short_bias_detected
resolve_conflict Tier.no_trade Tier.no_trade =
    result SignalState.no_trade UserDecision.wait Reason.no_setup_active

module _ (F : FloatOps) where
  open F use {Float, le, of_ℕ}

  -- What the gate reads of a SideDirectionScoreResult or a SideTimingScoreResult.
  pub record SideScore : Type 0 where
    pub total_score : Option Float
    pub is_valid : Bool

  -- `score >= threshold`. A missing threshold, which would raise, does not pass the configuration
  -- check that comes first.
  abbrev pub reaches : Float → Option Float → Bool
  reaches x none = false
  reaches x (some t) = le t x

  -- Steps 1 and 2, which are one text up to the names of the side.
  unfoldable pub classify_tier : SideGatePolicy F → Float → Float → Tier
  classify_tier g direction timing =
      if reaches direction g.threshold_window_direction && reaches timing g.threshold_window_timing
      then Tier.window
      else if reaches direction g.threshold_ready_direction
          && reaches timing g.threshold_ready_timing
      then Tier.ready
      else if reaches direction g.threshold_watch_direction
      then Tier.watch
      else Tier.no_trade

  pub record Scores : Type 0 where
    pub long_direction : SideScore
    pub short_direction : SideScore
    pub long_timing : SideScore
    pub short_timing : SideScore

  -- `total_score or 0.0`.
  abbrev pub score_or_zero : SideScore → Float
  score_or_zero s = or_else s.total_score (of_ℕ 0)

  abbrev pub all_valid : Scores → Bool
  all_valid s =
      s.long_direction.is_valid && s.short_direction.is_valid && s.long_timing.is_valid
      && s.short_timing.is_valid

  abbrev pub long_tier : Phase4SignalProfile F → Scores → Tier
  long_tier p s =
      classify_tier p.long_gate (score_or_zero s.long_direction) (score_or_zero s.long_timing)

  abbrev pub short_tier : Phase4SignalProfile F → Scores → Tier
  short_tier p s =
      classify_tier p.short_gate (score_or_zero s.short_direction) (score_or_zero s.short_timing)

  abbrev pub not_configured_result : CandidateGateResult
  not_configured_result = record {
    candidate_state = SignalState.no_trade;
    candidate_user_decision = UserDecision.wait;
    resolution_reason = Reason.not_configured;
    is_candidate_valid = false;
  }

  -- The part below the configuration check of the profile.
  abbrev pub configured_gate : Phase4SignalProfile F → Scores → Bool → CandidateGateResult
  configured_gate p s configured =
      if not configured || not (all_valid s)
      then not_configured_result
      else resolve_conflict (long_tier p s) (short_tier p s)

  abbrev pub profile_gate : Option (Phase4SignalProfile F) → Scores → Result CandidateGateResult
  profile_gate none s = ok not_configured_result
  profile_gate (some p) s =
      is_fully_configured F p >>= λ configured. ok (configured_gate p s configured)

  unfoldable pub evaluate_xauusd_candidate_gate :
      Scores
      → XauUsdHardGateEvaluation
      → Option (Phase4SignalProfile F)
      → Result CandidateGateResult
  evaluate_xauusd_candidate_gate s hard_gate profile =
      if hard_gate.is_blocked
      then ok
          (result SignalState.force_wait UserDecision.wait (Reason.blocked hard_gate.block_reasons))
      else profile_gate profile s

  -- The Layer B publication guard of `XauUsdSignalEngine`.
  unfoldable pub publish :
      Phase4SignalProfile F
      → XauUsdHardGateEvaluation
      → CandidateGateResult
      → SignalState × UserDecision
  publish p hard_gate c =
      if is_production_authorized F p
      then (c.candidate_state, c.candidate_user_decision)
      else if hard_gate.is_blocked
      then (SignalState.force_wait, UserDecision.wait)
      else (SignalState.no_trade, UserDecision.wait)
