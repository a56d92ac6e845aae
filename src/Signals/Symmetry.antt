-- ===== src/Signals/Symmetry.antt =====
-- The candidate gate of engine/signals/gate.py with all that belongs to LONG and all
-- that belongs to SHORT exchanged.
use aurum_iq.Prelude.{ok, ◌≡◌, Bool, some, arith}
use aurum_iq.Core.Enums.{UserDecision, SignalState}
use aurum_iq.Core.Float.{FloatOps}
use aurum_iq.Signals.HardGate.{XauUsdHardGateEvaluation}
use aurum_iq.Signals.Profile.{Phase4SignalProfile, is_fully_configured}
use aurum_iq.Signals.Candidate.{
  Reason, CandidateGateResult, Tier, Scores, resolve_conflict, long_tier, short_tier,
  evaluate_xauusd_candidate_gate,
}

abbrev pub mirror_state : SignalState → SignalState
mirror_state SignalState.buy_window = SignalState.sell_window
mirror_state SignalState.sell_window = SignalState.buy_window
mirror_state SignalState.ready_long = SignalState.ready_short
mirror_state SignalState.ready_short = SignalState.ready_long
mirror_state SignalState.watch_long = SignalState.watch_short
mirror_state SignalState.watch_short = SignalState.watch_long
mirror_state s = s

abbrev pub mirror_decision : UserDecision → UserDecision
mirror_decision UserDecision.buy = UserDecision.sell
mirror_decision UserDecision.sell = UserDecision.buy
mirror_decision d = d

abbrev pub mirror_reason : Reason → Reason
mirror_reason Reason.window_vs_ready = Reason.ready_vs_window
mirror_reason Reason.ready_vs_window = Reason.window_vs_ready
mirror_reason Reason.long_window_over_short_watch = Reason.short_window_over_long_watch
mirror_reason Reason.short_window_over_long_watch = Reason.long_window_over_short_watch
mirror_reason Reason.long_ready_over_short_watch = Reason.short_ready_over_long_watch
mirror_reason Reason.short_ready_over_long_watch = Reason.long_ready_over_short_watch
mirror_reason Reason.long_qualified = Reason.short_qualified
mirror_reason Reason.short_qualified = Reason.long_qualified
mirror_reason Reason.long_setup_developing = Reason.short_setup_developing
mirror_reason Reason.short_setup_developing = Reason.long_setup_developing
mirror_reason Reason.long_bias_detected = Reason.short_bias_detected
mirror_reason Reason.short_bias_detected = Reason.long_bias_detected
mirror_reason r = r

abbrev pub mirror_result : CandidateGateResult → CandidateGateResult
mirror_result c = record {
  candidate_state = mirror_state c.candidate_state;
  candidate_user_decision = mirror_decision c.candidate_user_decision;
  resolution_reason = mirror_reason c.resolution_reason;
  is_candidate_valid = c.is_candidate_valid;
}

resolve_conflict-mirror : (l s : Tier) → resolve_conflict s l ≡ mirror_result (resolve_conflict l s)
unfolding resolve_conflict
resolve_conflict-mirror l s = ground arith

module _ (F : FloatOps) where
  abbrev pub mirror_scores : Scores F → Scores F
  mirror_scores s = record {
    long_direction = s.short_direction;
    short_direction = s.long_direction;
    long_timing = s.short_timing;
    short_timing = s.long_timing;
  }

  abbrev pub mirror_profile : Phase4SignalProfile F → Phase4SignalProfile F
  mirror_profile p = record {
    long_direction = p.short_direction;
    short_direction = p.long_direction;
    long_timing = p.short_timing;
    short_timing = p.long_timing;
    long_gate = p.short_gate;
    short_gate = p.long_gate;
    feed_policy = p.feed_policy;
  }

  -- Where the checks of both spellings return, they agree.
  configured-mirror :
      (p : Phase4SignalProfile F) {b c : Bool}
      → is_fully_configured F p ≡ ok b
      → is_fully_configured F (mirror_profile p) ≡ ok c
      → b ≡ c
  unfolding is_fully_configured
  configured-mirror p e f = ground arith

  -- If the configuration check of the profile and of the mirrored profile both return, the gate
  -- at mirrored scores and profile, under the same hard gate, gives the mirrored result: state,
  -- decision, reason and validity.
  pub gate-mirror :
      (s : Scores F) (g : XauUsdHardGateEvaluation) (p : Phase4SignalProfile F) {b c : Bool}
      → is_fully_configured F p ≡ ok b
      → is_fully_configured F (mirror_profile p) ≡ ok c
      → {r : CandidateGateResult} → evaluate_xauusd_candidate_gate F s g (some p) ≡ ok r
      → evaluate_xauusd_candidate_gate F (mirror_scores s) g (some (mirror_profile p))
        ≡ ok (mirror_result r)
  unfolding evaluate_xauusd_candidate_gate
  gate-mirror s g p e f h =
      ground (
        arith,
        configured-mirror p e f,
        resolve_conflict-mirror (long_tier F p s) (short_tier F p s),
      )
