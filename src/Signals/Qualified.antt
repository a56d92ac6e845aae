-- ===== src/Signals/Qualified.antt =====
-- What a BUY or a SELL of the candidate gate of engine/signals/gate.py rests on, and how the tier
-- of a side moves with its scores.
use aurum_iq.Prelude.{ok, ℕ, ◌≤◌, ◌≡◌, ◌≢◌, ◌⊎◌, true, false, Option, none, some, arith}
use aurum_iq.Core.Enums.{UserDecision}
use aurum_iq.Core.Float.{FloatOps, FloatLaws}
use aurum_iq.Signals.HardGate.{XauUsdHardGateEvaluation}
use aurum_iq.Signals.Profile.{SideGatePolicy, Phase4SignalProfile, is_fully_configured}
use aurum_iq.Signals.Candidate.{
  CandidateGateResult, Tier, Scores, reaches, classify_tier, score_or_zero, all_valid, long_tier,
  short_tier, resolve_conflict, evaluate_xauusd_candidate_gate,
}

module _ (F : FloatOps) where
  open F use {Float, le}

  -- One side is in its window and the other has not even reached its ready tier.
  pub record IsQualified (g : SideGatePolicy F) (direction timing : Float)
      (other : SideGatePolicy F) (other_direction other_timing : Float) : Type 0 where
    pub direction_window : reaches F direction g.threshold_window_direction ≡ true
    pub timing_window : reaches F timing g.threshold_window_timing ≡ true
    pub other_below_window :
        (reaches F other_direction other.threshold_window_direction ≡ false)
        ⊎ (reaches F other_timing other.threshold_window_timing ≡ false)
    pub other_below_ready :
        (reaches F other_direction other.threshold_ready_direction ≡ false)
        ⊎ (reaches F other_timing other.threshold_ready_timing ≡ false)

  -- What the gate has checked before it says BUY or SELL.
  pub record IsChecked (s : Scores F) (g : XauUsdHardGateEvaluation) (p : Phase4SignalProfile F)
      : Type 0 where
    pub not_blocked : g.is_blocked ≡ false
    pub configured : is_fully_configured F p ≡ ok true
    pub valid : all_valid F s ≡ true

  abbrev pub IsLongQualified : Scores F → Phase4SignalProfile F → Type 0
  IsLongQualified s p =
      IsQualified p.long_gate (score_or_zero F s.long_direction) (score_or_zero F s.long_timing)
        p.short_gate (score_or_zero F s.short_direction) (score_or_zero F s.short_timing)

  abbrev pub IsShortQualified : Scores F → Phase4SignalProfile F → Type 0
  IsShortQualified s p =
      IsQualified p.short_gate (score_or_zero F s.short_direction) (score_or_zero F s.short_timing)
        p.long_gate (score_or_zero F s.long_direction) (score_or_zero F s.long_timing)

  window_against :
      (g o : SideGatePolicy F) (d t d' t' : Float)
      → classify_tier F g d t ≡ Tier.window
      → (classify_tier F o d' t' ≡ Tier.watch) ⊎ (classify_tier F o d' t' ≡ Tier.no_trade)
      → IsQualified g d t o d' t'
  unfolding classify_tier
  window_against g o d t d' t' e f = ground arith

  buy_tiers :
      (l s : Tier)
      → (resolve_conflict l s).candidate_user_decision ≡ UserDecision.buy
      → (l ≡ Tier.window) × ((s ≡ Tier.watch) ⊎ (s ≡ Tier.no_trade))
  unfolding resolve_conflict
  buy_tiers l s e = ground arith

  sell_tiers :
      (l s : Tier)
      → (resolve_conflict l s).candidate_user_decision ≡ UserDecision.sell
      → (s ≡ Tier.window) × ((l ≡ Tier.watch) ⊎ (l ≡ Tier.no_trade))
  unfolding resolve_conflict
  sell_tiers l s e = ground arith

  decided :
      (s : Scores F) (g : XauUsdHardGateEvaluation) (p : Phase4SignalProfile F)
      {r : CandidateGateResult}
      → evaluate_xauusd_candidate_gate F s g (some p) ≡ ok r
      → r.candidate_user_decision ≢ UserDecision.wait
      → IsChecked s g p × (r ≡ resolve_conflict (long_tier F p s) (short_tier F p s))
  unfolding evaluate_xauusd_candidate_gate
  decided s g p e d = ground arith

  -- A BUY of the candidate gate rests on a hard gate that does not block, a fully configured
  -- profile and four valid scores; the long side has reached both window thresholds, and the short
  -- side neither its window nor its ready tier.
  pub buy_is_qualified :
      (s : Scores F) (g : XauUsdHardGateEvaluation) (p : Phase4SignalProfile F)
      {r : CandidateGateResult}
      → evaluate_xauusd_candidate_gate F s g (some p) ≡ ok r
      → r.candidate_user_decision ≡ UserDecision.buy
      → IsChecked s g p × IsLongQualified s p
  buy_is_qualified s g p e d =
      let (checked, same) = decided s g p e (λ w. cc) in
      let (window, other) = buy_tiers (long_tier F p s) (short_tier F p s) (rw same at d) in
      (checked, window_against p.long_gate p.short_gate _ _ _ _ window other)

  -- A SELL of the candidate gate rests on a hard gate that does not block, a fully configured
  -- profile and four valid scores; the short side has reached both window thresholds, and the
  -- long side neither its window nor its ready tier.
  pub sell_is_qualified :
      (s : Scores F) (g : XauUsdHardGateEvaluation) (p : Phase4SignalProfile F)
      {r : CandidateGateResult}
      → evaluate_xauusd_candidate_gate F s g (some p) ≡ ok r
      → r.candidate_user_decision ≡ UserDecision.sell
      → IsChecked s g p × IsShortQualified s p
  sell_is_qualified s g p e d =
      let (checked, same) = decided s g p e (λ w. cc) in
      let (window, other) = sell_tiers (long_tier F p s) (short_tier F p s) (rw same at d) in
      (checked, window_against p.short_gate p.long_gate _ _ _ _ window other)

abbrev pub rank : Tier → ℕ
rank Tier.no_trade = 0
rank Tier.watch = 1
rank Tier.ready = 2
rank Tier.window = 3

module _ (F : FloatOps) (laws : FloatLaws F) where
  open F use {Float, le}

  reaches_mono :
      (x y : Float) (t : Option Float) → le x y ≡ true → reaches F x t ≡ true → reaches F y t ≡ true
  reaches_mono x y none h e = e
  reaches_mono x y (some t) h e = laws.le_trans t x y e h

  -- Raising the direction and the timing score of a side never lowers its tier, whatever the
  -- thresholds are. (Comparison of floats is taken to be transitive.)
  pub classify_tier_mono :
      (g : SideGatePolicy F) (d d' t t' : Float)
      → le d d' ≡ true
      → le t t' ≡ true
      → rank (classify_tier F g d t) ≤ rank (classify_tier F g d' t')
  unfolding classify_tier
  classify_tier_mono g d d' t t' hd ht = ground (
    arith,
    reaches_mono d d' g.threshold_window_direction hd,
    reaches_mono t t' g.threshold_window_timing ht,
    reaches_mono d d' g.threshold_ready_direction hd,
    reaches_mono t t' g.threshold_ready_timing ht,
    reaches_mono d d' g.threshold_watch_direction hd,
  )
