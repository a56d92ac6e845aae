-- ===== src/Signals/Tests.antt =====
-- The signal gates of engine/signals at concrete scores and profiles, with whole numbers for floats.
use aurum_iq.Prelude.{
  ok, ℕ, ◌+◌, ◌-◌, ◌≡◌, refl, ◌≢◌, ◌⊎◌, true, false, none, some, ltb, leb, [], ◌↔◌, arith,
}
use aurum_iq.Core.Enums.{
  RegimeType, StructureType, UserDecision, SignalState, FeedCriticality, FeedHealthStatus,
}
use aurum_iq.Core.Float.{FloatOps, LiteralLaws}
use aurum_iq.Signals.Profile.{
  SideDirectionPolicy, SideTimingPolicy, SideGatePolicy, Phase4SignalProfile, default_feed_policy,
  is_fully_configured, direction_configured, timing_configured, gate_configured, weights_configured,
}
use aurum_iq.Signals.HardGate.{
  Feed, RuntimeFeedHealth, HardGateEvaluation, XauUsdHardGateEvaluation, evaluate_hard_gates,
  evaluate_xauusd_hard_gates, feed_reasons,
}
use aurum_iq.Signals.SelectiveGate.{SelectiveInput, evaluate_selective_gate}
use aurum_iq.Signals.Candidate.{
  Reason, CandidateGateResult, result, Scores, SideScore, classify_tier, resolve_conflict,
  evaluate_xauusd_candidate_gate,
}
use aurum_iq.Signals.Blocking.{feed_status, feed_criticality, blocked_iff_cause}
use aurum_iq.Signals.Precedence.{MayBuy, buy_when_safe, buy_iff-MayBuy}
use aurum_iq.Signals.Symmetry.{mirror_scores, mirror_profile, mirror_result, gate-mirror}
use aurum_iq.Signals.Qualified.{IsChecked, IsLongQualified, buy_is_qualified}

abbrev whole : FloatOps
whole = record {
  Float = ℕ;
  le = leb;
  lt = ltb;
  add = λ a b. a + b;
  sub = λ a b. a - b + (b - a);
  abs = λ a. a;
  is_finite = λ _. true;
  of_ℕ = λ n. n;
  tolerance = 0;
}

abbrev healthy_feeds : RuntimeFeedHealth
healthy_feeds = record {
  primary_15m = FeedHealthStatus.healthy;
  primary_1h = FeedHealthStatus.stale;
  primary_4h = FeedHealthStatus.healthy;
  primary_1d = FeedHealthStatus.healthy;
  secondary_provider = FeedHealthStatus.missing;
  secondary_provider_disagreement = false;
  macro_blackout_feed = FeedHealthStatus.healthy;
  is_macro_blackout = false;
  volume = FeedHealthStatus.healthy;
  phase3a = FeedHealthStatus.unknown;
  phase3b = FeedHealthStatus.healthy;
  is_unclosed_candle = false;
}

abbrev open_gate : HardGateEvaluation
open_gate = record {
  is_blocked = false;
  override_state = none;
  block_reasons = [];
  is_stale_data = false;
  is_provider_transition = false;
  is_macro_blackout = false;
  is_missing_xau = false;
  is_missing_normalization = false;
  is_unclosed_candle = false;
}

-- What the baseline gate itself gives where nothing is wrong.
open_gate_evaluated : evaluate_hard_gates false false false false false false ≡ open_gate
unfolding evaluate_hard_gates
open_gate_evaluated = refl

abbrev strong_input : SelectiveInput whole
strong_input = record {
  direction = 84;
  timing = 81;
  regime = some RegimeType.bull_trend;
  structure = some StructureType.ll;
  is_reversal_confirmed = true;
  is_near_support = false;
  is_data_sufficient = true;
}

not_below : (x : ℕ) → leb 80 x ≡ true → ltb x 40 ≡ false
not_below x h = ground arith

abbrev whole_literals : LiteralLaws whole
whole_literals = record { not_below_40 = not_below }

strong-MayBuy : MayBuy whole strong_input open_gate
strong-MayBuy = record {
  not_blocked = refl;
  sufficient = refl;
  not_bear = λ h. cc;
  not_volatile = λ h. cc;
  regime_known = λ h. cc;
  structure_known = λ h. cc;
  direction_80 = refl;
  timing_80 = refl;
  reversal = refl;
}

abbrev direction_policy : SideDirectionPolicy whole
direction_policy = record {
  weight_regime = some 20;
  weight_trend_1h = some 10;
  weight_trend_4h = some 10;
  weight_trend_1d = some 10;
  weight_structure_bos = some 20;
  weight_pullback = some 10;
  weight_momentum = some 10;
  weight_volume = some 10;
}

abbrev timing_policy : SideTimingPolicy whole
timing_policy = record {
  weight_entry_zone = some 30;
  weight_reversal_confirmation_15m = some 30;
  weight_momentum_turn_15m_1h = some 20;
  weight_phase3a = some 10;
  weight_volume_response = some 10;
}

abbrev gate_policy : SideGatePolicy whole
gate_policy = record {
  threshold_watch_direction = some 60;
  threshold_ready_direction = some 70;
  threshold_ready_timing = some 65;
  threshold_window_direction = some 80;
  threshold_window_timing = some 75;
}

abbrev profile : Phase4SignalProfile whole
profile = record {
  long_direction = direction_policy;
  short_direction = direction_policy;
  long_timing = timing_policy;
  short_timing = timing_policy;
  long_gate = gate_policy;
  short_gate = gate_policy;
  feed_policy = default_feed_policy;
}

abbrev free_gate : XauUsdHardGateEvaluation
free_gate = record {
  is_blocked = false;
  override_state = none;
  block_reasons = [];
  runtime_health = healthy_feeds;
}

abbrev score : ℕ → SideScore whole
score n = record { total_score = some n; is_valid = true }

-- The long side in its window, the short side on watch.
abbrev long_scores : Scores whole
long_scores = record {
  long_direction = score 88;
  short_direction = score 62;
  long_timing = score 80;
  short_timing = score 20;
}

abbrev short_scores : Scores whole
short_scores = mirror_scores whole long_scores

abbrev buy_result : CandidateGateResult
buy_result = result SignalState.buy_window UserDecision.buy Reason.long_window_over_short_watch

abbrev sell_result : CandidateGateResult
sell_result = result SignalState.sell_window UserDecision.sell Reason.short_window_over_long_watch

profile_is_configured : is_fully_configured whole profile ≡ ok true
unfolding is_fully_configured direction_configured timing_configured gate_configured
    weights_configured
profile_is_configured = refl

buys : evaluate_xauusd_candidate_gate whole long_scores free_gate (some profile) ≡ ok buy_result
unfolding evaluate_xauusd_candidate_gate classify_tier resolve_conflict
buys = rw (profile_is_configured) refl

sells : evaluate_xauusd_candidate_gate whole short_scores free_gate (some profile) ≡ ok sell_result
unfolding evaluate_xauusd_candidate_gate classify_tier resolve_conflict
sells = rw (profile_is_configured) refl

buy_is_qualified_example :
    IsChecked whole long_scores free_gate profile × IsLongQualified whole long_scores profile
buy_is_qualified_example =
    buy_is_qualified whole long_scores free_gate profile {r = buy_result} buys refl

gate-mirror_example :
    evaluate_xauusd_candidate_gate whole
      (mirror_scores whole long_scores)
      free_gate
      (some (mirror_profile whole profile))
    ≡ ok (mirror_result buy_result)
gate-mirror_example =
    gate-mirror whole long_scores free_gate profile {b = true} {c = true} profile_is_configured
      profile_is_configured {r = buy_result} buys

buy_iff-MayBuy_example :
    ((evaluate_selective_gate whole strong_input open_gate).1 ≡ UserDecision.buy)
    ↔ MayBuy whole strong_input open_gate
buy_iff-MayBuy_example = buy_iff-MayBuy whole whole_literals strong_input open_gate

buys_window :
    evaluate_selective_gate whole strong_input open_gate
    ≡ (SignalState.buy_window, UserDecision.buy)
buys_window = buy_when_safe whole whole_literals strong_input open_gate strong-MayBuy

blocked_iff_cause_example :
    ((evaluate_xauusd_hard_gates (some healthy_feeds) none).is_blocked ≡ true) ↔ (
      (healthy_feeds.is_unclosed_candle ≡ true)
      ⊎ (healthy_feeds.is_macro_blackout ≡ true)
      ⊎ ((f : Feed) × (feed_criticality default_feed_policy f ≡ FeedCriticality.critical)
          × (feed_status healthy_feeds f ≢ FeedHealthStatus.healthy)))
blocked_iff_cause_example = blocked_iff_cause (some healthy_feeds) none

unknown_blocks : (evaluate_xauusd_hard_gates none none).is_blocked ≡ true
unfolding evaluate_xauusd_hard_gates feed_reasons
unknown_blocks = refl
