-- ===== src/Signals/HardGate.antt =====
-- engine/signals/gate.py: the hard safety gates, which override every score.
use aurum_iq.Prelude.{
  Bool, true, false, not, ◌&&◌, Option, none, some, List, [], ◌∷◌, if◌then◌else◌, or_else, is_nil,
}
use aurum_iq.Core.Enums.{FeedCriticality, FeedHealthStatus, SignalState}
use aurum_iq.Signals.Profile.{Phase4FeedPolicy, default_feed_policy}

pub data Feed : Type 0 where
  primary_15m primary_1h primary_4h primary_1d secondary_provider macro_blackout : Feed
  volume phase3a phase3b : Feed

-- The messages of the two gates.
pub data BlockReason : Type 0 where
  unclosed_candle stale_feed provider_transition macro_blackout missing_xau : BlockReason
  missing_normalization : BlockReason
  critical_feed : Feed → FeedHealthStatus → BlockReason

pub record HardGateEvaluation : Type 0 where
  pub is_blocked : Bool
  pub override_state : Option SignalState
  pub block_reasons : List BlockReason
  pub is_stale_data : Bool
  pub is_provider_transition : Bool
  pub is_macro_blackout : Bool
  pub is_missing_xau : Bool
  pub is_missing_normalization : Bool
  pub is_unclosed_candle : Bool

-- `if b: reasons.append(r)`, in front of what is appended later.
abbrev pub append_if : Bool → BlockReason → List BlockReason → List BlockReason
append_if b r rest = if b then r ∷ rest else rest

abbrev pub override : List BlockReason → Option SignalState
override rs = if is_nil rs then none else some SignalState.force_wait

unfoldable pub evaluate_hard_gates : Bool → Bool → Bool → Bool → Bool → Bool → HardGateEvaluation
evaluate_hard_gates stale transition blackout no_xau no_normalization unclosed =
    let reasons = append_if unclosed BlockReason.unclosed_candle (
      append_if stale BlockReason.stale_feed (
        append_if transition BlockReason.provider_transition (
          append_if blackout BlockReason.macro_blackout (
            append_if no_xau BlockReason.missing_xau
              (append_if no_normalization BlockReason.missing_normalization []))))) in
    record {
      is_blocked = not (is_nil reasons);
      override_state = override reasons;
      block_reasons = reasons;
      is_stale_data = stale;
      is_provider_transition = transition;
      is_macro_blackout = blackout;
      is_missing_xau = no_xau;
      is_missing_normalization = no_normalization;
      is_unclosed_candle = unclosed;
    }

pub record RuntimeFeedHealth : Type 0 where
  pub primary_15m : FeedHealthStatus
  pub primary_1h : FeedHealthStatus
  pub primary_4h : FeedHealthStatus
  pub primary_1d : FeedHealthStatus
  pub secondary_provider : FeedHealthStatus
  pub secondary_provider_disagreement : Bool
  pub macro_blackout_feed : FeedHealthStatus
  pub is_macro_blackout : Bool
  pub volume : FeedHealthStatus
  pub phase3a : FeedHealthStatus
  pub phase3b : FeedHealthStatus
  pub is_unclosed_candle : Bool

-- The defaults of the class: nothing is known, so nothing is assumed healthy.
abbrev pub unknown_health : RuntimeFeedHealth
unknown_health = record {
  primary_15m = FeedHealthStatus.unknown;
  primary_1h = FeedHealthStatus.unknown;
  primary_4h = FeedHealthStatus.unknown;
  primary_1d = FeedHealthStatus.unknown;
  secondary_provider = FeedHealthStatus.unknown;
  secondary_provider_disagreement = false;
  macro_blackout_feed = FeedHealthStatus.unknown;
  is_macro_blackout = false;
  volume = FeedHealthStatus.unknown;
  phase3a = FeedHealthStatus.unknown;
  phase3b = FeedHealthStatus.unknown;
  is_unclosed_candle = false;
}

pub record XauUsdHardGateEvaluation : Type 0 where
  pub is_blocked : Bool
  pub override_state : Option SignalState
  pub block_reasons : List BlockReason
  pub runtime_health : RuntimeFeedHealth

-- `status in UNHEALTHY_STATUSES`.
abbrev pub is_unhealthy : FeedHealthStatus → Bool
is_unhealthy FeedHealthStatus.unknown = true
is_unhealthy FeedHealthStatus.missing = true
is_unhealthy FeedHealthStatus.unhealthy = true
is_unhealthy FeedHealthStatus.stale = true
is_unhealthy FeedHealthStatus.transition = true
is_unhealthy FeedHealthStatus.healthy = false

abbrev pub is_critical : FeedCriticality → Bool
is_critical FeedCriticality.critical = true
is_critical FeedCriticality.optional = false
is_critical FeedCriticality.informational = false

abbrev pub FeedCheck : Type 0
FeedCheck = Feed × FeedHealthStatus × FeedCriticality

-- `feeds_to_check`. Without a policy each feed has the criticality that is the class's default.
abbrev pub feeds_to_check : RuntimeFeedHealth → Phase4FeedPolicy → List FeedCheck
feeds_to_check h p =
    (Feed.primary_15m, h.primary_15m, p.primary_15m)
    ∷ (Feed.primary_1h, h.primary_1h, p.primary_1h)
    ∷ (Feed.primary_4h, h.primary_4h, p.primary_4h)
    ∷ (Feed.primary_1d, h.primary_1d, p.primary_1d)
    ∷ (Feed.secondary_provider, h.secondary_provider, p.secondary_provider)
    ∷ (Feed.macro_blackout, h.macro_blackout_feed, p.macro_blackout)
    ∷ (Feed.volume, h.volume, p.volume)
    ∷ (Feed.phase3a, h.phase3a, p.phase3a)
    ∷ (Feed.phase3b, h.phase3b, p.phase3b)
    ∷ []

-- The loop over the feeds.
unfoldable pub feed_reasons : List FeedCheck → List BlockReason
feed_reasons [] = []
feed_reasons ((feed, status, criticality) ∷ rest) =
    append_if (is_critical criticality && is_unhealthy status)
      (BlockReason.critical_feed feed status) (feed_reasons rest)

unfoldable pub evaluate_xauusd_hard_gates :
    Option RuntimeFeedHealth → Option Phase4FeedPolicy → XauUsdHardGateEvaluation
evaluate_xauusd_hard_gates runtime_health feed_policy =
    let rfh = or_else runtime_health unknown_health in
    let reasons = append_if rfh.is_unclosed_candle BlockReason.unclosed_candle (
      append_if rfh.is_macro_blackout BlockReason.macro_blackout
        (feed_reasons (feeds_to_check rfh (or_else feed_policy default_feed_policy)))) in
    record {
      is_blocked = not (is_nil reasons);
      override_state = override reasons;
      block_reasons = reasons;
      runtime_health = rfh;
    }
