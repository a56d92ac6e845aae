-- ===== src/Signals/Profile.antt =====
-- engine/signals/profile.py: the policies of a side and the checks that they are configured.
-- `is_configured` raises ValueError on values that are present and malformed.
use aurum_iq.Prelude.{
  Result, ok, value_error, ◌>>=◌, Bool, true, false, not, ◌&&◌, Option, none, some, List, [], ◌∷◌,
  if◌then◌else◌,
}
use aurum_iq.Core.Enums.{FeedCriticality}
use aurum_iq.Core.Float.{FloatOps}

-- Python's `and` of two properties: the second is read only if the first is true.
abbrev pub and_then : Result Bool → Result Bool → Result Bool
and_then m n = m >>= λ b. if b then n else ok false

pub record Phase4FeedPolicy : Type 0 where
  pub primary_15m : FeedCriticality
  pub primary_1h : FeedCriticality
  pub primary_4h : FeedCriticality
  pub primary_1d : FeedCriticality
  pub secondary_provider : FeedCriticality
  pub macro_blackout : FeedCriticality
  pub volume : FeedCriticality
  pub phase3a : FeedCriticality
  pub phase3b : FeedCriticality
  pub dxy_yields_futures : FeedCriticality

-- The defaults of the class.
abbrev pub default_feed_policy : Phase4FeedPolicy
default_feed_policy = record {
  primary_15m = FeedCriticality.critical;
  primary_1h = FeedCriticality.optional;
  primary_4h = FeedCriticality.optional;
  primary_1d = FeedCriticality.optional;
  secondary_provider = FeedCriticality.optional;
  macro_blackout = FeedCriticality.critical;
  volume = FeedCriticality.optional;
  phase3a = FeedCriticality.optional;
  phase3b = FeedCriticality.informational;
  dxy_yields_futures = FeedCriticality.informational;
}

module _ (F : FloatOps) where
  open F use {Float, le, lt, add, sub, abs, is_finite, of_ℕ, tolerance}

  pub record SideDirectionPolicy : Type 0 where
    pub weight_regime : Option Float
    pub weight_trend_1h : Option Float
    pub weight_trend_4h : Option Float
    pub weight_trend_1d : Option Float
    pub weight_structure_bos : Option Float
    pub weight_pullback : Option Float
    pub weight_momentum : Option Float
    pub weight_volume : Option Float

  pub record SideTimingPolicy : Type 0 where
    pub weight_entry_zone : Option Float
    pub weight_reversal_confirmation_15m : Option Float
    pub weight_momentum_turn_15m_1h : Option Float
    pub weight_phase3a : Option Float
    pub weight_volume_response : Option Float

  pub record SideGatePolicy : Type 0 where
    pub threshold_watch_direction : Option Float
    pub threshold_ready_direction : Option Float
    pub threshold_ready_timing : Option Float
    pub threshold_window_direction : Option Float
    pub threshold_window_timing : Option Float

  -- `any(w is None for w in weights)` is false.
  abbrev pub all_present : List (Option Float) → Bool
  all_present [] = true
  all_present (none ∷ ws) = false
  all_present (some w ∷ ws) = all_present ws

  -- The loop over present weights: each is finite and not negative.
  abbrev pub check_weights : List (Option Float) → Result Bool
  check_weights [] = ok true
  check_weights (none ∷ ws) = check_weights ws
  check_weights (some w ∷ ws) =
      let rest = check_weights ws in
      if not (is_finite w) then value_error else if lt w (of_ℕ 0) then value_error else rest

  -- `sum(weights)`, which adds from the left to 0.
  abbrev pub sum_weights : Float → List (Option Float) → Float
  sum_weights acc [] = acc
  sum_weights acc (none ∷ ws) = sum_weights acc ws
  sum_weights acc (some w ∷ ws) = sum_weights (add acc w) ws

  unfoldable pub weights_configured : List (Option Float) → Result Bool
  weights_configured ws =
      if not (all_present ws)
      then ok false
      else check_weights ws >>= λ _.
          if lt tolerance (abs (sub (sum_weights (of_ℕ 0) ws) (of_ℕ 100)))
          then value_error
          else ok true

  unfoldable pub direction_configured : SideDirectionPolicy → Result Bool
  unfolding weights_configured
  direction_configured p = weights_configured (
      weight_regime ∷ weight_trend_1h ∷ weight_trend_4h ∷ weight_trend_1d ∷ weight_structure_bos
      ∷ weight_pullback ∷ weight_momentum ∷ weight_volume ∷ [])
    where
      open p use {
        weight_regime, weight_trend_1h, weight_trend_4h, weight_trend_1d, weight_structure_bos,
        weight_pullback, weight_momentum, weight_volume,
      }

  unfoldable pub timing_configured : SideTimingPolicy → Result Bool
  unfolding weights_configured
  timing_configured p = weights_configured (
      weight_entry_zone ∷ weight_reversal_confirmation_15m ∷ weight_momentum_turn_15m_1h
      ∷ weight_phase3a ∷ weight_volume_response ∷ [])
    where
      open p use {
        weight_entry_zone, weight_reversal_confirmation_15m, weight_momentum_turn_15m_1h,
        weight_phase3a, weight_volume_response,
      }

  -- The loop over the present thresholds: each is finite and lies in [0, 100].
  abbrev pub check_thresholds : List (Option Float) → Result Bool
  check_thresholds [] = ok true
  check_thresholds (none ∷ ts) = check_thresholds ts
  check_thresholds (some t ∷ ts) =
      let rest = check_thresholds ts in
      if not (is_finite t)
      then value_error
      else if not (le (of_ℕ 0) t && le t (of_ℕ 100))
      then value_error
      else rest

  -- `a <= b` of two thresholds; both are present where it is asked.
  abbrev pub le_threshold : Option Float → Option Float → Bool
  le_threshold (some a) (some b) = le a b
  le_threshold (some a) none = false
  le_threshold none b = false

  unfoldable pub gate_configured : SideGatePolicy → Result Bool
  gate_configured p =
      let th =
        p.threshold_watch_direction ∷ p.threshold_ready_direction ∷ p.threshold_ready_timing
        ∷ p.threshold_window_direction ∷ p.threshold_window_timing ∷ [] in
      if not (all_present th)
      then ok false
      else check_thresholds th >>= λ _.
          if not (
            le_threshold p.threshold_watch_direction p.threshold_ready_direction
            && le_threshold p.threshold_ready_direction p.threshold_window_direction)
          then value_error
          else if not (le_threshold p.threshold_ready_timing p.threshold_window_timing)
          then value_error
          else ok true

  pub record Phase4SignalProfile : Type 0 where
    pub long_direction : SideDirectionPolicy
    pub short_direction : SideDirectionPolicy
    pub long_timing : SideTimingPolicy
    pub short_timing : SideTimingPolicy
    pub long_gate : SideGatePolicy
    pub short_gate : SideGatePolicy
    pub feed_policy : Phase4FeedPolicy

  unfoldable pub is_fully_configured : Phase4SignalProfile → Result Bool
  is_fully_configured p = and_then (direction_configured p.long_direction) (
      and_then (direction_configured p.short_direction) (
        and_then (timing_configured p.long_timing) (
          and_then (timing_configured p.short_timing)
            (and_then (gate_configured p.long_gate) (gate_configured p.short_gate)))))

  -- The property returns False whatever the profile holds.
  unfoldable pub is_production_authorized : Phase4SignalProfile → Bool
  is_production_authorized p = false
