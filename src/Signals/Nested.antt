-- ===== src/Signals/Nested.antt =====
-- The thresholds of a configured gate policy of engine/signals/profile.py, and the tiers that
-- engine/signals/gate.py makes of them.
use aurum_iq.Prelude.{subst, sym, ◌⊎◌, inl, inr, ok, ◌≡◌, true, Option, none, some, arith}
use aurum_iq.Core.Float.{FloatOps, FloatLaws}
use aurum_iq.Signals.Profile.{SideGatePolicy, le_threshold, gate_configured}
use aurum_iq.Signals.Candidate.{Tier, reaches, classify_tier}

module _ (F : FloatOps) where
  open F use {Float, le}

  -- The order of the thresholds that the configuration check asks for.
  pub record IsMonotone (g : SideGatePolicy F) : Type 0 where
    pub watch_ready : le_threshold F g.threshold_watch_direction g.threshold_ready_direction ≡ true
    pub ready_window :
        le_threshold F g.threshold_ready_direction g.threshold_window_direction ≡ true
    pub timing : le_threshold F g.threshold_ready_timing g.threshold_window_timing ≡ true

  configured-IsMonotone : (g : SideGatePolicy F) → gate_configured F g ≡ ok true → IsMonotone g
  unfolding gate_configured
  configured-IsMonotone g e = record {
    watch_ready = ground arith;
    ready_window = ground arith;
    timing = ground arith;
  }

  reaches_lower :
      (laws : FloatLaws F) (x : Float) (low high : Option Float)
      → le_threshold F low high ≡ true
      → reaches F x high ≡ true
      → reaches F x low ≡ true
  reaches_lower laws x none high h e = cc
  reaches_lower laws x (some a) none h e = cc
  reaches_lower laws x (some a) (some b) h e = laws.le_trans a b x h e

  abbrev pub ReachesWatch : SideGatePolicy F → Float → Type 0
  ReachesWatch g d = reaches F d g.threshold_watch_direction ≡ true

  abbrev pub ReachesReady : SideGatePolicy F → Float → Float → Type 0
  ReachesReady g d t =
      (reaches F d g.threshold_ready_direction ≡ true)
      × (reaches F t g.threshold_ready_timing ≡ true)
      × ReachesWatch g d

  abbrev pub ReachesWindow : SideGatePolicy F → Float → Float → Type 0
  ReachesWindow g d t =
      (reaches F d g.threshold_window_direction ≡ true)
      × (reaches F t g.threshold_window_timing ≡ true)
      × ReachesReady g d t

  -- The scores that a tier stands for: all thresholds up to and including its own.
  abbrev pub Reaches : SideGatePolicy F → Float → Float → Tier → Type 0
  Reaches g d t Tier.window = ReachesWindow g d t
  Reaches g d t Tier.ready = ReachesReady g d t
  Reaches g d t Tier.watch = ReachesWatch g d
  Reaches g d t Tier.no_trade = Unit

  own_thresholds :
      (g : SideGatePolicy F) (d t : Float)
      → ((classify_tier F g d t ≡ Tier.window)
          × (reaches F d g.threshold_window_direction ≡ true)
          × (reaches F t g.threshold_window_timing ≡ true))
        ⊎ ((classify_tier F g d t ≡ Tier.ready)
            × (reaches F d g.threshold_ready_direction ≡ true)
            × (reaches F t g.threshold_ready_timing ≡ true))
        ⊎ ((classify_tier F g d t ≡ Tier.watch) × (reaches F d g.threshold_watch_direction ≡ true))
        ⊎ (classify_tier F g d t ≡ Tier.no_trade)
  unfolding classify_tier
  own_thresholds g d t = ground arith

  -- Under a configured gate policy the tiers are nested: a side in its window has reached the ready
  -- thresholds as well, and a side that is ready, or in its window, has reached the watch threshold.
  -- (Comparison of floats is taken to be transitive.)
  pub tiers_are_nested :
      (laws : FloatLaws F) (g : SideGatePolicy F) (d t : Float)
      → gate_configured F g ≡ ok true
      → Reaches g d t (classify_tier F g d t)
  tiers_are_nested laws g d t e =
      let m = configured-IsMonotone g e in
      let watch = λ (h : reaches F d g.threshold_ready_direction ≡ true).
        reaches_lower laws d _ _ m.watch_ready h in
      elim (own_thresholds g d t) [
        | inl (tier, direction, timing) ↦
            let ready = reaches_lower laws d _ _ m.ready_window direction in
            subst (Reaches g d t) (sym tier)
              (direction, timing, (ready, reaches_lower laws t _ _ m.timing timing, watch ready))
        | inr (inl (tier, direction, timing)) ↦
            subst (Reaches g d t) (sym tier) (direction, timing, watch direction)
        | inr (inr (inl (tier, direction))) ↦ subst (Reaches g d t) (sym tier) direction
        | inr (inr (inr tier)) ↦ subst (Reaches g d t) (sym tier) tt
      ]
