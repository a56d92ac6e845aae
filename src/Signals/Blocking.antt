-- ===== src/Signals/Blocking.antt =====
-- When the hard gates of engine/signals/gate.py block.
use aurum_iq.Prelude.{
  ◌≡◌, refl, ◌≢◌, ◌⊎◌, inl, inr, Bool, true, false, not, ◌&&◌, Option, List, [], ◌∷◌, or_else,
  arith, is_nil, Bool-cases, ◌↔◌,
}
use aurum_iq.Core.Enums.{FeedCriticality, FeedHealthStatus}
use aurum_iq.Signals.Profile.{Phase4FeedPolicy, default_feed_policy}
use aurum_iq.Signals.HardGate.{
  BlockReason, append_if, Feed, RuntimeFeedHealth, unknown_health, FeedCheck, feeds_to_check,
  feed_reasons, is_critical, is_unhealthy, evaluate_xauusd_hard_gates,
}

-- The state of each feed, and how critical the policy makes it.
abbrev pub feed_status : RuntimeFeedHealth → Feed → FeedHealthStatus
feed_status h Feed.primary_15m = h.primary_15m
feed_status h Feed.primary_1h = h.primary_1h
feed_status h Feed.primary_4h = h.primary_4h
feed_status h Feed.primary_1d = h.primary_1d
feed_status h Feed.secondary_provider = h.secondary_provider
feed_status h Feed.macro_blackout = h.macro_blackout_feed
feed_status h Feed.volume = h.volume
feed_status h Feed.phase3a = h.phase3a
feed_status h Feed.phase3b = h.phase3b

abbrev pub feed_criticality : Phase4FeedPolicy → Feed → FeedCriticality
feed_criticality p Feed.primary_15m = p.primary_15m
feed_criticality p Feed.primary_1h = p.primary_1h
feed_criticality p Feed.primary_4h = p.primary_4h
feed_criticality p Feed.primary_1d = p.primary_1d
feed_criticality p Feed.secondary_provider = p.secondary_provider
feed_criticality p Feed.macro_blackout = p.macro_blackout
feed_criticality p Feed.volume = p.volume
feed_criticality p Feed.phase3a = p.phase3a
feed_criticality p Feed.phase3b = p.phase3b

abbrev IsListed : Feed → FeedHealthStatus → FeedCriticality → List FeedCheck → Type 0
IsListed f s c [] = ⊥
IsListed f s c ((g, t, d) ∷ rest) = ((f ≡ g) × (s ≡ t) × (c ≡ d)) ⊎ IsListed f s c rest

-- A check that leaves no reason has found every critical feed that it lists healthy.
listed_healthy :
    (f : Feed) (s : FeedHealthStatus) (c : FeedCriticality) (l : List FeedCheck)
    → IsListed f s c l
    → feed_reasons l ≡ []
    → c ≡ FeedCriticality.critical
    → s ≡ FeedHealthStatus.healthy
unfolding feed_reasons
listed_healthy f s c [] m e k = absurd m
listed_healthy f s c ((g, t, d) ∷ rest) (inl m) e k = ground (arith, m.1, m.2)
listed_healthy f s c ((g, t, d) ∷ rest) (inr m) e k = listed_healthy f s c rest m (ground arith) k

is_listed :
    (h : RuntimeFeedHealth) (p : Phase4FeedPolicy) (f : Feed)
    → IsListed f (feed_status h f) (feed_criticality p f) (feeds_to_check h p)
is_listed h p Feed.primary_15m = inl (refl, refl, refl)
is_listed h p Feed.primary_1h = inr (inl (refl, refl, refl))
is_listed h p Feed.primary_4h = inr (inr (inl (refl, refl, refl)))
is_listed h p Feed.primary_1d = inr (inr (inr (inl (refl, refl, refl))))
is_listed h p Feed.secondary_provider = inr (inr (inr (inr (inl (refl, refl, refl)))))
is_listed h p Feed.macro_blackout = inr (inr (inr (inr (inr (inl (refl, refl, refl))))))
is_listed h p Feed.volume = inr (inr (inr (inr (inr (inr (inl (refl, refl, refl)))))))
is_listed h p Feed.phase3a = inr (inr (inr (inr (inr (inr (inr (inl (refl, refl, refl))))))))
is_listed h p Feed.phase3b = inr (inr (inr (inr (inr (inr (inr (inr (inl (refl, refl, refl)))))))))

append_if-nil :
    (b : Bool) (r : BlockReason) (rest : List BlockReason)
    → append_if b r rest ≡ []
    → (b ≡ false) × (rest ≡ [])
append_if-nil b r rest e = ground arith

nil_of_is_nil : (l : List BlockReason) → not (is_nil l) ≡ false → l ≡ []
nil_of_is_nil [] e = refl
nil_of_is_nil (x ∷ l) e = cc

-- A critical feed that is not healthy, where a check leaves a reason.
find_unhealthy :
    (l : List FeedCheck)
    → feed_reasons l ≢ []
    → (f : Feed) × (s : FeedHealthStatus) × (c : FeedCriticality) × IsListed f s c l
      × (c ≡ FeedCriticality.critical)
      × (s ≢ FeedHealthStatus.healthy)
unfolding feed_reasons
find_unhealthy [] e = absurd (e refl)
find_unhealthy ((g, t, d) ∷ rest) e = elim (Bool-cases (is_critical d && is_unhealthy t)) [
  | inl bad ↦ (g, t, d, inl (refl, refl, refl), ground arith, ground arith)
  | inr fine ↦
      let (f, s, c, m, k, u) = find_unhealthy rest (λ h. e (rw fine h)) in (f, s, c, inr m, k, u)
]

listed_same :
    (h : RuntimeFeedHealth) (p : Phase4FeedPolicy) (f : Feed) (s : FeedHealthStatus)
    (c : FeedCriticality)
    → IsListed f s c (feeds_to_check h p)
    → (feed_criticality p f ≡ c) × (feed_status h f ≡ s)
listed_same h p f s c m = ground arith

unhealthy_listed :
    (h : RuntimeFeedHealth) (p : Phase4FeedPolicy)
    → feed_reasons (feeds_to_check h p) ≢ []
    → (f : Feed) × (feed_criticality p f ≡ FeedCriticality.critical)
      × (feed_status h f ≢ FeedHealthStatus.healthy)
unhealthy_listed h p e =
    let (f, s, c, m, k, u) = find_unhealthy (feeds_to_check h p) e in
    let (same_c, same_s) = listed_same h p f s c m in (f, rw same_c k, λ q. u (rw (← same_s) q))

module _ (health : Option RuntimeFeedHealth) (policy : Option Phase4FeedPolicy) where
  abbrev seen : RuntimeFeedHealth
  seen = or_else health unknown_health

  abbrev applied : Phase4FeedPolicy
  applied = or_else policy default_feed_policy

  -- No reason at all is left exactly when the gate does not block.
  no_reasons :
      (evaluate_xauusd_hard_gates health policy).is_blocked ≡ false
      → (seen.is_unclosed_candle ≡ false)
        × (seen.is_macro_blackout ≡ false)
        × (feed_reasons (feeds_to_check seen applied) ≡ [])
  unfolding evaluate_xauusd_hard_gates
  no_reasons e =
      let (open_candle, rest) = append_if-nil _ _ _ (nil_of_is_nil _ e) in
      let (blackout, feeds) = append_if-nil _ _ _ rest in (open_candle, blackout, feeds)

  -- Where the XAUUSD gate does not block, the candle is closed, no macro blackout runs, and every
  -- feed that the policy makes critical is healthy. Without runtime health nothing is healthy, and
  -- without a policy the default one applies.
  pub unblocked_is_safe :
      (f : Feed)
      → (evaluate_xauusd_hard_gates health policy).is_blocked ≡ false
      → feed_criticality applied f ≡ FeedCriticality.critical
      → (feed_status seen f ≡ FeedHealthStatus.healthy)
        × (seen.is_unclosed_candle ≡ false)
        × (seen.is_macro_blackout ≡ false)
  unblocked_is_safe f e k =
      let (open_candle, blackout, feeds) = no_reasons e in
      (listed_healthy f _ _ _ (is_listed seen applied f) feeds k, open_candle, blackout)

  -- The XAUUSD gate blocks only for a reason: an unclosed candle, a macro blackout, or a feed
  -- that is critical and not healthy.
  pub blocked_has_cause :
      (evaluate_xauusd_hard_gates health policy).is_blocked ≡ true
      → (seen.is_unclosed_candle ≡ true)
        ⊎ (seen.is_macro_blackout ≡ true)
        ⊎ ((f : Feed) × (feed_criticality applied f ≡ FeedCriticality.critical)
            × (feed_status seen f ≢ FeedHealthStatus.healthy))
  unfolding evaluate_xauusd_hard_gates
  blocked_has_cause e = elim (Bool-cases seen.is_unclosed_candle) [
    | inl unclosed ↦ inl unclosed
    | inr closed ↦ elim (Bool-cases seen.is_macro_blackout) [
      | inl blackout ↦ inr (inl blackout)
      | inr clear ↦ inr (inr (unhealthy_listed seen applied (λ none_left. ground arith)))
    ]
  ]

  -- The XAUUSD gate blocks just if there is a cause: an unclosed candle, a macro blackout, or a feed
  -- that the policy makes critical and that is not healthy. Without runtime health nothing is healthy,
  -- and without a policy the default one applies.
  pub blocked_iff_cause : ((evaluate_xauusd_hard_gates health policy).is_blocked ≡ true) ↔ (
      (seen.is_unclosed_candle ≡ true)
      ⊎ (seen.is_macro_blackout ≡ true)
      ⊎ ((f : Feed) × (feed_criticality applied f ≡ FeedCriticality.critical)
          × (feed_status seen f ≢ FeedHealthStatus.healthy)))
  blocked_iff_cause = (blocked_has_cause, cause_blocks)
    where
      cause_blocks :
          (seen.is_unclosed_candle ≡ true)
            ⊎ (seen.is_macro_blackout ≡ true)
            ⊎ ((f : Feed) × (feed_criticality applied f ≡ FeedCriticality.critical)
                × (feed_status seen f ≢ FeedHealthStatus.healthy))
          → (evaluate_xauusd_hard_gates health policy).is_blocked ≡ true
      cause_blocks cause = elim (Bool-cases (evaluate_xauusd_hard_gates health policy).is_blocked) [
        | inl blocked ↦ blocked
        | inr clear ↦
            let (open_candle, blackout, _) = no_reasons clear in
            elim cause [
              | inl unclosed ↦ absurd (cc)
              | inr (inl running) ↦ absurd (cc)
              | inr (inr (f, critical, unhealthy)) ↦
                  absurd (unhealthy ((unblocked_is_safe f clear critical).0))
            ]
      ]
