-- ===== src/Risk/StopLoss.antt =====
-- When `SideAwareIntrabarResolver.resolve` (engine/risk/xauusd_intrabar.py) says SL_FIRST,
-- at what price, and when it raises.
use aurum_iq.Prelude.{
  ℕ, ◌≡◌, refl, sym, ap, ◌∙◌, ◌⊎◌, inl, inr, true, false, Option, none, some, arith, Bool-cases, ok,
  value_error, not, ◌||◌,
}
use mathlib.Core.Path.{subst}
use aurum_iq.Prelude.Int.{ℤ, pos, ◌+ℤ◌, ◌-ℤ◌, ◌≤ℤ◌, int_laws}
use aurum_iq.Core.Decimal.{Decimal, fin, pos_inf, neg_inf, nan, is_finite, lt, zero_price}
use aurum_iq.Risk.Barrier.{
  RiskSide, BarrierHitType, IntrabarPolicy, SideIntrabarResolutionResult, Request, touches_tp,
  touches_sl,
}
use aurum_iq.Risk.Intrabar.{
  replay_lower, gapped_stop, resolve_worst_case, resolve_collision, resolve,
}
use aurum_iq.Risk.Evidence.{
  SubBarEvidence, ok-injective, lower-evidence, resolve_barriers-cases, resolve-cases,
}

-- No better for the trade than the stop: at or below it for LONG, at or above it for SHORT.
abbrev pub NoBetter : RiskSide → ℤ → ℤ → Type 0
NoBetter RiskSide.long sl exit = exit ≤ℤ sl
NoBetter RiskSide.short sl exit = sl ≤ℤ exit

NoBetter-refl : (side : RiskSide) (sl : ℤ) → NoBetter side sl sl
NoBetter-refl RiskSide.long sl = omega arith
NoBetter-refl RiskSide.short sl = omega arith

gap_fin :
    (gap : Decimal)
    → (not (is_finite gap) || lt gap zero_price) ≡ false
    → (a : ℤ) × (gap ≡ fin a) × (pos 0 ≤ℤ a)
unfolding is_finite lt
gap_fin (fin a) e = (a, refl, ground arith)
gap_fin pos_inf e = cc
gap_fin neg_inf e = cc
gap_fin nan e = cc

gapped-NoBetter :
    (side : RiskSide) (sl : ℤ) (gap : Decimal)
    → (not (is_finite gap) || lt gap zero_price) ≡ false
    → (exit : ℤ) × (gapped_stop side sl gap ≡ fin exit) × NoBetter side sl exit
gapped-NoBetter RiskSide.long sl gap e =
    let (a, same, h) = gap_fin gap e in
    (sl -ℤ a, ap (gapped_stop RiskSide.long sl) same, omega int_laws)
gapped-NoBetter RiskSide.short sl gap e =
    let (a, same, h) = gap_fin gap e in
    (sl +ℤ a, ap (gapped_stop RiskSide.short sl) same, omega int_laws)

module _ (r : Request) where
  -- An exit at a price that is no better than the stop.
  abbrev pub StopsOut : SideIntrabarResolutionResult → Type 0
  StopsOut res = (exit : ℤ) × (res.exit_price ≡ some (fin exit)) × NoBetter r.side r.sl_price exit

  stops_at :
      (res : SideIntrabarResolutionResult) → res.exit_price ≡ some (fin r.sl_price) → StopsOut res
  stops_at res e = (r.sl_price, e, NoBetter-refl r.side r.sl_price)

  sub_bar_stop :
      {fill_ts : ℕ} (res : SideIntrabarResolutionResult)
      → SubBarEvidence r fill_ts res
      → res.barrier_hit ≡ BarrierHitType.sl_first
      → res.exit_price ≡ some (fin r.sl_price)
  sub_bar_stop res v h = let d = v.decides in ground arith

  worst_case_stop :
      (gap : Option Decimal) {res : SideIntrabarResolutionResult}
      → resolve_worst_case r gap ≡ ok res
      → StopsOut res
  worst_case_stop none e = cc
  worst_case_stop (some gap) {res} e =
      elim (Bool-cases (not (is_finite gap) || lt gap zero_price)) [
        | inl bad ↦ absurd (ground arith)
        | inr good ↦
            let (exit, same, h) = gapped-NoBetter r.side r.sl_price gap good in
            (exit, ground arith, h)
      ]

  lower_stop :
      (fill_ts : ℕ)
      → (replay_lower r.parent_timeframe r fill_ts).barrier_hit ≡ BarrierHitType.sl_first
      → StopsOut (replay_lower r.parent_timeframe r fill_ts)
  lower_stop fill_ts h = elim (lower-evidence r r.parent_timeframe fill_ts) [
    | inl same ↦ stops_at (replay_lower r.parent_timeframe r fill_ts) (ground arith)
    | inr v ↦ stops_at (replay_lower r.parent_timeframe r fill_ts) (sub_bar_stop _ v h)
  ]

  collision_stop :
      (policy : IntrabarPolicy) (fill_ts : ℕ) {res : SideIntrabarResolutionResult}
      → resolve_collision policy r fill_ts ≡ ok res
      → res.barrier_hit ≡ BarrierHitType.sl_first
      → StopsOut res
  collision_stop IntrabarPolicy.conservative_sl_first fill_ts {res} e h =
      stops_at res (ground arith)
  collision_stop IntrabarPolicy.worst_case fill_ts e h = worst_case_stop r.worst_case_adverse_gap e
  collision_stop IntrabarPolicy.skip_ambiguous fill_ts e h = absurd (ground arith)
  collision_stop IntrabarPolicy.lower_timeframe_replay fill_ts e h =
      let same = ok-injective e in
      subst StopsOut same (lower_stop fill_ts (ap (λ x. x.barrier_hit) same ∙ h))

  -- A resolution that says SL_FIRST has a parent that touches SL, and exits at a price no better
  -- for the trade than the stop, also where the worst-case policy moves it.
  pub sl_first_exits_at_stop :
      {res : SideIntrabarResolutionResult}
      → resolve r ≡ ok res
      → res.barrier_hit ≡ BarrierHitType.sl_first
      → (touches_sl r.side r.sl_price r.parent_candle ≡ true) × StopsOut res
  sl_first_exits_at_stop {res} e h = elim (resolve-cases r) [
    | inl (reason, early) ↦ absurd (ground arith)
    | inr (fill_ts, out) ↦ elim (resolve_barriers-cases r fill_ts (sym out ∙ e)) [
      | inl neither ↦ absurd (ground arith)
      | inr (inl (tp, sl, same)) ↦ absurd (ground arith)
      | inr (inr (inl (sl, tp, same))) ↦ (sl, stops_at res (ground arith))
      | inr (inr (inr (tp, sl, same))) ↦ (sl, collision_stop r.policy fill_ts (sym same) h)
    ]
  ]

  collision_raises :
      (policy : IntrabarPolicy) (fill_ts : ℕ)
      → r.policy ≡ policy
      → resolve_collision policy r fill_ts ≡ value_error
      → (r.policy ≡ IntrabarPolicy.worst_case)
        × ((r.worst_case_adverse_gap ≡ none)
            ⊎ ((gap : Decimal) × (r.worst_case_adverse_gap ≡ some gap)
                × ((not (is_finite gap) || lt gap zero_price) ≡ true)))
  collision_raises policy fill_ts k e = ground arith

  -- The resolution raises ValueError only under the worst-case policy, where both barriers are
  -- touched and the adverse gap is missing, not finite or negative.
  pub resolve_raises :
      resolve r ≡ value_error
      → (r.policy ≡ IntrabarPolicy.worst_case)
        × (touches_tp r.side r.tp_price r.parent_candle ≡ true)
        × (touches_sl r.side r.sl_price r.parent_candle ≡ true)
        × ((r.worst_case_adverse_gap ≡ none)
            ⊎ ((gap : Decimal) × (r.worst_case_adverse_gap ≡ some gap)
                × ((not (is_finite gap) || lt gap zero_price) ≡ true)))
  resolve_raises e = elim (resolve-cases r) [
    | inl (reason, early) ↦ absurd (ground arith)
    | inr (fill_ts, out) ↦ elim (resolve_barriers-cases r fill_ts (sym out ∙ e)) [
      | inl neither ↦ absurd (ground arith)
      | inr (inl (tp, sl, same)) ↦ absurd (ground arith)
      | inr (inr (inl (sl, tp, same))) ↦ absurd (ground arith)
      | inr (inr (inr (tp, sl, same))) ↦
          let (worst, gap) = collision_raises r.policy fill_ts refl (sym same) in
          (worst, tp, sl, gap)
    ]
  ]
