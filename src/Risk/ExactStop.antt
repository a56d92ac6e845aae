-- ===== src/Risk/ExactStop.antt =====
-- The stop at which a resolution of engine/risk/xauusd_intrabar.py exits when no adverse gap is given.
use aurum_iq.Core.Decimal.{fin}
use aurum_iq.Risk.Intrabar.{resolve, resolve_collision, resolve_worst_case}
use aurum_iq.Risk.Barrier.{Request, SideIntrabarResolutionResult, IntrabarPolicy, BarrierHitType}
use aurum_iq.Prelude.{◌≡◌, none, ℕ, ok, some, arith, inl, value_error, sym, inr, ap, ◌∙◌, subst}
use aurum_iq.Risk.Evidence.{
  SubBarEvidence, resolve-cases, resolve_barriers-cases, lower-evidence, ok-injective,
}

module _ (r : Request) (no_gap : r.worst_case_adverse_gap ≡ none) where
  sub_bar_at :
      {fill_ts : ℕ} (res : SideIntrabarResolutionResult)
      → SubBarEvidence r fill_ts res
      → res.barrier_hit ≡ BarrierHitType.sl_first
      → res.exit_price ≡ some (fin r.sl_price)
  sub_bar_at res v h = let d = v.decides in ground arith

  collision_at :
      (policy : IntrabarPolicy) (fill_ts : ℕ) {res : SideIntrabarResolutionResult}
      → resolve_collision policy r fill_ts ≡ ok res
      → res.barrier_hit ≡ BarrierHitType.sl_first
      → res.exit_price ≡ some (fin r.sl_price)
  collision_at IntrabarPolicy.conservative_sl_first fill_ts e h = ground arith
  collision_at IntrabarPolicy.worst_case fill_ts {res} e h =
      let raised : value_error ≡ ok res = sym (ap (resolve_worst_case r) no_gap) ∙ e in absurd (cc)
  collision_at IntrabarPolicy.skip_ambiguous fill_ts e h = absurd (ground arith)
  collision_at IntrabarPolicy.lower_timeframe_replay fill_ts {res} e h =
      elim (lower-evidence r r.parent_timeframe fill_ts) [
        | inl same ↦ ground arith
        | inr v ↦ sub_bar_at res (subst (SubBarEvidence r fill_ts) (ok-injective e) v) h
      ]

  -- Without an adverse gap, SL_FIRST exits at the stop itself.
  pub sl_first_exact :
      {res : SideIntrabarResolutionResult}
      → resolve r ≡ ok res
      → res.barrier_hit ≡ BarrierHitType.sl_first
      → res.exit_price ≡ some (fin r.sl_price)
  sl_first_exact {res} e h = elim (resolve-cases r) [
    | inl (reason, early) ↦ absurd (ground arith)
    | inr (fill_ts, out) ↦ elim (resolve_barriers-cases r fill_ts (sym out ∙ e)) [
      | inl neither ↦ absurd (ground arith)
      | inr (inl (tp, sl, same)) ↦ absurd (ground arith)
      | inr (inr (inl (sl, tp, same))) ↦ ground arith
      | inr (inr (inr (tp, sl, same))) ↦ collision_at r.policy fill_ts (sym same) h
    ]
  ]
