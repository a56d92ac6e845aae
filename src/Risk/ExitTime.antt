-- ===== src/Risk/ExitTime.antt =====
-- When a resolution of engine/risk/xauusd_intrabar.py exits.
use aurum_iq.Risk.Grid.{IsBar}
use aurum_iq.Core.Candle.{closes_at}
use aurum_iq.Risk.Intrabar.{resolve, resolve_collision}
use aurum_iq.Risk.Barrier.{Request, SideIntrabarResolutionResult, IntrabarPolicy}
use aurum_iq.Prelude.{
  [], List, All, ◌≡◌, ℕ, ◌++◌, ◌∷◌, ok, some, arith, ◌≤◌, inl, subst, inr, sym, ◌∙◌,
}
use aurum_iq.Risk.Evidence.{
  SubBarEvidence, resolve-cases, lower-evidence, ok-injective, resolve_barriers-cases,
}

All-middle {ℓ κ} :
    {A : Type ℓ} (P : A → Type κ) (xs : List A) (y : A) (ys : List A) → All P (xs ++ y ∷ ys) → P y
All-middle P [] y ys (h, _) = h
All-middle P (x ∷ xs) y ys (_, hs) = All-middle P xs y ys hs

module _ (r : Request) where
  -- The exit, if there is one, is no later than the close of the parent.
  abbrev pub ExitsInside : SideIntrabarResolutionResult → Type 0
  ExitsInside res = (t : ℕ) → res.exit_timestamp ≡ some t → t ≤ closes_at r.parent_candle

  inside_sub_bar :
      {fill_ts : ℕ} (res : SideIntrabarResolutionResult)
      → SubBarEvidence r fill_ts res
      → ExitsInside res
  inside_sub_bar res v t e =
      let bars = subst (All (IsBar v.step r.parent_candle)) v.first.split v.grid.bars_fit in
      let fits =
        All-middle (IsBar v.step r.parent_candle) v.first.before v.bar v.first.after bars in
      let exit : res.exit_timestamp ≡ some (closes_at v.bar) = at_bar in
      let same : closes_at v.bar ≡ t = cc in omega (arith, same, fits.before_close)
    where
      at_bar : res.exit_timestamp ≡ some (closes_at v.bar)
      at_bar = let d = v.decides in ground arith

  inside_collision :
      (policy : IntrabarPolicy) (fill_ts : ℕ) {res : SideIntrabarResolutionResult}
      → resolve_collision policy r fill_ts ≡ ok res
      → ExitsInside res
  inside_collision IntrabarPolicy.conservative_sl_first fill_ts e t h = ground arith
  inside_collision IntrabarPolicy.worst_case fill_ts e t h = ground arith
  inside_collision IntrabarPolicy.skip_ambiguous fill_ts e t h = absurd (ground arith)
  inside_collision IntrabarPolicy.lower_timeframe_replay fill_ts {res} e t h =
      elim (lower-evidence r r.parent_timeframe fill_ts) [
        | inl same ↦ ground arith
        | inr v ↦ inside_sub_bar res (subst (SubBarEvidence r fill_ts) (ok-injective e) v) t h
      ]

  pub resolve-ExitsInside :
      {res : SideIntrabarResolutionResult} → resolve r ≡ ok res → ExitsInside res
  resolve-ExitsInside {res} e t h = elim (resolve-cases r) [
    | inl (reason, early) ↦ absurd (ground arith)
    | inr (fill_ts, out) ↦ elim (resolve_barriers-cases r fill_ts (sym out ∙ e)) [
      | inl neither ↦ absurd (ground arith)
      | inr (inl (tp, sl, same)) ↦ ground arith
      | inr (inr (inl (sl, tp, same))) ↦ ground arith
      | inr (inr (inr (tp, sl, same))) ↦ inside_collision r.policy fill_ts (sym same) t h
    ]
  ]
