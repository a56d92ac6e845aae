-- ===== src/Outcome/Reached.antt =====
-- engine/backtest/xauusd_outcomes.py: the calls of `resolve_trade` that come to the simulated entry.
use aurum_iq.Outcome.Terms.{planned_risk_of}
use aurum_iq.Core.Decimal.{fin}
use aurum_iq.Outcome.Resolve.{resolve_trade, with_risk, with_evidence, simulate_entry, from_fill}
use aurum_iq.Core.Candle.{CandleData}
use aurum_iq.Prelude.Int.{ℤ, leb_ℤ, pos}
use aurum_iq.Entry.Fill.{DecimalOps}
use aurum_iq.Outcome.Window.{
  all_opens_aware, admit, Evidence, Deadline, is_valid_candle, deadline_with, is_valid_quote,
  is_end_aware, is_evidence_aware, fill_search,
}
use aurum_iq.Outcome.Trade.{
  TradeRequest, XauUsdOutcomeEngine, TradeOps, Attempt, XauUsdSimulatedTrade, done, ◌>>=◌,
  raises_value_error,
}
use aurum_iq.Prelude.{
  [], Bool, ◌≡◌, List, false, filter, ℕ, true, not, if◌then◌else◌, some, ◌∷◌, refl, both_right, ◌+◌,
  ◌||◌, arith, both_left, ap, Bool-cases, ◌∙◌, inl, inr,
}

pub all_opens_aware-filter :
    (p : CandleData → Bool) (cs : List CandleData)
    → all_opens_aware cs ≡ true
    → all_opens_aware (filter p cs) ≡ true
unfolding all_opens_aware
all_opens_aware-filter p [] h = refl
all_opens_aware-filter p (c ∷ cs) h =
    let later = all_opens_aware-filter p cs (both_right c.timestamp_open.aware h) in
    let first = both_left c.timestamp_open.aware _ h in
    elim (Bool-cases (p c)) [ inl kept ↦ rw (kept, first) later | inr dropped ↦ rw (dropped) later ]

-- What is admitted of aware evidence.
abbrev pub admitted : TradeRequest → Evidence
admitted x = record {
  candles_15m = filter (is_valid_candle x) x.future_candles_15m;
  candles_5m = filter (is_valid_candle x) x.future_candles_5m;
  candles_1m = filter (is_valid_candle x) x.future_candles_1m;
  quotes = filter (is_valid_quote x) x.future_quotes;
}

-- What a call needs to come to the entry: a plan that is valid and eligible, a planned risk that is
-- positive, aware times, and a horizon for the search of a fill.
pub record ReachesEntry (e : XauUsdOutcomeEngine) (x : TradeRequest) : Type 0 where
  pub planned_risk : ℤ
  pub wait : ℕ
  pub signal_aware : x.signal_timestamp.aware ≡ true
  pub plan_valid : x.risk_plan.is_valid_risk_plan ≡ true
  pub plan_eligible : x.risk_plan.execution_eligible ≡ true
  pub risk_given : planned_risk_of x.risk_plan.side x.risk_plan ≡ some planned_risk
  pub risk_positive : leb_ℤ planned_risk (pos 0) ≡ false
  pub end_aware : is_end_aware x.run_end_time ≡ true
  pub evidence_aware : is_evidence_aware x ≡ true
  pub opens_aware : all_opens_aware x.future_candles_15m ≡ true
  pub wait_given : fill_search e x ≡ some wait

admit-admitted :
    (e : XauUsdOutcomeEngine) (x : TradeRequest) → ReachesEntry e x → admit x ≡ done (admitted x)
unfolding admit
admit-admitted e x c = rw (c.end_aware, c.evidence_aware) refl

passes {ℓ} :
    {A : Type ℓ} (b : Bool) (a : Attempt A) {r : Attempt A} → b ≡ false → (if b then a else r) ≡ r
passes true a h = absurd (cc)
passes false a h = refl

ineligible :
    (valid eligible : Bool) → valid ≡ true → eligible ≡ true → (not valid || not eligible) ≡ false
ineligible valid eligible v h = ground arith

module _ (D : DecimalOps) (R : TradeOps) (e : XauUsdOutcomeEngine) (x : TradeRequest)
    (c : ReachesEntry e x) where
  -- The deadline of the entry.
  abbrev pub entry_deadline : Deadline
  entry_deadline = deadline_with x.run_end_time (x.signal_timestamp.utc + c.wait)

  -- The call from its entry on.
  abbrev pub from_entry : Attempt XauUsdSimulatedTrade
  from_entry = simulate_entry D R e x x.execution_policy (admitted x) entry_deadline >>= (λ fill.
      from_fill D R e x (admitted x) (fin c.planned_risk) entry_deadline fill fill.fill_price
        fill.fill_timestamp)

  with_evidence-entry :
      with_evidence D R e x (fin c.planned_risk) (some c.wait) (done (admitted x)) ≡ from_entry
  with_evidence-entry =
      passes (not (all_opens_aware (admitted x).candles_15m)) raises_value_error
        (ap not (all_opens_aware-filter (is_valid_candle x) x.future_candles_15m c.opens_aware))

  with_risk-entry : with_risk D R e x (some c.planned_risk) ≡ from_entry
  with_risk-entry =
      passes (leb_ℤ c.planned_risk (pos 0)) raises_value_error c.risk_positive
      ∙ ap (λ w. with_evidence D R e x (fin c.planned_risk) w (admit x)) c.wait_given
      ∙ ap (with_evidence D R e x (fin c.planned_risk) (some c.wait)) (admit-admitted e x c)
      ∙ with_evidence-entry

  pub resolve_trade-entry : resolve_trade D R e x ≡ from_entry
  unfolding resolve_trade
  resolve_trade-entry =
      passes (not x.signal_timestamp.aware) raises_value_error (ap not c.signal_aware)
      ∙ passes (not x.risk_plan.is_valid_risk_plan || not x.risk_plan.execution_eligible) _
          (ineligible _ _ c.plan_valid c.plan_eligible)
      ∙ ap (with_risk D R e x) c.risk_given
      ∙ with_risk-entry
