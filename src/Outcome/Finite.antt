-- ===== src/Outcome/Finite.antt =====
-- engine/backtest/xauusd_outcomes.py: prices and results that are finite.
use aurum_iq.Outcome.Resolve.{share, ratio, payoff_of}
use aurum_iq.Outcome.Terms.{gain}
use aurum_iq.Outcome.Walk.{is_nan}
use aurum_iq.Prelude.Int.{ℤ, ◌+ℤ◌, ◌-ℤ◌, pos, ◌<ℤ◌}
use aurum_iq.Risk.Barrier.{RiskSide}
use aurum_iq.Core.Decimal.{Decimal, sub, add, fin}
use aurum_iq.Entry.Fill.{DecimalOps, SideAwareFillResult}
use aurum_iq.Outcome.Trade.{
  Attempt, TradeOps, XauUsdOutcomeEngine, done, TradeRequest, Payoff, ◌>>=◌, computed,
  XauUsdCostConfig,
}
use aurum_iq.Core.Candle.{CandleData}
use aurum_iq.Prelude.{Bool, Option, ◌≡◌, if◌then◌else◌, some, true, false, refl, ap, ℕ, ◌∙◌}

-- A Decimal that is finite.
abbrev pub IsFin : Decimal → Type 0
IsFin d = (a : ℤ) × (d ≡ fin a)

-- A bar whose extremes are finite.
abbrev pub FinBar : CandleData → Type 0
FinBar c = IsFin c.high × IsFin c.low

-- A call that returns something with a property.
abbrev pub Gives {ℓ κ} : {A : Type ℓ} → (A → Type κ) → Attempt A → Type (ℓ ⊔ κ)
Gives {A = A} P a = (t : A) × (a ≡ done t) × P t

pub Gives-bind {ℓ κ μ ν} :
    {A : Type ℓ} {B : Type κ} (P : A → Type μ) (Q : B → Type ν) (a : Attempt A) (f : A → Attempt B)
    → Gives P a
    → ((t : A) → a ≡ done t → P t → Gives Q (f t))
    → Gives Q (a >>= f)
Gives-bind P Q a f (t, e, p) h = let (b, same, q) = h t e p in (b, ap (λ r. r >>= f) e ∙ same, q)

pub Gives-if {ℓ κ} :
    {A : Type ℓ} (P : A → Type κ) (c : Bool) (a : Attempt A) {b : Attempt A}
    → c ≡ false
    → Gives P b
    → Gives P (if c then a else b)
Gives-if P true a e h = absurd (cc)
Gives-if P false a e h = h

pub sub-IsFin : (a b : Decimal) → IsFin a → IsFin b → IsFin (sub a b)
sub-IsFin a b (x, at) (y, bt) = rw (at, bt) (x -ℤ y, refl)

pub add-IsFin : (a b : Decimal) → IsFin a → IsFin b → IsFin (add a b)
add-IsFin a b (x, at) (y, bt) = rw (at, bt) (x +ℤ y, refl)

pub gain-IsFin : (side : RiskSide) (a b : Decimal) → IsFin a → IsFin b → IsFin (gain side a b)
gain-IsFin RiskSide.long a b x y = sub-IsFin b a y x
gain-IsFin RiskSide.short a b x y = sub-IsFin a b x y

pub if-IsFin : (c : Bool) {a b : Decimal} → IsFin a → IsFin b → IsFin (if c then a else b)
if-IsFin true x y = x
if-IsFin false x y = y

pub not_nan : (d : Decimal) → IsFin d → is_nan d ≡ false
not_nan d (a, at) = ap is_nan at

-- The rounded arithmetic does not raise at finite numbers and positive divisors, whose results it can
-- represent.
pub record TradeLaws (R : TradeOps) : Type 0 where
  pub div_fin : (a b : ℤ) → pos 0 <ℤ b → (q : ℤ) × (R.div (fin a) (fin b) ≡ some (fin q))
  pub quantize_fin : (a : ℤ) → (q : ℤ) × (R.quantize (fin a) ≡ some (fin q))
  pub bps_fin : (a b : ℤ) → (q : ℤ) × (R.bps_of (fin a) (fin b) ≡ some (fin q))
  pub percent_fin : (a : ℤ) → (q : ℤ) × (R.percent (fin a) ≡ some (fin q))

computed-Gives : (o : Option Decimal) → ((q : ℤ) × (o ≡ some (fin q))) → Gives IsFin (computed o)
computed-Gives o (q, e) = (fin q, ap computed e, (q, refl))

-- The fees are finite.
pub record FinCosts (c : XauUsdCostConfig) : Type 0 where
  pub entry_fee : IsFin c.entry_fee_bps
  pub exit_fee : IsFin c.exit_fee_bps
  pub spread : IsFin c.synthetic_spread_bps
  pub slippage : IsFin c.exit_slippage_bps

module _ (D : DecimalOps) (R : TradeOps) (laws : TradeLaws R) (e : XauUsdOutcomeEngine)
    (x : TradeRequest) where
  quantize-Gives : (a : Decimal) → IsFin a → Gives IsFin (computed (R.quantize a))
  quantize-Gives a (n, at) = rw (at) (computed-Gives _ (laws.quantize_fin n))

  bps-Gives : (a b : Decimal) → IsFin a → IsFin b → Gives IsFin (computed (R.bps_of a b))
  bps-Gives a b (n, at) (m, bt) = rw (at, bt) (computed-Gives _ (laws.bps_fin n m))

  percent-Gives : (a : Decimal) → IsFin a → Gives IsFin (computed (R.percent a))
  percent-Gives a (n, at) = rw (at) (computed-Gives _ (laws.percent_fin n))

  div-Gives :
      (a : Decimal) (b : ℤ) → IsFin a → pos 0 <ℤ b → Gives IsFin (computed (R.div a (fin b)))
  div-Gives a b (n, at) h = rw (at) (computed-Gives _ (laws.div_fin n b h))

  ratio-Gives : (a : Decimal) (b : ℤ) → IsFin a → pos 0 <ℤ b → Gives IsFin (ratio D R e x a (fin b))
  ratio-Gives a b h k = Gives-bind IsFin IsFin _ _ (div-Gives a b h k) (λ q _ f. quantize-Gives q f)

  share-Gives : (a : Decimal) (b : ℤ) → IsFin a → pos 0 <ℤ b → Gives IsFin (share D R e x a (fin b))
  share-Gives a b h k =
      Gives-bind IsFin IsFin _ _
        (Gives-bind IsFin IsFin _ _ (div-Gives a b h k) (λ q _ f. percent-Gives q f))
        (λ p _ f. quantize-Gives p f)

  abbrev Paid : Payoff → Type 0
  Paid p = Unit

  pub payoff-Gives :
      (costs : FinCosts e.cost_config) (risk price : ℤ) (fill : SideAwareFillResult)
      (fill_ts exit_ts : ℕ) (exit_price best worst : Decimal)
      → pos 0 <ℤ risk
      → pos 0 <ℤ price
      → IsFin exit_price
      → IsFin best
      → IsFin worst
      → Gives Paid
          (payoff_of D R e x (fin risk) fill (fin price) fill_ts exit_ts exit_price best worst)
  payoff-Gives costs risk price fill fill_ts exit_ts exit_price best worst h k xf bf wf =
      let s = x.risk_plan.side in
      let pf : IsFin (fin price) = (price, refl) in
      let gross = gain-IsFin s (fin price) exit_price pf xf in
      Gives-bind IsFin Paid _ _ (ratio-Gives _ risk (gain-IsFin s (fin price) best pf bf) h)
        (λ _ _ _.
          Gives-bind IsFin Paid _ _ (ratio-Gives _ risk (gain-IsFin s worst (fin price) wf pf) h)
            (λ _ _ _. Gives-bind IsFin Paid _ _ (bps-Gives _ _ pf costs.entry_fee) (λ c1 _ f1.
              Gives-bind IsFin Paid _ _ (bps-Gives _ _ xf costs.exit_fee) (λ c2 _ f2.
                Gives-bind IsFin Paid _ _ (bps-Gives _ _ xf costs.spread) (λ c3 _ f3.
                  Gives-bind IsFin Paid _ _ (bps-Gives _ _ xf costs.slippage) (λ c4 _ f4.
                    let net =
                      sub-IsFin _ _ (sub-IsFin _ c1 gross f1)
                        (add-IsFin _ c4 (add-IsFin c2 c3 f2 f3) f4) in
                    Gives-bind IsFin Paid _ _ (quantize-Gives _ gross) (λ _ _ _.
                      Gives-bind IsFin Paid _ _ (quantize-Gives _ net) (λ _ _ _.
                        Gives-bind IsFin Paid _ _ (ratio-Gives _ risk gross h) (λ _ _ _.
                          Gives-bind IsFin Paid _ _ (ratio-Gives _ risk net h) (λ _ _ _.
                            Gives-bind IsFin Paid _ _ (share-Gives _ price gross k) (λ _ _ _.
                              Gives-bind IsFin Paid _ _ (share-Gives _ price net k)
                                (λ _ _ _. (_, refl, tt)))))))))))))
