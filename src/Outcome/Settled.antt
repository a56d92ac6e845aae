-- ===== src/Outcome/Settled.antt =====
-- engine/backtest/xauusd_outcomes.py: the trades that `resolve_trade` closes.
use aurum_iq.Risk.Barrier.{RiskSide}
use aurum_iq.Outcome.Ends.{done_injective}
use aurum_iq.Outcome.Terms.{first_bars, is_stale, up_to, barriers}
use aurum_iq.Core.Candle.{CandleData, closes_at}
use aurum_iq.Core.Decimal.{Decimal, fin}
use aurum_iq.Prelude.Int.{ℤ}
use aurum_iq.Outcome.Window.{
  admit, Evidence, is_end_aware, is_valid_candle, before_end, is_evidence_aware,
}
use aurum_iq.Outcome.Trade.{
  XauUsdSimulatedTrade, done, TradeRequest, Attempt, from_result, XauUsdTradeOutcome, map_attempt,
  PythonError, ◌>>=◌, raises,
}
use aurum_iq.Prelude.{
  value_error, [], Bool, none, Result, ℕ, Option, List, ◌⊎◌, ◌≡◌, not, subst, filter, true, ok,
  some, false, if◌then◌else◌, ltb, refl, suc, ◌∷◌, zero, ◌≤◌, ap,
}
use mathlib.Core.List.{Memᴰ}

-- A trade without an exit.
abbrev pub IsOpen : XauUsdSimulatedTrade → Type 0
IsOpen t = (t.exit_timestamp ≡ none) × (t.exit_price ≡ none) × (t.payoff ≡ none)

-- The price of the exit, by the outcome.
abbrev pub ExitsAt : ℤ → ℤ → Decimal → XauUsdSimulatedTrade → Type 0
ExitsAt tp1 stop fill_price t =
    ((t.outcome ≡ XauUsdTradeOutcome.tp1_first) × (t.exit_price ≡ some (fin tp1)))
    ⊎ ((t.outcome ≡ XauUsdTradeOutcome.sl_first) × (t.exit_price ≡ some (fin stop)))
    ⊎ ((t.outcome ≡ XauUsdTradeOutcome.skipped) × (t.exit_price ≡ some fill_price))

-- A trade with an exit, at a bar of the future that the run has seen closed.
pub record IsClosed (x : TradeRequest) (t : XauUsdSimulatedTrade) : Type 0 where
  pub tp1 : ℤ
  pub stop : ℤ
  pub fill_ts : ℕ
  pub fill_price : Decimal
  pub exit_ts : ℕ
  pub bar : CandleData
  pub target_given : x.risk_plan.tp1 ≡ some tp1
  pub stop_given : x.risk_plan.stop_final ≡ some stop
  pub fill_time_given : t.fill_timestamp ≡ some fill_ts
  pub fill_price_given : t.fill_price ≡ some fill_price
  pub surrounds : is_stale x.risk_plan.side fill_price tp1 stop ≡ false
  pub listed : Memᴰ bar x.future_candles_15m
  pub after_signal : ltb x.signal_timestamp.utc (closes_at bar) ≡ true
  pub in_run : before_end x.run_end_time (closes_at bar) ≡ true
  pub after_fill : fill_ts ≤ closes_at bar
  pub exit_given : t.exit_timestamp ≡ some exit_ts
  pub by_close : exit_ts ≤ closes_at bar
  pub dependency : t.dependency_end_timestamp ≡ exit_ts
  pub exits : ExitsAt tp1 stop fill_price t

-- The side and the time of the signal.
abbrev pub IsFrom : TradeRequest → XauUsdSimulatedTrade → Type 0
IsFrom x t = (t.side ≡ x.risk_plan.side) × (t.signal_timestamp ≡ x.signal_timestamp.utc)

abbrev pub IsSettled : TradeRequest → XauUsdSimulatedTrade → Type 0
IsSettled x t = IsFrom x t × (IsOpen t ⊎ IsClosed x t)

-- What holds of what a call returns.
abbrev pub Returns {ℓ κ} : {A : Type ℓ} → (A → Type κ) → Attempt A → Type (ℓ ⊔ κ)
Returns {A = A} P a = (t : A) → a ≡ done t → P t

module _ {ℓ κ} {A : Type ℓ} (P : A → Type κ) where
  pub Returns-done : {a : A} → P a → Returns P (done a)
  Returns-done h t e = subst P (done_injective e) h

  pub Returns-raises : (error : PythonError) → Returns P (raises error)
  Returns-raises error t e = absurd (cc)

  pub Returns-from_result {μ} :
      {B : Type μ} (r : Result B) (f : B → Attempt A)
      → ((b : B) → Returns P (f b))
      → Returns P (from_result r f)
  Returns-from_result (ok b) f h = h b
  Returns-from_result value_error f h = Returns-raises PythonError.value_kind

  pub Returns-map {μ} :
      {B : Type μ} (f : B → A) (a : Attempt B)
      → ((b : B) → a ≡ done b → P (f b))
      → Returns P (map_attempt f a)
  Returns-map f (done b) h = Returns-done (h b refl)
  Returns-map f (raises error) h = Returns-raises error

  pub Returns-bind {μ} :
      {B : Type μ} (a : Attempt B) (f : B → Attempt A)
      → ((b : B) → a ≡ done b → Returns P (f b))
      → Returns P (a >>= f)
  Returns-bind (done b) f h = h b refl
  Returns-bind (raises error) f h = Returns-raises error

  pub Returns-if :
      (c : Bool) {a b : Attempt A}
      → (c ≡ true → Returns P a)
      → (c ≡ false → Returns P b)
      → Returns P (if c then a else b)
  Returns-if true h g = h refl
  Returns-if false h g = g refl

up_to-Memᴰ : (n : ℕ) (cs : List CandleData) (c : CandleData) → Memᴰ c (up_to n cs) → Memᴰ c cs
up_to-Memᴰ zero cs c member = elim member [ ]
up_to-Memᴰ (suc n) [] c member = elim member [ ]
up_to-Memᴰ (suc n) (d ∷ ds) c (Memᴰ.head same) = Memᴰ.head same
up_to-Memᴰ (suc n) (d ∷ ds) c (Memᴰ.tail member) = Memᴰ.tail (up_to-Memᴰ n ds c member)

pub first_bars-Memᴰ :
    (n : Option ℕ) (cs : List CandleData) (c : CandleData) → Memᴰ c (first_bars n cs) → Memᴰ c cs
first_bars-Memᴰ none cs c member = member
first_bars-Memᴰ (some n) cs c member = up_to-Memᴰ n cs c member

-- The admitted candles are the valid ones of the future.
abbrev pub IsAdmitted : TradeRequest → Evidence → Type 0
IsAdmitted x ev = ev.candles_15m ≡ filter (is_valid_candle x) x.future_candles_15m

pub admit-IsAdmitted : (x : TradeRequest) → Returns (IsAdmitted x) (admit x)
unfolding admit
admit-IsAdmitted x =
    let raised = Returns-raises (IsAdmitted x) PythonError.value_kind in
    Returns-if (IsAdmitted x) (not (is_end_aware x.run_end_time)) (λ _. raised)
      (λ _.
        Returns-if (IsAdmitted x) (not (is_evidence_aware x)) (λ _. raised)
          (λ _. Returns-done (IsAdmitted x) refl))

if_kept {ℓ} :
    {A : Type ℓ} (dropped : Bool) {a b : A}
    → (if dropped then none else some a) ≡ some b
    → (dropped ≡ false) × (a ≡ b)
if_kept true e = absurd (cc)
if_kept false e = (refl, cc)

-- Barriers that are there surround the fill.
pub barriers-surround :
    (side : RiskSide) (fill : Decimal) (target stopped : Option ℤ) (kept : ℤ × ℤ)
    → barriers side fill target stopped ≡ some kept
    → (target ≡ some kept.0) × (stopped ≡ some kept.1) × (is_stale side fill kept.0 kept.1 ≡ false)
barriers-surround side fill none stopped kept e = absurd (cc)
barriers-surround side fill (some t) none kept e = absurd (cc)
barriers-surround side fill (some t) (some s) kept e =
    let (fresh, same) = if_kept (is_stale side fill t s) e in
    let surrounds : is_stale side fill t s ≡ false = fresh in
    (
      ap (λ p. some (p.0)) same,
      ap (λ p. some (p.1)) same,
      subst (λ p. is_stale side fill (p.0) (p.1) ≡ false) same surrounds,
    )
