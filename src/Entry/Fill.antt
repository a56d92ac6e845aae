-- ===== src/Entry/Fill.antt =====
-- engine/risk/xauusd_execution.py: what a simulated entry results in, which evidence is eligible,
-- and the interface for Decimal products. Fingerprints, which are hashes, are left out.
use aurum_iq.Prelude.{ℕ, ◌+◌, Bool, true, false, ◌&&◌, Option, none, some, leb, or_else, ◌≡◌}
use aurum_iq.Prelude.Int.{ℤ, pos, ◌≤ℤ◌}
use aurum_iq.Core.Decimal.{Decimal, fin, zero_price}
use aurum_iq.Core.Candle.{Datetime}
use aurum_iq.Risk.Barrier.{RiskSide}
use aurum_iq.Entry.Policy.{EntryExecutionPolicy, XauUsdExecutionPolicy, latency_of}

-- Products of Decimals, which are rounded by the context and so not exact in one fixed unit.
pub record DecimalOps : Type 0 where
  -- `price * (pct / Decimal("100"))`.
  pub percent_of : Decimal → Decimal → Decimal
  -- `points * point_size`.
  pub scale : Decimal → Decimal → Decimal
  -- `Decimal("0.001")`.
  pub default_point : Decimal

-- The percentage, not negative, of a price that is not negative is finite and not negative.
pub record DecimalLaws (D : DecimalOps) : Type 0 where
  pub percent_nonneg :
      (a p : ℤ)
      → pos 0 ≤ℤ a
      → pos 0 ≤ℤ p
      → (s : ℤ) × (D.percent_of (fin a) (fin p) ≡ fin s) × (pos 0 ≤ℤ s)

pub data EvidenceType : Type 0 where
  quote candle : EvidenceType

pub data FillReason : Type 0 where
  filled_market filled_next_bar limit_by_quote limit_on_bar : FillReason
  no_quote no_candle mid_bar_activation limit_not_reached : FillReason

pub record SideAwareFillResult : Type 0 where
  pub side : RiskSide
  pub fill_policy : EntryExecutionPolicy
  pub raw_executable_price : Option Decimal
  pub fill_price : Option Decimal
  pub fill_timestamp : Option ℕ
  pub latency : ℕ
  pub observed_spread : Decimal
  pub synthetic_spread : Decimal
  pub adverse_slippage : Decimal
  pub is_filled : Bool
  pub reason : FillReason
  pub source_evidence_type : Option EvidenceType

-- The arguments that all three simulations share. A deadline is aware.
pub record Order : Type 0 where
  pub policy : XauUsdExecutionPolicy
  pub side : RiskSide
  pub signal_generated_at : Datetime
  pub fill_deadline : Option Datetime

abbrev pub unfilled : Order → EntryExecutionPolicy → FillReason → SideAwareFillResult
unfilled o policy reason = record {
  side = o.side;
  fill_policy = policy;
  raw_executable_price = none;
  fill_price = none;
  fill_timestamp = none;
  latency = latency_of o.policy.latency;
  observed_spread = zero_price;
  synthetic_spread = zero_price;
  adverse_slippage = zero_price;
  is_filled = false;
  reason = reason;
  source_evidence_type = none;
}

-- `earliest_exec_ts`.
abbrev pub earliest : Order → ℕ
earliest o = o.signal_generated_at.utc + latency_of o.policy.latency

abbrev pub by_deadline : Option Datetime → ℕ → Bool
by_deadline none t = true
by_deadline (some d) t = leb t d.utc

-- The tests on the time of a quote or a bar.
abbrev pub in_window : Order → ℕ → Bool
in_window o t = leb (earliest o) t && by_deadline o.fill_deadline t

-- `slippage_pct if not None else Decimal("0.00")`.
abbrev pub slippage_pct_of : Order → Decimal
slippage_pct_of o = or_else o.policy.slippage_pct zero_price
