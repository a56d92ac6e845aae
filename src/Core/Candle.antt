-- ===== src/Core/Candle.antt =====
-- CandleData and QuoteData of engine/core/types.py, with the times that they carry.
use aurum_iq.Prelude.{ℕ, ◌-◌, ◌/◌, Bool, Option}
use aurum_iq.Core.Decimal.{Decimal}

-- A datetime, as microseconds since datetime.min. `utc` is the instant in UTC of an aware datetime,
-- which is what `astimezone(timezone.utc)` and comparisons of aware datetimes look at; of a naive
-- one it is the wall clock, which `replace(tzinfo=timezone.utc)` takes for UTC. A datetime is aware
-- if its tzinfo and its utcoffset are not None.
pub record Datetime : Type 0 where
  pub aware : Bool
  pub utc : ℕ

abbrev pub microseconds_per_second : ℕ
microseconds_per_second = 1000000

pub record CandleData : Type 0 where
  pub timestamp_open : Datetime
  pub timestamp_close : Datetime
  pub open_price : Decimal
  pub high : Decimal
  pub low : Decimal
  pub close : Decimal
  pub volume : Decimal
  pub is_closed : Bool
  pub close_usd : Option Decimal

pub record QuoteData : Type 0 where
  pub timestamp : Datetime
  pub bid : Decimal
  pub ask : Decimal

-- The instants at which a candle opens and closes.
abbrev pub opens_at : CandleData → ℕ
opens_at c = c.timestamp_open.utc

abbrev pub closes_at : CandleData → ℕ
closes_at c = c.timestamp_close.utc

-- `int((close - open).total_seconds())` of a candle that does not close before it opens.
abbrev pub duration_seconds : CandleData → ℕ
duration_seconds c = (closes_at c - opens_at c) / microseconds_per_second
