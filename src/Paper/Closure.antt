-- ===== src/Paper/Closure.antt =====
-- engine/paper/continuity.py: expected market closure, and the 15-minute grid of closes. Instants
-- are microseconds since datetime.min, 0001-01-01, which is a Monday.
use aurum_iq.Prelude.{
  ℕ, zero, suc, ◌+◌, ◌-◌, ◌*◌, ◌/◌, ◌%◌, Bool, true, false, not, ◌&&◌, ◌||◌, if◌then◌else◌, ltb,
  leb, ◌==◌, Result, ok, value_error,
}
use aurum_iq.Core.Candle.{Datetime}

abbrev pub second : ℕ
second = 1000000

abbrev pub minutes_15 : ℕ
minutes_15 = 900000000

abbrev pub hour : ℕ
hour = 3600000000

abbrev pub day : ℕ
day = 86400000000

-- `utc_dt.weekday()`: Monday is 0.
abbrev pub weekday : ℕ → ℕ
weekday t = t / day % 7

-- `utc_dt.hour`.
abbrev pub hour_of : ℕ → ℕ
hour_of t = t % day / hour

-- The tests of `is_expected_market_closure` on the instant in UTC.
unfoldable pub closed_at : ℕ → Bool
closed_at t =
    if weekday t == 5
    then true
    else if weekday t == 4 && leb 21 (hour_of t)
    then true
    else if weekday t == 6 && ltb (hour_of t) 21
    then true
    else false

unfoldable pub is_expected_market_closure : Datetime → Result Bool
is_expected_market_closure d = if not d.aware then value_error else ok (closed_at d.utc)

-- `while curr < t_close`, on fuel; running out of it gives false.
unfoldable pub sample_loop : ℕ → ℕ → ℕ → Bool
sample_loop zero curr t_close = false
sample_loop (suc fuel) curr t_close = elim (ltb curr t_close) [
  | true ↦ elim (closed_at curr) [
    | true ↦ sample_loop fuel (curr + minutes_15) t_close
    | false ↦ false
  ]
  | false ↦ true
]

-- Rounds enough for an interval shorter than 48 hours, sampled every 15 minutes, and the last test.
abbrev pub sample_fuel : ℕ
sample_fuel = 193

-- The part of the function for aware times in order. `t_close - 1s` does not go below datetime.min
-- where the interval opens in closure.
unfoldable pub interval_closed : ℕ → ℕ → Bool
interval_closed t_open t_close =
    if leb (48 * hour) (t_close - t_open)
    then false
    else if not (closed_at t_open)
    then false
    else if not (closed_at (t_close - second))
    then false
    else sample_loop sample_fuel t_open t_close

unfoldable pub is_expected_market_interval_closed : Datetime → Datetime → Result Bool
is_expected_market_interval_closed timestamp_open timestamp_close =
    if not timestamp_open.aware || not timestamp_close.aware
    then value_error
    else if leb timestamp_close.utc timestamp_open.utc
    then value_error
    else ok (interval_closed timestamp_open.utc timestamp_close.utc)
