-- ===== src/Backtest/Clock.antt =====
-- engine/backtest/clock.py: `ReplayClock`, with the timestamps in UTC that the constructor makes.
use aurum_iq.Prelude.{
  ℕ, suc, Bool, true, false, Option, List, [], ◌∷◌, map, if◌then◌else◌, ◌==◌, sort_by, get_elem?,
  length, Result, ok, value_error,
}
use aurum_iq.Core.Candle.{Datetime}

pub record ReplayClock : Type 0 where
  pub timestamps : List ℕ
  pub current_index : ℕ

-- `t in xs`.
unfoldable pub contains : ℕ → List ℕ → Bool
contains t [] = false
contains t (x ∷ xs) = if t == x then true else contains t xs

-- `set(xs)`: every value once. The order of the set is lost by the sort.
unfoldable pub distinct : List ℕ → List ℕ
distinct [] = []
distinct (x ∷ xs) = let rest = distinct xs in if contains x xs then rest else x ∷ rest

-- `sorted(list(set(utc_ts)))`.
abbrev pub timeline : List ℕ → List ℕ
timeline utc_ts = sort_by (λ t. t) (distinct utc_ts)

abbrev pub utc : Datetime → ℕ
utc t = t.utc

-- `ReplayClock(timestamps)`.
unfoldable pub new_clock : List Datetime → Result ReplayClock
new_clock [] = value_error
new_clock (t ∷ ts) = ok (record { timestamps = timeline (map utc (t ∷ ts)); current_index = 0 })

unfoldable pub total_steps : ReplayClock → ℕ
total_steps c = length c.timestamps

unfoldable pub current_time : ReplayClock → Option ℕ
current_time c = get_elem? c.timestamps c.current_index

-- `__iter__` from the index `i` on: the states of the clock when it yields, with what it yields.
unfoldable pub iterate_from : ReplayClock → ℕ → List ℕ → List (ReplayClock × ℕ)
iterate_from c i [] = []
iterate_from c i (t ∷ ts) = (record c { current_index = i }, t) ∷ iterate_from c (suc i) ts

unfoldable pub iterate : ReplayClock → List (ReplayClock × ℕ)
iterate c = iterate_from c 0 c.timestamps
