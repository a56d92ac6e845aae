-- ===== src/Paper/Interval.antt =====
-- What the closure tests of engine/paper/continuity.py mean.
use aurum_iq.Prelude.{
  ℕ, zero, suc, ◌+◌, ◌-◌, ◌*◌, ◌%◌, ◌≤◌, ◌<◌, ◌≡◌, ◌∙◌, inl, inr, true, false, arith, Bool-cases,
  ltb→lt, ltb,
}
use aurum_iq.Paper.Closure.{second, minutes_15, hour, closed_at, sample_loop, interval_closed}

abbrev pub week : ℕ
week = 604800000000

-- The weekend: from Friday 21:00, 117 hours into the week, to Sunday 21:00, 165 hours into it.
pub record IsWeekend (t : ℕ) : Type 0 where
  pub after_friday : 117 * hour ≤ t % week
  pub before_sunday : t % week < 165 * hour

-- The market is expected to be closed exactly from Friday 21:00 UTC to Sunday 21:00 UTC.
pub closed-IsWeekend : (t : ℕ) → closed_at t ≡ true → IsWeekend t
unfolding closed_at
closed-IsWeekend t e = ground arith

pub IsWeekend-closed : (t : ℕ) → IsWeekend t → closed_at t ≡ true
unfolding closed_at
IsWeekend-closed t h = ground arith

between :
    (a b t : ℕ)
    → IsWeekend a
    → IsWeekend b
    → a ≤ t
    → t < b + second
    → b % second ≡ 0
    → b < a + 48 * hour
    → IsWeekend t
between a b t ha hb le lt whole short = record {
  after_friday =
      omega (arith, ha.after_friday, ha.before_sunday, hb.after_friday, hb.before_sunday);
  before_sunday =
      omega (arith, ha.after_friday, ha.before_sunday, hb.after_friday, hb.before_sunday);
}

interval_ends :
    (a c : ℕ)
    → interval_closed a c ≡ true
    → (c - a < 48 * hour) × (closed_at a ≡ true) × (closed_at (c - second) ≡ true)
unfolding interval_closed
interval_ends a c e = ground arith

-- An interval between whole seconds that is said to be closed holds no moment at which the market
-- is expected to be open.
pub interval_closed_sound :
    (t_open t_close t : ℕ)
    → t_close % second ≡ 0
    → t_open < t_close
    → interval_closed t_open t_close ≡ true
    → t_open ≤ t
    → t < t_close
    → closed_at t ≡ true
interval_closed_sound a c t whole order e from until =
    let (short, first, last) = interval_ends a c e in
    let first_in = closed-IsWeekend a first in
    IsWeekend-closed t (
      between a (c - second) t first_in (closed-IsWeekend (c - second) last) from (omega arith)
        (omega (arith, first_in.after_friday)) (omega arith))

sample_stop : (fuel curr c : ℕ) → ltb curr c ≡ false → sample_loop (suc fuel) curr c ≡ true
unfolding sample_loop
sample_stop fuel curr c e = ground arith

sample_step :
    (fuel curr c : ℕ)
    → ltb curr c ≡ true
    → closed_at curr ≡ true
    → sample_loop (suc fuel) curr c ≡ sample_loop fuel (curr + minutes_15) c
unfolding sample_loop
sample_step fuel curr c e k = ground arith

all_samples :
    (fuel curr c : ℕ)
    → ((t : ℕ) → curr ≤ t → t < c → closed_at t ≡ true)
    → c ≤ curr + fuel * minutes_15
    → sample_loop (suc fuel) curr c ≡ true
all_samples zero curr c all enough = sample_stop zero curr c (ground arith)
all_samples (suc fuel) curr c all enough = elim (Bool-cases (ltb curr c)) [
  | inr done ↦ sample_stop (suc fuel) curr c done
  | inl more ↦
      let open_left = ltb→lt curr c more in
      sample_step (suc fuel) curr c more (all curr (omega arith) open_left)
      ∙ all_samples fuel (curr + minutes_15) c (λ t from until. all t (omega arith) until)
          (omega arith)
]

-- An interval of less than 48 hours and at least a second, all of whose moments are in expected
-- closure, is said to be closed: the sampling loop ends by its test within its fuel.
pub interval_closed_complete :
    (t_open t_close : ℕ)
    → t_open + second ≤ t_close
    → t_close < t_open + 48 * hour
    → ((t : ℕ) → t_open ≤ t → t < t_close → closed_at t ≡ true)
    → interval_closed t_open t_close ≡ true
unfolding interval_closed
interval_closed_complete a c long short all = ground (
  arith,
  all a (omega arith) (omega arith),
  all (c - second) (omega arith) (omega arith),
  all_samples 192 a c all (omega arith),
)

-- Exactly a weekend, from Friday 21:00 to Sunday 21:00: every moment of it is in expected closure,
-- and the interval is still said not to be closed, by the test on 48 hours.
pub whole_weekend_not_closed :
    (n t : ℕ)
    → let friday = n * week + 117 * hour in
      let sunday = n * week + 165 * hour in
      friday ≤ t → t < sunday → (closed_at t ≡ true) × (interval_closed friday sunday ≡ false)
unfolding interval_closed
whole_weekend_not_closed n t from until = (
  IsWeekend-closed t (record { after_friday = omega arith; before_sunday = omega arith }),
  ground arith,
)
