-- ===== src/Paper/Tests.antt =====
-- The continuity gate of engine/paper at concrete instants, in the second week of the calendar.
use aurum_iq.Prelude.{
  ℕ, ◌+◌, ◌*◌, ◌≤◌, ◌<◌, ◌≡◌, refl, inr, true, false, none, some, [], ◌∷◌, arith, ok, ◌↔◌,
}
use mathlib.Core.List.{Memᴰ}
use aurum_iq.Core.Candle.{Datetime}
use aurum_iq.Paper.Closure.{
  second, hour, day, closed_at, is_expected_market_closure, sample_loop, interval_closed,
}
use aurum_iq.Paper.Interval.{week, IsWeekend-closed, interval_closed_sound}
use aurum_iq.Paper.Closes.{IsClose, get_expected_15m_closes, expected_closes_exact}
use aurum_iq.Paper.Tracker.{
  Phase8Status, InterruptionCategory, Tracker, Evaluation, evaluate_gate_status,
  record_interruption,
}
use aurum_iq.Paper.Gate.{
  IsComplete, earned-IsComplete, failure_is_final, record_all, complete_iff-IsComplete,
}

abbrev saturday : ℕ
saturday = week + 5 * day

two_hours_closed : interval_closed saturday (saturday + 2 * hour) ≡ true
unfolding interval_closed closed_at sample_loop
two_hours_closed = refl

interval_closed_sound_example : closed_at (saturday + hour) ≡ true
interval_closed_sound_example =
    interval_closed_sound saturday (saturday + 2 * hour) (saturday + hour) refl (omega arith)
      two_hours_closed (omega arith) (omega arith)

all_closed : (t : ℕ) → saturday ≤ t → t < saturday + 2 * hour → closed_at t ≡ true
all_closed t from until =
    IsWeekend-closed t (record { after_friday = omega arith; before_sunday = omega arith })

expected_closes_exact_example :
    (Memᴰ (week + hour) (get_expected_15m_closes (week + second) (week + hour))
      → IsClose (week + second) (week + hour) (week + hour))
    × (IsClose (week + second) (week + hour) (week + hour)
        → Memᴰ (week + hour) (get_expected_15m_closes (week + second) (week + hour)))
expected_closes_exact_example = expected_closes_exact (week + second) (week + hour) (week + hour)

-- A window that starts on a Monday.
abbrev tracker : Tracker
tracker = record {
  window_start = some week;
  unresolved_failures = 0;
  current_status = Phase8Status.observing;
  eligible_cycles_expected = 96;
  eligible_cycles_observed = 96;
  eligible_cycles_missing = 0;
  last_successful_evaluation = some (3 * week);
  max_stale = 30 * 60 * second;
}

-- Two weeks and ten minutes later.
abbrev evaluation : Evaluation
evaluation = record {
  current_time = 3 * week + 600 * second;
  has_critical_unresolved_failure = false;
  eligible_cycles_expected = none;
  eligible_cycles_observed = none;
  eligible_cycles_missing = some 0;
  last_successful_evaluation = none;
}

tracker-IsComplete : IsComplete tracker evaluation
tracker-IsComplete = record {
  start = week;
  started = refl;
  aged = omega arith;
  no_critical = refl;
  no_failures = refl;
  none_missing = refl;
  covered = omega arith;
  fresh = inr (inr (3 * week, refl, omega arith));
}

abbrev monday : Datetime
monday = record { aware = true; utc = week + 9 * hour }

abbrev interrupted : Tracker
interrupted = record tracker { unresolved_failures = 1; current_status = Phase8Status.interrupted }

outage :
    record_interruption tracker InterruptionCategory.collector_outage monday
    ≡ ok (interrupted, true)
unfolding record_interruption is_expected_market_closure closed_at
outage = refl

failure_is_final_example :
    evaluate_gate_status
      (record_all interrupted ((InterruptionCategory.expected_market_closure, monday) ∷ []))
      evaluation
    ≡ Phase8Status.interrupted
failure_is_final_example =
    failure_is_final tracker InterruptionCategory.collector_outage monday {s' = interrupted}
      ((InterruptionCategory.expected_market_closure, monday) ∷ []) evaluation (λ h. cc) outage

complete_iff-IsComplete_example :
    (evaluate_gate_status tracker evaluation ≡ Phase8Status.complete)
    ↔ IsComplete tracker evaluation
complete_iff-IsComplete_example = complete_iff-IsComplete tracker evaluation

is_complete : evaluate_gate_status tracker evaluation ≡ Phase8Status.complete
is_complete = earned-IsComplete tracker evaluation tracker-IsComplete
