-- ===== src/Paper/Tracker.antt =====
-- engine/paper/continuity.py: `Phase8ContinuityTracker`. Ages and staleness are in microseconds.
use aurum_iq.Prelude.{
  ℕ, ◌+◌, ◌-◌, ◌*◌, ◌/◌, min, Bool, true, false, not, ◌&&◌, ◌||◌, Option, none, some, if◌then◌else◌,
  ltb, or_else, given_or, Result, ok, ◌>>=◌,
}
use aurum_iq.Core.Candle.{Datetime}
use aurum_iq.Paper.Closure.{day, closed_at, is_expected_market_closure}

pub data Phase8Status : Type 0 where
  not_started observing interrupted complete : Phase8Status

pub data InterruptionCategory : Type 0 where
  expected_market_closure collector_outage evaluation_job_failure : InterruptionCategory
  database_failure stale_market_data engine_exception : InterruptionCategory
  friction_resolution_failure missed_eligible_interval : InterruptionCategory

abbrev pub observation_window_calendar_days : ℕ
observation_window_calendar_days = 14

pub record Tracker : Type 0 where
  pub window_start : Option ℕ
  pub unresolved_failures : ℕ
  pub current_status : Phase8Status
  pub eligible_cycles_expected : ℕ
  pub eligible_cycles_observed : ℕ
  pub eligible_cycles_missing : ℕ
  pub last_successful_evaluation : Option ℕ
  pub max_stale : ℕ

-- (current_day, completed_days, age).
abbrev pub day_progress : Option ℕ → ℕ → ℕ × ℕ × ℕ
day_progress none now = (0, 0, 0)
day_progress (some start) now =
    if ltb now start
    then (1, 0, 0)
    else let completed = (now - start) / day in
      (min (completed + 1) observation_window_calendar_days, completed, now - start)

unfoldable pub calculate_day_progress : Tracker → ℕ → ℕ × ℕ × ℕ
calculate_day_progress s now = day_progress s.window_start now

-- The arguments of `evaluate_gate_status`; a value given overrides the tracker's.
pub record Evaluation : Type 0 where
  pub current_time : ℕ
  pub has_critical_unresolved_failure : Bool
  pub eligible_cycles_expected : Option ℕ
  pub eligible_cycles_observed : Option ℕ
  pub eligible_cycles_missing : Option ℕ
  pub last_successful_evaluation : Option ℕ

abbrev pub expected : Tracker → Evaluation → ℕ
expected s e = or_else e.eligible_cycles_expected s.eligible_cycles_expected

abbrev pub observed : Tracker → Evaluation → ℕ
observed s e = or_else e.eligible_cycles_observed s.eligible_cycles_observed

abbrev pub missing : Tracker → Evaluation → ℕ
missing s e = or_else e.eligible_cycles_missing s.eligible_cycles_missing

abbrev pub last_evaluation : Tracker → Evaluation → Option ℕ
last_evaluation s e = given_or e.last_successful_evaluation s.last_successful_evaluation

-- Condition E, in open market: the last evaluation is missing although cycles were expected, or it
-- is too old.
abbrev pub is_stale : Option ℕ → ℕ → ℕ → ℕ → Bool
is_stale none expected_cycles now max_stale = ltb 0 expected_cycles
is_stale (some last) expected_cycles now max_stale = ltb max_stale (now - last)

abbrev pub gate_from : Tracker → Evaluation → Option ℕ → Phase8Status
gate_from s e none = Phase8Status.not_started
gate_from s e (some start) =
    if e.has_critical_unresolved_failure || ltb 0 s.unresolved_failures || ltb 0 (missing s e)
    then Phase8Status.interrupted
    else if ltb (e.current_time - start) (observation_window_calendar_days * day)
    then Phase8Status.observing
    else if ltb 0 (expected s e) && ltb (observed s e) (expected s e)
    then Phase8Status.interrupted
    else if not (closed_at e.current_time)
        && is_stale (last_evaluation s e) (expected s e) e.current_time s.max_stale
    then Phase8Status.interrupted
    else Phase8Status.complete

unfoldable pub evaluate_gate_status : Tracker → Evaluation → Phase8Status
evaluate_gate_status s e = gate_from s e s.window_start

abbrev pub is_closure_category : InterruptionCategory → Bool
is_closure_category InterruptionCategory.expected_market_closure = true
is_closure_category _ = false

-- The tests before a failure is recorded: the time is asked only for another category.
abbrev pub is_excused : InterruptionCategory → Datetime → Result Bool
is_excused c timestamp =
    if is_closure_category c then ok true else is_expected_market_closure timestamp

unfoldable pub record_interruption :
    Tracker → InterruptionCategory → Datetime → Result (Tracker × Bool)
record_interruption s c timestamp = is_excused c timestamp >>= λ excused.
    if excused
    then ok (s, false)
    else ok (
      record s {
        unresolved_failures = s.unresolved_failures + 1;
        current_status = Phase8Status.interrupted;
      },
      true,
    )
