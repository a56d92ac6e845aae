-- ===== src/Paper/Gate.antt =====
-- The 14-day gate of `Phase8ContinuityTracker` (engine/paper/continuity.py).
use aurum_iq.Prelude.{
  ℕ, ◌+◌, ◌*◌, ◌≤◌, ◌<◌, ◌≡◌, ◌≢◌, refl, sym, ap, ◌∙◌, ◌⊎◌, inl, inr, Bool, true, false, none, some,
  List, [], ◌∷◌, arith, Result, ok, value_error, Option-cases, ◌↔◌,
}
use aurum_iq.Core.Candle.{Datetime}
use aurum_iq.Paper.Closure.{day, closed_at, is_expected_market_closure}
use aurum_iq.Paper.Tracker.{
  Phase8Status, InterruptionCategory, Tracker, Evaluation, expected, observed, missing,
  last_evaluation, evaluate_gate_status, record_interruption,
}

-- What the gate promises of a COMPLETE observation.
pub record IsComplete (s : Tracker) (e : Evaluation) : Type 0 where
  pub start : ℕ
  pub started : s.window_start ≡ some start
  pub aged : start + 14 * day ≤ e.current_time
  pub no_critical : e.has_critical_unresolved_failure ≡ false
  pub no_failures : s.unresolved_failures ≡ 0
  pub none_missing : missing s e ≡ 0
  pub covered : expected s e ≤ observed s e
  pub fresh :
      (closed_at e.current_time ≡ true)
      ⊎ ((last_evaluation s e ≡ none) × (expected s e ≡ 0))
      ⊎ ((last : ℕ) × (last_evaluation s e ≡ some last) × (e.current_time ≤ last + s.max_stale))

-- The gate says COMPLETE only if a window was started at least 14 days ago, nothing failed and no
-- cycle is missing, all expected cycles were observed, and, in open market, the last evaluation is
-- no older than allowed (or none was expected and there is none).
pub complete_is_earned :
    (s : Tracker) (e : Evaluation)
    → evaluate_gate_status s e ≡ Phase8Status.complete
    → IsComplete s e
unfolding evaluate_gate_status
complete_is_earned s e h = elim (Option-cases s.window_start) [
  | inl never ↦ absurd (ground arith)
  | inr (start, started) ↦ record {
    start = start;
    started = started;
    aged = ground arith;
    no_critical = ground arith;
    no_failures = ground arith;
    none_missing = ground arith;
    covered = ground arith;
    fresh = ground arith;
  }
]

-- The gate says COMPLETE whenever a window was started at least 14 days ago, nothing failed and
-- no cycle is missing, all expected cycles were observed, and the market is closed, or no
-- evaluation was expected and there is none, or the last one is no older than allowed.
pub earned-IsComplete :
    (s : Tracker) (e : Evaluation)
    → IsComplete s e
    → evaluate_gate_status s e ≡ Phase8Status.complete
unfolding evaluate_gate_status
earned-IsComplete s e h = ground arith

-- A failure that is recorded leaves the tracker INTERRUPTED with one more unresolved failure, and
-- nothing else changed; an interruption that is excused, as a closure or in one, changes nothing.
pub record_interruption_cases :
    (s : Tracker) (c : InterruptionCategory) (t : Datetime) {s' : Tracker} {failed : Bool}
    → record_interruption s c t ≡ ok (s', failed)
    → ((failed ≡ false)
        × (s' ≡ s)
        × ((c ≡ InterruptionCategory.expected_market_closure) ⊎ (closed_at t.utc ≡ true)))
      ⊎ ((failed ≡ true)
          × (c ≢ InterruptionCategory.expected_market_closure)
          × (closed_at t.utc ≡ false)
          × (s' ≡ record s {
            unresolved_failures = s.unresolved_failures + 1;
            current_status = Phase8Status.interrupted;
          }))
unfolding record_interruption is_expected_market_closure
record_interruption_cases s c t e = ground arith

-- What the tracker is after an interruption; one that raises leaves it as it was.
abbrev pub after : Tracker → Result (Tracker × Bool) → Tracker
after s value_error = s
after s (ok (s', failed)) = s'

abbrev pub record_all : Tracker → List (InterruptionCategory × Datetime) → Tracker
record_all s [] = s
record_all s ((c, t) ∷ rest) = record_all (after s (record_interruption s c t)) rest

failures_grow :
    (s : Tracker) (c : InterruptionCategory) (t : Datetime)
    → let s' = after s (record_interruption s c t) in
      (s.unresolved_failures ≤ s'.unresolved_failures) × (s'.window_start ≡ s.window_start)
unfolding record_interruption
failures_grow s c t = ground arith

failures_stay :
    (s : Tracker) (events : List (InterruptionCategory × Datetime))
    → (s.unresolved_failures ≤ (record_all s events).unresolved_failures)
      × ((record_all s events).window_start ≡ s.window_start)
failures_stay s [] = (omega arith, refl)
failures_stay s ((c, t) ∷ rest) =
    let (grown, started) = failures_grow s c t in
    let (more, kept) = failures_stay (after s (record_interruption s c t)) rest in
    (omega arith, kept ∙ started)

interrupted_of :
    (s : Tracker) (e : Evaluation)
    → s.window_start ≢ none
    → 0 < s.unresolved_failures
    → evaluate_gate_status s e ≡ Phase8Status.interrupted
unfolding evaluate_gate_status
interrupted_of s e h p = elim (Option-cases s.window_start) [
  | inl never ↦ absurd (h never)
  | inr (start, started) ↦ ground arith
]

-- A recorded failure is final: whatever interruptions follow it, and whatever the evaluation is
-- given, a started observation is INTERRUPTED.
pub failure_is_final :
    (s : Tracker) (c : InterruptionCategory) (t : Datetime) {s' : Tracker}
    (events : List (InterruptionCategory × Datetime)) (e : Evaluation)
    → s.window_start ≢ none
    → record_interruption s c t ≡ ok (s', true)
    → evaluate_gate_status (record_all s' events) e ≡ Phase8Status.interrupted
failure_is_final s c t {s'} events e started failed =
    elim (record_interruption_cases s c t failed) [
      | inl excused ↦ absurd (ground arith)
      | inr (_, _, _, same) ↦
          let (more, kept) = failures_stay s' events in
          let positive : 0 < (record_all s' events).unresolved_failures =
            omega (arith, ap (λ x. x.unresolved_failures) same) in
          let window : (record_all s' events).window_start ≡ s.window_start =
            kept ∙ ap (λ x. x.window_start) same in
          interrupted_of (record_all s' events) e (λ h. started (sym window ∙ h)) positive
    ]

-- The gate says COMPLETE just if a window was started at least 14 days ago, nothing failed and no
-- cycle is missing, all expected cycles were observed, and the market is closed, or no evaluation was
-- expected and there is none, or the last one is no older than allowed.
pub complete_iff-IsComplete :
    (s : Tracker) (e : Evaluation)
    → (evaluate_gate_status s e ≡ Phase8Status.complete) ↔ IsComplete s e
complete_iff-IsComplete s e = (complete_is_earned s e, earned-IsComplete s e)
