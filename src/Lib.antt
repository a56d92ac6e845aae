-- ===== src/Lib.antt =====
-- AurumIQ: the decision core of a point-in-time XAUUSD signal engine.
--
-- The engine reads closed candles and feed health, classifies structure, scores both sides, passes
-- the scores through safety gates to a decision, simulates the trades of that decision inside
-- candles, splits simulated trades into training and later partitions, and watches its own paper
-- observation for continuity. What is modelled here, file by file:
--
-- Core: engine/core/types.py. Enums holds the enumerations; Candle the CandleData, QuoteData and
-- datetimes; Decimal stands for decimal.Decimal; Float is the interface for Python's floats.
-- Structure/Swings: engine/structure/causal_swings.py, `detect_causal_swings`, with one function
-- for each of its loops. Range, Order, Confirmed and Causality hold the proofs. Structure/Engine:
-- engine/structure/engine.py, `analyze` without its zones, on those swings; Breaks holds its
-- proof. Signals/Profile: engine/signals/profile.py, the `is_configured` properties.
-- Signals/HardGate, SelectiveGate, Candidate: engine/signals/gate.py, `evaluate_hard_gates`,
-- `evaluate_xauusd_hard_gates`, `evaluate_selective_gate`, `evaluate_xauusd_candidate_gate`, and
-- the publication guard of engine/signals/engine.py (`publish`). Blocking, Precedence, Symmetry,
-- Nested and Qualified hold the proofs. The candidate gate reads the result of the hard gate.
-- Risk/Validation: engine/risk/xauusd_execution.py, the validators of quotes and candles.
-- Risk/Sequence, Barrier, Intrabar: engine/risk/xauusd_intrabar.py, `_validate_sequence`,
-- `_replay_bars` and `resolve`; `resolve` calls the validator on the parent candle and on every
-- sub-bar. Validity, Grid, FirstTouch, Evidence, TakeProfit, StopLoss and BeforeFill hold the
-- proofs. Entry/Policy, Fill, Market, Limit: engine/risk/xauusd_policy.py,
-- `XauUsdExecutionPolicy`, and engine/risk/xauusd_execution.py, `simulate_market_after_signal`,
-- `simulate_next_bar_open` and `simulate_limit_zone` of `SideAwareEntryExecutionModel`, which
-- filter by the validators. Eligible, Timing, LimitFills and Price hold the proofs. Macro/Events:
-- engine/cycles/events.py, `evaluate_macro_event_risk`; Hindsight and Blackout hold the proofs.
-- Its blackout is an input of the hard gate.
-- In Plan, the files Policy, Zones, Stops, Targets, LongTargets, ShortTargets, Snapshot, LongPlan
-- and ShortPlan: engine/risk/xauusd_policy.py (`SideRiskPolicy`), xauusd_targets.py
-- (`_collect_pit_zones`, `calculate_long_targets`, `calculate_short_targets`), xauusd_stops.py and
-- xauusd_planner.py (`plan_long`, `plan_short`). The planner reads the candidate of the gate and
-- the zones of two structures, and calls the stops and then the targets. The two sides are written
-- out as the source writes them. The other modules of Plan hold the proofs.
-- In Outcome, the files Trade, Engine, Window, Walk, Terms and Resolve:
-- engine/backtest/xauusd_outcomes.py, the constructor of `XauUsdOutcomeEngine` (Engine) and its
-- `resolve_trade`, in the order of its parts: the admitted evidence and the deadlines (Window),
-- the loop over the bars (Walk), the arithmetic (Terms) and the composition (Resolve), which calls
-- the simulated entries of Entry and then, for every bar, the resolver of Risk/Intrabar. Ends,
-- Settled, Closed, Reached, LimitZone, Finite, Steady, Total and Horizon hold the proofs, with
-- Risk/ExitTime and Risk/ExactStop on what the resolver promises of an exit.
-- Replay/Engine: engine/backtest/xauusd_replay.py, `run_from_cache` of `XauUsdPointInTimeReplay`:
-- for every snapshot of the cache the signal engine, which is the interface `SignalEngine`, then
-- `plan_long` or `plan_short` of Plan, then `resolve_trade` of Outcome on the candles of the
-- dataset of Backtest/Repository. Traded and Bounded hold the proofs.
-- Backtest/Repository: engine/backtest/repository.py, `PointInTimeDataset`, its constructor and the
-- methods that add data; Repository/Queries: its queries; Repository/Changes: those methods as the
-- steps of a dataset. Latest, Chronology, Future, Unseen, Log, Store, Refines and Answers hold the
-- proofs; Log is the abstract view of a dataset. Backtest/Clock: engine/backtest/clock.py,
-- `ReplayClock`; its proofs are in Progress.
-- Backtest/Purge: engine/backtest/purge.py, `PurgeEngine.filter_partition`; the proofs are in
-- Isolation.
-- Paper/Closure, Closes, Tracker: engine/paper/continuity.py, `is_expected_market_closure`,
-- `is_expected_market_interval_closed`, `get_expected_15m_closes` and `Phase8ContinuityTracker`.
-- Interval, Closes and Gate hold the proofs.
-- Prelude: shared names, tests, lists, integers and the result of a function that may raise.
-- The modules named Tests run the code at concrete inputs.
--
-- Conventions. A datetime is a number of microseconds since datetime.min (a Monday) with a mark
-- for awareness; a naive one is read as UTC where the code does so. A timestamp whose tzinfo gives
-- no offset counts as naive. A Decimal is an integer in units of one fixed decimal place, or an
-- infinity or NaN; sums are exact (the context's rounding to 28 digits is not modelled), and
-- comparisons with NaN, which raise, are false, except in Outcome, where the exceptions of decimal
-- are written out. Floats are abstract: only the operations that the code uses, with no law unless
-- a theorem names one. A ValueError is `value_error`. Messages are constructors. A missing list of
-- candles is the empty one. Ages, embargoes and staleness limits are microseconds and not
-- negative; latency is in microseconds, blackout windows in minutes. The products of Decimals in
-- simulated entries are the interface `DecimalOps`, with one law on signs.
--
-- The rounded products and quotients of a risk plan and the hash of a zone are the interface
-- `PlanOps`; the rounded arithmetic of the results of a trade is the interface `TradeOps`, of
-- which `TradeLaws` names what a theorem needs; the first has no laws. The canonical timestamps by
-- which zones are sorted compare as instants do, and the hexadecimal digits of a hash as the
-- number they spell. Strings are lists of code points, of which `lower` changes the ASCII
-- capitals.
--
-- Loops are structural recursion on the list or on the number of rounds. Three while loops run on
-- fuel: the binary search of the library's `bisect_right` on the length of the list, since every
-- round narrows the range; `sample_loop` on 193 rounds, enough for the intervals under 48 hours
-- that reach it, and `closes_from` on one more round than the quarters of an hour in the interval,
-- where the candidates are that far apart. Running out of fuel is never the answer `closed`.
--
-- Not modelled: the component scores, indicators and regime, sessions and cycles, metrics and
-- calibration search (floats, Decimal division or time zone data), fingerprints (hashes of library
-- code), and the Django applications, scripts and tools (input and output).
pub mod Prelude
pub mod Core
pub mod Signals
pub mod Risk
pub mod Backtest
pub mod Paper
pub mod Plan
pub mod Outcome
pub mod Replay
pub mod Structure
pub mod Entry
pub mod Macro
