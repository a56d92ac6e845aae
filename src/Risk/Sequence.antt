-- ===== src/Risk/Sequence.antt =====
-- engine/risk/xauusd_intrabar.py: `_validate_sequence`, the check of a lower-timeframe grid before
-- it is replayed. Each loop is a function that gives the first error it meets.
use aurum_iq.Prelude.{
  ℕ, not, ◌||◌, Option, none, some, List, [], ◌∷◌, if◌then◌else◌, ltb, leb, ◌==◌,
}
use aurum_iq.Core.Candle.{CandleData, opens_at, closes_at, duration_seconds}
use aurum_iq.Risk.Validation.{validate_xauusd_candle}

pub data SequenceError : Type 0 where
  empty candle_failed outside_parent not_chronological duration_mismatch unclosed : SequenceError
  duplicate overlapping missing_coverage gap : SequenceError

-- `(True, None, bars)` or `(False, error, [])`.
pub data Validation : Type 0 where
  valid : List CandleData → Validation
  invalid : SequenceError → Validation

abbrev pub first_error :
    (CandleData → Option SequenceError) → List CandleData → Option SequenceError
first_error check [] = none
first_error check (c ∷ cs) =
    let rest = first_error check cs in elim (check c) [ none ↦ rest | some e ↦ some e ]

-- A loop over the neighbours `bars[i]` and `bars[i + 1]`.
abbrev pub first_pair_error :
    (CandleData → CandleData → Option SequenceError) → List CandleData → Option SequenceError
first_pair_error check [] = none
first_pair_error check (b ∷ []) = none
first_pair_error check (b ∷ next ∷ bs) =
    let rest = first_pair_error check (next ∷ bs) in
    elim (check b next) [ none ↦ rest | some e ↦ some e ]

-- The first loop: strict validation, and containment in the parent candle.
abbrev pub check_bar : CandleData → CandleData → Option SequenceError
check_bar parent c =
    if not (validate_xauusd_candle c)
    then some SequenceError.candle_failed
    else if ltb (opens_at c) (opens_at parent) || ltb (closes_at parent) (closes_at c)
    then some SequenceError.outside_parent
    else none

abbrev pub check_order : CandleData → CandleData → Option SequenceError
check_order b next =
    if leb (opens_at next) (opens_at b) then some SequenceError.not_chronological else none

abbrev pub check_duration : ℕ → CandleData → Option SequenceError
check_duration step b =
    if not (duration_seconds b == step)
    then some SequenceError.duration_mismatch
    else if not b.is_closed
    then some SequenceError.unclosed
    else none

abbrev pub check_overlap : CandleData → CandleData → Option SequenceError
check_overlap b next =
    if opens_at b == opens_at next || closes_at b == closes_at next
    then some SequenceError.duplicate
    else if ltb (opens_at next) (closes_at b)
    then some SequenceError.overlapping
    else none

abbrev pub check_coverage : ℕ → List CandleData → Option SequenceError
check_coverage fill_ts [] = none
check_coverage fill_ts (first ∷ bars) =
    if ltb fill_ts (opens_at first) then some SequenceError.missing_coverage else none

abbrev pub check_gap : CandleData → CandleData → Option SequenceError
check_gap b next = if ltb (closes_at b) (opens_at next) then some SequenceError.gap else none

abbrev pub or_next : Option SequenceError → Option SequenceError → Option SequenceError
or_next none next = next
or_next (some e) next = some e

abbrev pub check_empty : List CandleData → Option SequenceError
check_empty [] = some SequenceError.empty
check_empty (_ ∷ _) = none

-- The checks of the function, in its order.
unfoldable pub sequence_error : List CandleData → ℕ → CandleData → ℕ → Option SequenceError
sequence_error candles step parent fill_ts = or_next (check_empty candles) (
    or_next (first_error (check_bar parent) candles) (
      or_next (first_pair_error check_order candles) (
        or_next (first_error (check_duration step) candles) (
          or_next (first_pair_error check_overlap candles)
            (or_next (check_coverage fill_ts candles) (first_pair_error check_gap candles))))))

unfoldable pub validate_sequence : List CandleData → ℕ → CandleData → ℕ → Validation
unfolding sequence_error
validate_sequence candles expected_step_seconds parent_candle fill_ts =
    elim (sequence_error candles expected_step_seconds parent_candle fill_ts) [
      | none ↦ valid candles
      | some e ↦ invalid e
    ]
