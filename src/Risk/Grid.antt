-- ===== src/Risk/Grid.antt =====
-- `_validate_sequence` of engine/risk/xauusd_intrabar.py against a description of the grids that it
-- should accept.
use aurum_iq.Prelude.{
  ℕ, ◌≤◌, ◌≡◌, refl, ◌≢◌, true, Option, none, List, [], ◌∷◌, All, arith, ap, ◌↔◌, ◌∙◌, sym, ◌+◌,
  ◌*◌, ◌<◌,
}
use aurum_iq.Core.Candle.{CandleData, opens_at, closes_at, duration_seconds}
use aurum_iq.Risk.Validity.{IsCandle, validate-IsCandle, IsCandle-validate}
use aurum_iq.Risk.Sequence.{
  SequenceError, valid, first_error, first_pair_error, check_bar, check_order, check_duration,
  check_overlap, check_coverage, check_gap, check_empty, sequence_error, validate_sequence,
}

-- One bar of the grid: a sound, closed candle inside the parent that lasts at
-- least `step` seconds and less than one second more.
pub record IsBar (step : ℕ) (parent c : CandleData) : Type 0 where
  pub sound : IsCandle c
  pub after_open : opens_at parent ≤ opens_at c
  pub before_close : closes_at c ≤ closes_at parent
  pub at_least : opens_at c + step * 1000000 ≤ closes_at c
  pub less_than : closes_at c < opens_at c + (step + 1) * 1000000
  pub closed : c.is_closed ≡ true

-- Each bar opens when the one before it closes.
abbrev pub IsContiguous : List CandleData → Type 0
IsContiguous [] = Unit
IsContiguous (b ∷ []) = Unit
IsContiguous (b ∷ next ∷ bs) = (closes_at b ≡ opens_at next) × IsContiguous (next ∷ bs)

abbrev pub StartsBy : ℕ → List CandleData → Type 0
StartsBy t [] = Unit
StartsBy t (b ∷ bs) = opens_at b ≤ t

pub record IsGrid (bars : List CandleData) (step : ℕ) (parent : CandleData) (fill_ts : ℕ)
    : Type 0 where
  pub nonempty : bars ≢ []
  pub bars_fit : All (IsBar step parent) bars
  pub contiguous : IsContiguous bars
  pub covers_fill : StartsBy fill_ts bars

abbrev AllPairs : (CandleData → CandleData → Type 0) → List CandleData → Type 0
AllPairs P [] = Unit
AllPairs P (b ∷ []) = Unit
AllPairs P (b ∷ next ∷ bs) = P b next × AllPairs P (next ∷ bs)

All-pass :
    (check : CandleData → Option SequenceError) (cs : List CandleData)
    → first_error check cs ≡ none
    → All (λ c. check c ≡ none) cs
All-pass check [] e = tt
All-pass check (c ∷ cs) e = (ground arith, All-pass check cs (ground arith))

pairs_pass :
    (check : CandleData → CandleData → Option SequenceError) (cs : List CandleData)
    → first_pair_error check cs ≡ none
    → AllPairs (λ b next. check b next ≡ none) cs
pairs_pass check [] e = tt
pairs_pass check (b ∷ []) e = tt
pairs_pass check (b ∷ next ∷ bs) e = (ground arith, pairs_pass check (next ∷ bs) (ground arith))

no_error :
    (check : CandleData → Option SequenceError) (cs : List CandleData)
    → All (λ c. check c ≡ none) cs
    → first_error check cs ≡ none
no_error check [] h = refl
no_error check (c ∷ cs) h = rw (h.0, first_error) (no_error check cs h.1)

no_pair_error :
    (check : CandleData → CandleData → Option SequenceError) (cs : List CandleData)
    → AllPairs (λ b next. check b next ≡ none) cs
    → first_pair_error check cs ≡ none
no_pair_error check [] h = refl
no_pair_error check (b ∷ []) h = refl
no_pair_error check (b ∷ next ∷ bs) h =
    rw (h.0, first_pair_error) (no_pair_error check (next ∷ bs) h.1)

-- Whole seconds, rounded down.
seconds_at_least :
    (c : CandleData) (step : ℕ)
    → opens_at c ≤ closes_at c
    → duration_seconds c ≡ step
    → opens_at c + step * 1000000 ≤ closes_at c
seconds_at_least c step h e = omega (arith, h, e)

seconds_less_than :
    (c : CandleData) (step : ℕ)
    → opens_at c ≤ closes_at c
    → duration_seconds c ≡ step
    → closes_at c < opens_at c + (step + 1) * 1000000
seconds_less_than c step h e = omega (arith, h, e)

duration_seconds_within :
    (c : CandleData) (step : ℕ)
    → opens_at c + step * 1000000 ≤ closes_at c
    → closes_at c < opens_at c + (step + 1) * 1000000
    → duration_seconds c ≡ step
duration_seconds_within c step h k = omega (arith, h, k)

lasting : (step : ℕ) (c : CandleData) → check_duration step c ≡ none → duration_seconds c ≡ step
lasting step c e = ground arith

IsBar-of_checks :
    (step : ℕ) (parent c : CandleData)
    → check_bar parent c ≡ none
    → check_duration step c ≡ none
    → IsBar step parent c
IsBar-of_checks step parent c e d =
    let sound = validate-IsCandle c (ground arith) in
    let lasts = lasting step c d in
    let opens : opens_at c ≤ closes_at c = omega (arith, sound.in_order) in
    record {
      sound = sound;
      after_open = ground arith;
      before_close = ground arith;
      at_least = seconds_at_least c step opens lasts;
      less_than = seconds_less_than c step opens lasts;
      closed = ground arith;
    }

bars_of_checks :
    (step : ℕ) (parent : CandleData) (cs : List CandleData)
    → All (λ c. check_bar parent c ≡ none) cs
    → All (λ c. check_duration step c ≡ none) cs
    → All (IsBar step parent) cs
bars_of_checks step parent [] e d = tt
bars_of_checks step parent (c ∷ cs) e d =
    (IsBar-of_checks step parent c e.0 d.0, bars_of_checks step parent cs e.1 d.1)

IsContiguous-of_checks :
    (cs : List CandleData)
    → AllPairs (λ b next. check_overlap b next ≡ none) cs
    → AllPairs (λ b next. check_gap b next ≡ none) cs
    → IsContiguous cs
IsContiguous-of_checks [] o g = tt
IsContiguous-of_checks (b ∷ []) o g = tt
IsContiguous-of_checks (b ∷ next ∷ bs) o g =
    let overlap = o.0 in let gap = g.0 in (ground arith, IsContiguous-of_checks (next ∷ bs) o.1 g.1)

starts_of_check : (t : ℕ) (cs : List CandleData) → check_coverage t cs ≡ none → StartsBy t cs
starts_of_check t [] e = tt
starts_of_check t (c ∷ cs) e = ground arith

module _ (cs : List CandleData) (step : ℕ) (parent : CandleData) (fill_ts : ℕ) where
  all_checks :
      sequence_error cs step parent fill_ts ≡ none
      → (check_empty cs ≡ none)
        × (first_error (check_bar parent) cs ≡ none)
        × (first_error (check_duration step) cs ≡ none)
        × (first_pair_error check_overlap cs ≡ none)
        × (check_coverage fill_ts cs ≡ none)
        × (first_pair_error check_gap cs ≡ none)
  unfolding sequence_error
  all_checks e = ground arith

  unchanged :
      {bars : List CandleData}
      → validate_sequence cs step parent fill_ts ≡ valid bars
      → (bars ≡ cs) × (sequence_error cs step parent fill_ts ≡ none)
  unfolding validate_sequence
  unchanged e = ground arith

  -- What the validation returns is the sequence that it was given, unchanged, and is a grid: not
  -- empty, every bar a sound closed candle inside the parent that lasts at least the expected seconds
  -- and less than one second more, each bar opening when the last one closes, the first one no later
  -- than the fill.
  pub validate_sequence-IsGrid :
      {bars : List CandleData}
      → validate_sequence cs step parent fill_ts ≡ valid bars
      → (bars ≡ cs) × IsGrid cs step parent fill_ts
  validate_sequence-IsGrid e =
      let (same, clean) = unchanged e in
      let (nonempty, bars, durations, overlaps, coverage, gaps) = all_checks clean in
      (
        same,
        record {
          nonempty = λ h. cc (ap check_empty h);
          bars_fit =
              bars_of_checks step parent cs (All-pass (check_bar parent) cs bars)
                (All-pass (check_duration step) cs durations);
          contiguous =
              IsContiguous-of_checks cs (pairs_pass check_overlap cs overlaps)
                (pairs_pass check_gap cs gaps);
          covers_fill = starts_of_check fill_ts cs coverage;
        },
      )

check_bar_pass :
    (step : ℕ) (parent c : CandleData) → IsBar step parent c → check_bar parent c ≡ none
check_bar_pass step parent c h = ground (arith, IsCandle-validate c h.sound)

bars_pass :
    (step : ℕ) (parent : CandleData) (cs : List CandleData)
    → All (IsBar step parent) cs
    → All (λ c. check_bar parent c ≡ none) cs × All (λ c. check_duration step c ≡ none) cs
bars_pass step parent [] h = (tt, tt)
bars_pass step parent (c ∷ cs) (h, hs) =
    let (checked, lasts) = bars_pass step parent cs hs in
    let same = duration_seconds_within c step h.at_least h.less_than in
    let duration : check_duration step c ≡ none = ground (arith, same) in
    ((check_bar_pass step parent c h, checked), (duration, lasts))

grid_pairs_pass :
    (step : ℕ) (parent : CandleData) (cs : List CandleData)
    → All (IsBar step parent) cs
    → IsContiguous cs
    → AllPairs (λ b next. check_order b next ≡ none) cs
      × AllPairs (λ b next. check_overlap b next ≡ none) cs
      × AllPairs (λ b next. check_gap b next ≡ none) cs
grid_pairs_pass step parent [] h k = (tt, tt, tt)
grid_pairs_pass step parent (b ∷ []) h k = (tt, tt, tt)
grid_pairs_pass step parent (b ∷ next ∷ bs) h k =
    let (order, overlap, gap) = grid_pairs_pass step parent (next ∷ bs) h.1 k.1 in
    let here = h.0 in
    let after = h.1.0 in
    let touch = k.0 in
    let order_b : check_order b next ≡ none = ground (arith, here.sound.in_order) in
    let overlap_b : check_overlap b next ≡ none =
      ground (arith, here.sound.in_order, after.sound.in_order) in
    let gap_b : check_gap b next ≡ none = ground arith in
    ((order_b, order), (overlap_b, overlap), (gap_b, gap))

starts_pass : (t : ℕ) (cs : List CandleData) → StartsBy t cs → check_coverage t cs ≡ none
starts_pass t [] h = refl
starts_pass t (c ∷ cs) h = ground arith

nonempty_pass : (cs : List CandleData) → cs ≢ [] → check_empty cs ≡ none
nonempty_pass [] h = absurd (h refl)
nonempty_pass (c ∷ cs) h = refl

-- A sequence that is not empty, of sound closed candles inside the parent that last at least the
-- expected seconds and less than one second more, each opening when the last one closes and the first
-- one no later than the fill, is accepted and returned unchanged.
pub IsGrid-validate_sequence :
    (cs : List CandleData) (step : ℕ) (parent : CandleData) (fill_ts : ℕ)
    → IsGrid cs step parent fill_ts
    → validate_sequence cs step parent fill_ts ≡ valid cs
unfolding validate_sequence
IsGrid-validate_sequence cs step parent fill_ts h =
    let (bars, durations) = bars_pass step parent cs h.bars_fit in
    let (orders, overlaps, gaps) = grid_pairs_pass step parent cs h.bars_fit h.contiguous in
    ground (
      arith,
      nonempty_pass cs h.nonempty,
      no_error (check_bar parent) cs bars,
      no_pair_error check_order cs orders,
      no_error (check_duration step) cs durations,
      no_pair_error check_overlap cs overlaps,
      starts_pass fill_ts cs h.covers_fill,
      no_pair_error check_gap cs gaps,
    )

-- The validation of a sequence returns exactly the sequences that it is given, unchanged, if they are
-- grids: not empty, every bar a sound closed candle inside the parent that lasts at least the expected
-- seconds and less than one second more, each bar opening when the last one closes, the first one no
-- later than the fill.
pub validate_sequence_iff-IsGrid :
    (cs : List CandleData) (step : ℕ) (parent : CandleData) (fill_ts : ℕ) (bars : List CandleData)
    → (validate_sequence cs step parent fill_ts ≡ valid bars)
      ↔ ((bars ≡ cs) × IsGrid cs step parent fill_ts)
validate_sequence_iff-IsGrid cs step parent fill_ts bars = (
  validate_sequence-IsGrid cs step parent fill_ts,
  λ (same, grid). IsGrid-validate_sequence cs step parent fill_ts grid ∙ ap valid (sym same),
)
