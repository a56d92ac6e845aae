-- ===== src/Structure/Engine.antt =====
-- engine/structure/engine.py: `CausalStructureEngine.analyze`, without its support and resistance
-- zones.
use aurum_iq.Prelude.{
  ℕ, Bool, true, false, not, ◌&&◌, Option, none, some, List, [], ◌∷◌, if◌then◌else◌, filter,
  get_last?, or_else,
}
use aurum_iq.Core.Decimal.{Decimal, lt}
use aurum_iq.Core.Candle.{CandleData, opens_at, closes_at}
use aurum_iq.Core.Enums.{StructureType, BosType}
use aurum_iq.Structure.Swings.{SwingType, SwingPoint, detect_causal_swings}

-- A timestamp of `none` is the time of the call.
pub record StructureResult : Type 0 where
  pub timestamp : Option ℕ
  pub structure_type : StructureType
  pub bos : BosType
  pub last_swing_high : Option SwingPoint
  pub last_swing_low : Option SwingPoint
  pub swings : List SwingPoint

abbrev pub is_high : SwingPoint → Bool
is_high s = elim s.swing_type [ SwingType.high ↦ true | SwingType.low ↦ false ]

abbrev pub is_low : SwingPoint → Bool
is_low s = elim s.swing_type [ SwingType.high ↦ false | SwingType.low ↦ true ]

-- `xs[-2], xs[-1]`, where there are two.
abbrev pub last_two : List SwingPoint → Option (SwingPoint × SwingPoint)
last_two [] = none
last_two (a ∷ []) = none
last_two (a ∷ b ∷ []) = some (a, b)
last_two (a ∷ b ∷ c ∷ rest) = last_two (b ∷ c ∷ rest)

-- Higher and lower highs and lows, from the last two of each.
abbrev pub structure_of : SwingPoint × SwingPoint → SwingPoint × SwingPoint → StructureType
structure_of (prev_high, curr_high) (prev_low, curr_low) =
    let is_hh = lt prev_high.price curr_high.price in
    let is_hl = lt prev_low.price curr_low.price in
    let is_lh = lt curr_high.price prev_high.price in
    let is_ll = lt curr_low.price prev_low.price in
    if is_hh && is_hl
    then StructureType.hh
    else if is_lh && is_ll
    then StructureType.ll
    else if is_hl
    then StructureType.hl
    else if is_lh
    then StructureType.lh
    else StructureType.consolidation

abbrev pub structure_from :
    Option (SwingPoint × SwingPoint) → Option (SwingPoint × SwingPoint) → StructureType
structure_from (some highs) (some lows) = structure_of highs lows
structure_from (some highs) none = StructureType.unknown
structure_from none lows = StructureType.unknown

unfoldable pub classify_structure : List SwingPoint → List SwingPoint → StructureType
classify_structure swing_highs swing_lows =
    structure_from (last_two swing_highs) (last_two swing_lows)

abbrev pub is_above : Decimal → Option SwingPoint → Bool
is_above close none = false
is_above close (some s) = lt s.price close

abbrev pub is_below : Decimal → Option SwingPoint → Bool
is_below close none = false
is_below close (some s) = lt close s.price

-- `close_usd` where there is one.
abbrev pub current_close : CandleData → Decimal
current_close c = or_else c.close_usd c.close

unfoldable pub break_of_structure : CandleData → Option SwingPoint → Option SwingPoint → BosType
break_of_structure latest last_high last_low =
    if not latest.is_closed
    then BosType.none
    else if is_above (current_close latest) last_high
    then BosType.bullish
    else if is_below (current_close latest) last_low
    then BosType.bearish
    else BosType.none

abbrev pub empty_structure : StructureResult
empty_structure = record {
  timestamp = none;
  structure_type = StructureType.unknown;
  bos = BosType.none;
  last_swing_high = none;
  last_swing_low = none;
  swings = [];
}

abbrev pub analyze_latest : CandleData → List SwingPoint → StructureResult
analyze_latest latest swings =
    let swing_highs = filter is_high swings in
    let swing_lows = filter is_low swings in
    record {
      timestamp = some (if latest.is_closed then closes_at latest else opens_at latest);
      structure_type = classify_structure swing_highs swing_lows;
      bos = break_of_structure latest (get_last? swing_highs) (get_last? swing_lows);
      last_swing_high = get_last? swing_highs;
      last_swing_low = get_last? swing_lows;
      swings = swings;
    }

abbrev pub analyze_from : Option CandleData → List SwingPoint → StructureResult
analyze_from none swings = empty_structure
analyze_from (some latest) swings = analyze_latest latest swings

unfoldable pub analyze : List CandleData → ℕ → ℕ → StructureResult
analyze candles swing_left_bars swing_right_bars =
    analyze_from (get_last? candles) (detect_causal_swings candles swing_left_bars swing_right_bars)
