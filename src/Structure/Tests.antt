-- ===== src/Structure/Tests.antt =====
-- Swing detection of engine/structure/causal_swings.py over five bars.
use aurum_iq.Prelude.{
  refl, ◌+◌, ◌*◌, ◌≤◌, ◌≡◌, ℕ, true, none, List, [], ◌∷◌, ◌++◌, All, length, arith,
}
use aurum_iq.Prelude.Int.{pos}
use aurum_iq.Core.Decimal.{Decimal, fin, le, lt}
use aurum_iq.Core.Candle.{CandleData}
use aurum_iq.Core.Enums.{BosType}
use aurum_iq.Structure.Engine.{analyze, break_of_structure}
use aurum_iq.Structure.Breaks.{Breaks, breaks_are_confirmed}
use aurum_iq.Structure.Swings.{
  SwingType, scan, swings_at, is_swing_high, is_swing_low, left_clear, right_clear, sort_swings,
  insert_swing, SwingPoint, detect_causal_swings,
}
use aurum_iq.Structure.Confirmed.{IsSwing, detected_are_swings}
use aurum_iq.Structure.Order.{Chronological}
use aurum_iq.Structure.Causality.{detection_never_repaints}

abbrev price : ℕ → Decimal
price n = fin (pos n)

abbrev bar : ℕ → ℕ → ℕ → CandleData
bar n high low = record {
  timestamp_open = record { aware = true; utc = n * 900 };
  timestamp_close = record { aware = true; utc = n * 900 + 900 };
  open_price = price low;
  high = price high;
  low = price low;
  close = price high;
  volume = price 1;
  is_closed = true;
  close_usd = none;
}

-- The bar 1 is a high once bar 2 is there.
abbrev first_bars : List CandleData
first_bars = bar 0 10 8 ∷ bar 1 14 9 ∷ bar 2 12 7 ∷ []

abbrev more_bars : List CandleData
more_bars = bar 3 13 9 ∷ bar 4 11 8 ∷ []

detected_are_swings_example : All (IsSwing first_bars 1 1) (detect_causal_swings first_bars 1 1)
detected_are_swings_example = detected_are_swings first_bars 1 1

in_order : Chronological (first_bars ++ more_bars)
in_order = ground arith

detection_never_repaints_example :
    (later : List SwingPoint) × (detect_causal_swings (first_bars ++ more_bars) 1 1
      ≡ detect_causal_swings first_bars 1 1 ++ later)
    × All (λ s. length first_bars ≤ s.index + 1) later
detection_never_repaints_example = detection_never_repaints first_bars more_bars 1 1 in_order

-- A closed last bar whose close passes the high of bar 1.
abbrev breaking_bars : List CandleData
breaking_bars = bar 0 10 8 ∷ bar 1 14 9 ∷ bar 2 12 7 ∷ bar 3 16 9 ∷ []

breaks_are_confirmed_example :
    Breaks breaking_bars 1 1 SwingType.high (λ price close. lt price close ≡ true)
unfolding analyze detect_causal_swings scan swings_at is_swing_high is_swing_low left_clear
    right_clear sort_swings insert_swing break_of_structure le lt
breaks_are_confirmed_example = breaks_are_confirmed breaking_bars 1 1 BosType.bullish refl
