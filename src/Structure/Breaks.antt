-- ===== src/Structure/Breaks.antt =====
-- What a break of structure of engine/structure/engine.py rests on.
use aurum_iq.Prelude.{
  ℕ, ◌≡◌, sym, ap, ◌∙◌, subst, Bool, true, Option, some, List, filter, get_last?, All-Memᴰ, arith,
  filtered-Memᴰ, Option-cases, inl, inr, get_last?-Memᴰ,
}
use mathlib.Core.List.{Memᴰ}
use aurum_iq.Core.Decimal.{Decimal, lt}
use aurum_iq.Core.Enums.{BosType}
use aurum_iq.Core.Candle.{CandleData}
use aurum_iq.Structure.Swings.{SwingType, SwingPoint, detect_causal_swings}
use aurum_iq.Structure.Engine.{
  is_high, is_low, current_close, break_of_structure, analyze, analyze_from,
}
use aurum_iq.Structure.Confirmed.{IsSwing, detected_are_swings}

module _ (candles : List CandleData) (left right : ℕ) where
  -- A closed last candle, and a confirmed swing of one type that its close has passed.
  pub record Breaks (type : SwingType) (Passed : Decimal → Decimal → Type 0) : Type 0 where
    pub latest : CandleData
    pub is_latest : get_last? candles ≡ some latest
    pub is_closed : latest.is_closed ≡ true
    pub swing : SwingPoint
    pub detected : Memᴰ swing (detect_causal_swings candles left right)
    pub has_type : swing.swing_type ≡ type
    pub confirmed : IsSwing candles left right swing
    pub passed : Passed swing.price (current_close latest)

  bullish_cases :
      (latest : CandleData) (h l : Option SwingPoint)
      → break_of_structure latest h l ≡ BosType.bullish
      → (latest.is_closed ≡ true)
        × ((s : SwingPoint) × (h ≡ some s) × (lt s.price (current_close latest) ≡ true))
  unfolding break_of_structure
  bullish_cases latest h l e = ground arith

  bearish_cases :
      (latest : CandleData) (h l : Option SwingPoint)
      → break_of_structure latest h l ≡ BosType.bearish
      → (latest.is_closed ≡ true)
        × ((s : SwingPoint) × (l ≡ some s) × (lt (current_close latest) s.price ≡ true))
  unfolding break_of_structure
  bearish_cases latest h l e = ground arith

  high_type : (s : SwingPoint) → is_high s ≡ true → s.swing_type ≡ SwingType.high
  high_type s e = ground arith

  low_type : (s : SwingPoint) → is_low s ≡ true → s.swing_type ≡ SwingType.low
  low_type s e = ground arith

  confirmed_break :
      (type : SwingType) (Passed : Decimal → Decimal → Type 0) (test : SwingPoint → Bool)
      (latest : CandleData) (s : SwingPoint)
      → (test s ≡ true → s.swing_type ≡ type)
      → get_last? candles ≡ some latest
      → latest.is_closed ≡ true
      → get_last? (filter test (detect_causal_swings candles left right)) ≡ some s
      → Passed s.price (current_close latest)
      → Breaks type Passed
  confirmed_break type Passed test latest s typed last closed found passed =
      let swings = detect_causal_swings candles left right in
      let (listed, tested) =
        filtered-Memᴰ test swings s (get_last?-Memᴰ (filter test swings) s found) in
      record {
        latest = latest;
        is_latest = last;
        is_closed = closed;
        swing = s;
        detected = listed;
        has_type = typed tested;
        confirmed =
            All-Memᴰ (IsSwing candles left right) swings s (detected_are_swings candles left right)
              listed;
        passed = passed;
      }

  -- What a reported break stands for.
  abbrev pub Confirms : BosType → Type 0
  Confirms BosType.bullish = Breaks SwingType.high (λ price close. lt price close ≡ true)
  Confirms BosType.bearish = Breaks SwingType.low (λ price close. lt close price ≡ true)
  Confirms BosType.none = Unit

  confirms :
      (latest : CandleData) (bos : BosType)
      → get_last? candles ≡ some latest
      → (analyze_from (some latest) (detect_causal_swings candles left right)).bos ≡ bos
      → Confirms bos
  confirms latest BosType.bullish last e =
      let (closed, (s, found, passed)) = bullish_cases latest _ _ e in
      confirmed_break SwingType.high _ is_high latest s (high_type s) last closed found passed
  confirms latest BosType.bearish last e =
      let (closed, (s, found, passed)) = bearish_cases latest _ _ e in
      confirmed_break SwingType.low _ is_low latest s (low_type s) last closed found passed
  confirms latest BosType.none last e = tt

  -- A bullish break of structure is reported only where the last candle is closed and its close lies
  -- strictly above the price of a swing high that detection has confirmed; a bearish one only where
  -- it lies strictly below that of a confirmed swing low. (A report of no break promises nothing.)
  pub breaks_are_confirmed : (bos : BosType) → (analyze candles left right).bos ≡ bos → Confirms bos
  unfolding analyze
  breaks_are_confirmed bos e = elim (Option-cases (get_last? candles)) [
    | inl empty ↦
        subst Confirms
          (ap (λ o. (analyze_from o (detect_causal_swings candles left right)).bos) (sym empty) ∙ e)
          tt
    | inr (latest, last) ↦
        confirms latest bos last
          (ap (λ o. (analyze_from o (detect_causal_swings candles left right)).bos) (sym last) ∙ e)
  ]
