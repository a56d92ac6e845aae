-- ===== src/Structure/Causality.antt =====
-- Detection in engine/structure/causal_swings.py as bars arrive.
use aurum_iq.Prelude.{
  ℕ, zero, suc, ◌+◌, ◌-◌, ◌≤◌, ◌<◌, ◌≡◌, refl, inl, inr, true, false, Option, none, some, List, [],
  ◌∷◌, ◌++◌, All, All-append, All-first, length, length-append, get_elem?, arith, Bool-cases,
  Option-cases, ap, ap₂, ◌∙◌, sym, ltb, ltb→lt,
}
use aurum_iq.Core.Decimal.{Decimal}
use aurum_iq.Core.Candle.{CandleData, opens_at}
use aurum_iq.Structure.Swings.{
  SwingType, SwingPoint, is_swing_high, is_swing_low, swing_point, swings_of, swings_at, scan,
  detect_causal_swings,
}
use aurum_iq.Structure.Order.{
  Chronological, Chronological-get, Sorted, sort_swings-Sorted, Sorted-append,
}
use aurum_iq.Structure.Range.{scan-append, scan-add}
use aurum_iq.Structure.Confirmed.{append_if-All, sort_swings-All}

module _ (cs : List CandleData) (left right : ℕ) (P : SwingPoint → Type 0) where
  swings_of-points :
      (i : ℕ) (o p : Option CandleData)
      → ((curr confirming : CandleData) (price : Decimal) (type : SwingType)
          → o ≡ some curr
          → P (swing_point i curr confirming price type))
      → All P (swings_of cs left right i o p)
  swings_of-points i (some curr) (some confirming) h =
      append_if-All P (is_swing_high cs left right i curr) _ _
        (λ _. h curr confirming curr.high SwingType.high refl)
        (append_if-All P (is_swing_low cs left right i curr) _ _
          (λ _. h curr confirming curr.low SwingType.low refl) tt)
  swings_of-points i (some curr) none h = tt
  swings_of-points i none p h = tt

  scan-points :
      (i k : ℕ)
      → ((j : ℕ) (curr confirming : CandleData) (price : Decimal) (type : SwingType)
          → i ≤ j
          → get_elem? cs j ≡ some curr
          → P (swing_point j curr confirming price type))
      → All P (scan cs left right i k)
  unfolding scan swings_at
  scan-points i zero h = tt
  scan-points i (suc k) h =
      All-append P (swings_at cs left right i) (scan cs left right (suc i) k)
        (swings_of-points i (get_elem? cs i) (get_elem? cs (i + right))
          (λ curr confirming price type here. h i curr confirming price type (omega arith) here))
        (scan-points (suc i) k (λ j curr confirming price type from here.
          h j curr confirming price type (omega arith) here))

scan-Sorted :
    (cs : List CandleData) (left right i k : ℕ) → Chronological cs → Sorted (scan cs left right i k)
unfolding scan swings_at
scan-Sorted cs left right i zero order = tt
scan-Sorted cs left right i (suc k) order =
    let rest = scan-Sorted cs left right (suc i) k order in
    elim (Option-cases (get_elem? cs i)) [
      | inl missing ↦ rw (missing) rest
      | inr (c, here) ↦
          Sorted-append (opens_at c) (swings_at cs left right i) (scan cs left right (suc i) k)
            (swings_of-points cs left right (λ s. s.timestamp ≡ opens_at c) i (get_elem? cs i)
              (get_elem? cs (i + right))
              (λ curr confirming price type e. same_bar cs i curr c e here))
            (scan-points cs left right (λ u. opens_at c ≤ u.timestamp) (suc i) k
              (λ j curr confirming price type from e.
                Chronological-get cs i j c curr order (omega arith) here e))
            rest
    ]
  where
    same_bar :
        (cs : List CandleData) (i : ℕ) (c d : CandleData)
        → get_elem? cs i ≡ some c
        → get_elem? cs i ≡ some d
        → opens_at c ≡ opens_at d
    same_bar cs i c d e e' = ap (λ o. elim o [ none ↦ 0 | some z ↦ opens_at z ]) (sym e ∙ e')

scan-later :
    (cs : List CandleData) (left right i k n : ℕ)
    → n ≤ i + right
    → All (λ s. n ≤ s.index + right) (scan cs left right i k)
scan-later cs left right i k n h =
    scan-points cs left right (λ s. n ≤ s.index + right) i k
      (λ j curr confirming price type from _. omega (arith, from, h))

detect-scan :
    (cs : List CandleData) (left right : ℕ)
    → Chronological cs
    → left + right < length cs
    → detect_causal_swings cs left right ≡ scan cs left right left (length cs - right - left)
unfolding detect_causal_swings
detect-scan cs left right order long =
    let enough : ltb (length cs) (left + right + 1) ≡ false = ground arith in
    rw (enough) (sort_swings-Sorted _ (scan-Sorted cs left right left _ order))

detected_later :
    (cs : List CandleData) (left right n : ℕ)
    → n ≤ left + right
    → All (λ s. n ≤ s.index + right) (detect_causal_swings cs left right)
unfolding detect_causal_swings
detected_later cs left right n h = elim (Bool-cases (ltb (length cs) (left + right + 1))) [
  | inl short ↦ rw (short) tt
  | inr long ↦ rw (long) (
      sort_swings-All (λ s. n ≤ s.index + right) _
        (scan-later cs left right left (length cs - right - left) n h))
]

detect-short :
    (cs : List CandleData) (left right : ℕ)
    → length cs ≤ left + right
    → detect_causal_swings cs left right ≡ []
unfolding detect_causal_swings
detect-short cs left right short =
    let few : ltb (length cs) (left + right + 1) ≡ true = ground arith in rw (few) refl

Chronological-first : (cs more : List CandleData) → Chronological (cs ++ more) → Chronological cs
Chronological-first [] more _ = tt
Chronological-first (c ∷ cs) more (h, hs) = (All-first _ cs more h, Chronological-first cs more hs)

-- With further bars, the loop runs as before, and then over the bars that can now be confirmed.
scan-more :
    (cs more : List CandleData) (left right : ℕ)
    → left + right < length cs
    → scan (cs ++ more) left right left (length (cs ++ more) - right - left)
      ≡ scan cs left right left (length cs - right - left)
        ++ scan (cs ++ more) left right (length cs - right) (length more)
scan-more cs more left right long =
    let count = length cs - right - left in
    let total : length (cs ++ more) - right - left ≡ count + length more =
      omega (arith, length-append cs more) in
    let next : left + count ≡ length cs - right = omega arith in
    ap (scan (cs ++ more) left right left) total
    ∙ scan-add (cs ++ more) left right left count (length more)
    ∙ ap₂ ◌++◌ (scan-append cs more left right left count (omega arith))
        (ap (λ i. scan (cs ++ more) left right i (length more)) next)

-- Bars that arrive later change nothing in what detection reported before: over a list of bars in
-- chronological order, followed by more bars, it reports the swings that it reported over the first
-- list alone, in that order, and then only swings whose confirming bar is one of the further bars.
pub detection_never_repaints :
    (cs more : List CandleData) (left right : ℕ)
    → Chronological (cs ++ more)
    → (later : List SwingPoint) × (detect_causal_swings (cs ++ more) left right
        ≡ detect_causal_swings cs left right ++ later)
      × All (λ s. length cs ≤ s.index + right) later
detection_never_repaints cs more left right order =
    elim (Bool-cases (ltb (left + right) (length cs))) [
      | inl long ↦
          let enough = ltb→lt (left + right) (length cs) long in
          let start = length cs - right in
          (
            scan (cs ++ more) left right start (length more),
            detect-scan (cs ++ more) left right order (omega (arith, length-append cs more))
                ∙ scan-more cs more left right enough
                ∙ ap (λ ss. ss ++ scan (cs ++ more) left right start (length more))
                    (sym (detect-scan cs left right (Chronological-first cs more order) enough)),
            scan-later (cs ++ more) left right start (length more) (length cs) (omega arith),
          )
      | inr short ↦
          let few : length cs ≤ left + right = ground arith in
          (
            detect_causal_swings (cs ++ more) left right,
            ap (λ ss. ss ++ detect_causal_swings (cs ++ more) left right)
                (sym (detect-short cs left right few)),
            detected_later (cs ++ more) left right (length cs) few,
          )
    ]
