-- ===== src/Structure/Confirmed.antt =====
-- What a swing of engine/structure/causal_swings.py is.
use aurum_iq.Prelude.{
  ℕ, zero, suc, ◌+◌, ◌-◌, ◌≤◌, ◌<◌, ◌≡◌, refl, inl, inr, Bool, true, false, Option, none, some,
  List, [], ◌∷◌, All, All-append, length, get_elem?, arith, Bool-cases, subst, ltb, ltb→lt, leb,
}
use aurum_iq.Core.Decimal.{Decimal, le, lt}
use aurum_iq.Core.Candle.{CandleData, opens_at, closes_at}
use aurum_iq.Structure.Swings.{
  SwingType, SwingPoint, fails, left_clear, right_clear, is_swing_high, is_swing_low, append_if,
  swings_of, swings_at, scan, insert_swing, sort_swings, detect_causal_swings,
}

-- No bar from `l` to `l + k - 1` places before `i` is bad.
left_clear_sound :
    (cs : List CandleData) (bad : CandleData → Bool) (i l k d : ℕ)
    → left_clear cs bad i l k ≡ true
    → l ≤ d
    → d < l + k
    → fails bad (get_elem? cs (i - d)) ≡ false
unfolding left_clear
left_clear_sound cs bad i l zero d e from until = absurd (omega arith)
left_clear_sound cs bad i l (suc k) d e from until = elim (Bool-cases (ltb l d)) [
  | inl later ↦
      left_clear_sound cs bad i (suc l) k d (ground arith) (ltb→lt l d later) (omega arith)
  | inr here ↦
      let same : l ≡ d = ground arith in
      subst (λ x. fails bad (get_elem? cs (i - x)) ≡ false) same (ground arith)
]

right_clear_sound :
    (cs : List CandleData) (bad : CandleData → Bool) (i r k d : ℕ)
    → right_clear cs bad i r k ≡ true
    → r ≤ d
    → d < r + k
    → fails bad (get_elem? cs (i + d)) ≡ false
unfolding right_clear
right_clear_sound cs bad i r zero d e from until = absurd (omega arith)
right_clear_sound cs bad i r (suc k) d e from until = elim (Bool-cases (ltb r d)) [
  | inl later ↦
      right_clear_sound cs bad i (suc r) k d (ground arith) (ltb→lt r d later) (omega arith)
  | inr here ↦
      let same : r ≡ d = ground arith in
      subst (λ x. fails bad (get_elem? cs (i + x)) ≡ false) same (ground arith)
]

fails-some :
    (bad : CandleData → Bool) (o : Option CandleData) (c : CandleData)
    → fails bad o ≡ false
    → o ≡ some c
    → bad c ≡ false
fails-some bad o c clear here = subst (λ p. fails bad p ≡ false) here clear

module _ (P : SwingPoint → Type 0) where
  insert_swing-All :
      (s : SwingPoint) (us : List SwingPoint) → P s → All P us → All P (insert_swing s us)
  unfolding insert_swing
  insert_swing-All s [] h _ = (h, tt)
  insert_swing-All s (u ∷ us) h (k, ks) = elim (Bool-cases (leb s.timestamp u.timestamp)) [
    | inl before ↦ rw (before) (h, (k, ks))
    | inr after ↦ rw (after) (k, insert_swing-All s us h ks)
  ]

  pub sort_swings-All : (ss : List SwingPoint) → All P ss → All P (sort_swings ss)
  unfolding sort_swings
  sort_swings-All [] _ = tt
  sort_swings-All (s ∷ ss) (h, hs) = insert_swing-All s (sort_swings ss) h (sort_swings-All ss hs)

pub append_if-All :
    (P : SwingPoint → Type 0) (b : Bool) (s : SwingPoint) (rest : List SwingPoint)
    → (b ≡ true → P s)
    → All P rest
    → All P (append_if b s rest)
append_if-All P true s rest h hs = (h refl, hs)
append_if-All P false s rest h hs = hs

module _ (cs : List CandleData) (left right : ℕ) where
  -- Strictly above the bars before it, and not below those after it.
  abbrev pub IsHigh : ℕ → CandleData → Type 0
  IsHigh i curr =
      ((d : ℕ) (c : CandleData)
        → 1 ≤ d
        → d ≤ left
        → get_elem? cs (i - d) ≡ some c
        → le curr.high c.high ≡ false)
      × ((d : ℕ) (c : CandleData)
          → 1 ≤ d
          → d ≤ right
          → get_elem? cs (i + d) ≡ some c
          → lt curr.high c.high ≡ false)

  abbrev pub IsLow : ℕ → CandleData → Type 0
  IsLow i curr =
      ((d : ℕ) (c : CandleData)
        → 1 ≤ d
        → d ≤ left
        → get_elem? cs (i - d) ≡ some c
        → le c.low curr.low ≡ false)
      × ((d : ℕ) (c : CandleData)
          → 1 ≤ d
          → d ≤ right
          → get_elem? cs (i + d) ≡ some c
          → lt c.low curr.low ≡ false)

  abbrev pub HasShape : SwingType → ℕ → CandleData → Decimal → Type 0
  HasShape SwingType.high i curr price = (price ≡ curr.high) × IsHigh i curr
  HasShape SwingType.low i curr price = (price ≡ curr.low) × IsLow i curr

  -- A swing at a bar of the list, known from the close of the bar that confirms it.
  abbrev pub IsSwing : SwingPoint → Type 0
  IsSwing s =
      (curr : CandleData) × (confirming : CandleData) × (left ≤ s.index)
      × (get_elem? cs s.index ≡ some curr)
      × (get_elem? cs (s.index + right) ≡ some confirming)
      × (s.timestamp ≡ opens_at curr)
      × (s.detected_at ≡ closes_at confirming)
      × HasShape s.swing_type s.index curr s.price

  is_swing_high-IsHigh :
      (i : ℕ) (curr : CandleData) → is_swing_high cs left right i curr ≡ true → IsHigh i curr
  unfolding is_swing_high
  is_swing_high-IsHigh i curr h =
      let before : CandleData → Bool = λ c. le curr.high c.high in
      let after : CandleData → Bool = λ c. lt curr.high c.high in
      let clear_left : left_clear cs before i 1 left ≡ true = ground arith in
      let clear_right : right_clear cs after i 1 right ≡ true = ground arith in
      (
        λ d c from until here.
            fails-some before _ c
              (left_clear_sound cs before i 1 left d clear_left from (omega arith)) here,
        λ d c from until here.
            fails-some after _ c
              (right_clear_sound cs after i 1 right d clear_right from (omega arith)) here,
      )

  is_swing_low-IsLow :
      (i : ℕ) (curr : CandleData) → is_swing_low cs left right i curr ≡ true → IsLow i curr
  unfolding is_swing_low
  is_swing_low-IsLow i curr h =
      let before : CandleData → Bool = λ c. le c.low curr.low in
      let after : CandleData → Bool = λ c. lt c.low curr.low in
      let clear_left : left_clear cs before i 1 left ≡ true = ground arith in
      let clear_right : right_clear cs after i 1 right ≡ true = ground arith in
      (
        λ d c from until here.
            fails-some before _ c
              (left_clear_sound cs before i 1 left d clear_left from (omega arith)) here,
        λ d c from until here.
            fails-some after _ c
              (right_clear_sound cs after i 1 right d clear_right from (omega arith)) here,
      )

  swings_of-All :
      (i : ℕ) (o p : Option CandleData)
      → left ≤ i
      → get_elem? cs i ≡ o
      → get_elem? cs (i + right) ≡ p
      → All IsSwing (swings_of cs left right i o p)
  swings_of-All i (some curr) (some confirming) from here there =
      append_if-All IsSwing (is_swing_high cs left right i curr) _ _
        (λ h.
          (curr, confirming, from, here, there, refl, refl, (refl, is_swing_high-IsHigh i curr h)))
        (append_if-All IsSwing (is_swing_low cs left right i curr) _ _
          (λ h.
            (curr, confirming, from, here, there, refl, refl, (refl, is_swing_low-IsLow i curr h)))
          tt)
  swings_of-All i (some curr) none from here there = tt
  swings_of-All i none p from here there = tt

  scan-All : (i k : ℕ) → left ≤ i → All IsSwing (scan cs left right i k)
  unfolding scan swings_at
  scan-All i zero from = tt
  scan-All i (suc k) from =
      All-append IsSwing (swings_at cs left right i) (scan cs left right (suc i) k)
        (swings_of-All i (get_elem? cs i) (get_elem? cs (i + right)) from refl refl)
        (scan-All (suc i) k (omega arith))

  -- Every swing that detection reports stands at a bar of the list with at least `left` bars before
  -- it and `right` after it; it carries that bar's open time and, as the time from which it is
  -- known, the close time of the bar `right` later. Its price is the bar's high (low), which is
  -- strictly above (below) the `left` bars before and not below (above) the `right` bars after.
  pub detected_are_swings : All IsSwing (detect_causal_swings cs left right)
  unfolding detect_causal_swings
  detected_are_swings = elim (Bool-cases (ltb (length cs) (left + right + 1))) [
    | inl short ↦ rw (short) tt
    | inr long ↦
        let count = length cs - right - left in
        rw (long) (
          sort_swings-All IsSwing (scan cs left right left count)
            (scan-All left count (omega arith)))
  ]
