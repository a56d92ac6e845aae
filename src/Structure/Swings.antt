-- ===== src/Structure/Swings.antt =====
-- engine/structure/causal_swings.py: `detect_causal_swings`.
use aurum_iq.Prelude.{
  ℕ, zero, suc, ◌+◌, ◌-◌, Bool, true, false, Option, none, some, List, [], ◌∷◌, ◌++◌, if◌then◌else◌,
  ltb, leb, length, get_elem?,
}
use aurum_iq.Core.Decimal.{Decimal, le, lt}
use aurum_iq.Core.Candle.{CandleData, opens_at, closes_at}

pub data SwingType : Type 0 where
  high low : SwingType

pub record SwingPoint : Type 0 where
  pub index : ℕ
  pub timestamp : ℕ
  pub detected_at : ℕ
  pub price : Decimal
  pub swing_type : SwingType
  pub is_confirmed : Bool

-- The test on a bar that the indices of the loops always find.
abbrev pub fails : (CandleData → Bool) → Option CandleData → Bool
fails bad none = false
fails bad (some c) = bad c

-- `for l in range(1, left_bars + 1)`: no bar at `i - l` is bad; `l` first, then `k - 1` more.
unfoldable pub left_clear : List CandleData → (CandleData → Bool) → ℕ → ℕ → ℕ → Bool
left_clear cs bad i l zero = true
left_clear cs bad i l (suc k) =
    let rest = left_clear cs bad i (suc l) k in
    if fails bad (get_elem? cs (i - l)) then false else rest

-- `for r in range(1, right_bars + 1)`: no bar at `i + r` is bad.
unfoldable pub right_clear : List CandleData → (CandleData → Bool) → ℕ → ℕ → ℕ → Bool
right_clear cs bad i r zero = true
right_clear cs bad i r (suc k) =
    let rest = right_clear cs bad i (suc r) k in
    if fails bad (get_elem? cs (i + r)) then false else rest

unfoldable pub is_swing_high : List CandleData → ℕ → ℕ → ℕ → CandleData → Bool
is_swing_high cs left right i curr =
    if left_clear cs (λ c. le curr.high c.high) i 1 left
    then right_clear cs (λ c. lt curr.high c.high) i 1 right
    else false

unfoldable pub is_swing_low : List CandleData → ℕ → ℕ → ℕ → CandleData → Bool
is_swing_low cs left right i curr =
    if left_clear cs (λ c. le c.low curr.low) i 1 left
    then right_clear cs (λ c. lt c.low curr.low) i 1 right
    else false

abbrev pub swing_point : ℕ → CandleData → CandleData → Decimal → SwingType → SwingPoint
swing_point i curr confirming price type = record {
  index = i;
  timestamp = opens_at curr;
  detected_at = closes_at confirming;
  price = price;
  swing_type = type;
  is_confirmed = true;
}

abbrev pub append_if : Bool → SwingPoint → List SwingPoint → List SwingPoint
append_if b s rest = if b then s ∷ rest else rest

abbrev pub swings_of :
    List CandleData → ℕ → ℕ → ℕ → Option CandleData → Option CandleData → List SwingPoint
swings_of cs left right i (some curr) (some confirming) =
    append_if (is_swing_high cs left right i curr)
      (swing_point i curr confirming curr.high SwingType.high)
      (append_if (is_swing_low cs left right i curr)
        (swing_point i curr confirming curr.low SwingType.low) [])
swings_of cs left right i (some curr) none = []
swings_of cs left right i none confirming = []

-- The body of the loop at index `i`.
unfoldable pub swings_at : List CandleData → ℕ → ℕ → ℕ → List SwingPoint
swings_at cs left right i = swings_of cs left right i (get_elem? cs i) (get_elem? cs (i + right))

-- `k` rounds of the loop, from index `i` on.
unfoldable pub scan : List CandleData → ℕ → ℕ → ℕ → ℕ → List SwingPoint
scan cs left right i zero = []
scan cs left right i (suc k) = swings_at cs left right i ++ scan cs left right (suc i) k

-- `swings.sort(key=lambda s: s.timestamp)`, which is stable.
unfoldable pub insert_swing : SwingPoint → List SwingPoint → List SwingPoint
insert_swing s [] = s ∷ []
insert_swing s (u ∷ us) = if leb s.timestamp u.timestamp then s ∷ u ∷ us else u ∷ insert_swing s us

unfoldable pub sort_swings : List SwingPoint → List SwingPoint
sort_swings [] = []
sort_swings (s ∷ ss) = insert_swing s (sort_swings ss)

unfoldable pub detect_causal_swings : List CandleData → ℕ → ℕ → List SwingPoint
detect_causal_swings cs left right =
    if ltb (length cs) (left + right + 1)
    then []
    else sort_swings (scan cs left right left (length cs - right - left))
