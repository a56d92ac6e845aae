-- ===== src/Structure/Range.antt =====
-- The loops of engine/structure/causal_swings.py over a list that grows.
use aurum_iq.Prelude.{
  ℕ, zero, suc, ◌+◌, ◌-◌, ◌≤◌, ◌<◌, ◌≡◌, refl, Bool, false, Option, none, some, List, [], ◌∷◌, ◌++◌,
  length, get_elem?, if◌then◌else◌, arith, ap, ap₂, sym, ◌∙◌,
}
use mathlib.Core.List.{append_assoc}
use aurum_iq.Core.Decimal.{le, lt}
use aurum_iq.Core.Candle.{CandleData}
use aurum_iq.Structure.Swings.{
  left_clear, right_clear, is_swing_high, is_swing_low, swings_of, swings_at, scan,
}

get_elem?-append {ℓ} :
    {A : Type ℓ} (xs ys : List A) (i : ℕ) → i < length xs → get_elem? (xs ++ ys) i ≡ get_elem? xs i
get_elem?-append [] ys i h = elim h [ ]
get_elem?-append (x ∷ xs) ys zero h = refl
get_elem?-append (x ∷ xs) ys (suc i) h = get_elem?-append xs ys i (omega arith)

module _ (cs more : List CandleData) where
  left_clear-append :
      (bad : CandleData → Bool) (i l k : ℕ)
      → i < length cs
      → left_clear (cs ++ more) bad i l k ≡ left_clear cs bad i l k
  unfolding left_clear
  left_clear-append bad i l zero h = refl
  left_clear-append bad i l (suc k) h =
      rw (get_elem?-append cs more (i - l) (omega arith), left_clear-append bad i (suc l) k h) refl

  right_clear-append :
      (bad : CandleData → Bool) (i r k : ℕ)
      → i + r + k ≤ length cs
      → right_clear (cs ++ more) bad i r k ≡ right_clear cs bad i r k
  unfolding right_clear
  right_clear-append bad i r zero h = refl
  right_clear-append bad i r (suc k) h =
      rw
        (
          get_elem?-append cs more (i + r) (omega arith),
          right_clear-append bad i (suc r) k (omega arith),
        )
        refl

  high-append :
      (left right i : ℕ) (curr : CandleData)
      → i + right < length cs
      → is_swing_high (cs ++ more) left right i curr ≡ is_swing_high cs left right i curr
  unfolding is_swing_high
  high-append left right i curr h =
      ap₂ (λ b c. if b then c else false)
        (left_clear-append (λ c. le curr.high c.high) i 1 left (omega arith))
        (right_clear-append (λ c. lt curr.high c.high) i 1 right (omega arith))

  low-append :
      (left right i : ℕ) (curr : CandleData)
      → i + right < length cs
      → is_swing_low (cs ++ more) left right i curr ≡ is_swing_low cs left right i curr
  unfolding is_swing_low
  low-append left right i curr h =
      ap₂ (λ b c. if b then c else false)
        (left_clear-append (λ c. le c.low curr.low) i 1 left (omega arith))
        (right_clear-append (λ c. lt c.low curr.low) i 1 right (omega arith))

  swings_of-append :
      (left right i : ℕ) (o p : Option CandleData)
      → i + right < length cs
      → swings_of (cs ++ more) left right i o p ≡ swings_of cs left right i o p
  swings_of-append left right i (some curr) (some confirming) h =
      rw (high-append left right i curr h, low-append left right i curr h) refl
  swings_of-append left right i (some curr) none h = refl
  swings_of-append left right i none p h = refl

  swings_at-append :
      (left right i : ℕ)
      → i + right < length cs
      → swings_at (cs ++ more) left right i ≡ swings_at cs left right i
  unfolding swings_at
  swings_at-append left right i h =
      ap₂ (swings_of (cs ++ more) left right i) (get_elem?-append cs more i (omega arith))
        (get_elem?-append cs more (i + right) h)
      ∙ swings_of-append left right i (get_elem? cs i) (get_elem? cs (i + right)) h

  -- Over the first bars, further bars change nothing.
  pub scan-append :
      (left right i k : ℕ)
      → i + k + right ≤ length cs
      → scan (cs ++ more) left right i k ≡ scan cs left right i k
  unfolding scan
  scan-append left right i zero h = refl
  scan-append left right i (suc k) h =
      ap₂ ◌++◌ (swings_at-append left right i (omega arith))
        (scan-append left right (suc i) k (omega arith))

-- The loop can be cut anywhere.
pub scan-add :
    (cs : List CandleData) (left right i a b : ℕ)
    → scan cs left right i (a + b) ≡ scan cs left right i a ++ scan cs left right (i + a) b
unfolding scan
scan-add cs left right i zero b = ap₂ (scan cs left right) (omega arith) (omega arith)
scan-add cs left right i (suc a) b =
    let sum : suc a + b ≡ suc (a + b) = omega arith in
    let start : suc i + a ≡ i + suc a = omega arith in
    ap (scan cs left right i) sum
    ∙ ap (λ l. swings_at cs left right i ++ l) (scan-add cs left right (suc i) a b)
    ∙ sym (append_assoc (swings_at cs left right i) (scan cs left right (suc i) a) _)
    ∙ ap
        (λ j. (swings_at cs left right i ++ scan cs left right (suc i) a) ++ scan cs left right j b)
        start
