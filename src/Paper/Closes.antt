-- ===== src/Paper/Closes.antt =====
-- engine/paper/continuity.py: `get_expected_15m_closes`, and the grid that it lists.
use aurum_iq.Prelude.{
  ℕ, zero, suc, ◌+◌, ◌-◌, ◌*◌, ◌/◌, ◌%◌, ◌≤◌, ◌<◌, ◌≡◌, refl, sym, inl, inr, true, false, List, [],
  ◌∷◌, All, All-Memᴰ, if◌then◌else◌, ltb, leb, arith, Bool-cases, ltb→lt,
}
use mathlib.Core.Path.{subst}
use mathlib.Core.List.{Memᴰ}
use aurum_iq.Paper.Closure.{minutes_15}

-- `while t <= end_utc`, on fuel.
unfoldable pub closes_from : ℕ → ℕ → ℕ → List ℕ
closes_from zero t end = []
closes_from (suc fuel) t end = elim (leb t end) [
  | true ↦ t ∷ closes_from fuel (t + minutes_15) end
  | false ↦ []
]

-- The start, cut down to a multiple of 15 minutes within its hour, is a multiple of 15 minutes.
abbrev pub aligned : ℕ → ℕ
aligned start = start / minutes_15 * minutes_15

-- The first candidate: the aligned start, moved on if it is not after the start.
abbrev pub first_close : ℕ → ℕ
first_close start = if leb (aligned start) start then aligned start + minutes_15 else aligned start

unfoldable pub get_expected_15m_closes : ℕ → ℕ → List ℕ
get_expected_15m_closes start_utc end_utc =
    if leb end_utc start_utc
    then []
    else closes_from ((end_utc - start_utc) / minutes_15 + 1) (first_close start_utc) end_utc

-- A 15-minute close in (start, end].
pub record IsClose (start end t : ℕ) : Type 0 where
  pub after_start : start < t
  pub by_end : t ≤ end
  pub on_grid : t % minutes_15 ≡ 0

from_step :
    (fuel t end : ℕ)
    → t ≤ end
    → closes_from (suc fuel) t end ≡ t ∷ closes_from fuel (t + minutes_15) end
unfolding closes_from
from_step fuel t end h = ground arith

from_stop : (fuel t end : ℕ) → end < t → closes_from (suc fuel) t end ≡ []
unfolding closes_from
from_stop fuel t end h = ground arith

closes_from-IsClose :
    (start fuel t end : ℕ)
    → start < t
    → t % minutes_15 ≡ 0
    → All (IsClose start end) (closes_from fuel t end)
unfolding closes_from
closes_from-IsClose start zero t end h g = tt
closes_from-IsClose start (suc fuel) t end h g = elim (Bool-cases (leb t end)) [
  | inl more ↦ subst (All (IsClose start end)) (sym (from_step fuel t end (ground arith))) (
    record { after_start = h; by_end = ground arith; on_grid = g },
    closes_from-IsClose start fuel (t + minutes_15) end (omega arith) (omega arith),
  )
  | inr done ↦ subst (All (IsClose start end)) (sym (from_stop fuel t end (ground arith))) tt
]

-- Everything that is listed is a 15-minute close after the start and no later than the end.
pub expected_closes_sound :
    (start end : ℕ) → All (IsClose start end) (get_expected_15m_closes start end)
unfolding get_expected_15m_closes
expected_closes_sound start end = elim (Bool-cases (leb end start)) [
  | inl none_left ↦ rw none_left tt
  | inr some_left ↦
      rw some_left
        (closes_from-IsClose start _ (first_close start) end (ground arith) (ground arith))
]

closes_from-complete :
    (fuel t end x : ℕ)
    → t % minutes_15 ≡ 0
    → x % minutes_15 ≡ 0
    → t ≤ x
    → x ≤ end
    → x < t + fuel * minutes_15
    → Memᴰ x (closes_from fuel t end)
closes_from-complete zero t end x g k le by room = absurd (omega arith)
closes_from-complete (suc fuel) t end x g k le by room =
    subst (Memᴰ x) (sym (from_step fuel t end (omega arith))) (elim (Bool-cases (ltb t x)) [
      | inl later ↦
          let after = ltb→lt t x later in
          Memᴰ.tail (
            closes_from-complete fuel (t + minutes_15) end x (omega arith) k (omega arith) by
              (omega arith))
      | inr same ↦
          let e : t ≡ x = ground arith in
          subst (λ y. Memᴰ x (y ∷ closes_from fuel (t + minutes_15) end)) (sym e) (Memᴰ.head refl)
    ])

-- Every 15-minute close after the start and no later than the end is listed: the loop's fuel is
-- enough.
pub expected_closes_complete :
    (start end t : ℕ) → IsClose start end t → Memᴰ t (get_expected_15m_closes start end)
unfolding get_expected_15m_closes
expected_closes_complete start end t h =
    let some_left : leb end start ≡ false = ground (arith, h.after_start, h.by_end) in
    rw some_left (
      closes_from-complete _ (first_close start) end t (ground arith) h.on_grid
        (ground (arith, h.after_start, h.on_grid)) h.by_end
        (ground (arith, h.after_start, h.by_end, h.on_grid)))

-- The list holds an instant exactly if it is a 15-minute close after the start and no later than the
-- end: nothing else is listed, and the loop's fuel lists all of them.
pub expected_closes_exact :
    (start end t : ℕ)
    → (Memᴰ t (get_expected_15m_closes start end) → IsClose start end t)
      × (IsClose start end t → Memᴰ t (get_expected_15m_closes start end))
expected_closes_exact start end t = (
  All-Memᴰ (IsClose start end) (get_expected_15m_closes start end) t
      (expected_closes_sound start end),
  expected_closes_complete start end t,
)
