-- ===== src/Prelude/Bisect.antt =====
-- `bisect.bisect_right` of Python's standard library, a binary search in a sorted list of numbers.
use Prim.Native.Nat.{ℕ, zero, suc, ◌+◌, ◌/◌, ◌≤◌, ◌<◌, ◌-◌}
use mathlib.Core.Path.{◌≡◌, refl}
use mathlib.Core.Logic.{inl, inr}
use mathlib.Core.Bool.{true, false}
use mathlib.Core.List.{List, [], ◌∷◌}
use native.Mathlib.Omega.{arith}
use aurum_iq.Prelude.Tests.{ltb, leb, if◌then◌else◌, or_else, Bool-cases}
use aurum_iq.Prelude.Lists.{All, length, get_elem?, filter}
use aurum_iq.Prelude.Sorting.{Ordered}

-- The loop `while lo < hi`. Its fuel is the length of the list, and every round narrows the range.
unfoldable pub bisect_loop : ℕ → List ℕ → ℕ → ℕ → ℕ → ℕ
bisect_loop zero keys x lo hi = lo
bisect_loop (suc fuel) keys x lo hi =
    let mid = (lo + hi) / 2 in
    let left = bisect_loop fuel keys x lo mid in
    let right = bisect_loop fuel keys x (mid + 1) hi in
    if ltb lo hi then (if ltb x (or_else (get_elem? keys mid) 0) then left else right) else lo

unfoldable pub bisect_right : List ℕ → ℕ → ℕ
bisect_right keys x = bisect_loop (length keys) keys x 0 (length keys)

-- How many keys are at most `x`.
abbrev pub rank : List ℕ → ℕ → ℕ
rank keys x = length (filter (λ k. leb k x) keys)

rank_le : (keys : List ℕ) (x : ℕ) → rank keys x ≤ length keys
rank_le [] x = omega arith
rank_le (k ∷ keys) x = let ih = rank_le keys x in ground arith

no_rank : (keys : List ℕ) (k x : ℕ) → x < k → All (λ j. k ≤ j) keys → rank keys x ≡ 0
no_rank [] k x h _ = refl
no_rank (j ∷ keys) k x h (le, rest) = let ih = no_rank keys k x h rest in ground arith

Ordered-rank :
    (keys : List ℕ) (x i : ℕ)
    → Ordered (λ k. k) keys
    → i < length keys
    → (i < rank keys x → or_else (get_elem? keys i) 0 ≤ x)
      × (rank keys x ≤ i → x < or_else (get_elem? keys i) 0)
Ordered-rank [] x i _ h = absurd (omega arith)
Ordered-rank (k ∷ keys) x zero (first, _) h = elim (Bool-cases (leb k x)) [
  | inl below ↦ let n : rank (k ∷ keys) x ≡ suc (rank keys x) = rw (below) refl in ground arith
  | inr above ↦
      let none_below = no_rank keys k x (ground arith) first in
      let n : rank (k ∷ keys) x ≡ 0 = rw (above) none_below in ground arith
]
Ordered-rank (k ∷ keys) x (suc i) (first, rest) h =
    let (below_i, above_i) = Ordered-rank keys x i rest (omega arith) in
    elim (Bool-cases (leb k x)) [
      | inl below ↦
          let n : rank (k ∷ keys) x ≡ suc (rank keys x) = rw (below) refl in
          ((λ e. below_i (omega (arith, n, e))), (λ e. above_i (omega (arith, n, e))))
      | inr above ↦
          let none_below = no_rank keys k x (ground arith) first in
          let n : rank (k ∷ keys) x ≡ 0 = rw (above) none_below in
          ((λ e. absurd (omega (arith, n, e))), (λ e. above_i (omega (arith, none_below))))
    ]

not_past : (mid r k x : ℕ) → (mid < r → k ≤ x) → ltb x k ≡ true → r ≤ mid
not_past mid r k x below left = elim (Bool-cases (ltb mid r)) [
  | inl h ↦ let le = below (ground arith) in absurd (ground arith)
  | inr h ↦ ground arith
]

not_before : (mid r k x : ℕ) → (r ≤ mid → x < k) → ltb x k ≡ false → mid + 1 ≤ r
not_before mid r k x above right = elim (Bool-cases (ltb mid r)) [
  | inl h ↦ ground arith
  | inr h ↦ let lt = above (ground arith) in absurd (ground arith)
]

bisect_loop-rank :
    (fuel : ℕ) (keys : List ℕ) (x lo hi : ℕ)
    → Ordered (λ k. k) keys
    → lo ≤ rank keys x
    → rank keys x ≤ hi
    → hi ≤ length keys
    → hi - lo ≤ fuel
    → bisect_loop fuel keys x lo hi ≡ rank keys x
unfolding bisect_loop
bisect_loop-rank zero keys x lo hi s a b c d = omega arith
bisect_loop-rank (suc fuel) keys x lo hi s a b c d = elim (Bool-cases (ltb lo hi)) [
  | inr done ↦ rw (done) (ground arith)
  | inl open_range ↦
      let mid = (lo + hi) / 2 in
      let low : lo ≤ mid = ground arith in
      let high : mid < hi = ground arith in
      let (below, above) = Ordered-rank keys x mid s (omega arith) in
      elim (Bool-cases (ltb x (or_else (get_elem? keys mid) 0))) [
        | inl left ↦
            rw (open_range, left)
              (bisect_loop-rank fuel keys x lo mid s a (not_past mid (rank keys x) _ x below left)
                (omega arith) (omega arith))
        | inr right ↦
            rw (open_range, right)
              (bisect_loop-rank fuel keys x (mid + 1) hi s
                (not_before mid (rank keys x) _ x above right) b c (omega arith))
      ]
]

-- The search finds how many keys are at most `x`, if the keys are sorted.
pub bisect_right-rank :
    (keys : List ℕ) (x : ℕ) → Ordered (λ k. k) keys → bisect_right keys x ≡ rank keys x
unfolding bisect_right
bisect_right-rank keys x s =
    bisect_loop-rank (length keys) keys x 0 (length keys) s (omega arith) (rank_le keys x)
      (omega arith) (omega arith)
