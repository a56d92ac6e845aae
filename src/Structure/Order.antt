-- ===== src/Structure/Order.antt =====
-- Bars and swings of engine/structure/causal_swings.py in chronological order, and its sort of them.
use aurum_iq.Prelude.{
  ℕ, zero, suc, ◌≤◌, ◌<◌, ◌≡◌, refl, none, some, List, [], ◌∷◌, ◌++◌, All, All-map, All-append,
  get_elem?, arith, ap, ◌∙◌, subst, le→leb,
}
use aurum_iq.Core.Candle.{CandleData, opens_at}
use aurum_iq.Structure.Swings.{SwingPoint, insert_swing, sort_swings}

-- Each bar opens no later than those that follow it.
abbrev pub Chronological : List CandleData → Type 0
Chronological [] = Unit
Chronological (c ∷ cs) = All (λ d. opens_at c ≤ opens_at d) cs × Chronological cs

abbrev pub Sorted : List SwingPoint → Type 0
Sorted [] = Unit
Sorted (s ∷ ss) = All (λ u. s.timestamp ≤ u.timestamp) ss × Sorted ss

All-get {ℓ κ} :
    {A : Type ℓ} (P : A → Type κ) (xs : List A) (i : ℕ) (x : A)
    → All P xs
    → get_elem? xs i ≡ some x
    → P x
All-get P [] i x _ e = absurd (cc)
All-get P (y ∷ xs) zero x (h, _) e = subst (λ o. elim o [ none ↦ Unit | some z ↦ P z ]) e h
All-get P (y ∷ xs) (suc i) x (_, hs) e = All-get P xs i x hs e

pub Chronological-get :
    (cs : List CandleData) (i j : ℕ) (c d : CandleData)
    → Chronological cs
    → i < j
    → get_elem? cs i ≡ some c
    → get_elem? cs j ≡ some d
    → opens_at c ≤ opens_at d
Chronological-get [] i j c d _ _ e _ = absurd (cc)
Chronological-get (b ∷ cs) zero zero c d _ h _ _ = absurd (omega arith)
Chronological-get (b ∷ cs) zero (suc j) c d (first, _) _ e e' =
    subst (λ o. elim o [ none ↦ Unit | some z ↦ opens_at z ≤ opens_at d ]) e
      (All-get (λ z. opens_at b ≤ opens_at z) cs j d first e')
Chronological-get (b ∷ cs) (suc i) zero c d _ h _ _ = absurd (omega arith)
Chronological-get (b ∷ cs) (suc i) (suc j) c d (_, rest) h e e' =
    Chronological-get cs i j c d rest (omega arith) e e'

insert_swing-first :
    (s : SwingPoint) (us : List SwingPoint)
    → All (λ u. s.timestamp ≤ u.timestamp) us
    → insert_swing s us ≡ s ∷ us
unfolding insert_swing
insert_swing-first s [] _ = refl
insert_swing-first s (u ∷ us) (h, _) = rw (le→leb s.timestamp u.timestamp h) refl

-- What is in order stays as it is.
pub sort_swings-Sorted : (ss : List SwingPoint) → Sorted ss → sort_swings ss ≡ ss
unfolding sort_swings
sort_swings-Sorted [] _ = refl
sort_swings-Sorted (s ∷ ss) (h, hs) =
    ap (insert_swing s) (sort_swings-Sorted ss hs) ∙ insert_swing-first s ss h

pub Sorted-append :
    (t : ℕ) (ss us : List SwingPoint)
    → All (λ s. s.timestamp ≡ t) ss
    → All (λ u. t ≤ u.timestamp) us
    → Sorted us
    → Sorted (ss ++ us)
Sorted-append t [] us _ _ sorted = sorted
Sorted-append t (s ∷ ss) us (e, es) after sorted = (
  All-append (λ u. s.timestamp ≤ u.timestamp) ss us
      (All-map (λ u. u.timestamp ≡ t) _ ss (λ u e'. omega (arith, e, e')) es)
      (All-map (λ u. t ≤ u.timestamp) _ us (λ u h. omega (arith, e, h)) after),
  Sorted-append t ss us es after sorted,
)
