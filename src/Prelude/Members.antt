-- ===== src/Prelude/Members.antt =====
-- Membership in a filtered list.
use mathlib.Core.Path.{◌≡◌, refl, sym, ap, subst, ◌∙◌}
use mathlib.Core.Logic.{◌⊎◌, inl, inr}
use mathlib.Core.Bool.{Bool, true, false}
use mathlib.Core.Option.{some}
use mathlib.Core.List.{List, [], ◌∷◌, Memᴰ}
use aurum_iq.Prelude.Tests.{Bool-cases}
use aurum_iq.Prelude.Lists.{filter, All, All-map, get_last?}

module _ {ℓ} {A : Type ℓ} where
  cons-Memᴰ : (f : A) (es : List A) (e : A) → Memᴰ e (f ∷ es) → (e ≡ f) ⊎ Memᴰ e es
  cons-Memᴰ f es e (Memᴰ.head same) = inl same
  cons-Memᴰ f es e (Memᴰ.tail member) = inr member

  pub filtered-Memᴰ :
      (p : A → Bool) (es : List A) (e : A) → Memᴰ e (filter p es) → Memᴰ e es × (p e ≡ true)
  filtered-Memᴰ p [] e member = elim member [ ]
  filtered-Memᴰ p (f ∷ es) e member = elim (Bool-cases (p f)) [
    | inr dropped ↦
        let (listed, passed) = filtered-Memᴰ p es e (rw dropped at member) in
        (Memᴰ.tail listed, passed)
    | inl kept ↦ elim (cons-Memᴰ f (filter p es) e (rw kept at member)) [
      | inl same ↦ (Memᴰ.head same, ap p same ∙ kept)
      | inr later ↦ let (listed, passed) = filtered-Memᴰ p es e later in (Memᴰ.tail listed, passed)
    ]
  ]

  pub Memᴰ-filtered :
      (p : A → Bool) (es : List A) (e : A) → Memᴰ e es → p e ≡ true → Memᴰ e (filter p es)
  Memᴰ-filtered p [] e member passed = elim member [ ]
  Memᴰ-filtered p (f ∷ es) e (Memᴰ.head same) passed =
      let kept : p f ≡ true = ap p (sym same) ∙ passed in rw (kept) (Memᴰ.head same)
  Memᴰ-filtered p (f ∷ es) e (Memᴰ.tail member) passed = elim (Bool-cases (p f)) [
    | inl kept ↦ rw (kept) (Memᴰ.tail (Memᴰ-filtered p es e member passed))
    | inr dropped ↦ rw (dropped) (Memᴰ-filtered p es e member passed)
  ]

  pub All-Memᴰ {κ} : (P : A → Type κ) (xs : List A) (x : A) → All P xs → Memᴰ x xs → P x
  All-Memᴰ P [] x _ member = elim member [ ]
  All-Memᴰ P (y ∷ ys) x (h, hs) (Memᴰ.head same) = subst P (sym same) h
  All-Memᴰ P (y ∷ ys) x (h, hs) (Memᴰ.tail member) = All-Memᴰ P ys x hs member

  pub get_last?-Memᴰ : (xs : List A) (x : A) → get_last? xs ≡ some x → Memᴰ x xs
  get_last?-Memᴰ [] x e = absurd (cc)
  get_last?-Memᴰ (y ∷ []) x e = Memᴰ.head (sym (some_injective e))
    where
      some_injective : {a b : A} → some a ≡ some b → a ≡ b
      some_injective e = cc
  get_last?-Memᴰ (y ∷ z ∷ ys) x e = Memᴰ.tail (get_last?-Memᴰ (z ∷ ys) x e)

  -- Every element of a list is one.
  pub All-members : (xs : List A) → All (λ x. Memᴰ x xs) xs
  All-members [] = tt
  All-members (x ∷ xs) = (
    Memᴰ.head refl,
    All-map (λ y. Memᴰ y xs) (λ y. Memᴰ y (x ∷ xs)) xs (λ y h. Memᴰ.tail h) (All-members xs),
  )

  pub All-filtered : (p : A → Bool) (xs : List A) → All (λ x. p x ≡ true) (filter p xs)
  All-filtered p [] = tt
  All-filtered p (x ∷ xs) = elim (Bool-cases (p x)) [
    | inl kept ↦ rw (kept) (kept, All-filtered p xs)
    | inr dropped ↦ rw (dropped) (All-filtered p xs)
  ]

  pub filter-All {κ} :
      (P : A → Type κ) (p : A → Bool) (xs : List A) → All P xs → All P (filter p xs)
  filter-All P p [] _ = tt
  filter-All P p (x ∷ xs) (h, hs) = elim (Bool-cases (p x)) [
    | inl kept ↦ rw (kept) (h, filter-All P p xs hs)
    | inr dropped ↦ rw (dropped) (filter-All P p xs hs)
  ]

  -- What holds of what a filter keeps.
  pub All-kept {κ} :
      (P : A → Type κ) (p : A → Bool) (xs : List A)
      → All P (filter p xs)
      → All (λ x. p x ≡ true → P x) xs
  All-kept P p [] _ = tt
  All-kept P p (x ∷ xs) h = elim (Bool-cases (p x)) [
    | inl kept ↦ let (k, ks) = rw kept at h in ((λ _. k), All-kept P p xs ks)
    | inr dropped ↦ ((λ e. absurd (clash e dropped)), All-kept P p xs (rw dropped at h))
  ]
    where
      clash : {b : Bool} → b ≡ true → b ≡ false → ⊥
      clash e f = cc
