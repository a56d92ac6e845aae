-- ===== src/Prelude/SortWith.antt =====
-- Python's stable sort by a key that is compared by a Boolean test, and the order it leaves.
use mathlib.Core.Path.{◌≡◌}
use mathlib.Core.Logic.{inl, inr}
use mathlib.Core.Bool.{Bool, true, false}
use mathlib.Core.List.{List, [], ◌∷◌}
use aurum_iq.Prelude.Tests.{if◌then◌else◌, Bool-cases}
use aurum_iq.Prelude.Lists.{All, All-map}

-- `less x y` is `key(x) < key(y)`.
module _ {ℓ} {A : Type ℓ} (less : A → A → Bool) where
  unfoldable pub insert_with : A → List A → List A
  insert_with x [] = x ∷ []
  insert_with x (y ∷ ys) = let rest = insert_with x ys in if less y x then y ∷ rest else x ∷ y ∷ ys

  unfoldable pub sort_with : List A → List A
  sort_with [] = []
  sort_with (x ∷ xs) = insert_with x (sort_with xs)

  insert_with-All {κ} :
      (P : A → Type κ) (x : A) (ys : List A) → P x → All P ys → All P (insert_with x ys)
  unfolding insert_with
  insert_with-All P x [] h _ = (h, tt)
  insert_with-All P x (y ∷ ys) h (k, ks) = elim (Bool-cases (less y x)) [
    | inl after ↦ rw (after) (k, insert_with-All P x ys h ks)
    | inr before ↦ rw (before) (h, (k, ks))
  ]

  All-insert_with {κ} :
      (P : A → Type κ) (x : A) (ys : List A) → All P (insert_with x ys) → P x × All P ys
  unfolding insert_with
  All-insert_with P x [] (h, _) = (h, tt)
  All-insert_with P x (y ∷ ys) h = elim (Bool-cases (less y x)) [
    | inl after ↦
        let (k, ks) = rw after at h in
        let (here, rest) = All-insert_with P x ys ks in (here, (k, rest))
    | inr before ↦ let (k, ks) = rw before at h in (k, ks)
  ]

  pub sort_with-All {κ} : (P : A → Type κ) (xs : List A) → All P xs → All P (sort_with xs)
  unfolding sort_with
  sort_with-All P [] _ = tt
  sort_with-All P (x ∷ xs) (h, hs) = insert_with-All P x (sort_with xs) h (sort_with-All P xs hs)

  pub All-sort_with {κ} : (P : A → Type κ) (xs : List A) → All P (sort_with xs) → All P xs
  unfolding sort_with
  All-sort_with P [] _ = tt
  All-sort_with P (x ∷ xs) h =
      let (k, ks) = All-insert_with P x (sort_with xs) h in (k, All-sort_with P xs ks)

-- A relation that the test decides, and that is transitive at the elements with `P`.
module _ {ℓ κ μ} {A : Type ℓ} (less : A → A → Bool) (P : A → Type κ) (R : A → A → Type μ)
    (if_less : (x y : A) → less x y ≡ true → R x y) (if_not : (x y : A) → less x y ≡ false → R y x)
    (chain : (x y z : A) → P y → R x y → R y z → R x z) where
  abbrev pub Chained : List A → Type μ
  Chained [] = Unit
  Chained (x ∷ xs) = All (R x) xs × Chained xs

  insert_with-Chained :
      (x : A) (ys : List A) → P x → All P ys → Chained ys → Chained (insert_with less x ys)
  unfolding insert_with
  insert_with-Chained x [] p _ _ = (tt, tt)
  insert_with-Chained x (y ∷ ys) p (q, qs) (h, hs) = elim (Bool-cases (less y x)) [
    | inl after ↦
        rw (after)
          (insert_with-All less (R y) x ys (if_less y x after) h, insert_with-Chained x ys p qs hs)
    | inr before ↦
        let first = if_not y x before in
        rw (before) ((first, All-map (R y) (R x) ys (λ z k. chain x y z q first k) h), (h, hs))
  ]

  pub sort_with-Chained : (xs : List A) → All P xs → Chained (sort_with less xs)
  unfolding sort_with
  sort_with-Chained [] _ = tt
  sort_with-Chained (x ∷ xs) (p, ps) =
      insert_with-Chained x (sort_with less xs) p (sort_with-All less P xs ps)
        (sort_with-Chained xs ps)
