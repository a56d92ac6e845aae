-- ===== src/Prelude/Sorting.antt =====
-- Python's stable sort by a key that is a number, and what its first element is.
use Prim.Native.Nat.{ℕ, ◌≤◌}
use mathlib.Core.Path.{◌≡◌, refl, subst, sym}
use mathlib.Core.Logic.{inl, inr}
use mathlib.Core.Bool.{Bool, true, false}
use mathlib.Core.List.{List, [], ◌∷◌, Memᴰ}
use native.Mathlib.Omega.{arith}
use aurum_iq.Prelude.Tests.{leb, if◌then◌else◌, leb→le, Bool-cases}
use aurum_iq.Prelude.Lists.{All, All-map, filter}

pub not_both : (b : Bool) → b ≡ true → b ≡ false → ⊥
not_both b e f = cc

module _ {ℓ} {A : Type ℓ} (key : A → ℕ) where
  unfoldable pub insert_by : A → List A → List A
  insert_by x [] = x ∷ []
  insert_by x (y ∷ ys) =
      let rest = insert_by x ys in if leb (key x) (key y) then x ∷ y ∷ ys else y ∷ rest

  unfoldable pub sort_by : List A → List A
  sort_by [] = []
  sort_by (x ∷ xs) = insert_by x (sort_by xs)

  -- Each element comes no later than those behind it.
  abbrev pub Ordered : List A → Type 0
  Ordered [] = Unit
  Ordered (x ∷ xs) = All (λ y. key x ≤ key y) xs × Ordered xs

  pub insert_by-All {κ} :
      (P : A → Type κ) (x : A) (ys : List A) → P x → All P ys → All P (insert_by x ys)
  unfolding insert_by
  insert_by-All P x [] h _ = (h, tt)
  insert_by-All P x (y ∷ ys) h (k, ks) = elim (Bool-cases (leb (key x) (key y))) [
    | inl before ↦ rw (before) (h, (k, ks))
    | inr after ↦ rw (after) (k, insert_by-All P x ys h ks)
  ]

  All-insert_by {κ} :
      (P : A → Type κ) (x : A) (ys : List A) → All P (insert_by x ys) → P x × All P ys
  unfolding insert_by
  All-insert_by P x [] (h, _) = (h, tt)
  All-insert_by P x (y ∷ ys) h = elim (Bool-cases (leb (key x) (key y))) [
    | inl before ↦ let (k, ks) = rw before at h in (k, ks)
    | inr after ↦
        let (k, ks) = rw after at h in
        let (here, rest) = All-insert_by P x ys ks in (here, (k, rest))
  ]

  -- Sorting keeps what holds of all elements, in both directions.
  pub sort_by-All {κ} : (P : A → Type κ) (xs : List A) → All P xs → All P (sort_by xs)
  unfolding sort_by
  sort_by-All P [] _ = tt
  sort_by-All P (x ∷ xs) (h, hs) = insert_by-All P x (sort_by xs) h (sort_by-All P xs hs)

  pub All-sort_by {κ} : (P : A → Type κ) (xs : List A) → All P (sort_by xs) → All P xs
  unfolding sort_by
  All-sort_by P [] _ = tt
  All-sort_by P (x ∷ xs) h =
      let (k, ks) = All-insert_by P x (sort_by xs) h in (k, All-sort_by P xs ks)

  insert_by-Ordered : (x : A) (ys : List A) → Ordered ys → Ordered (insert_by x ys)
  unfolding insert_by
  insert_by-Ordered x [] _ = (tt, tt)
  insert_by-Ordered x (y ∷ ys) (h, hs) = elim (Bool-cases (leb (key x) (key y))) [
    | inl before ↦
        let le = leb→le (key x) (key y) before in
        rw (before)
          ((le, All-map (λ z. key y ≤ key z) _ ys (λ z k. omega (arith, le, k)) h), (h, hs))
    | inr after ↦
        rw (after)
          (insert_by-All (λ z. key y ≤ key z) x ys (ground arith) h, insert_by-Ordered x ys hs)
  ]

  pub sort_by-Ordered : (xs : List A) → Ordered (sort_by xs)
  unfolding sort_by
  sort_by-Ordered [] = tt
  sort_by-Ordered (x ∷ xs) = insert_by-Ordered x (sort_by xs) (sort_by-Ordered xs)

  -- The first element after sorting comes no later than any element before it.
  pub sort_by-first :
      (xs : List A) {first : A} {rest : List A}
      → sort_by xs ≡ first ∷ rest
      → All (λ y. key first ≤ key y) xs
  sort_by-first xs {first} {rest} e =
      let (h, _) = subst Ordered e (sort_by-Ordered xs) in
      All-sort_by (λ y. key first ≤ key y) xs
        (subst (All (λ y. key first ≤ key y)) (sym e) (omega arith, h))

  -- And what holds of all elements holds of it.
  pub sort_by-head {κ} :
      (P : A → Type κ) (xs : List A) {first : A} {rest : List A}
      → sort_by xs ≡ first ∷ rest
      → All P xs
      → P first
  sort_by-head P xs e h = (subst (All P) e (sort_by-All P xs h)).0

  filter-Memᴰ : (p : A → Bool) (xs : List A) → All (λ x. Memᴰ x xs × (p x ≡ true)) (filter p xs)
  filter-Memᴰ p [] = tt
  filter-Memᴰ p (x ∷ xs) =
      let later : All (λ y. Memᴰ y (x ∷ xs) × (p y ≡ true)) (filter p xs) =
        All-map (λ y. Memᴰ y xs × (p y ≡ true)) _ (filter p xs) (λ y h. (Memᴰ.tail (h.0), h.1))
          (filter-Memᴰ p xs) in
      elim (Bool-cases (p x)) [
        | inl kept ↦ rw (kept) ((Memᴰ.head refl, kept), later)
        | inr dropped ↦ rw (dropped) later
      ]

  All-filter {κ} :
      (P : A → Type κ) (p : A → Bool) (xs : List A)
      → All P (filter p xs)
      → All (λ x. p x ≡ true → P x) xs
  All-filter P p [] _ = tt
  All-filter P p (x ∷ xs) h = elim (Bool-cases (p x)) [
    | inl kept ↦ let (k, ks) = rw kept at h in ((λ _. k), All-filter P p xs ks)
    | inr dropped ↦ ((λ e. absurd (not_both (p x) e dropped)), All-filter P p xs (rw dropped at h))
  ]

  -- The first element that passes a test, in the order of the keys.
  pub first_eligible :
      (p : A → Bool) (xs : List A) {first : A} {rest : List A}
      → sort_by (filter p xs) ≡ first ∷ rest
      → Memᴰ first xs × (p first ≡ true) × All (λ y. p y ≡ true → key first ≤ key y) xs
  first_eligible p xs {first} e =
      let (member, passed) =
        sort_by-head (λ x. Memᴰ x xs × (p x ≡ true)) (filter p xs) e (filter-Memᴰ p xs) in
      (member, passed, All-filter (λ y. key first ≤ key y) p xs (sort_by-first (filter p xs) e))

  pub none_eligible :
      (p : A → Bool) (xs : List A) → sort_by (filter p xs) ≡ [] → All (λ y. p y ≡ true → ⊥) xs
  none_eligible p xs e =
      All-filter (λ _. ⊥) p xs
        (All-sort_by (λ _. ⊥) (filter p xs) (subst (All (λ _. ⊥)) (sym e) tt))

  -- What passes a test, in the order of the keys, comes from the list.
  pub eligible-Memᴰ :
      (p : A → Bool) (xs : List A) → All (λ x. Memᴰ x xs × (p x ≡ true)) (sort_by (filter p xs))
  eligible-Memᴰ p xs = sort_by-All (λ x. Memᴰ x xs × (p x ≡ true)) (filter p xs) (filter-Memᴰ p xs)

  -- What holds of all that passes a test holds of every element that passes it.
  pub All-eligible {κ} :
      (P : A → Type κ) (p : A → Bool) (xs : List A)
      → All P (sort_by (filter p xs))
      → All (λ x. p x ≡ true → P x) xs
  All-eligible P p xs h = All-filter P p xs (All-sort_by P (filter p xs) h)
