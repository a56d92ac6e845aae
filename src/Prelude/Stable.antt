-- ===== src/Prelude/Stable.antt =====
-- Laws of the stable sort: when it changes nothing, how it goes with filters and with additions.
use Prim.Native.Nat.{ℕ, ◌≤◌, ◌<◌}
use mathlib.Core.Path.{◌≡◌, refl, sym, ap, ◌∙◌}
use mathlib.Core.Logic.{inl, inr}
use mathlib.Core.Bool.{Bool, true, false}
use mathlib.Core.List.{List, [], ◌∷◌, ◌++◌}
use native.Mathlib.Omega.{arith}
use aurum_iq.Prelude.Tests.{leb, leb→le, Bool-cases}
use aurum_iq.Prelude.Lists.{All, All-map, filter}
use aurum_iq.Prelude.Sorting.{insert_by, sort_by, Ordered, sort_by-Ordered}

module _ {ℓ} {A : Type ℓ} where
  pub filter-append :
      (p : A → Bool) (xs ys : List A) → filter p (xs ++ ys) ≡ filter p xs ++ filter p ys
  filter-append p [] ys = refl
  filter-append p (x ∷ xs) ys = elim (Bool-cases (p x)) [
    | inl kept ↦ rw (kept, filter-append p xs ys) refl
    | inr dropped ↦ rw (dropped, filter-append p xs ys) refl
  ]

  pub append_nil : (xs : List A) → xs ++ [] ≡ xs
  append_nil [] = refl
  append_nil (x ∷ xs) = ap (λ ys. x ∷ ys) (append_nil xs)

module _ {ℓ} {A : Type ℓ} (key : A → ℕ) where
  insert_front : (x : A) (ys : List A) → All (λ y. key x ≤ key y) ys → insert_by key x ys ≡ x ∷ ys
  unfolding insert_by
  insert_front x [] _ = refl
  insert_front x (y ∷ ys) (h, _) = let e : leb (key x) (key y) ≡ true = ground arith in rw (e) refl

  pub sort_by-sorted : (xs : List A) → Ordered key xs → sort_by key xs ≡ xs
  unfolding sort_by
  sort_by-sorted [] _ = refl
  sort_by-sorted (x ∷ xs) (h, hs) = rw (sort_by-sorted xs hs) (insert_front x xs h)

  -- Two insertions with different keys go in either order.
  insert_comm :
      (a b : A) (ys : List A)
      → key a < key b
      → insert_by key a (insert_by key b ys) ≡ insert_by key b (insert_by key a ys)
  unfolding insert_by
  insert_comm a b [] h =
      let e : leb (key a) (key b) ≡ true = ground arith in
      let f : leb (key b) (key a) ≡ false = ground arith in rw (e, f) refl
  insert_comm a b (y ∷ ys) h =
      let e : leb (key a) (key b) ≡ true = ground arith in
      let f : leb (key b) (key a) ≡ false = ground arith in
      elim (Bool-cases (leb (key a) (key y))) [
        | inl a_first ↦ elim (Bool-cases (leb (key b) (key y))) [
          | inl b_first ↦ simp (a_first, b_first, e, f)
          | inr b_later ↦ simp (a_first, b_later, e, f)
        ]
        | inr a_later ↦
            let b_later : leb (key b) (key y) ≡ false = ground arith in
            simp (a_later, b_later, insert_comm a b ys h)
      ]

  sort_by-insert :
      (x : A) (xs ys : List A)
      → sort_by key (insert_by key x xs ++ ys) ≡ insert_by key x (sort_by key (xs ++ ys))
  unfolding sort_by insert_by
  sort_by-insert x [] ys = refl
  sort_by-insert x (z ∷ zs) ys = elim (Bool-cases (leb (key x) (key z))) [
    | inl first ↦ rw (first) refl
    | inr later ↦
        rw (later, sort_by-insert x zs ys) (insert_comm z x (sort_by key (zs ++ ys)) (ground arith))
  ]

  -- Sorting first what comes first makes no difference.
  pub sort_by-append :
      (xs ys : List A) → sort_by key (sort_by key xs ++ ys) ≡ sort_by key (xs ++ ys)
  unfolding sort_by
  sort_by-append [] ys = refl
  sort_by-append (x ∷ xs) ys =
      sort_by-insert x (sort_by key xs) ys ∙ ap (insert_by key x) (sort_by-append xs ys)

  kept_front :
      (p : A → Bool) (x : A) (ys : List A)
      → All (λ y. key x ≤ key y) ys
      → All (λ y. key x ≤ key y) (filter p ys)
  kept_front p x [] _ = tt
  kept_front p x (y ∷ ys) (h, hs) = elim (Bool-cases (p y)) [
    | inl kept ↦ rw (kept) (h, kept_front p x ys hs)
    | inr dropped ↦ rw (dropped) (kept_front p x ys hs)
  ]

  filter-insert_kept :
      (p : A → Bool) (x : A) (ys : List A)
      → p x ≡ true
      → Ordered key ys
      → filter p (insert_by key x ys) ≡ insert_by key x (filter p ys)
  unfolding insert_by
  filter-insert_kept p x [] kept _ = rw (kept) refl
  filter-insert_kept p x (y ∷ ys) kept (h, hs) = elim (Bool-cases (leb (key x) (key y))) [
    | inl first ↦
        rw (first, kept)
          (sym (
            insert_front x (filter p (y ∷ ys)) (
              kept_front p x (y ∷ ys)
                let le = leb→le (key x) (key y) first in
                  (le, All-map (λ z. key y ≤ key z) _ ys (λ z k. omega (arith, le, k)) h))))
    | inr later ↦ elim (Bool-cases (p y)) [
      | inl kept_y ↦
          rw (later, kept_y, later) (ap (λ zs. y ∷ zs) (filter-insert_kept p x ys kept hs))
      | inr dropped ↦ rw (later, dropped) (filter-insert_kept p x ys kept hs)
    ]
  ]

  filter-insert_dropped :
      (p : A → Bool) (x : A) (ys : List A)
      → p x ≡ false
      → filter p (insert_by key x ys) ≡ filter p ys
  unfolding insert_by
  filter-insert_dropped p x [] dropped = rw (dropped) refl
  filter-insert_dropped p x (y ∷ ys) dropped = elim (Bool-cases (leb (key x) (key y))) [
    | inl first ↦ rw (first, dropped) refl
    | inr later ↦ rw (later, filter-insert_dropped p x ys dropped) refl
  ]

  -- A filter goes before the sort or after it.
  pub filter-sort_by :
      (p : A → Bool) (xs : List A) → filter p (sort_by key xs) ≡ sort_by key (filter p xs)
  unfolding sort_by
  filter-sort_by p [] = refl
  filter-sort_by p (x ∷ xs) = elim (Bool-cases (p x)) [
    | inl kept ↦ rw (kept) (
        filter-insert_kept p x (sort_by key xs) kept (sort_by-Ordered key xs)
        ∙ ap (insert_by key x) (filter-sort_by p xs))
    | inr dropped ↦
        rw (dropped) (filter-insert_dropped p x (sort_by key xs) dropped ∙ filter-sort_by p xs)
  ]

  -- What a filter drops can be added to a sorted list unseen.
  pub filter-added :
      (p : A → Bool) (xs : List A) (x : A)
      → Ordered key xs
      → p x ≡ false
      → filter p (sort_by key (xs ++ x ∷ [])) ≡ filter p xs
  filter-added p xs x h dropped =
      filter-sort_by p (xs ++ x ∷ [])
      ∙ ap (sort_by key) (filter-append p xs (x ∷ []))
      ∙ no_more
      ∙ sym (filter-sort_by p xs)
      ∙ ap (filter p) (sort_by-sorted xs h)
    where
      no_more : sort_by key (filter p xs ++ filter p (x ∷ [])) ≡ sort_by key (filter p xs)
      no_more = rw (dropped, append_nil (filter p xs)) refl
