-- ===== src/Backtest/Progress.antt =====
-- engine/backtest/clock.py: how the timeline of a clock progresses.
use aurum_iq.Core.Candle.{Datetime}
use mathlib.Core.List.{Memᴰ}
use aurum_iq.Backtest.Clock.{
  distinct, contains, timeline, new_clock, iterate_from, iterate, ReplayClock, current_time, utc,
}
use aurum_iq.Prelude.{
  ℕ, List, insert_by, sort_by, All, ◌≡◌, ◌∷◌, false, Bool-cases, ◌<◌, leb, inl, ◌==◌, inr, arith,
  All-map, sort_by-All, insert_by-All, true, [], ok, All-Memᴰ, All-members, map, subst, All-sort_by,
  sym, ap, some, suc, drop, refl, get_elem?, zero,
}

-- Each is strictly before all that follow.
abbrev pub Increasing : List ℕ → Type 0
Increasing [] = Unit
Increasing (t ∷ ts) = All (λ u. t < u) ts × Increasing ts

insert-Increasing :
    (t : ℕ) (ts : List ℕ)
    → Increasing ts
    → All (λ u. t ≡ u → ⊥) ts
    → Increasing (insert_by (λ u. u) t ts)
unfolding insert_by
insert-Increasing t [] _ _ = (tt, tt)
insert-Increasing t (u ∷ us) (h, hs) (new, news) = elim (Bool-cases (leb t u)) [
  | inl first ↦
      let lt : t < u = ground arith in
      rw (first) ((lt, All-map (λ v. u < v) _ us (λ v k. omega (arith, lt, k)) h), (h, hs))
  | inr later ↦
      let lt : u < t = ground arith in
      rw (later) (insert_by-All (λ u. u) (λ v. u < v) t us lt h, insert-Increasing t us hs news)
]

not_contained : (t : ℕ) (ts : List ℕ) → contains t ts ≡ false → All (λ u. t ≡ u → ⊥) ts
unfolding contains
not_contained t [] _ = tt
not_contained t (u ∷ us) h = elim (Bool-cases (t == u)) [
  | inl same ↦ let yes : contains t (u ∷ us) ≡ true = rw (same) refl in absurd (cc)
  | inr other ↦ ((λ e. ground arith), not_contained t us (rw other at h))
]

distinct-All {κ} : (P : ℕ → Type κ) (ts : List ℕ) → All P ts → All P (distinct ts)
unfolding distinct
distinct-All P [] _ = tt
distinct-All P (t ∷ ts) (h, hs) = elim (Bool-cases (contains t ts)) [
  | inl again ↦ rw (again) (distinct-All P ts hs)
  | inr once ↦ rw (once) (h, distinct-All P ts hs)
]

timeline-Increasing : (ts : List ℕ) → Increasing (timeline ts)
unfolding sort_by distinct
timeline-Increasing [] = tt
timeline-Increasing (t ∷ ts) = elim (Bool-cases (contains t ts)) [
  | inl again ↦ rw (again) (timeline-Increasing ts)
  | inr once ↦ rw (once) (
      insert-Increasing t (timeline ts) (timeline-Increasing ts) (
        sort_by-All (λ u. u) (λ u. t ≡ u → ⊥) (distinct ts)
          (distinct-All (λ u. t ≡ u → ⊥) ts (not_contained t ts once))))
]

-- Every value of a list is in the list of its distinct values.
contained-Memᴰ : (t : ℕ) (ts : List ℕ) → contains t ts ≡ true → Memᴰ t ts
unfolding contains
contained-Memᴰ t [] h = absurd (cc)
contained-Memᴰ t (u ∷ us) h = elim (Bool-cases (t == u)) [
  | inl same ↦ Memᴰ.head (ground arith)
  | inr other ↦ Memᴰ.tail (contained-Memᴰ t us (rw other at h))
]

Memᴰ-distinct : (ts : List ℕ) (t : ℕ) → Memᴰ t ts → Memᴰ t (distinct ts)
unfolding distinct
Memᴰ-distinct [] t member = elim member [ ]
Memᴰ-distinct (u ∷ us) t (Memᴰ.head same) = elim (Bool-cases (contains u us)) [
  | inl again ↦
      rw (again)
        (Memᴰ-distinct us t (subst (λ v. Memᴰ v us) (sym same) (contained-Memᴰ u us again)))
  | inr once ↦ rw (once) (Memᴰ.head same)
]
Memᴰ-distinct (u ∷ us) t (Memᴰ.tail member) = elim (Bool-cases (contains u us)) [
  | inl again ↦ rw (again) (Memᴰ-distinct us t member)
  | inr once ↦ rw (once) (Memᴰ.tail (Memᴰ-distinct us t member))
]

Memᴰ-sort_by : (ts : List ℕ) (t : ℕ) → Memᴰ t ts → Memᴰ t (sort_by (λ u. u) ts)
Memᴰ-sort_by ts t member =
    All-Memᴰ (λ u. Memᴰ u (sort_by (λ v. v) ts)) ts t
      (All-sort_by (λ u. u) (λ u. Memᴰ u (sort_by (λ v. v) ts)) ts
        (All-members (sort_by (λ v. v) ts)))
      member

All-listed : (ts : List ℕ) → All (λ t. Memᴰ t (timeline ts)) ts
All-listed ts =
    All-map (λ t. Memᴰ t ts) _ ts (λ t h. Memᴰ-sort_by (distinct ts) t (Memᴰ-distinct ts t h))
      (All-members ts)

All-given : (ts : List ℕ) → All (λ t. Memᴰ t ts) (timeline ts)
All-given ts =
    sort_by-All (λ t. t) (λ t. Memᴰ t ts) (distinct ts)
      (distinct-All (λ t. Memᴰ t ts) ts (All-members ts))

-- What a clock made of some timestamps keeps: they go strictly up, and they are the given ones.
pub record IsTimeline (given : List ℕ) (timestamps : List ℕ) : Type 0 where
  pub increasing : Increasing timestamps
  pub complete : All (λ t. Memᴰ t timestamps) given
  pub sound : All (λ t. Memᴰ t given) timestamps

ok_timestamps : {a b : ReplayClock} → ok a ≡ ok b → a.timestamps ≡ b.timestamps
ok_timestamps e = let f : _ ≡ _ = e in cc

-- A clock that is made of timestamps goes strictly up through them, each instant once: it holds every
-- instant that was given, in UTC, and none that was not.
pub new_clock-IsTimeline :
    (given : List Datetime) (c : ReplayClock)
    → new_clock given ≡ ok c
    → IsTimeline (map utc given) c.timestamps
unfolding new_clock
new_clock-IsTimeline [] c made = absurd (cc)
new_clock-IsTimeline (t ∷ ts) c made =
    let given = map utc (t ∷ ts) in
    subst (IsTimeline given) (ok_timestamps made) (record {
      increasing = timeline-Increasing given;
      complete = All-listed given;
      sound = All-given given;
    })

dropped_head : (xs : List ℕ) (i t : ℕ) (ts : List ℕ) → drop i xs ≡ t ∷ ts → get_elem? xs i ≡ some t
dropped_head [] zero t ts e = absurd (cc)
dropped_head [] (suc i) t ts e = absurd (cc)
dropped_head (x ∷ xs) zero t ts e = cc
dropped_head (x ∷ xs) (suc i) t ts e = dropped_head xs i t ts e

dropped_tail : (xs : List ℕ) (i t : ℕ) (ts : List ℕ) → drop i xs ≡ t ∷ ts → drop (suc i) xs ≡ ts
dropped_tail [] zero t ts e = absurd (cc)
dropped_tail [] (suc i) t ts e = absurd (cc)
dropped_tail (x ∷ xs) zero t ts e = cc
dropped_tail (x ∷ xs) (suc i) t ts e = dropped_tail xs i t ts e

yields_from :
    (c : ReplayClock) (i : ℕ) (ts : List ℕ)
    → drop i c.timestamps ≡ ts
    → All (λ y. current_time y.0 ≡ some y.1) (iterate_from c i ts)
unfolding iterate_from current_time
yields_from c i [] e = tt
yields_from c i (t ∷ ts) e = (
  dropped_head c.timestamps i t ts e,
  yields_from c (suc i) ts (dropped_tail c.timestamps i t ts e),
)

yielded : (c : ReplayClock) (i : ℕ) (ts : List ℕ) → map (λ y. y.1) (iterate_from c i ts) ≡ ts
unfolding iterate_from
yielded c i [] = refl
yielded c i (t ∷ ts) = ap (λ us. t ∷ us) (yielded c (suc i) ts)

-- Iterating over a clock yields its timestamps in their order, and whenever it yields one, the current
-- time of the clock is that one.
pub iterate-current_time :
    (c : ReplayClock)
    → (map (λ y. y.1) (iterate c) ≡ c.timestamps)
      × All (λ y. current_time y.0 ≡ some y.1) (iterate c)
unfolding iterate
iterate-current_time c = (yielded c 0 c.timestamps, yields_from c 0 c.timestamps refl)
