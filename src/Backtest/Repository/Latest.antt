-- ===== src/Backtest/Repository/Latest.antt =====
-- engine/backtest/repository.py: what the binary search of `get_macro_context` finds.
use aurum_iq.Prelude.{
  ℕ, suc, ◌≤◌, ◌≡◌, refl, ap, ◌∙◌, inl, inr, false, List, [], ◌∷◌, map, length, All, filter,
  get_last?, Ordered, Bool-cases, rank, bisect_right-rank, cases_list, arith,
}
use aurum_iq.Core.Candle.{Datetime}
use aurum_iq.Backtest.Repository.{MacroEntry, PointInTimeDataset, stamp}
use aurum_iq.Backtest.Repository.Queries.{
  is_by, context_of, before_index, context_at, get_macro_context,
}
use aurum_iq.Backtest.Repository.Chronology.{IsChronological}

-- The position of the last event known at an instant.
known_rank : ℕ → List MacroEntry → ℕ
known_rank x events = rank (map stamp events) x

module _ (x : ℕ) where
  none_known :
      (e : MacroEntry) (es : List MacroEntry)
      → is_by x e ≡ false
      → All (λ f. stamp e ≤ stamp f) es
      → filter (is_by x) es ≡ []
  none_known e [] late _ = refl
  none_known e (f ∷ fs) late (h, hs) =
      let later : is_by x f ≡ false = ground arith in rw (later) (none_known e fs late hs)

  length-known : (events : List MacroEntry) → known_rank x events ≡ length (filter (is_by x) events)
  unfolding known_rank
  length-known [] = refl
  length-known (e ∷ es) = elim (Bool-cases (is_by x e)) [
    | inl known ↦ rw (known) (ap suc (length-known es))
    | inr late ↦ rw (late) (length-known es)
  ]

  last_known :
      (events : List MacroEntry)
      → Ordered stamp events
      → before_index (length (filter (is_by x) events)) events
        ≡ context_of (get_last? (filter (is_by x) events))
  last_known [] _ = refl
  last_known (e ∷ es) (first, rest) = elim (Bool-cases (is_by x e)) [
    | inr late ↦ let empty = none_known e es late first in rw (late, empty) refl
    | inl known ↦ elim (cases_list (filter (is_by x) es)) [
      | inl empty ↦ rw (known, empty) refl
      | inr (f, fs, more) ↦ let ih = last_known es rest in rw (known, more) (rw more at ih)
    ]
  ]

keys-Ordered :
    (events : List MacroEntry) → Ordered stamp events → Ordered (λ k. k) (map stamp events)
keys-Ordered [] _ = tt
keys-Ordered (e ∷ es) (first, rest) = (keys_after es first, keys-Ordered es rest)
  where
    keys_after :
        (fs : List MacroEntry)
        → All (λ f. stamp e ≤ stamp f) fs
        → All (λ k. stamp e ≤ k) (map stamp fs)
    keys_after [] _ = tt
    keys_after (f ∷ fs) (h, hs) = (h, keys_after fs hs)

context_at-last :
    (x : ℕ) (events : List MacroEntry)
    → Ordered stamp events
    → context_at events (map stamp events) x ≡ context_of (get_last? (filter (is_by x) events))
unfolding context_at known_rank
context_at-last x [] _ = refl
context_at-last x (e ∷ es) h =
    let found = bisect_right-rank (map stamp (e ∷ es)) x (keys-Ordered (e ∷ es) h) in
    ap (λ i. before_index i (e ∷ es)) (found ∙ length-known x (e ∷ es)) ∙ last_known x (e ∷ es) h

-- The binary search on the keys finds the same context as a scan for the last event that is dated no
-- later than the query, in a dataset whose lists are in the order of their times.
pub get_macro_context-get_last? :
    (as_of : Datetime) (d : PointInTimeDataset)
    → IsChronological d
    → get_macro_context as_of d ≡ context_of (get_last? (filter (is_by as_of.utc) d.macro_events))
unfolding get_macro_context
get_macro_context-get_last? as_of d h =
    rw (h.macro_event_keys) (context_at-last as_of.utc d.macro_events h.macro_events)
