-- ===== src/Entry/Eligible.antt =====
-- Which quotes and bars the simulations of engine/risk/xauusd_execution.py may fill on.
use aurum_iq.Prelude.{
  ℕ, ◌≤◌, ◌≡◌, refl, true, ◌&&◌, Option, none, some, List, [], ◌∷◌, All, All-map, arith,
  first_eligible, none_eligible, All-eligible, eligible-Memᴰ, leb→le, le→leb, Bool,
}
use mathlib.Core.List.{Memᴰ}
use aurum_iq.Core.Candle.{Datetime, CandleData, QuoteData, opens_at}
use aurum_iq.Risk.Validity.{
  IsQuote, validate-IsQuote, IsQuote-validate, IsCandle, validate-IsCandle, IsCandle-validate,
}
use aurum_iq.Entry.Fill.{Order, earliest, by_deadline, in_window}
use aurum_iq.Entry.Market.{
  quoted_at, is_eligible_quote, eligible_quotes, is_eligible_bar, eligible_bars,
}

-- No earlier than the signal and its latency, no later than the deadline, if there is one.
pub record InWindow (o : Order) (t : ℕ) : Type 0 where
  pub after : earliest o ≤ t
  pub in_time : (d : Datetime) → o.fill_deadline ≡ some d → t ≤ d.utc

deadline_kept :
    (deadline : Option Datetime) (t : ℕ) (d : Datetime)
    → by_deadline deadline t ≡ true
    → deadline ≡ some d
    → t ≤ d.utc
deadline_kept deadline t d h e = ground arith

deadline_keeps :
    (deadline : Option Datetime) (t : ℕ)
    → ((d : Datetime) → deadline ≡ some d → t ≤ d.utc)
    → by_deadline deadline t ≡ true
deadline_keeps none t h = refl
deadline_keeps (some d) t h = le→leb t d.utc (h d refl)

both : (a b : Bool) → (a && b) ≡ true → (a ≡ true) × (b ≡ true)
both a b h = ground arith

in_window-InWindow : (o : Order) (t : ℕ) → in_window o t ≡ true → InWindow o t
in_window-InWindow o t h =
    let (after, kept) = both _ _ h in
    record {
      after = leb→le (earliest o) t after;
      in_time = λ d e. deadline_kept o.fill_deadline t d kept e;
    }

InWindow-in_window : (o : Order) (t : ℕ) → InWindow o t → in_window o t ≡ true
InWindow-in_window o t h =
    rw (le→leb (earliest o) t h.after, deadline_keeps o.fill_deadline t h.in_time) refl

-- The first sound quote of a list in the window of an order.
pub record IsFirstQuote (o : Order) (quotes : List QuoteData) (q : QuoteData) : Type 0 where
  pub listed : Memᴰ q quotes
  pub sound : IsQuote q
  pub window : InWindow o (quoted_at q)
  pub first : All (λ u. IsQuote u → InWindow o (quoted_at u) → quoted_at q ≤ quoted_at u) quotes

pub record IsFirstBar (o : Order) (candles : List CandleData) (c : CandleData) : Type 0 where
  pub listed : Memᴰ c candles
  pub sound : IsCandle c
  pub window : InWindow o (opens_at c)
  pub first : All (λ u. IsCandle u → InWindow o (opens_at u) → opens_at c ≤ opens_at u) candles

module _ (o : Order) where
  quote_passes :
      (q : QuoteData) → IsQuote q → InWindow o (quoted_at q) → is_eligible_quote o q ≡ true
  quote_passes q h w = rw (IsQuote-validate q h, InWindow-in_window o (quoted_at q) w) refl

  bar_passes : (c : CandleData) → IsCandle c → InWindow o (opens_at c) → is_eligible_bar o c ≡ true
  bar_passes c h w = rw (IsCandle-validate c h, InWindow-in_window o (opens_at c) w) refl

  pub IsQuote-passed :
      (q : QuoteData) → is_eligible_quote o q ≡ true → IsQuote q × InWindow o (quoted_at q)
  IsQuote-passed q h =
      let (sound, window) = both _ _ h in
      (validate-IsQuote q sound, in_window-InWindow o (quoted_at q) window)

  pub bar_passed :
      (c : CandleData) → is_eligible_bar o c ≡ true → IsCandle c × InWindow o (opens_at c)
  bar_passed c h =
      let (sound, window) = both _ _ h in
      (validate-IsCandle c sound, in_window-InWindow o (opens_at c) window)

  pub eligible_quotes-first :
      (quotes : List QuoteData) {q : QuoteData} {rest : List QuoteData}
      → eligible_quotes o quotes ≡ q ∷ rest
      → IsFirstQuote o quotes q
  unfolding eligible_quotes
  eligible_quotes-first quotes {q} e =
      let (listed, passed, first) = first_eligible quoted_at (is_eligible_quote o) quotes e in
      let (sound, window) = IsQuote-passed q passed in
      record {
        listed = listed;
        sound = sound;
        window = window;
        first =
            All-map (λ u. is_eligible_quote o u ≡ true → quoted_at q ≤ quoted_at u) _ quotes
              (λ u h k w. h (quote_passes u k w)) first;
      }

  pub eligible_quotes-none :
      (quotes : List QuoteData)
      → eligible_quotes o quotes ≡ []
      → All (λ u. IsQuote u → InWindow o (quoted_at u) → ⊥) quotes
  unfolding eligible_quotes
  eligible_quotes-none quotes e =
      All-map (λ u. is_eligible_quote o u ≡ true → ⊥) _ quotes (λ u h k w. h (quote_passes u k w))
        (none_eligible quoted_at (is_eligible_quote o) quotes e)

  pub eligible_bars-first :
      (candles : List CandleData) {c : CandleData} {rest : List CandleData}
      → eligible_bars o candles ≡ c ∷ rest
      → IsFirstBar o candles c
  unfolding eligible_bars
  eligible_bars-first candles {c} e =
      let (listed, passed, first) = first_eligible opens_at (is_eligible_bar o) candles e in
      let (sound, window) = bar_passed c passed in
      record {
        listed = listed;
        sound = sound;
        window = window;
        first =
            All-map (λ u. is_eligible_bar o u ≡ true → opens_at c ≤ opens_at u) _ candles
              (λ u h k w. h (bar_passes u k w)) first;
      }

  pub eligible_bars-none :
      (candles : List CandleData)
      → eligible_bars o candles ≡ []
      → All (λ u. IsCandle u → InWindow o (opens_at u) → ⊥) candles
  unfolding eligible_bars
  eligible_bars-none candles e =
      All-map (λ u. is_eligible_bar o u ≡ true → ⊥) _ candles (λ u h k w. h (bar_passes u k w))
        (none_eligible opens_at (is_eligible_bar o) candles e)

  pub eligible_quotes-All :
      (quotes : List QuoteData)
      → All (λ q. Memᴰ q quotes × (is_eligible_quote o q ≡ true)) (eligible_quotes o quotes)
  unfolding eligible_quotes
  eligible_quotes-All quotes = eligible-Memᴰ quoted_at (is_eligible_quote o) quotes

  pub eligible_bars-All :
      (candles : List CandleData)
      → All (λ c. Memᴰ c candles × (is_eligible_bar o c ≡ true)) (eligible_bars o candles)
  unfolding eligible_bars
  eligible_bars-All candles = eligible-Memᴰ opens_at (is_eligible_bar o) candles

  pub All-eligible_quotes :
      (P : QuoteData → Type 0) (quotes : List QuoteData)
      → All P (eligible_quotes o quotes)
      → All (λ u. IsQuote u → InWindow o (quoted_at u) → P u) quotes
  unfolding eligible_quotes
  All-eligible_quotes P quotes h =
      All-map (λ u. is_eligible_quote o u ≡ true → P u) _ quotes (λ u k s w. k (quote_passes u s w))
        (All-eligible quoted_at P (is_eligible_quote o) quotes h)

  pub All-eligible_bars :
      (P : CandleData → Type 0) (candles : List CandleData)
      → All P (eligible_bars o candles)
      → All (λ u. IsCandle u → InWindow o (opens_at u) → P u) candles
  unfolding eligible_bars
  All-eligible_bars P candles h =
      All-map (λ u. is_eligible_bar o u ≡ true → P u) _ candles (λ u k s w. k (bar_passes u s w))
        (All-eligible opens_at P (is_eligible_bar o) candles h)
