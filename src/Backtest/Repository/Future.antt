-- ===== src/Backtest/Repository/Future.antt =====
-- engine/backtest/repository.py: what a query can see of data that is added.
use aurum_iq.Prelude.{
  ℕ, ◌<◌, ◌≡◌, refl, sym, ap, ◌∙◌, inl, inr, Bool, true, false, ◌&&◌, Option, some, List, [], ◌∷◌,
  leb, All, filter, Ordered, Bool-cases, filter-added, arith, get_last?,
}
use aurum_iq.Core.Decimal.{Decimal}
use aurum_iq.Core.Candle.{Datetime, CandleData, QuoteData, opens_at, closes_at}
use aurum_iq.Macro.Events.{Text, MacroEventContext}
use aurum_iq.Backtest.Repository.{
  Cycle3ASnapshot, PointInTimeDataset, stamp, quoted_at, cycle_at, lower, same_text, candles_at,
  put_candle, add_candle, add_xau_reference, add_xau_candle, add_usdt_rate, add_macro_context,
  add_quote, add_cycle_3a,
}
use aurum_iq.Backtest.Repository.Queries.{
  is_known, is_intrabar, is_slice_quote, is_cycle_by, context_of, is_by, get_xau_candles,
  get_closed_candles, get_intrabar_candles, get_quotes, get_xau_reference, get_usdt_rate,
  get_macro_context, get_cycle_3a, reference_of, rate_of,
}
use aurum_iq.Backtest.Repository.Changes.{Change, change, known_at}
use aurum_iq.Backtest.Repository.Chronology.{IsChronological, change-IsChronological}
use aurum_iq.Backtest.Repository.Latest.{get_macro_context-get_last?}

-- Every query of two datasets at an instant has the same answer.
pub record AnswersAlike (as_of : Datetime) (d e : PointInTimeDataset) : Type 0 where
  pub closed_candles : (tf : Text) → get_closed_candles tf as_of d ≡ get_closed_candles tf as_of e
  pub intrabar_candles :
      (tf : Text) (start end : Datetime)
      → get_intrabar_candles tf start end (some as_of) d
        ≡ get_intrabar_candles tf start end (some as_of) e
  pub quotes :
      (start end : Datetime)
      → get_quotes start end (some as_of) d ≡ get_quotes start end (some as_of) e
  pub xau_candles : get_xau_candles as_of d ≡ get_xau_candles as_of e
  pub xau_reference : get_xau_reference as_of d ≡ get_xau_reference as_of e
  pub usdt_rate : get_usdt_rate as_of d ≡ get_usdt_rate as_of e
  pub macro_context : get_macro_context as_of d ≡ get_macro_context as_of e
  pub cycle_3a :
      (version : Option Text) → get_cycle_3a as_of version d ≡ get_cycle_3a as_of version e

-- A candle that a test drops is not seen in the list of any timeframe.
unseen_candle :
    (p : CandleData → Bool) (tf key : Text) (c : CandleData) (store : List (Text × List CandleData))
    → p c ≡ false
    → All (λ entry. Ordered opens_at entry.1) store
    → filter p (candles_at tf (put_candle key c store)) ≡ filter p (candles_at tf store)
unfolding candles_at put_candle
unseen_candle p tf key c [] unseen _ = elim (Bool-cases (same_text key tf)) [
  | inl same ↦ rw (same) (filter-added opens_at p [] c tt unseen)
  | inr other ↦ rw (other) refl
]
unseen_candle p tf key c ((k, cs) ∷ rest) unseen (h, hs) =
    let ih = unseen_candle p tf key c rest unseen hs in
    elim (Bool-cases (same_text k key)) [
      | inl added ↦ elim (Bool-cases (same_text k tf)) [
        | inl asked ↦ rw (added, asked) (filter-added opens_at p cs c h unseen)
        | inr other ↦ rw (added, other) refl
      ]
      | inr elsewhere ↦ elim (Bool-cases (same_text k tf)) [
        | inl asked ↦ rw (elsewhere, asked) refl
        | inr other ↦ rw (elsewhere, other) ih
      ]
    ]

-- What comes later than the query is not in its answer.
dropped_if : (a b : Bool) → b ≡ false → (a && b) ≡ false
dropped_if true b e = e
dropped_if false b e = refl

is_intrabar-late :
    (start end x : ℕ) (c : CandleData)
    → leb (closes_at c) x ≡ false
    → is_intrabar start end (some x) c ≡ false
is_intrabar-late start end x c late =
    dropped_if (leb start (opens_at c) && leb (closes_at c) end) _ late

is_slice_quote-late :
    (start end x : ℕ) (q : QuoteData)
    → leb (quoted_at q) x ≡ false
    → is_slice_quote start end (some x) q ≡ false
is_slice_quote-late start end x q late =
    dropped_if (leb start (quoted_at q) && leb (quoted_at q) end) _ late

is_cycle_by-late :
    (x : ℕ) (version : Option Text) (s : Cycle3ASnapshot)
    → leb (cycle_at s) x ≡ false
    → is_cycle_by x version s ≡ false
is_cycle_by-late x version s late = rw (late) refl

module _ (as_of : Datetime) (d : PointInTimeDataset) (h : IsChronological d) where
  add_candle-AnswersAlike :
      (tf : Text) (c : CandleData)
      → as_of.utc < closes_at c
      → AnswersAlike as_of (add_candle tf c d) d
  unfolding add_candle get_closed_candles get_intrabar_candles get_quotes get_xau_candles
      get_xau_reference get_usdt_rate get_macro_context get_cycle_3a
  add_candle-AnswersAlike tf c later =
      let late : leb (closes_at c) as_of.utc ≡ false = ground arith in
      record {
        closed_candles = λ asked.
            unseen_candle (is_known as_of.utc) (lower asked) (lower tf) c d.candles
              (dropped_if c.is_closed _ late) h.candles;
        intrabar_candles = λ asked start end.
            unseen_candle (is_intrabar start.utc end.utc (some as_of.utc)) (lower asked) (lower tf)
              c d.candles (is_intrabar-late start.utc end.utc as_of.utc c late) h.candles;
        quotes = λ start end. refl;
        xau_candles = refl;
        xau_reference = refl;
        usdt_rate = refl;
        macro_context = refl;
        cycle_3a = λ version. refl;
      }

  add_xau_reference-AnswersAlike :
      (t : Datetime) (price : Decimal) (is_bullish : Bool)
      → as_of.utc < t.utc
      → AnswersAlike as_of (add_xau_reference t price is_bullish d) d
  unfolding add_xau_reference get_closed_candles get_intrabar_candles get_quotes get_xau_candles
      get_xau_reference get_usdt_rate get_macro_context get_cycle_3a
  add_xau_reference-AnswersAlike t price is_bullish later =
      let late : leb (t.utc) as_of.utc ≡ false = ground arith in
      record {
        closed_candles = λ asked. refl;
        intrabar_candles = λ asked start end. refl;
        quotes = λ start end. refl;
        xau_candles = refl;
        xau_reference =
            ap (λ xs. reference_of (get_last? xs))
              (filter-added stamp (is_by as_of.utc) d.xau_references _ h.xau_references late);
        usdt_rate = refl;
        macro_context = refl;
        cycle_3a = λ version. refl;
      }

  add_xau_candle-AnswersAlike :
      (c : CandleData) → as_of.utc < closes_at c → AnswersAlike as_of (add_xau_candle c d) d
  unfolding add_xau_candle add_xau_reference get_closed_candles get_intrabar_candles get_quotes
      get_xau_candles get_xau_reference get_usdt_rate get_macro_context get_cycle_3a
  add_xau_candle-AnswersAlike c later =
      let late : leb (closes_at c) as_of.utc ≡ false = ground arith in
      record {
        closed_candles = λ asked. refl;
        intrabar_candles = λ asked start end. refl;
        quotes = λ start end. refl;
        xau_candles =
            filter-added opens_at (is_known as_of.utc) d.xau_candles c h.xau_candles
              (dropped_if c.is_closed _ late);
        xau_reference =
            ap (λ xs. reference_of (get_last? xs))
              (filter-added stamp (is_by as_of.utc) d.xau_references _ h.xau_references late);
        usdt_rate = refl;
        macro_context = refl;
        cycle_3a = λ version. refl;
      }

  add_usdt_rate-AnswersAlike :
      (t : Datetime) (rate : Decimal)
      → as_of.utc < t.utc
      → AnswersAlike as_of (add_usdt_rate t rate d) d
  unfolding add_usdt_rate get_closed_candles get_intrabar_candles get_quotes get_xau_candles
      get_xau_reference get_usdt_rate get_macro_context get_cycle_3a
  add_usdt_rate-AnswersAlike t rate later =
      let late : leb (t.utc) as_of.utc ≡ false = ground arith in
      record {
        closed_candles = λ asked. refl;
        intrabar_candles = λ asked start end. refl;
        quotes = λ start end. refl;
        xau_candles = refl;
        xau_reference = refl;
        usdt_rate =
            ap (λ xs. rate_of (get_last? xs))
              (filter-added stamp (is_by as_of.utc) d.usdt_rates _ h.usdt_rates late);
        macro_context = refl;
        cycle_3a = λ version. refl;
      }

  add_macro_context-AnswersAlike :
      (t : Datetime) (context : MacroEventContext)
      → as_of.utc < t.utc
      → AnswersAlike as_of (add_macro_context t context d) d
  unfolding add_macro_context get_closed_candles get_intrabar_candles get_quotes get_xau_candles
      get_xau_reference get_usdt_rate get_macro_context get_cycle_3a change
  add_macro_context-AnswersAlike t context later =
      let late : leb (t.utc) as_of.utc ≡ false = ground arith in
      record {
        closed_candles = λ asked. refl;
        intrabar_candles = λ asked start end. refl;
        quotes = λ start end. refl;
        xau_candles = refl;
        xau_reference = refl;
        usdt_rate = refl;
        macro_context =
            get_macro_context-get_last? as_of (add_macro_context t context d)
              (change-IsChronological d h (Change.macro_context t context))
            ∙ ap (λ xs. context_of (get_last? xs))
                (filter-added stamp (is_by as_of.utc) d.macro_events _ h.macro_events late)
            ∙ sym (get_macro_context-get_last? as_of d h);
        cycle_3a = λ version. refl;
      }

  add_quote-AnswersAlike :
      (q : QuoteData) → as_of.utc < quoted_at q → AnswersAlike as_of (add_quote q d) d
  unfolding add_quote get_closed_candles get_intrabar_candles get_quotes get_xau_candles
      get_xau_reference get_usdt_rate get_macro_context get_cycle_3a
  add_quote-AnswersAlike q later =
      let late : leb (quoted_at q) as_of.utc ≡ false = ground arith in
      record {
        closed_candles = λ asked. refl;
        intrabar_candles = λ asked start end. refl;
        quotes = λ start end.
            filter-added quoted_at (is_slice_quote start.utc end.utc (some as_of.utc)) d.quotes q
              h.quotes (is_slice_quote-late start.utc end.utc as_of.utc q late);
        xau_candles = refl;
        xau_reference = refl;
        usdt_rate = refl;
        macro_context = refl;
        cycle_3a = λ version. refl;
      }

  add_cycle_3a-AnswersAlike :
      (s : Cycle3ASnapshot) → as_of.utc < cycle_at s → AnswersAlike as_of (add_cycle_3a s d) d
  unfolding add_cycle_3a get_closed_candles get_intrabar_candles get_quotes get_xau_candles
      get_xau_reference get_usdt_rate get_macro_context get_cycle_3a
  add_cycle_3a-AnswersAlike s later =
      let late : leb (cycle_at s) as_of.utc ≡ false = ground arith in
      record {
        closed_candles = λ asked. refl;
        intrabar_candles = λ asked start end. refl;
        quotes = λ start end. refl;
        xau_candles = refl;
        xau_reference = refl;
        usdt_rate = refl;
        macro_context = refl;
        cycle_3a = λ version. ap get_last? (
            filter-added cycle_at (is_cycle_by as_of.utc version) d.cycle_3a s h.cycle_3a
              (is_cycle_by-late as_of.utc version s late));
      }

  -- Data that is known only after an instant, added to a dataset whose lists are in order, changes no
  -- answer at that instant: no candle, quote, reference, rate, macro context or cycle.
  pub change-AnswersAlike :
      (c : Change) → as_of.utc < known_at c → AnswersAlike as_of (change c d) d
  unfolding change
  change-AnswersAlike (Change.candle tf c) later = add_candle-AnswersAlike tf c later
  change-AnswersAlike (Change.xau_reference t price is_bullish) later =
      add_xau_reference-AnswersAlike t price is_bullish later
  change-AnswersAlike (Change.xau_candle c) later = add_xau_candle-AnswersAlike c later
  change-AnswersAlike (Change.usdt_rate t rate) later = add_usdt_rate-AnswersAlike t rate later
  change-AnswersAlike (Change.macro_context t context) later =
      add_macro_context-AnswersAlike t context later
  change-AnswersAlike (Change.quote q) later = add_quote-AnswersAlike q later
  change-AnswersAlike (Change.cycle s) later = add_cycle_3a-AnswersAlike s later
