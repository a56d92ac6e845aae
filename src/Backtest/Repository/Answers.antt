-- ===== src/Backtest/Repository/Answers.antt =====
-- engine/backtest/repository.py: the queries of a dataset, read off the log of what it was given.
use aurum_iq.Backtest.Repository.Latest.{get_macro_context-get_last?}
use aurum_iq.Backtest.Repository.Refines.{dataset-Represents}
use aurum_iq.Backtest.Repository.Chronology.{reachable-IsChronological, IsChronological}
use aurum_iq.Macro.Events.{Text}
use aurum_iq.Core.Candle.{Datetime, opens_at}
use aurum_iq.Backtest.Repository.Queries.{
  get_closed_candles, get_intrabar_candles, get_quotes, get_xau_candles, get_xau_reference,
  is_known, get_usdt_rate, get_cycle_3a, is_intrabar, is_slice_quote, reference_of, is_by, rate_of,
  get_macro_context, context_of, is_cycle_by,
}
use aurum_iq.Backtest.Repository.Log.{Log, observe_all, new_log, Represents}
use aurum_iq.Backtest.Repository.{
  DatasetInput, Datetime, List, PointInTimeDataset, Text, sort_by, opens_at, ◌∷◌, new_dataset,
  lower, quoted_at, stamp, cycle_at,
}
use aurum_iq.Backtest.Repository.Changes.{changes, Change, IsReachable, change}
use aurum_iq.Prelude.{
  [], ℕ, Bool, List, ◌≡◌, sort_by, filter, ◌∷◌, ap, ◌∙◌, some, filter-sort_by, get_last?, Option,
}

-- The answers at an instant, read off a log: what passes the test of the query, in the order of its
-- times, and of a feed the last of it.
pub record AnswersFrom (l : Log) (as_of : Datetime) (d : PointInTimeDataset) : Type 0 where
  pub closed_candles :
      (tf : Text)
      → get_closed_candles tf as_of d
        ≡ sort_by opens_at (filter (is_known as_of.utc) (l.candles (lower tf)))
  pub intrabar_candles :
      (tf : Text) (start end : Datetime)
      → get_intrabar_candles tf start end (some as_of) d
        ≡ sort_by opens_at
            (filter (is_intrabar start.utc end.utc (some as_of.utc)) (l.candles (lower tf)))
  pub quotes :
      (start end : Datetime)
      → get_quotes start end (some as_of) d
        ≡ sort_by quoted_at (filter (is_slice_quote start.utc end.utc (some as_of.utc)) l.quotes)
  pub xau_candles :
      get_xau_candles as_of d ≡ sort_by opens_at (filter (is_known as_of.utc) l.xau_candles)
  pub xau_reference :
      get_xau_reference as_of d
      ≡ reference_of (get_last? (sort_by stamp (filter (is_by as_of.utc) l.xau_references)))
  pub usdt_rate :
      get_usdt_rate as_of d
      ≡ rate_of (get_last? (sort_by stamp (filter (is_by as_of.utc) l.usdt_rates)))
  pub macro_context :
      get_macro_context as_of d
      ≡ context_of (get_last? (sort_by stamp (filter (is_by as_of.utc) l.macro_events)))
  pub cycle_3a :
      (version : Option Text)
      → get_cycle_3a as_of version d
        ≡ get_last? (sort_by cycle_at (filter (is_cycle_by as_of.utc version) l.cycle_3a))

-- A test of what a sorted view of a log holds.
seen {ℓ} :
    {A : Type ℓ} (key : A → ℕ) (p : A → Bool) (log : List A) {view : List A}
    → view ≡ sort_by key log
    → filter p view ≡ sort_by key (filter p log)
seen key p log e = ap (filter p) e ∙ filter-sort_by key p log

Represents-AnswersFrom :
    (l : Log) (as_of : Datetime) (d : PointInTimeDataset)
    → IsChronological d
    → Represents l d
    → AnswersFrom l as_of d
unfolding get_closed_candles get_intrabar_candles get_quotes get_xau_candles get_xau_reference
    get_usdt_rate get_cycle_3a
Represents-AnswersFrom l as_of d ordered h = record {
  closed_candles =
      λ tf. seen opens_at (is_known as_of.utc) (l.candles (lower tf)) (h.candles (lower tf));
  intrabar_candles = λ tf start end.
      seen opens_at (is_intrabar start.utc end.utc (some as_of.utc)) (l.candles (lower tf))
        (h.candles (lower tf));
  quotes = λ start end.
      seen quoted_at (is_slice_quote start.utc end.utc (some as_of.utc)) l.quotes h.quotes;
  xau_candles = seen opens_at (is_known as_of.utc) l.xau_candles h.xau_candles;
  xau_reference =
      ap (λ xs. reference_of (get_last? xs))
        (seen stamp (is_by as_of.utc) l.xau_references h.xau_references);
  usdt_rate =
      ap (λ xs. rate_of (get_last? xs)) (seen stamp (is_by as_of.utc) l.usdt_rates h.usdt_rates);
  macro_context =
      get_macro_context-get_last? as_of d ordered
      ∙ ap (λ xs. context_of (get_last? xs))
          (seen stamp (is_by as_of.utc) l.macro_events h.macro_events);
  cycle_3a =
      λ version. ap get_last? (seen cycle_at (is_cycle_by as_of.utc version) l.cycle_3a h.cycle_3a);
}

changes-IsReachable :
    (cs : List Change) (d : PointInTimeDataset) → IsReachable d → IsReachable (changes cs d)
unfolding changes
changes-IsReachable [] d h = h
changes-IsReachable (c ∷ cs) d h = changes-IsReachable cs (change c d) (IsReachable.changed c h)

-- A dataset that is constructed and then given any data answers every query at an instant from the log
-- of the same calls, which keeps everything as it came: with the entries of the log that pass the test
-- of the query, sorted by time with equal times in the order in which they came, or the last of them.
pub dataset-AnswersFrom :
    (x : DatasetInput) (cs : List Change) (as_of : Datetime)
    → AnswersFrom (observe_all cs (new_log x)) as_of (changes cs (new_dataset x))
dataset-AnswersFrom x cs as_of =
    Represents-AnswersFrom (observe_all cs (new_log x)) as_of (changes cs (new_dataset x))
      (reachable-IsChronological _
        (changes-IsReachable cs (new_dataset x) (IsReachable.constructed x)))
      (dataset-Represents x cs)
