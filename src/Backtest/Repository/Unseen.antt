-- ===== src/Backtest/Repository/Unseen.antt =====
-- engine/backtest/repository.py: sequences of additions that a query cannot see.
use aurum_iq.Prelude.{◌<◌, ◌∙◌, refl, List, [], ◌∷◌, All}
use aurum_iq.Core.Candle.{Datetime}
use aurum_iq.Backtest.Repository.{PointInTimeDataset}
use aurum_iq.Backtest.Repository.Changes.{Change, change, changes, known_at, IsReachable}
use aurum_iq.Backtest.Repository.Chronology.{
  IsChronological, change-IsChronological, reachable-IsChronological,
}
use aurum_iq.Backtest.Repository.Future.{AnswersAlike, change-AnswersAlike}

alike : (as_of : Datetime) (d : PointInTimeDataset) → AnswersAlike as_of d d
alike as_of d = record {
  closed_candles = λ tf. refl;
  intrabar_candles = λ tf start end. refl;
  quotes = λ start end. refl;
  xau_candles = refl;
  xau_reference = refl;
  usdt_rate = refl;
  macro_context = refl;
  cycle_3a = λ version. refl;
}

AnswersAlike-trans :
    (as_of : Datetime) (a b c : PointInTimeDataset)
    → AnswersAlike as_of a b
    → AnswersAlike as_of b c
    → AnswersAlike as_of a c
AnswersAlike-trans as_of a b c h k = record {
  closed_candles = λ tf. h.closed_candles tf ∙ k.closed_candles tf;
  intrabar_candles = λ tf s e. h.intrabar_candles tf s e ∙ k.intrabar_candles tf s e;
  quotes = λ s e. h.quotes s e ∙ k.quotes s e;
  xau_candles = h.xau_candles ∙ k.xau_candles;
  xau_reference = h.xau_reference ∙ k.xau_reference;
  usdt_rate = h.usdt_rate ∙ k.usdt_rate;
  macro_context = h.macro_context ∙ k.macro_context;
  cycle_3a = λ version. h.cycle_3a version ∙ k.cycle_3a version;
}

changes-AnswersAlike :
    (as_of : Datetime) (cs : List Change) (d : PointInTimeDataset)
    → IsChronological d
    → All (λ c. as_of.utc < known_at c) cs
    → AnswersAlike as_of (changes cs d) d
unfolding changes
changes-AnswersAlike as_of [] d h _ = alike as_of d
changes-AnswersAlike as_of (c ∷ cs) d h (later, rest) =
    AnswersAlike-trans as_of (changes cs (change c d)) (change c d) d
      (changes-AnswersAlike as_of cs (change c d) (change-IsChronological d h c) rest)
      (change-AnswersAlike as_of d h c later)

-- Any sequence of additions that the world knows only after an instant changes no answer at that
-- instant of a dataset that the constructor and the methods have made: neither the closed candles, the
-- intrabar candles and the quotes up to then, nor the reference, the rate, the macro context or the
-- cycle snapshot of that instant.
pub future_data_unseen :
    (as_of : Datetime) (d : PointInTimeDataset) (later : List Change)
    → IsReachable d
    → All (λ c. as_of.utc < known_at c) later
    → AnswersAlike as_of (changes later d) d
future_data_unseen as_of d later reached unknown =
    changes-AnswersAlike as_of later d (reachable-IsChronological d reached) unknown
