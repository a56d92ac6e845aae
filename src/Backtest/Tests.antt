-- ===== src/Backtest/Tests.antt =====
-- Runs of engine/backtest at concrete trades, data and timestamps.
use aurum_iq.Prelude.Int.{pos}
use aurum_iq.Backtest.Repository.Latest.{get_macro_context-get_last?}
use aurum_iq.Backtest.Repository.Unseen.{future_data_unseen}
use aurum_iq.Backtest.Repository.Log.{observe_all, new_log}
use aurum_iq.Core.Decimal.{Decimal, fin}
use aurum_iq.Backtest.Repository.Answers.{AnswersFrom, dataset-AnswersFrom}
use aurum_iq.Backtest.Repository.Future.{AnswersAlike}
use aurum_iq.Backtest.Repository.Changes.{Change, known_at, changes, change, IsReachable}
use aurum_iq.Backtest.Repository.Chronology.{IsChronological, reachable-IsChronological}
use aurum_iq.Backtest.Progress.{IsTimeline, new_clock-IsTimeline}
use aurum_iq.Backtest.Repository.{DatasetInput, tf_15m, new_dataset, candles_at, lower, same_text}
use aurum_iq.Backtest.Clock.{ReplayClock, new_clock, distinct, contains}
use aurum_iq.Macro.Events.{MacroEventContext}
use aurum_iq.Backtest.Repository.Queries.{
  get_macro_context, get_closed_candles, context_at, context_of, is_by,
}
use aurum_iq.Prelude.{
  ◌≡◌, refl, ℕ, true, false, none, some, List, [], ◌∷◌, All, filter, length, arith, ◌<◌, sort_by,
  bisect_right, insert_by, bisect_loop, get_last?, ok,
}
use aurum_iq.Core.Candle.{Datetime, CandleData}
use aurum_iq.Backtest.Purge.{Trade, Partition, filter_partition}
use aurum_iq.Backtest.Isolation.{KnownBefore, partitions_isolated}

abbrev at : ℕ → Datetime
at n = record { aware = true; utc = n }

abbrev trade : ℕ → ℕ → ℕ → Trade
trade id signal exit = record {
  trade_id = id;
  signal_timestamp = at signal;
  dependency_end_timestamp = none;
  dependency_window = none;
  exit_timestamp = some (at exit);
}

-- One settles in the training segment, one crosses its end, one is signalled after the embargo.
abbrev trades : List Trade
trades = trade 1 10 30 ∷ trade 2 90 105 ∷ trade 3 130 140 ∷ []

abbrev training : Partition
training = record {
  start = 0;
  end = 100;
  embargo = 0;
  purge_overlapping = true;
  is_post_boundary_segment = false;
}

abbrev validation : Partition
validation = record {
  start = 100;
  end = 200;
  embargo = 20;
  purge_overlapping = true;
  is_post_boundary_segment = true;
}

partitions_isolated_example :
    All
      (λ t. All (KnownBefore t) (filter_partition validation trades).eligible_trades)
      (filter_partition training trades).eligible_trades
partitions_isolated_example =
    partitions_isolated training validation trades trades (omega arith) refl refl

abbrev price : ℕ → Decimal
price n = fin (pos n)

abbrev candle : ℕ → ℕ → CandleData
candle opened closed = record {
  timestamp_open = at opened;
  timestamp_close = at closed;
  open_price = price 10;
  high = price 12;
  low = price 9;
  close = price 11;
  volume = price 1;
  is_closed = true;
  close_usd = none;
}

abbrev calm : MacroEventContext
calm = record {
  is_in_blackout = false;
  minutes_to_next_event = none;
  minutes_since_last_event = none;
  active_event_name = none;
  point_in_time_value = none;
  is_feed_healthy = true;
}

-- Two candles in the wrong order, and two macro contexts.
abbrev inputs : DatasetInput
inputs = record {
  candles_15m = candle 15 30 ∷ candle 0 15 ∷ [];
  candles_1h = [];
  candles_4h = [];
  candles_1d = [];
  candles_5m = [];
  candles_1m = [];
  quotes = [];
  xau_references = (20, (price 7, true)) ∷ [];
  usdt_rates = [];
  macro_events = (25, record calm { is_in_blackout = true }) ∷ (5, calm) ∷ [];
  cycle_3a = [];
}

-- What comes to be known at 40 and 45.
abbrev news : List Change
news = Change.candle tf_15m (candle 30 45) ∷ Change.macro_context (at 40) calm ∷ []

known_closed : length (get_closed_candles tf_15m (at 30) (new_dataset inputs)) ≡ 2
unfolding get_closed_candles new_dataset sort_by insert_by candles_at lower same_text
known_closed = refl

known_context : get_macro_context (at 24) (new_dataset inputs) ≡ some calm
unfolding get_macro_context context_at bisect_right bisect_loop new_dataset sort_by insert_by
known_context = refl

later_news : All (λ c. (at 30).utc < known_at c) news
later_news = (omega arith, (omega arith, tt))

reachable-IsChronological_example : IsChronological (
    change
      (Change.quote (record { timestamp = at 3; bid = price 1; ask = price 2 }))
      (new_dataset inputs))
reachable-IsChronological_example =
    reachable-IsChronological
      (change (Change.quote (record { timestamp = at 3; bid = price 1; ask = price 2 }))
        (new_dataset inputs))
      (IsReachable.changed
        (Change.quote (record { timestamp = at 3; bid = price 1; ask = price 2 }))
        (IsReachable.constructed inputs))

get_macro_context-get_last?_example :
    get_macro_context (at 24) (new_dataset inputs)
    ≡ context_of (get_last? (filter (is_by 24) (new_dataset inputs).macro_events))
get_macro_context-get_last?_example =
    get_macro_context-get_last? (at 24) (new_dataset inputs)
      (reachable-IsChronological (new_dataset inputs) (IsReachable.constructed inputs))

future_data_unseen_example :
    AnswersAlike (at 30) (changes news (new_dataset inputs)) (new_dataset inputs)
future_data_unseen_example =
    future_data_unseen (at 30) (new_dataset inputs) news (IsReachable.constructed inputs) later_news

dataset-AnswersFrom_example :
    AnswersFrom (observe_all news (new_log inputs)) (at 30) (changes news (new_dataset inputs))
dataset-AnswersFrom_example = dataset-AnswersFrom inputs news (at 30)

abbrev clock : ReplayClock
clock = record { timestamps = 3 ∷ 5 ∷ 9 ∷ []; current_index = 0 }

made_clock : new_clock (at 9 ∷ at 3 ∷ at 5 ∷ at 3 ∷ []) ≡ ok clock
unfolding new_clock sort_by insert_by distinct contains
made_clock = refl

new_clock-IsTimeline_example : IsTimeline (9 ∷ 3 ∷ 5 ∷ 3 ∷ []) clock.timestamps
new_clock-IsTimeline_example =
    new_clock-IsTimeline (at 9 ∷ at 3 ∷ at 5 ∷ at 3 ∷ []) clock made_clock
