-- ===== src/Backtest/Purge.antt =====
-- engine/backtest/purge.py: `PurgeEngine.filter_partition`.
use aurum_iq.Prelude.{
  ℕ, suc, ◌+◌, Bool, ◌&&◌, ◌||◌, Option, none, some, List, [], ◌∷◌, if◌then◌else◌, ltb, leb,
}
use aurum_iq.Core.Candle.{Datetime}

-- What the engine reads of a trade.
pub record Trade : Type 0 where
  pub trade_id : ℕ
  pub signal_timestamp : Datetime
  pub dependency_end_timestamp : Option Datetime
  pub dependency_window : Option (Option Datetime × Option Datetime)
  pub exit_timestamp : Option Datetime

-- `_to_utc`: None is datetime.min, and a naive datetime is taken for UTC.
abbrev pub to_utc : Option Datetime → ℕ
to_utc none = 0
to_utc (some d) = d.utc

abbrev pub exit_or_signal : Option Datetime → Datetime → Datetime
exit_or_signal none signal = signal
exit_or_signal (some exit) signal = exit

abbrev pub from_window :
    Option (Option Datetime × Option Datetime) → Option Datetime → Datetime → Datetime
from_window none exit signal = exit_or_signal exit signal
from_window (some (start, none)) exit signal = exit_or_signal exit signal
from_window (some (start, some end)) exit signal = end

abbrev pub from_dependency_end :
    Option Datetime
    → Option (Option Datetime × Option Datetime)
    → Option Datetime
    → Datetime
    → Datetime
from_dependency_end none window exit signal = from_window window exit signal
from_dependency_end (some end) window exit signal = end

-- The instant up to which the outcome of a trade depends on the market.
unfoldable pub dependency_end : Trade → ℕ
dependency_end t = to_utc (
    some (
      from_dependency_end t.dependency_end_timestamp t.dependency_window t.exit_timestamp
        t.signal_timestamp))

-- The arguments beside the trades. The embargo is in microseconds.
pub record Partition : Type 0 where
  pub start : ℕ
  pub end : ℕ
  pub embargo : ℕ
  pub purge_overlapping : Bool
  pub is_post_boundary_segment : Bool

pub record PurgeResult : Type 0 where
  pub eligible_trades : List Trade
  pub purged_trades : List Trade
  pub embargoed_trades : List Trade
  pub total_input_count : ℕ

abbrev pub signal_at : Trade → ℕ
signal_at t = t.signal_timestamp.utc

-- `sig_ts < p_start_utc or sig_ts >= p_end_utc`.
abbrev pub is_outside : Partition → Trade → Bool
is_outside p t = ltb (signal_at t) p.start || leb p.end (signal_at t)

abbrev pub is_embargoed : Partition → Trade → Bool
is_embargoed p t =
    p.is_post_boundary_segment && ltb 0 p.embargo && ltb (signal_at t) (p.start + p.embargo)

-- `purge_overlapping and dep_end >= p_end_utc`.
abbrev pub is_purged : Partition → Trade → Bool
is_purged p t = p.purge_overlapping && leb p.end (dependency_end t)

abbrev pub empty_result : PurgeResult
empty_result = record {
  eligible_trades = [];
  purged_trades = [];
  embargoed_trades = [];
  total_input_count = 0;
}

-- The body of the loop for one trade, in front of what the later ones give.
unfoldable pub sort_trade : Partition → Trade → PurgeResult → PurgeResult
sort_trade p t rest =
    if is_outside p t
    then rest
    else if is_embargoed p t
    then record rest {
      embargoed_trades = t ∷ rest.embargoed_trades;
      total_input_count = suc rest.total_input_count;
    }
    else if is_purged p t
    then record rest {
      purged_trades = t ∷ rest.purged_trades;
      total_input_count = suc rest.total_input_count;
    }
    else record rest {
      eligible_trades = t ∷ rest.eligible_trades;
      total_input_count = suc rest.total_input_count;
    }

unfoldable pub filter_partition : Partition → List Trade → PurgeResult
filter_partition p [] = empty_result
filter_partition p (t ∷ ts) = sort_trade p t (filter_partition p ts)
