-- ===== src/Core/Enums.antt =====
-- The enumerations of engine/core/types.py that the structure engine and the signal gates read and write.

pub data RegimeType : Type 0 where
  bull_trend bear_trend range high_volatility transition unknown : RegimeType

pub data StructureType : Type 0 where
  hh hl lh ll consolidation unknown : StructureType

pub data BosType : Type 0 where
  bullish bearish none : BosType

pub data UserDecision : Type 0 where
  buy wait avoid sell : UserDecision

pub data SignalState : Type 0 where
  no_trade avoid watch ready buy_window force_wait : SignalState
  watch_long ready_long watch_short ready_short sell_window conflict : SignalState

pub data FeedCriticality : Type 0 where
  critical optional informational : FeedCriticality

pub data FeedHealthStatus : Type 0 where
  healthy unhealthy stale transition missing unknown : FeedHealthStatus
