-- ===== src/Outcome/Total.antt =====
-- engine/backtest/xauusd_outcomes.py: when `resolve_trade` returns a trade.
use aurum_iq.Risk.Barrier.{IntrabarPolicy}
use aurum_iq.Entry.Policy.{EntryExecutionPolicy, is_configured_for}
use aurum_iq.Core.Decimal.{Decimal, fin}
use aurum_iq.Outcome.Resolve.{simulate_entry, entry_policy}
use aurum_iq.Outcome.Window.{all_opens_aware}
use aurum_iq.Outcome.Finite.{FinCosts, FinBar}
use aurum_iq.Prelude.Int.{ℤ, pos, ◌<ℤ◌}
use aurum_iq.Outcome.Terms.{holding_time, nonzero_or}
use aurum_iq.Outcome.Reached.{ReachesEntry, entry_deadline, admitted}
use aurum_iq.Entry.Fill.{DecimalOps, SideAwareFillResult}
use aurum_iq.Outcome.Trade.{XauUsdSimulatedTrade, TradeOps, XauUsdOutcomeEngine, TradeRequest, done}
use aurum_iq.Prelude.{ℕ, All, some, ◌≡◌, true, ◌≢◌}

-- Nothing is asked of a trade.
abbrev IsTrade : XauUsdSimulatedTrade → Type 0
IsTrade t = Unit

module _ (D : DecimalOps) (R : TradeOps) (e : XauUsdOutcomeEngine) (x : TradeRequest) where
  -- What a call that comes to its entry needs to return: the horizon of the trade; aware opens of the
  -- lower timeframes; an order that is not a limit order and that the entry model of the side is
  -- configured for; a policy for bars that touch both barriers that is not the worst case; fees and
  -- extremes of the 15-minute bars that are finite; and an entry that, if it fills, does so at a
  -- positive price.
  pub record IsComplete (c : ReachesEntry e x) : Type 0 where
    pub duration : ℕ
    pub duration_given :
        holding_time
          (nonzero_or x.holding_horizon_bars_15m e.holding_horizon_bars_15m)
          (nonzero_or x.holding_horizon e.holding_horizon)
        ≡ some duration
    pub opens_5m_aware : all_opens_aware x.future_candles_5m ≡ true
    pub opens_1m_aware : all_opens_aware x.future_candles_1m ≡ true
    pub not_limit : x.execution_policy ≢ EntryExecutionPolicy.limit_zone
    pub not_worst_case : x.intrabar_policy ≢ IntrabarPolicy.worst_case
    pub configured :
        is_configured_for (entry_policy D R e x x.risk_plan.side) x.execution_policy ≡ true
    pub costs : FinCosts e.cost_config
    pub bars_fin : All FinBar x.future_candles_15m
    pub price_positive :
        (fill : SideAwareFillResult) (price : Decimal)
        → simulate_entry D R e x x.execution_policy (admitted x) (entry_deadline D R e x c)
          ≡ done fill
        → fill.fill_price ≡ some price
        → (a : ℤ) × (price ≡ fin a) × (pos 0 <ℤ a)
