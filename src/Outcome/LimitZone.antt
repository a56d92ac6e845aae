-- ===== src/Outcome/LimitZone.antt =====
-- engine/backtest/xauusd_outcomes.py: `resolve_trade` of a limit order.
use aurum_iq.Core.Decimal.{fin}
use aurum_iq.Outcome.Resolve.{resolve_trade, simulate_entry, from_fill}
use aurum_iq.Entry.Policy.{EntryExecutionPolicy}
use aurum_iq.Outcome.Reached.{ReachesEntry, resolve_trade-entry, admitted, entry_deadline}
use aurum_iq.Outcome.Trade.{TradeOps, XauUsdOutcomeEngine, TradeRequest, raises, PythonError, ◌>>=◌}
use aurum_iq.Entry.Fill.{DecimalOps}
use aurum_iq.Prelude.{◌≡◌, ◌∙◌, ap}

-- A limit order that comes to its entry never becomes a trade: the call raises AttributeError, since the
-- enumeration of the policies has no LIMIT_TOUCH. It comes there if its plan is valid and eligible, the
-- planned risk is positive, its times are aware and it has a horizon for the search of a fill.
pub limit_zone_raises :
    (D : DecimalOps) (R : TradeOps) (e : XauUsdOutcomeEngine) (x : TradeRequest)
    → ReachesEntry e x
    → x.execution_policy ≡ EntryExecutionPolicy.limit_zone
    → resolve_trade D R e x ≡ raises PythonError.attribute_kind
limit_zone_raises D R e x c limit =
    resolve_trade-entry D R e x c
    ∙ ap
        (λ policy.
          simulate_entry D R e x policy (admitted x) (entry_deadline D R e x c) >>= (λ fill.
            from_fill D R e x (admitted x) (fin c.planned_risk) (entry_deadline D R e x c) fill
              fill.fill_price fill.fill_timestamp))
        limit
