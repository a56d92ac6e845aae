-- ===== src/Outcome/Horizon.antt =====
-- engine/backtest/xauusd_outcomes.py: an engine has a horizon for the search of a fill.
use aurum_iq.Risk.Evidence.{ok-injective}
use aurum_iq.Entry.Policy.{XauUsdExecutionPolicy}
use aurum_iq.Outcome.Trade.{XauUsdOutcomeEngine, TradeRequest}
use aurum_iq.Outcome.Window.{fill_search}
use aurum_iq.Outcome.Engine.{EngineInput, new_engine, with_wait, engine_of}
use aurum_iq.Prelude.{
  value_error, Result, Option, ℕ, ◌≡◌, ◌≢◌, ok, some, ◌⊎◌, none, arith, refl, inl, inr, subst,
}

module _ (i : EngineInput) where
  -- The waits of the input are those of the engine, and one is given.
  abbrev HasWait : XauUsdOutcomeEngine → Type 0
  HasWait e = (n : ℕ) × ((e.max_fill_wait_bars_15m ≡ some n) ⊎ (e.max_fill_wait ≡ some n))

  engine_of-HasWait :
      (models : Result (XauUsdExecutionPolicy × XauUsdExecutionPolicy)) (n : ℕ)
      {e : XauUsdOutcomeEngine}
      → (i.max_fill_wait_bars_15m ≡ some n) ⊎ (i.max_fill_wait ≡ some n)
      → engine_of i models ≡ ok e
      → HasWait e
  engine_of-HasWait value_error n given h = absurd (cc)
  engine_of-HasWait (ok (long, short)) n given h = subst HasWait (ok-injective h) (n, given)

  with_wait-HasWait :
      (bars wait : Option ℕ) {e : XauUsdOutcomeEngine}
      → i.max_fill_wait_bars_15m ≡ bars
      → i.max_fill_wait ≡ wait
      → with_wait i bars wait ≡ ok e
      → HasWait e
  with_wait-HasWait none none b w h = absurd (cc)
  with_wait-HasWait (some bars) wait b w h = engine_of-HasWait _ bars (inl b) h
  with_wait-HasWait none (some wait) b w h = engine_of-HasWait _ wait (inr w) h

  fill_search_given :
      (e : XauUsdOutcomeEngine) (x : TradeRequest) → HasWait e → fill_search e x ≢ none
  unfolding fill_search
  fill_search_given e x (n, given) = ground arith

  -- An engine that the constructor makes has a horizon for the search of a fill, whatever the call
  -- gives: the ValueError of `resolve_trade` for a missing one is never raised.
  pub new_engine_has_horizon :
      {e : XauUsdOutcomeEngine} → new_engine i ≡ ok e → (x : TradeRequest) → fill_search e x ≢ none
  unfolding new_engine
  new_engine_has_horizon {e} made x = fill_search_given e x (with_wait-HasWait _ _ refl refl made)
