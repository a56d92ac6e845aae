-- ===== src/Replay/Bounded.antt =====
-- engine/backtest/xauusd_replay.py: the trades of a replay end inside the run.
use aurum_iq.Replay.Traded.{
  trade_of-IfTraded, StartsBy, IfTraded, IsBeforeEnd, from_start-StartsBy, IsTradeOf,
  before-IsBeforeEnd,
}
use aurum_iq.Outcome.Settled.{Returns, Returns-done, Returns-if, Returns-map, Returns-raises}
use aurum_iq.Plan.Snapshot.{DualSideSignalSnapshot}
use aurum_iq.Replay.Engine.{
  SignalEngine, XauUsdPointInTimeReplay, XauUsdReplayMarketSnapshot, Records, run_from_cache,
  from_start, before, after_analysis, recorded, after_trade,
}
use aurum_iq.Outcome.Trade.{TradeOps, XauUsdSimulatedTrade, done, Attempt, raises}
use aurum_iq.Entry.Fill.{DecimalOps}
use aurum_iq.Plan.Zones.{PlanOps}
use aurum_iq.Prelude.{
  [], Bool, not, ◌≡◌, false, true, List, arith, Option, All, some, ◌∷◌, none, refl, All-map,
}
use mathlib.Core.List.{Memᴰ}

unnegated : {b : Bool} → not b ≡ false → b ≡ true
unnegated {b} h = ground arith

module _ {E : Type 0} (P : PlanOps) (D : DecimalOps) (R : TradeOps) (engine : SignalEngine E)
    (self : XauUsdPointInTimeReplay) where
  -- A trade for the signal that the engine finds at a snapshot of the cache, inside the run.
  pub record IsReplayed (cache : List (XauUsdReplayMarketSnapshot E)) (trade : XauUsdSimulatedTrade)
      : Type 0 where
    pub snap : XauUsdReplayMarketSnapshot E
    pub signal : DualSideSignalSnapshot
    pub listed : Memᴰ snap cache
    pub analyzed : engine.analyze snap ≡ done (some signal)
    pub started : StartsBy P D R engine self snap.timestamp
    pub running : IsBeforeEnd P D R engine self snap.timestamp
    pub of_signal : IsTradeOf P D R engine self snap signal trade

  later-IsReplayed :
      (snap : XauUsdReplayMarketSnapshot E) (cache : List (XauUsdReplayMarketSnapshot E))
      (trade : XauUsdSimulatedTrade)
      → IsReplayed cache trade
      → IsReplayed (snap ∷ cache) trade
  later-IsReplayed snap cache trade h = record {
    snap = h.snap;
    signal = h.signal;
    listed = Memᴰ.tail h.listed;
    analyzed = h.analyzed;
    started = h.started;
    running = h.running;
    of_signal = h.of_signal;
  }

  abbrev AllReplayed : List (XauUsdReplayMarketSnapshot E) → Records P D R engine self → Type 0
  AllReplayed cache (signals, trades) = All (IsReplayed cache) trades

  later-AllReplayed :
      (snap : XauUsdReplayMarketSnapshot E) (cache : List (XauUsdReplayMarketSnapshot E))
      (records : Records P D R engine self)
      → AllReplayed cache records
      → AllReplayed (snap ∷ cache) records
  later-AllReplayed snap cache (signals, trades) h =
      All-map (IsReplayed cache) (IsReplayed (snap ∷ cache)) trades (later-IsReplayed snap cache) h

  module _ (snap : XauUsdReplayMarketSnapshot E) (cache : List (XauUsdReplayMarketSnapshot E))
      (started : from_start self.run_start_time snap.timestamp ≡ true)
      (running : before self.run_end_time snap.timestamp ≡ true) where
    recorded-AllReplayed :
        (s : DualSideSignalSnapshot) (trade : Option XauUsdSimulatedTrade)
        (rest : Records P D R engine self)
        → engine.analyze snap ≡ done (some s)
        → IfTraded P D R engine self snap s trade
        → AllReplayed cache rest
        → AllReplayed (snap ∷ cache) (recorded P D R engine self s trade rest)
    recorded-AllReplayed s none (signals, trades) analyzed _ h =
        later-AllReplayed snap cache (signals, trades) h
    recorded-AllReplayed s (some trade) (signals, trades) analyzed of_signal h = (
      record {
        snap = snap;
        signal = s;
        listed = Memᴰ.head refl;
        analyzed = analyzed;
        started = from_start-StartsBy P D R engine self self.run_start_time snap.timestamp started;
        running = before-IsBeforeEnd P D R engine self self.run_end_time snap.timestamp running;
        of_signal = of_signal;
      },
      later-AllReplayed snap cache (signals, trades) h,
    )

    after_trade-AllReplayed :
        (s : DualSideSignalSnapshot) (out : Attempt (Option XauUsdSimulatedTrade))
        (rest : Attempt (Records P D R engine self))
        → engine.analyze snap ≡ done (some s)
        → Returns (IfTraded P D R engine self snap s) out
        → Returns (AllReplayed cache) rest
        → Returns (AllReplayed (snap ∷ cache)) (after_trade P D R engine self s out rest)
    after_trade-AllReplayed s (done trade) rest analyzed of_signal h =
        Returns-map (AllReplayed (snap ∷ cache)) (recorded P D R engine self s trade) rest
          (λ records e.
            recorded-AllReplayed s trade records analyzed (of_signal trade refl) (h records e))
    after_trade-AllReplayed s (raises error) rest analyzed of_signal h =
        Returns-raises (AllReplayed (snap ∷ cache)) error

    after_analysis-AllReplayed :
        (out : Attempt (Option DualSideSignalSnapshot)) (rest : Attempt (Records P D R engine self))
        → engine.analyze snap ≡ out
        → Returns (AllReplayed cache) rest
        → Returns (AllReplayed (snap ∷ cache)) (after_analysis P D R engine self snap out rest)
    after_analysis-AllReplayed (done none) rest analyzed h =
        λ records e. later-AllReplayed snap cache records (h records e)
    after_analysis-AllReplayed (done (some s)) rest analyzed h =
        after_trade-AllReplayed s _ rest analyzed (trade_of-IfTraded P D R engine self s snap) h
    after_analysis-AllReplayed (raises error) rest analyzed h =
        Returns-raises (AllReplayed (snap ∷ cache)) error

  cache-AllReplayed :
      (cache : List (XauUsdReplayMarketSnapshot E))
      → Returns (AllReplayed cache) (run_from_cache P D R engine self cache)
  unfolding run_from_cache
  cache-AllReplayed [] = Returns-done (AllReplayed []) tt
  cache-AllReplayed (snap ∷ cache) =
      Returns-if (AllReplayed (snap ∷ cache)) (not (from_start self.run_start_time snap.timestamp))
        (λ _ records e. later-AllReplayed snap cache records (cache-AllReplayed cache records e))
        (λ started.
          Returns-if (AllReplayed (snap ∷ cache)) (not (before self.run_end_time snap.timestamp))
            (λ _. Returns-done (AllReplayed (snap ∷ cache)) tt)
            (λ running.
              after_analysis-AllReplayed snap cache (unnegated started) (unnegated running)
                (engine.analyze snap) _ refl (cache-AllReplayed cache)))

  -- Every trade that a replay returns belongs to a signal that the engine finds at a snapshot of the
  -- cache, no earlier than the start of the run and before its end. The signal is a BUY_WINDOW / BUY or
  -- a SELL_WINDOW / SELL candidate, and the trade has the time of the signal, or of the snapshot and
  -- is SKIPPED. It is without exit, or exits by the close of a 15-minute bar of the dataset that
  -- closes after that snapshot and before the end of the run; the exit then ends its dependency window.
  pub run_from_cache-IsReplayed :
      (cache : List (XauUsdReplayMarketSnapshot E)) {signals : List DualSideSignalSnapshot}
      {trades : List XauUsdSimulatedTrade}
      → run_from_cache P D R engine self cache ≡ done (signals, trades)
      → All (IsReplayed cache) trades
  run_from_cache-IsReplayed cache e = cache-AllReplayed cache _ e
