-- ===== src/Backtest/Isolation.antt =====
-- The trades that the partitions of engine/backtest/purge.py keep.
use aurum_iq.Prelude.{
  ◌+◌, ◌≤◌, ◌<◌, ◌≡◌, refl, ◌⊎◌, inl, inr, true, false, not, List, [], ◌∷◌, All, filter, length,
  arith, sym,
}
use mathlib.Core.Path.{subst}
use aurum_iq.Backtest.Purge.{
  Trade, Partition, PurgeResult, dependency_end, signal_at, is_outside, is_embargoed, is_purged,
  sort_trade, filter_partition,
}

-- What an eligible trade has: its signal lies in the partition, its outcome is settled before the
-- partition ends, and in a post-boundary segment its signal lies past the embargo.
pub record IsIsolated (p : Partition) (t : Trade) : Type 0 where
  pub after_start : p.start ≤ signal_at t
  pub before_end : signal_at t < p.end
  pub settled : dependency_end t < p.end
  pub past_embargo : (p.is_post_boundary_segment ≡ false) ⊎ (p.start + p.embargo ≤ signal_at t)

module _ (p : Partition) where
  one-IsIsolated :
      (t : Trade)
      → p.purge_overlapping ≡ true
      → is_outside p t ≡ false
      → is_embargoed p t ≡ false
      → is_purged p t ≡ false
      → IsIsolated p t
  one-IsIsolated t k o e d = record {
    after_start = ground arith;
    before_end = ground arith;
    settled = ground arith;
    past_embargo = ground arith;
  }

  sort_trade-cases :
      (t : Trade) (rest : PurgeResult)
      → ((sort_trade p t rest).eligible_trades ≡ rest.eligible_trades)
        ⊎ (((sort_trade p t rest).eligible_trades ≡ t ∷ rest.eligible_trades)
            × (is_outside p t ≡ false)
            × (is_embargoed p t ≡ false)
            × (is_purged p t ≡ false))
  unfolding sort_trade
  sort_trade-cases t rest = ground arith

  sort_trade-eligible :
      (t : Trade) (rest : PurgeResult)
      → p.purge_overlapping ≡ true
      → All (IsIsolated p) rest.eligible_trades
      → All (IsIsolated p) (sort_trade p t rest).eligible_trades
  sort_trade-eligible t rest k h = elim (sort_trade-cases t rest) [
    | inl same ↦ subst (All (IsIsolated p)) (sym same) h
    | inr (more, o, e, d) ↦ subst (All (IsIsolated p)) (sym more) (one-IsIsolated t k o e d, h)
  ]

  -- With purging on, every eligible trade has its signal in the partition, its outcome settled
  -- strictly before the partition's end, and in a post-boundary segment its signal past the embargo.
  pub eligible-IsIsolated :
      (ts : List Trade)
      → p.purge_overlapping ≡ true
      → All (IsIsolated p) (filter_partition p ts).eligible_trades
  unfolding filter_partition
  eligible-IsIsolated [] k = tt
  eligible-IsIsolated (t ∷ ts) k =
      sort_trade-eligible t (filter_partition p ts) k (eligible-IsIsolated ts k)

  -- The total that is reported is the number of trades whose signal lies in the partition, and
  -- the sum of the sizes of the three lists.
  pub filter_partition_accounts :
      (ts : List Trade)
      → let r = filter_partition p ts in
        (r.total_input_count
          ≡ length r.eligible_trades + length r.purged_trades + length r.embargoed_trades)
        × (r.total_input_count ≡ length (filter (λ t. not (is_outside p t)) ts))
  unfolding filter_partition sort_trade
  filter_partition_accounts [] = (omega arith, refl)
  filter_partition_accounts (t ∷ ts) = ground (arith, filter_partition_accounts ts)

-- A trade whose outcome is settled before another one's signal.
abbrev pub KnownBefore : Trade → Trade → Type 0
KnownBefore t u = dependency_end t < signal_at u

known_before :
    (p q : Partition) (t : Trade) (us : List Trade)
    → p.end ≤ q.start
    → IsIsolated p t
    → All (IsIsolated q) us
    → All (KnownBefore t) us
known_before p q t [] le h hs = tt
known_before p q t (u ∷ us) le h hs =
    let settled = h.settled in
    let later = hs.0.after_start in (omega arith, known_before p q t us le h hs.1)

All-KnownBefore :
    (p q : Partition) (ts us : List Trade)
    → p.end ≤ q.start
    → All (IsIsolated p) ts
    → All (IsIsolated q) us
    → All (λ t. All (KnownBefore t) us) ts
All-KnownBefore p q [] us le h hs = tt
All-KnownBefore p q (t ∷ ts) us le h hs =
    (known_before p q t us le h.0 hs, All-KnownBefore p q ts us le h.1 hs)

-- Training is isolated from what comes after it: for two partitions, the first ending no later than
-- the second starts, both with purging on, the outcome of every eligible trade of the first is
-- settled strictly before the signal of every eligible trade of the second.
pub partitions_isolated :
    (p q : Partition) (ts us : List Trade)
    → p.end ≤ q.start
    → p.purge_overlapping ≡ true
    → q.purge_overlapping ≡ true
    → All
        (λ t. All (KnownBefore t) (filter_partition q us).eligible_trades)
        (filter_partition p ts).eligible_trades
partitions_isolated p q ts us le k l =
    All-KnownBefore p q _ _ le (eligible-IsIsolated p ts k) (eligible-IsIsolated q us l)
