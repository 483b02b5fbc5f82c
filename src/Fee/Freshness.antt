-- ===== src/Fee/Freshness.antt =====
-- When crates/execution/flashblocks/src/fee.rs serves the builder's fee.
use ethgas_reth.Base.{ℕ, ◌+◌, ◌≤◌, ◌≢◌, ◌↔◌, arith, none, some}
use ethgas_reth.Types.{U256}
use ethgas_reth.Fee.{ReceivedInclusionFee, builder_inclusion_fee}

module _ (r : ReceivedInclusionFee) (now max_age : ℕ) (ceiling : U256) where
  -- The held fee is served exactly while it is at most `max_age` old and at most the ceiling, an
  -- instant before its receipt counting as age zero.
  builder_inclusion_fee_iff :
      (builder_inclusion_fee (some r) now max_age ceiling ≢ none)
      ↔ ((now ≤ r.received_at + max_age) × (r.inclusion_fee.priority_fee ≤ ceiling))
  unfolding builder_inclusion_fee
  builder_inclusion_fee_iff = ground arith
