-- ===== src/Fee.antt =====
-- crates/execution/flashblocks/src/fee.rs: the builder's inclusion fee, held as received. An
-- `Instant` is nanoseconds after an arbitrary start, and a `Duration` is nanoseconds.
pub mod Freshness
mod Tests
use ethgas_reth.Base.{ℕ, ◌-◌, ◌/◌, ltb, if◌then◌else◌, ◌||◌, Option, none, some, u64_mod}
use ethgas_reth.Types.{U256, BlockNumber}
use ethgas_reth.Payload.{InclusionFee}

pub record ReceivedInclusionFee : Type 0 where
  pub inclusion_fee : InclusionFee
  pub block_number : BlockNumber
  pub flashblock_index : ℕ
  pub received_at : ℕ

-- `saturating_duration_since`
unfoldable pub age : ReceivedInclusionFee → ℕ → ℕ
age r now = now - r.received_at

pub data FeeSource : Type 0 where
  builder fallback : FeeSource

pub record InclusionPriorityFee : Type 0 where
  pub max_priority_fee_per_gas : U256
  pub source : FeeSource
  pub age_ms : Option ℕ
  pub block_number : Option BlockNumber
  pub flashblock_index : Option ℕ

-- `u64::try_from(duration.as_millis()).unwrap_or(u64::MAX)`
unfoldable pub duration_ms : ℕ → ℕ
duration_ms duration = let ms = duration / 1000000 in if ltb ms u64_mod then ms else u64_mod - 1

unfoldable pub builder_inclusion_fee :
    Option ReceivedInclusionFee → (now max_age : ℕ) (ceiling : U256) → Option InclusionPriorityFee
unfolding age
builder_inclusion_fee none now max_age ceiling = none
builder_inclusion_fee (some latest) now max_age ceiling =
    if ltb max_age (age latest now) || ltb ceiling latest.inclusion_fee.priority_fee
    then none
    else some (record {
      max_priority_fee_per_gas = latest.inclusion_fee.priority_fee;
      source = builder;
      age_ms = some (duration_ms (age latest now));
      block_number = some latest.block_number;
      flashblock_index = some latest.flashblock_index;
    })

unfoldable pub fallback_inclusion_fee : U256 → InclusionPriorityFee
fallback_inclusion_fee fee = record {
  max_priority_fee_per_gas = fee;
  source = fallback;
  age_ms = none;
  block_number = none;
  flashblock_index = none;
}
