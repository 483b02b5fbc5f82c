-- ===== src/Fee/Tests.antt =====
-- Runs of crates/execution/flashblocks/src/fee.rs on sample fees.
use ethgas_reth.Base.{◌≡◌, refl, some, none}
use ethgas_reth.Fee.{
  ReceivedInclusionFee, InclusionPriorityFee, builder_inclusion_fee, builder, age, duration_ms,
}

-- Received three milliseconds after the clock's zero.
abbrev held : ReceivedInclusionFee
held = record {
  inclusion_fee = record { priority_fee = 40 };
  block_number = 11;
  flashblock_index = 2;
  received_at = 3000000;
}

-- Two milliseconds later.
abbrev served : InclusionPriorityFee
served = record {
  max_priority_fee_per_gas = 40;
  source = builder;
  block_number = some 11;
  flashblock_index = some 2;
  age_ms = some 2;
}

fresh_fee : builder_inclusion_fee (some held) 5000000 9000000 50 ≡ some served
unfolding builder_inclusion_fee age duration_ms
fresh_fee = refl

old_fee : builder_inclusion_fee (some held) 15000000 9000000 50 ≡ none
unfolding builder_inclusion_fee age duration_ms
old_fee = refl
