-- ===== src/Payload.antt =====
-- crates/execution/flashblocks/src/payload.rs: a flashblock as received. Raw transactions,
-- withdrawals, logs and request lists are encodings that the code only carries.
use ethgas_reth.Base.{ℕ, Bool, List, Option, Map}
use ethgas_reth.Types.{B256, Address, U256, BlockNumber, PayloadId}

-- What the code reads of `reth_ethereum_primitives::Receipt`.
pub record Receipt : Type 0 where
  pub success : Bool
  pub cumulative_gas_used : ℕ
  pub logs : List ℕ

pub record InclusionFee : Type 0 where
  pub priority_fee : U256

pub record Metadata : Type 0 where
  pub block_number : BlockNumber
  pub new_account_balances : Map U256
  pub receipts : Map Receipt
  pub inclusion_fee : Option InclusionFee

pub record ExecutionPayloadBaseV1 : Type 0 where
  pub parent_beacon_block_root : B256
  pub parent_hash : B256
  pub fee_recipient : Address
  pub prev_randao : B256
  pub block_number : BlockNumber
  pub gas_limit : ℕ
  pub timestamp : ℕ
  pub extra_data : ℕ
  pub base_fee_per_gas : U256
  pub slot_number : Option ℕ

pub record ExecutionPayloadFlashblockDeltaV1 : Type 0 where
  pub state_root : B256
  pub receipts_root : B256
  pub logs_bloom : ℕ
  pub gas_used : ℕ
  pub block_hash : B256
  pub transactions : List ℕ
  pub withdrawals : List ℕ
  pub blob_gas_used : ℕ
  pub excess_blob_gas : ℕ
  pub requests : Option ℕ

pub record FlashBlock : Type 0 where
  pub payload_id : PayloadId
  pub index : ℕ
  pub base : Option ExecutionPayloadBaseV1
  pub diff : ExecutionPayloadFlashblockDeltaV1
  pub metadata : Metadata
