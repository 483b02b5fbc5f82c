-- ===== src/Types.antt =====
-- The values that every component shares: hashes, addresses and numbers of the Ethereum types, and
-- the header. A byte string of fixed length, and a value that the code only carries and compares,
-- is the number that encodes it. Of `alloy_consensus::Header` the record has the fields that the
-- code reads or sets.
use ethgas_reth.Fallible.{Fallible}
use ethgas_reth.Base.{ℕ, Bool, List, Option}

abbrev pub B256 : Type 0
B256 = ℕ

abbrev pub Address : Type 0
Address = ℕ

abbrev pub U256 : Type 0
U256 = ℕ

abbrev pub BlockNumber : Type 0
BlockNumber = ℕ

abbrev pub PayloadId : Type 0
PayloadId = ℕ

pub record Header : Type 0 where
  pub number : BlockNumber
  pub timestamp : ℕ
  pub base_fee_per_gas : Option ℕ
  pub excess_blob_gas : Option ℕ
  pub parent_beacon_block_root : Option B256
  pub withdrawals_root : Option B256
  pub requests_hash : Option B256
  pub slot_number : Option ℕ

-- `alloy_primitives::Sealed`: a header with the hash that it is held to have.
pub record SealedHeader : Type 0 where
  pub header : Header
  pub hash : B256

-- What the code asks of `reth_ethereum_primitives::TransactionSigned`: its hash, the signer that
-- its signature recovers to, and its fees.
pub record TransactionSigned : Type 0 where
  pub tx_hash : B256
  pub recover_signer : Fallible Address
  pub effective_tip_per_gas : ℕ → Option ℕ
  pub max_fee_per_gas : ℕ

pub record Block : Type 0 where
  pub header : Header
  pub transactions : List TransactionSigned

-- `alloy_rpc_types::Transaction`.
pub record Transaction : Type 0 where
  pub inner : TransactionSigned
  pub sender : Address
  pub block_hash : Option B256
  pub block_number : Option BlockNumber
  pub transaction_index : Option ℕ
  pub effective_gas_price : Option ℕ
  pub block_timestamp : Option ℕ

-- `alloy_rpc_types_eth::Log`.
pub record Log : Type 0 where
  pub inner : ℕ
  pub block_hash : Option B256
  pub block_number : Option BlockNumber
  pub block_timestamp : Option ℕ
  pub transaction_hash : Option B256
  pub transaction_index : Option ℕ
  pub log_index : Option ℕ
  pub removed : Bool

-- What the code reads of `alloy_rpc_types::TransactionReceipt`.
pub record TransactionReceipt : Type 0 where
  pub logs : List Log
  pub gas_used : ℕ
  pub status : ℕ
  pub cumulative_gas_used : ℕ
  pub contract_address : Option Address
  pub logs_bloom : ℕ

-- `Filter::matches` of one filter.
abbrev pub Filter : Type 0
Filter = ℕ → Bool

-- `alloy_eips::BlockNumberOrTag` and `BlockId`.
pub data BlockNumberOrTag : Type 0 where
  at_number : BlockNumber → BlockNumberOrTag
  at_latest at_finalized at_safe at_earliest at_pending : BlockNumberOrTag

pub data BlockId : Type 0 where
  at_hash : B256 → BlockId
  tagged : BlockNumberOrTag → BlockId
