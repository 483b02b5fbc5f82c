-- ===== src/World.antt =====
-- What the processor calls outside this repository: the chain specification, the conversion of a
-- payload, revm and its state database, and the node's provider. Each is a parameter.
use ethgas_reth.Base.{ℕ, Bool, List, Option}
use ethgas_reth.Types.{
  B256, Address, U256, BlockNumber, Header, Block, TransactionSigned, TransactionReceipt, Log,
}
use ethgas_reth.Payload.{Receipt}
use ethgas_reth.Fallible.{Fallible}

-- `ExecutionPayloadV3`, with the payloads inside it laid flat.
pub record ExecutionPayload : Type 0 where
  pub blob_gas_used : ℕ
  pub excess_blob_gas : ℕ
  pub withdrawals : List ℕ
  pub parent_hash : B256
  pub fee_recipient : Address
  pub state_root : B256
  pub receipts_root : B256
  pub logs_bloom : ℕ
  pub prev_randao : B256
  pub block_number : BlockNumber
  pub gas_limit : ℕ
  pub gas_used : ℕ
  pub timestamp : ℕ
  pub extra_data : ℕ
  pub base_fee_per_gas : U256
  pub block_hash : B256
  pub transactions : List ℕ

-- `EthExecutorSpec` and the codecs that `BlockAssembler` calls.
pub record Spec : Type 0 where
  pub is_amsterdam_active_at_timestamp : ℕ → Bool
  pub is_prague_active_at_timestamp : ℕ → Bool
  pub try_into_block : ExecutionPayload → Fallible Block
  -- `Requests::requests_hash`, `Requests::default`, `push_request_with_type`
  pub requests_hash : ℕ → B256
  pub default_requests : ℕ
  pub push_request_with_type : ℕ → ℕ → ℕ → ℕ
  pub deposit_request_type : ℕ
  pub parse_deposits_from_receipts : List Receipt → Fallible ℕ

pub record NextBlockEnvAttributes : Type 0 where
  pub timestamp : ℕ
  pub suggested_fee_recipient : Address
  pub prev_randao : B256
  pub gas_limit : ℕ
  pub parent_beacon_block_root : Option B256
  pub withdrawals : Option (List ℕ)
  pub extra_data : ℕ
  pub slot_number : Option ℕ

-- `TransactionMeta`
pub record TransactionMeta : Type 0 where
  pub tx_hash : B256
  pub index : ℕ
  pub block_hash : B256
  pub block_number : BlockNumber
  pub base_fee : Option ℕ
  pub excess_blob_gas : Option ℕ
  pub timestamp : ℕ

-- `ConvertReceiptInput`
pub record ConvertReceiptInput : Type 0 where
  pub receipt : Receipt
  pub tx : TransactionSigned
  pub signer : Address
  pub gas_used : ℕ
  pub next_log_index : ℕ
  pub meta : TransactionMeta

-- `EthEvmConfig` and `reth_revm::State`. `transact` may touch the database it reads through.
pub record Evm : Type 1 where
  pub Db : Type 0
  pub EvmEnv : Type 0
  pub EvmState : Type 0
  pub BundleState : Type 0
  pub default_bundle : BundleState
  pub insert_block_hash : BlockNumber → B256 → Db → Db
  pub next_evm_env : Header → NextBlockEnvAttributes → Fallible EvmEnv
  pub apply_blockhashes_contract_call : EvmEnv → B256 → Db → Fallible Db
  pub apply_beacon_root_contract_call : EvmEnv → Option B256 → Db → Fallible Db
  pub transact : EvmEnv → TransactionSigned → Address → Db → Fallible (Bool × EvmState × Db)
  pub commit : EvmState → Db → Db
  -- `merge_transitions(BundleRetention::Reverts)`, then `take_bundle`
  pub take_bundle : Db → BundleState
  pub blob_params_at_timestamp : ℕ → ℕ
  pub build_receipt : ConvertReceiptInput → ℕ → List Log → TransactionReceipt

-- The node's provider, as one read of it finds the chain. `state_db` opens the state of a block,
-- over a bundle of changes if there is one.
pub record View (evm : Evm) : Type 0 where
  pub header_by_number : BlockNumber → Fallible (Option Header)
  pub hash_slow : Header → B256
  pub state_db : BlockNumber → Fallible (Option (Evm.BundleState evm) → Evm.Db evm)
