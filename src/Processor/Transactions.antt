-- ===== src/Processor/Transactions.antt =====
-- The loop over a block's transactions in `build_pending_state` of
-- crates/execution/flashblocks/src/processor.rs.
use Prim.Native.String.{String}
use ethgas_reth.Base.{
  ℕ, ◌+◌, ◌-◌, ◌%◌, ◌^◌, suc, leb, if◌then◌else◌, false, bool_eq, List, [], ◌∷◌, Option, none, some,
  length, Map, lookup,
}
use ethgas_reth.Fallible.{done, failed}
use ethgas_reth.Types.{B256, Address, Block, TransactionSigned, Transaction, Log}
use ethgas_reth.Payload.{Receipt, ExecutionPayloadBaseV1}
use ethgas_reth.Error.{
  Result, ok, err, map_err, ◌>>=◌, execution, transaction_failed, sender_recovery, status_mismatch,
}
use ethgas_reth.World.{Evm, TransactionMeta, ConvertReceiptInput}
use ethgas_reth.Pending.{PendingBlocks, get_transaction_state}
use ethgas_reth.Pending.Builder.{
  PendingBlocksBuilder, with_transaction, with_transaction_state, with_transaction_sender,
  with_receipt,
}

-- The senders in block order, a cached one reused. The code recovers in parallel and may report
-- another of several failed recoveries than the first.
unfoldable pub recover_senders :
    (B256 → Option Address) → List TransactionSigned → Result (List Address)
recover_senders cached [] = ok []
recover_senders cached (tx ∷ txs) = do
  sender ← elim (cached tx.tx_hash) [
    | some sender ↦ ok sender
    | none ↦ map_err tx.recover_signer (λ e. execution (sender_recovery e))
  ]
  rest ← recover_senders cached txs
  ok (sender ∷ rest)

-- The logs of a receipt as RPC logs, numbered from `log_index`.
unfoldable pub map_logs : TransactionMeta → ℕ → List ℕ → List Log
map_logs meta log_index [] = []
map_logs meta log_index (inner ∷ logs) =
    record {
      inner = inner;
      block_hash = some meta.block_hash;
      block_number = some meta.block_number;
      block_timestamp = some meta.timestamp;
      transaction_hash = some meta.tx_hash;
      transaction_index = some meta.index;
      log_index = some log_index;
      removed = false;
    }
    ∷ map_logs meta (suc log_index) logs

-- `u128` arithmetic wraps.
unfoldable pub effective_gas_price : Option ℕ → TransactionSigned → ℕ
effective_gas_price none tx = tx.max_fee_per_gas
effective_gas_price (some base_fee) tx =
    let tip = elim (tx.effective_tip_per_gas base_fee) as (λ _. ℕ) [ none ↦ 0 | some t ↦ t ] in
    (tip + base_fee) % 2 ^ 128

module _ (evm : Evm) where
  open evm use {
    Db, EvmEnv, EvmState, BundleState, transact, commit, build_receipt, blob_params_at_timestamp,
  }

  -- The variables of the loop.
  pub record Loop : Type 0 where
    pub db : Db
    pub builder : PendingBlocksBuilder EvmState BundleState
    pub gas_used : ℕ
    pub next_log_index : ℕ

  -- What the loop reads and does not change.
  pub record Scope : Type 0 where
    pub env : EvmEnv
    pub base : ExecutionPayloadBaseV1
    pub block : Block
    pub receipt_by_hash : Map Receipt
    pub prev : Option (PendingBlocks EvmState BundleState)

  abbrev pub failure : {A : Type 0} → TransactionSigned → Address → String → Result A
  failure tx sender reason = err (execution (transaction_failed tx.tx_hash sender reason))

  unfoldable pub meta_of : Scope → ℕ → TransactionSigned → TransactionMeta
  meta_of s idx tx = record {
    tx_hash = tx.tx_hash;
    index = idx;
    block_hash = 0;
    block_number = s.block.header.number;
    base_fee = s.block.header.base_fee_per_gas;
    excess_blob_gas = s.block.header.excess_blob_gas;
    timestamp = s.block.header.timestamp;
  }

  unfoldable pub rpc_transaction : Scope → ℕ → TransactionSigned → Address → Transaction
  unfolding effective_gas_price
  rpc_transaction s idx tx sender = record {
    inner = tx;
    sender = sender;
    block_hash = none;
    block_number = some s.base.block_number;
    transaction_index = some idx;
    effective_gas_price = some (effective_gas_price s.block.header.base_fee_per_gas tx);
    block_timestamp = some s.base.timestamp;
  }

  -- The receipt checks and the entries that need no execution.
  unfoldable pub record_transaction :
      Scope → Loop → ℕ → TransactionSigned → Address → Result (Loop × Receipt)
  unfolding meta_of rpc_transaction map_logs
  record_transaction s l idx tx sender = do
    let known = with_transaction_sender l.builder tx.tx_hash sender
    receipt ← elim (lookup tx.tx_hash s.receipt_by_hash) [
      | some receipt ↦ ok receipt
      | none ↦ failure tx sender "missing receipt"
    ]
    gas ←
        (if leb l.gas_used receipt.cumulative_gas_used
          then ok (receipt.cumulative_gas_used - l.gas_used)
          else failure tx sender "cumulative gas decreased")
    let listed = with_transaction known (rpc_transaction s idx tx sender)
    let meta = meta_of s idx tx
    let input : ConvertReceiptInput = record {
      receipt = receipt;
      tx = tx;
      signer = sender;
      gas_used = gas;
      next_log_index = l.next_log_index;
      meta = meta;
    }
    let rpc_receipt =
        build_receipt input (blob_params_at_timestamp meta.timestamp)
          (map_logs meta l.next_log_index receipt.logs)
    ok (
      record {
        db = l.db;
        builder = with_receipt listed tx.tx_hash rpc_receipt;
        gas_used = receipt.cumulative_gas_used;
        next_log_index = l.next_log_index + length receipt.logs;
      },
      receipt,
    )

  -- A transaction is executed unless the previous snapshot has its state.
  unfoldable pub execute_transaction :
      Scope → Loop → Receipt → TransactionSigned → Address → Result Loop
  execute_transaction s l receipt tx sender = elim (transact s.env tx sender l.db) [
    | failed reason ↦ failure tx sender reason
    | done (success, state, db) ↦
        if bool_eq success receipt.success
        then ok (record l {
          builder = with_transaction_state l.builder tx.tx_hash state;
          db = commit state db;
        })
        else err (execution (status_mismatch tx.tx_hash receipt.success))
  ]

  abbrev pub cached_state : Option (PendingBlocks EvmState BundleState) → B256 → Option EvmState
  cached_state none hash = none
  cached_state (some p) hash = get_transaction_state p hash

  unfoldable pub process_transaction : Scope → Loop → ℕ → TransactionSigned → Address → Result Loop
  unfolding record_transaction execute_transaction
  process_transaction s l idx tx sender = do
    (recorded, receipt) ← record_transaction s l idx tx sender
    elim (cached_state s.prev tx.tx_hash) [
      | some state ↦
          ok
            (record recorded { builder = with_transaction_state recorded.builder tx.tx_hash state })
      | none ↦ execute_transaction s recorded receipt tx sender
    ]

  unfoldable pub process_transactions :
      Scope → Loop → ℕ → List (TransactionSigned × Address) → Result Loop
  unfolding process_transaction
  process_transactions s l idx [] = ok l
  process_transactions s l idx ((tx, sender) ∷ rest) = do
    l' ← process_transaction s l idx tx sender
    process_transactions s l' (suc idx) rest
