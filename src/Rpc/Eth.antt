-- ===== src/Rpc/Eth.antt =====
-- `EthApiExt` of crates/execution/flashblocks/src/rpc/eth.rs. A method takes the published snapshot
-- as it reads it, and reth's `eth` API as that answers it, and gives the counters that go up and its
-- reply. `send_raw_transaction_sync` is in `Rpc/Sync.antt`.
use ethgas_reth.Base.{
  ℕ, leb, if◌then◌else◌, Bool, true, false, not, List, [], ◌∷◌, ◌++◌, Option, none, some, length,
  keep, is_some, opt_eq, ◌&&◌, ◌||◌,
}
use ethgas_reth.Fallible.{Fallible, done, failed, ◌>>=◌}
use ethgas_reth.Types.{
  B256, Address, U256, BlockNumber, Transaction, TransactionReceipt, Log, Filter, BlockNumberOrTag,
  at_latest, at_pending, BlockId, tagged,
}
use ethgas_reth.Pending
use ethgas_reth.Pending.{
  PendingBlocks, RpcBlock, BlockTransactions, full, hashes, latest_block_number,
}
use ethgas_reth.Pending.Api.{
  get_block, get_transaction_receipt, get_block_receipts, get_transaction_by_index,
  get_transaction_by_hash, get_pending_logs,
}

-- The counters of crates/execution/flashblocks/src/metrics.rs that the methods move.
pub data Metric : Type 0 where
  rpc_get_block_by_number rpc_get_transaction_receipt rpc_get_balance rpc_get_transaction_count :
      Metric
  rpc_get_transaction_by_hash rpc_call rpc_estimate_gas rpc_simulate_v1 rpc_get_logs : Metric
  rpc_get_block_transaction_count_by_number rpc_get_block_receipts : Metric
  rpc_get_transaction_by_block_number_and_index : Metric
  rpc_send_raw_transaction_sync_flashblock rpc_send_raw_transaction_sync_canonical : Metric
  rpc_send_raw_transaction_sync_timeout : Metric

abbrev pub Reply : Type 0 → Type 0
Reply A = List Metric × Fallible A

-- `Filter` of getLogs: the blocks that it asks for, and what it asks of a log.
pub data FilterBlockOption : Type 0 where
  range : (from_block to_block : Option BlockNumberOrTag) → FilterBlockOption
  at_block_hash : B256 → FilterBlockOption

pub record LogFilter : Type 0 where
  pub block_option : FilterBlockOption
  pub matches : Filter

-- Reth's `eth` API with its provider and its log filter. Requests, overrides and outcomes of calls
-- are numbers that the code hands on.
pub record EthApi : Type 0 where
  pub pending_block_number : Fallible (Option BlockNumber)
  pub block_number : B256 → Fallible (Option BlockNumber)
  pub rpc_block : BlockId → Bool → Fallible (Option RpcBlock)
  pub transaction_receipt : B256 → Fallible (Option TransactionReceipt)
  pub balance : Address → Option BlockId → Fallible U256
  pub transaction_count : Address → Option BlockId → Fallible U256
  pub transaction_by_hash : B256 → Fallible (Option Transaction)
  pub send_raw_transaction_sync_timeout : ℕ
  pub send_raw_transaction : ℕ → Fallible B256
  pub call : (request : ℕ) → Option BlockId → (overrides : ℕ) → Fallible ℕ
  pub estimate_gas_at : (request : ℕ) → BlockId → (overrides : ℕ) → Fallible U256
  pub simulate_v1 : (request : ℕ) → Option BlockId → Fallible ℕ
  pub logs : LogFilter → Fallible (List Log)
  pub block_transaction_count : BlockId → Fallible (Option ℕ)
  pub block_receipts : BlockId → Fallible (Option (List TransactionReceipt))
  pub transaction_by_block_and_tx_index : BlockId → ℕ → Fallible (Option Transaction)

abbrev pub is_pending : BlockNumberOrTag → Bool
is_pending at_pending = true
is_pending _ = false

abbrev pub is_pending_id : BlockId → Bool
is_pending_id (tagged tag) = is_pending tag
is_pending_id _ = false

-- `unwrap_or_default()`
abbrev pub or_default : Option BlockId → BlockId
or_default none = tagged at_latest
or_default (some id) = id

-- The counter of a method for the pending block.
abbrev pub count_if : Bool → Metric → List Metric
count_if true metric = metric ∷ []
count_if false metric = []

-- The key by which the code tells logs apart.
abbrev pub is_same_log : Log → Log → Bool
is_same_log a b = opt_eq a.block_number b.block_number && opt_eq a.log_index b.log_index

abbrev pub was_fetched : List Log → Log → Bool
was_fetched [] log = false
was_fetched (other ∷ fetched) log = is_same_log other log || was_fetched fetched log

module _ {S B : Type 0} (eth : EthApi) (snapshot : Option (PendingBlocks S B)) where
  -- The builder's balance, while `pending` is the snapshot.
  unfoldable pub is_current : PendingBlocks S B → Bool
  is_current pending = elim eth.pending_block_number [
    | failed reason ↦ true
    | done none ↦ true
    | done (some number) ↦ not (leb (latest_block_number pending) number)
  ]

  unfoldable pub is_anchored : PendingBlocks S B → Bool
  is_anchored pending = elim pending.anchor [
    | none ↦ false
    | some anchor ↦ elim (eth.block_number anchor.hash) [
      | failed reason ↦ false
      | done found ↦ is_some found
    ]
  ]

  unfoldable pub builder_balance : Address → Option U256
  unfolding is_current is_anchored
  builder_balance address = elim snapshot [
    | none ↦ none
    | some pending ↦
        if is_current pending
        then (if is_anchored pending then Pending.get_balance pending address else none)
        else none
  ]

  unfoldable pub block_by_number : BlockNumberOrTag → Bool → Reply (Option RpcBlock)
  unfolding get_block
  block_by_number tag is_full =
      if is_pending tag
      then (
        rpc_get_block_by_number ∷ [],
        if is_some snapshot
            then done (get_block snapshot is_full)
            else eth.rpc_block (tagged tag) is_full,
      )
      else ([], eth.rpc_block (tagged tag) is_full)

  -- The canonical chain is asked first: a snapshot may not be cleared yet.
  unfoldable pub receipt_by_hash : B256 → Reply (Option TransactionReceipt)
  unfolding get_transaction_receipt
  receipt_by_hash tx_hash = elim (eth.transaction_receipt tx_hash) [
    | failed reason ↦ ([], failed reason)
    | done (some receipt) ↦ ([], done (some receipt))
    | done none ↦ elim (get_transaction_receipt snapshot tx_hash) [
      | some receipt ↦ (rpc_get_transaction_receipt ∷ [], done (some receipt))
      | none ↦ ([], done none)
    ]
  ]

  unfoldable pub balance_at : Address → Option BlockId → Reply U256
  unfolding builder_balance
  balance_at address id =
      if is_pending_id (or_default id)
      then (
        rpc_get_balance ∷ [],
        elim (builder_balance address) [
          | some balance ↦ done balance
          | none ↦ eth.balance address id
        ],
      )
      else ([], eth.balance address id)

  unfoldable pub transaction_count : Address → Option BlockId → Reply U256
  transaction_count address id = (
    count_if (is_pending_id (or_default id)) rpc_get_transaction_count,
    eth.transaction_count address id,
  )

  unfoldable pub transaction_by_hash : B256 → Reply (Option Transaction)
  unfolding get_transaction_by_hash
  transaction_by_hash tx_hash = elim (eth.transaction_by_hash tx_hash) [
    | failed reason ↦ ([], failed reason)
    | done (some tx) ↦ ([], done (some tx))
    | done none ↦ elim (get_transaction_by_hash snapshot tx_hash) [
      | some tx ↦ (rpc_get_transaction_by_hash ∷ [], done (some tx))
      | none ↦ ([], done none)
    ]
  ]

  unfoldable pub call : ℕ → Option BlockId → ℕ → Reply ℕ
  call request id overrides = (
    count_if (is_pending_id (or_default id)) rpc_call,
    eth.call request (some (or_default id)) overrides,
  )

  -- Without a block, the estimate runs on the pending state while there is a snapshot.
  unfoldable pub estimate_id : Option BlockId → BlockId
  estimate_id (some id) = id
  estimate_id none = if is_some snapshot then tagged at_pending else tagged at_latest

  unfoldable pub estimate_gas : ℕ → Option BlockId → ℕ → Reply U256
  unfolding estimate_id
  estimate_gas request id overrides = (
    count_if (is_pending_id (estimate_id id)) rpc_estimate_gas,
    eth.estimate_gas_at request (estimate_id id) overrides,
  )

  unfoldable pub simulate_v1 : ℕ → Option BlockId → Reply ℕ
  simulate_v1 request id = (
    count_if (is_pending_id (or_default id)) rpc_simulate_v1,
    eth.simulate_v1 request (some (or_default id)),
  )

  -- The logs up to the latest block, if the range starts before the pending one.
  unfoldable pub historical_logs : Option BlockNumberOrTag → LogFilter → Fallible (List Log)
  historical_logs (some at_pending) filter = done []
  historical_logs from_block filter =
      eth.logs (record filter { block_option = range from_block (some at_latest) })

  unfoldable pub merged_logs : LogFilter → List Log → List Log
  unfolding get_pending_logs
  merged_logs filter historical =
      historical
      ++ keep (λ log. not (was_fetched historical log)) (get_pending_logs snapshot filter.matches)

  unfoldable pub get_logs : LogFilter → Reply (List Log)
  unfolding historical_logs merged_logs
  get_logs filter = elim filter.block_option [
    | range from_block (some at_pending) ↦ (
      rpc_get_logs ∷ [],
      if is_some snapshot
          then historical_logs from_block filter
            >>= (λ historical. done (merged_logs filter historical))
          else eth.logs filter,
    )
    | other ↦ ([], eth.logs filter)
  ]

  -- `BlockTransactions::len`
  unfoldable pub transactions_len : BlockTransactions → ℕ
  transactions_len (full transactions) = length transactions
  transactions_len (hashes txs) = length txs

  unfoldable pub transaction_count_by_number : BlockNumberOrTag → Reply (Option ℕ)
  unfolding get_block transactions_len
  transaction_count_by_number tag =
      if is_pending tag
      then (
        rpc_get_block_transaction_count_by_number ∷ [],
        elim (get_block snapshot false) [
          | some block ↦ done (some (transactions_len block.transactions))
          | none ↦ eth.block_transaction_count (tagged tag)
        ],
      )
      else ([], eth.block_transaction_count (tagged tag))

  unfoldable pub block_receipts : BlockId → Reply (Option (List TransactionReceipt))
  unfolding get_block_receipts
  block_receipts id =
      if is_pending_id id
      then (
        rpc_get_block_receipts ∷ [],
        elim (get_block_receipts snapshot) [
          | some receipts ↦ done (some receipts)
          | none ↦ eth.block_receipts id
        ],
      )
      else ([], eth.block_receipts id)

  unfoldable pub transaction_by_number_and_index : BlockNumberOrTag → ℕ → Reply (Option Transaction)
  unfolding get_transaction_by_index
  transaction_by_number_and_index tag index =
      if is_pending tag
      then (
        rpc_get_transaction_by_block_number_and_index ∷ [],
        if is_some snapshot
            then done (get_transaction_by_index snapshot index)
            else eth.transaction_by_block_and_tx_index (tagged tag) index,
      )
      else ([], eth.transaction_by_block_and_tx_index (tagged tag) index)
