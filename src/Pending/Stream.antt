-- ===== src/Pending/Stream.antt =====
-- What crates/execution/flashblocks/src/pending_blocks.rs streams to subscribers: the transactions
-- and logs of the latest flashblock alone.
use ethgas_reth.Base.{if◌then◌else◌, List, map, drop, Option, none, some, lookup, Map, filter_map}
use ethgas_reth.Types.{B256, Transaction, TransactionReceipt, Log, Filter}
use ethgas_reth.Pending.{
  PendingBlocks, TransactionWithLogs, FlashblockBatch, tx_hash, latest_block_number,
  transaction_with_logs, any_matches, collect_logs, previous_flashblocks_tx_count,
}

-- The closure of `filter_map` with no filter, and with one.
abbrev pub entry : Map TransactionReceipt → Transaction → Option TransactionWithLogs
entry receipts tx = elim (lookup (tx_hash tx) receipts) [
  | none ↦ none
  | some receipt ↦ some (transaction_with_logs tx receipt)
]

abbrev pub filtered_entry :
    Filter → Map TransactionReceipt → Transaction → Option TransactionWithLogs
filtered_entry filter receipts tx = elim (lookup (tx_hash tx) receipts) [
  | none ↦ none
  | some receipt ↦
      if any_matches filter receipt.logs then some (transaction_with_logs tx receipt) else none
]

module _ {S B : Type 0} (p : PendingBlocks S B) where
  -- `self.transactions.iter().skip(prev_count)`
  unfoldable pub latest_transactions : List Transaction
  latest_transactions = drop (previous_flashblocks_tx_count p) p.transactions

  unfoldable pub get_latest_flashblock_logs : Filter → List Log
  get_latest_flashblock_logs filter = collect_logs filter p.transaction_receipts latest_transactions

  unfoldable pub get_latest_flashblock_transactions_with_logs : List TransactionWithLogs
  get_latest_flashblock_transactions_with_logs =
      filter_map (entry p.transaction_receipts) latest_transactions

  unfoldable pub get_latest_flashblock_transactions_with_logs_filtered :
      Filter → List TransactionWithLogs
  get_latest_flashblock_transactions_with_logs_filtered filter =
      filter_map (filtered_entry filter p.transaction_receipts) latest_transactions

  unfoldable pub get_latest_flashblock_batch : Option Filter → FlashblockBatch
  get_latest_flashblock_batch filter = record {
    block_number = latest_block_number p;
    flashblock_index = p.latest_flashblock_index;
    transactions = elim filter [
      | some f ↦ get_latest_flashblock_transactions_with_logs_filtered f
      | none ↦ get_latest_flashblock_transactions_with_logs
    ];
  }

  unfoldable pub get_latest_flashblock_transaction_hashes : List B256
  get_latest_flashblock_transaction_hashes = map tx_hash latest_transactions
