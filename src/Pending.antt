-- ===== src/Pending.antt =====
-- crates/execution/flashblocks/src/pending_blocks.rs: the pending state built from flashblocks.
-- `EvmState` and `BundleState` are the types of revm, and nothing of them is assumed.
pub mod Builder
pub mod Build
pub mod Stream
pub mod Delta
pub mod Api
mod Tests
use mathlib.Core.Option
use ethgas_reth.Base.{
  ℕ, ◌+◌, ◌-◌, ◌%◌, u64_mod, ◌==◌, leb, if◌then◌else◌, Bool, true, false, ◌||◌, List, [], ◌∷◌, ◌++◌,
  map, reverse, Option, none, some, length, drop, get_elem?, Map, lookup, insert, is_some, first,
  last, keep, filter_map,
}
use ethgas_reth.Types.{
  B256, Address, U256, BlockNumber, PayloadId, Header, SealedHeader, Transaction,
  TransactionReceipt, Log, Filter, BlockNumberOrTag, at_number,
}
use ethgas_reth.Payload.{FlashBlock}

pub record PendingBlocks (S B : Type 0) : Type 0 where
  pub earliest_header : SealedHeader
  pub latest_header : SealedHeader
  pub headers : List SealedHeader
  pub latest_flashblock_index : ℕ
  pub flashblocks : List FlashBlock
  pub transactions : List Transaction
  pub account_balances : Map U256
  pub transaction_receipts : Map TransactionReceipt
  pub transactions_by_hash : Map Transaction
  pub transaction_state : Map S
  pub transaction_senders : Map Address
  pub bundle_state : B
  pub anchor : Option SealedHeader

abbrev pub tx_hash : Transaction → B256
tx_hash tx = tx.inner.tx_hash

pub record TransactionWithLogs : Type 0 where
  pub transaction : Transaction
  pub logs : List Log
  pub gas_used : ℕ
  pub status : ℕ
  pub cumulative_gas_used : ℕ
  pub contract_address : Option Address
  pub logs_bloom : ℕ

pub record FlashblockBatch : Type 0 where
  pub block_number : BlockNumber
  pub flashblock_index : ℕ
  pub transactions : List TransactionWithLogs

pub data BlockTransactions : Type 0 where
  full : List Transaction → BlockTransactions
  hashes : List B256 → BlockTransactions

-- The block that `get_latest_block` serves. It lists no uncles.
pub record RpcBlock : Type 0 where
  pub header : SealedHeader
  pub transactions : BlockTransactions
  pub withdrawals : Option (List ℕ)

unfoldable pub transaction_with_logs : Transaction → TransactionReceipt → TransactionWithLogs
transaction_with_logs tx receipt = record {
  transaction = tx;
  logs = receipt.logs;
  gas_used = receipt.gas_used;
  status = receipt.status;
  cumulative_gas_used = receipt.cumulative_gas_used;
  contract_address = receipt.contract_address;
  logs_bloom = receipt.logs_bloom;
}

-- The logs of one receipt that match.
unfoldable pub matching : Filter → List Log → List Log
matching filter [] = []
matching filter (log ∷ logs) =
    if filter log.inner then log ∷ matching filter logs else matching filter logs

unfoldable pub any_matches : Filter → List Log → Bool
any_matches filter [] = false
any_matches filter (log ∷ logs) = filter log.inner || any_matches filter logs

-- The loop over transactions that collects the matching logs of their receipts.
unfoldable pub collect_logs : Filter → Map TransactionReceipt → List Transaction → List Log
unfolding matching
collect_logs filter receipts [] = []
collect_logs filter receipts (tx ∷ txs) = elim (lookup (tx_hash tx) receipts) [
  | none ↦ collect_logs filter receipts txs
  | some receipt ↦ matching filter receipt.logs ++ collect_logs filter receipts txs
]

-- The number of transactions in all flashblocks but the last.
unfoldable pub count_but_last : List FlashBlock → ℕ
count_but_last [] = 0
count_but_last (fb ∷ []) = 0
count_but_last (fb ∷ g ∷ fbs) = length fb.diff.transactions + count_but_last (g ∷ fbs)

module _ {S B : Type 0} (p : PendingBlocks S B) where
  abbrev pub latest_block_number : BlockNumber
  latest_block_number = p.latest_header.header.number

  abbrev pub earliest_block_number : BlockNumber
  earliest_block_number = p.earliest_header.header.number

  -- `earliest_header.number - 1` wraps at block zero.
  unfoldable pub canonical_block_number : BlockNumberOrTag
  canonical_block_number = at_number ((p.earliest_header.header.number + (u64_mod - 1)) % u64_mod)

  -- The default payload id is zero.
  unfoldable pub payload_id : PayloadId
  payload_id = elim (last p.flashblocks) [ none ↦ 0 | some fb ↦ fb.payload_id ]

  unfoldable pub header_for_block : BlockNumber → Option SealedHeader
  header_for_block n = first (keep (λ h. h.header.number == n) p.headers)

  unfoldable pub get_transaction_state : B256 → Option S
  get_transaction_state hash = lookup hash p.transaction_state

  unfoldable pub get_transaction_sender : B256 → Option Address
  get_transaction_sender hash = lookup hash p.transaction_senders

  -- A transaction without a block number counts as one of block zero.
  unfoldable pub get_transactions_for_block : BlockNumber → List Transaction
  get_transactions_for_block n = keep (λ tx. Option.get_or tx.block_number 0 == n) p.transactions

  unfoldable pub get_withdrawals : List ℕ
  get_withdrawals =
      elim (first
        (keep (λ fb. fb.metadata.block_number == latest_block_number) (reverse p.flashblocks))) [
          | none ↦ []
          | some fb ↦ fb.diff.withdrawals
        ]

  unfoldable pub get_latest_block : Bool → RpcBlock
  unfolding get_transactions_for_block get_withdrawals
  get_latest_block is_full =
      let txs = get_transactions_for_block latest_block_number in
      record {
        header = p.latest_header;
        transactions = if is_full then full txs else hashes (map tx_hash txs);
        withdrawals = some get_withdrawals;
      }

  unfoldable pub get_receipt : B256 → Option TransactionReceipt
  get_receipt hash = lookup hash p.transaction_receipts

  unfoldable pub get_latest_block_receipts : List TransactionReceipt
  unfolding get_transactions_for_block
  get_latest_block_receipts =
      filter_map (λ tx. lookup (tx_hash tx) p.transaction_receipts)
        (get_transactions_for_block latest_block_number)

  unfoldable pub get_latest_block_transaction : ℕ → Option Transaction
  unfolding get_transactions_for_block
  get_latest_block_transaction index =
      get_elem? (get_transactions_for_block latest_block_number) index

  unfoldable pub get_transaction_by_hash : B256 → Option Transaction
  get_transaction_by_hash hash = lookup hash p.transactions_by_hash

  unfoldable pub has_transaction_hash : B256 → Bool
  has_transaction_hash hash = is_some (lookup hash p.transactions_by_hash)

  unfoldable pub get_balance : Address → Option U256
  get_balance address = lookup address p.account_balances

  unfoldable pub get_pending_logs : Filter → List Log
  get_pending_logs filter = collect_logs filter p.transaction_receipts p.transactions

  unfoldable pub get_pending_transaction_hashes : List B256
  get_pending_transaction_hashes = map tx_hash p.transactions

  unfoldable pub previous_flashblocks_tx_count : ℕ
  previous_flashblocks_tx_count = count_but_last p.flashblocks
