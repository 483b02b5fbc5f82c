-- ===== src/Pending/Builder.antt =====
-- `PendingBlocksBuilder` of crates/execution/flashblocks/src/pending_blocks.rs.
use ethgas_reth.Base.{
  if◌then◌else◌, List, [], ◌∷◌, ◌++◌, Option, none, some, Map, lookup, insert, is_some, first, last,
}
use ethgas_reth.Types.{B256, Address, U256, SealedHeader, Transaction, TransactionReceipt}
use ethgas_reth.Payload.{FlashBlock}
use ethgas_reth.Error.{
  Result, ok, err, ok_or, ◌>>=◌, BuildError, missing_headers, no_flashblocks, duplicate_transaction,
  build_failed,
}
use ethgas_reth.Pending.{PendingBlocks, tx_hash}

pub record PendingBlocksBuilder (S B : Type 0) : Type 0 where
  pub flashblocks : List FlashBlock
  pub headers : List SealedHeader
  pub transactions : List Transaction
  pub account_balances : Map U256
  pub transaction_receipts : Map TransactionReceipt
  pub transactions_by_hash : Map Transaction
  pub transaction_state : Map S
  pub transaction_senders : Map Address
  pub bundle_state : B
  pub anchor : Option SealedHeader
  pub deferred_error : Option BuildError

-- `get_or_insert(e)`
abbrev pub or_insert : BuildError → Option BuildError → Option BuildError
or_insert e none = some e
or_insert e (some f) = some f

-- `PendingBlocksBuilder::new`, from the default bundle state.
unfoldable pub new_builder : {S B : Type 0} → B → PendingBlocksBuilder S B
new_builder default = record {
  flashblocks = [];
  headers = [];
  transactions = [];
  account_balances = [];
  transaction_receipts = [];
  transactions_by_hash = [];
  transaction_state = [];
  transaction_senders = [];
  bundle_state = default;
  anchor = none;
  deferred_error = none;
}

module _ {S B : Type 0} (b : PendingBlocksBuilder S B) where
  unfoldable pub with_flashblocks : List FlashBlock → PendingBlocksBuilder S B
  with_flashblocks fbs = record b { flashblocks = b.flashblocks ++ fbs }

  unfoldable pub with_header : SealedHeader → PendingBlocksBuilder S B
  with_header header = record b { headers = b.headers ++ header ∷ [] }

  unfoldable pub with_transaction : Transaction → PendingBlocksBuilder S B
  with_transaction tx =
      if is_some (lookup (tx_hash tx) b.transactions_by_hash)
      then record b {
        deferred_error = or_insert (duplicate_transaction (tx_hash tx)) b.deferred_error;
      }
      else record b {
        transactions_by_hash = insert (tx_hash tx) tx b.transactions_by_hash;
        transactions = b.transactions ++ tx ∷ [];
      }

  unfoldable pub with_transaction_state : B256 → S → PendingBlocksBuilder S B
  with_transaction_state hash state = record b {
    transaction_state = insert hash state b.transaction_state;
  }

  unfoldable pub with_transaction_sender : B256 → Address → PendingBlocksBuilder S B
  with_transaction_sender hash sender = record b {
    transaction_senders = insert hash sender b.transaction_senders;
  }

  unfoldable pub with_receipt : B256 → TransactionReceipt → PendingBlocksBuilder S B
  with_receipt hash receipt = record b {
    transaction_receipts = insert hash receipt b.transaction_receipts;
  }

  unfoldable pub with_account_balance : Address → U256 → PendingBlocksBuilder S B
  with_account_balance address balance = record b {
    account_balances = insert address balance b.account_balances;
  }

  unfoldable pub with_bundle_state : B → PendingBlocksBuilder S B
  with_bundle_state bundle = record b { bundle_state = bundle }

  unfoldable pub with_anchor : SealedHeader → PendingBlocksBuilder S B
  with_anchor anchor = record b { anchor = some anchor }

  -- `build`, once no error is deferred.
  abbrev assemble_pending : Result (PendingBlocks S B)
  assemble_pending = do
    earliest ← ok_or (first b.headers) (build_failed missing_headers)
    latest ← ok_or (last b.headers) (build_failed missing_headers)
    fb ← ok_or (last b.flashblocks) (build_failed no_flashblocks)
    ok (record {
      earliest_header = earliest;
      latest_header = latest;
      headers = b.headers;
      latest_flashblock_index = fb.index;
      flashblocks = b.flashblocks;
      transactions = b.transactions;
      account_balances = b.account_balances;
      transaction_receipts = b.transaction_receipts;
      transactions_by_hash = b.transactions_by_hash;
      transaction_state = b.transaction_state;
      transaction_senders = b.transaction_senders;
      bundle_state = b.bundle_state;
      anchor = b.anchor;
    })

  unfoldable pub build : Result (PendingBlocks S B)
  build = elim b.deferred_error [ some e ↦ err (build_failed e) | none ↦ assemble_pending ]
