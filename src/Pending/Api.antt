-- ===== src/Pending/Api.antt =====
-- `PendingBlocksAPI` of crates/execution/flashblocks/src/traits.rs for the published snapshot, which
-- may be absent.
use mathlib.Core.Option
use ethgas_reth.Base.{ℕ, Bool, List, [], Option, none, some}
use ethgas_reth.Types.{
  B256, Address, U256, Transaction, TransactionReceipt, Log, Filter, BlockNumberOrTag, at_latest,
}
use ethgas_reth.Pending
use ethgas_reth.Pending.{PendingBlocks, RpcBlock, canonical_block_number}

module _ {S B : Type 0} (guard : Option (PendingBlocks S B)) where
  unfoldable pub get_canonical_block_number : BlockNumberOrTag
  get_canonical_block_number = elim guard [ none ↦ at_latest | some p ↦ canonical_block_number p ]

  unfoldable pub get_block : Bool → Option RpcBlock
  get_block full = Option.map (λ p. Pending.get_latest_block p full) guard

  unfoldable pub get_transaction_receipt : B256 → Option TransactionReceipt
  get_transaction_receipt hash = elim guard [ none ↦ none | some p ↦ Pending.get_receipt p hash ]

  unfoldable pub get_block_receipts : Option (List TransactionReceipt)
  get_block_receipts = Option.map (λ p. Pending.get_latest_block_receipts p) guard

  unfoldable pub get_transaction_by_index : ℕ → Option Transaction
  get_transaction_by_index index = elim guard [
    | none ↦ none
    | some p ↦ Pending.get_latest_block_transaction p index
  ]

  unfoldable pub get_transaction_by_hash : B256 → Option Transaction
  get_transaction_by_hash hash = elim guard [
    | none ↦ none
    | some p ↦ Pending.get_transaction_by_hash p hash
  ]

  unfoldable pub get_balance : Address → Option U256
  get_balance address = elim guard [ none ↦ none | some p ↦ Pending.get_balance p address ]

  unfoldable pub get_pending_logs : Filter → List Log
  get_pending_logs filter = elim guard [ none ↦ [] | some p ↦ Pending.get_pending_logs p filter ]
