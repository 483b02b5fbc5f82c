-- ===== src/Pending/Tests.antt =====
-- Runs of crates/execution/flashblocks/src/pending_blocks.rs on a sample snapshot.
use ethgas_reth.Base.{ℕ, ◌≡◌, ◌==◌, refl, List, [], ◌∷◌, ◌++◌}
use ethgas_reth.Types.{Filter, Transaction}
use ethgas_reth.Pending.{
  PendingBlocks, get_pending_transaction_hashes, get_pending_logs, collect_logs,
}
use ethgas_reth.Pending.Builder.{PendingBlocksBuilder, new_builder}
use ethgas_reth.Pending.Stream.{
  get_latest_flashblock_transaction_hashes, get_latest_flashblock_logs,
}
use ethgas_reth.Pending.Delta.{total, stream-continues}
use ethgas_reth.Samples.{first_of_11, second_of_11, pending_11, transaction}

-- The transaction 31 comes twice.
abbrev repeated : List Transaction
repeated = transaction 11 31 ∷ transaction 11 32 ∷ transaction 11 31 ∷ []

abbrev empty_builder : PendingBlocksBuilder ℕ ℕ
empty_builder = new_builder 0

-- The sample snapshot with one more flashblock.
abbrev longer : PendingBlocks ℕ ℕ
longer = record pending_11 {
  flashblocks = first_of_11 ∷ second_of_11 ∷ [];
  latest_flashblock_index = 1;
  transactions = transaction 11 31 ∷ transaction 11 32 ∷ [];
}

abbrev about_77 : Filter
about_77 log = log == 77

stream-continues_example :
    (get_pending_transaction_hashes longer
      ≡ get_pending_transaction_hashes pending_11
        ++ get_latest_flashblock_transaction_hashes longer)
    × (get_pending_logs longer about_77
        ≡ collect_logs about_77 longer.transaction_receipts pending_11.transactions
          ++ get_latest_flashblock_logs longer about_77)
unfolding total
stream-continues_example =
    stream-continues pending_11 longer second_of_11 (transaction 11 32 ∷ []) refl refl refl about_77
