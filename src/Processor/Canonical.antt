-- ===== src/Processor/Canonical.antt =====
-- `process_canonical_block` and `compare_with_canonical` of
-- crates/execution/flashblocks/src/processor.rs.
use ethgas_reth.Base.{
  ℕ, ltb, ◌==◌, Bool, false, List, [], ◌∷◌, ◌++◌, map, reverse, Option, none, some, keep, first,
  is_some,
}
use ethgas_reth.Fallible.{Fallible}
use ethgas_reth.Types.{B256, BlockNumber, Block}
use ethgas_reth.Payload.{FlashBlock}
use ethgas_reth.Error.{Result, ok, err, execution, status_mismatch}
use ethgas_reth.Validation.Reorg.{
  ReorgDetectionResult, canonical_extends_tracked, untracked, detect, requires_rebuild,
}
use ethgas_reth.Validation.Oracle.{
  CanonicalMismatch, withdrawals_root, requests_hash, slot_number, transaction_prefix, compare,
}
use ethgas_reth.Validation.Reconcile.{
  ReconciliationStrategy, catch_up, handle_reorg, depth_limit_exceeded, continue, no_pending_state,
  reconcile,
}
use ethgas_reth.World.{Spec, Evm, View}
use ethgas_reth.Pending.{
  PendingBlocks, tx_hash, get_transactions_for_block, header_for_block, latest_block_number,
  earliest_block_number,
}
use ethgas_reth.Processor.Build.{build_pending_state}
use ethgas_reth.Processor.State.{
  Arc, Snapshot, Metric, pending_clear_catchup, pending_rebase_canonical_extended,
  pending_rebase_untracked, pending_clear_reorg, pending_withdrawals_root_mismatch,
  pending_requests_hash_mismatch, pending_slot_number_mismatch, pending_tx_prefix_violation,
  transaction_status_mismatch, effective_canonical_number,
}

-- What a handler measures, and its result.
abbrev pub Outcome : Type 0 → Type 0
Outcome A = List Metric × Result (Option (Arc A))

-- `Arc::new` at a fresh address.
abbrev pub share : {A : Type 0} → ℕ → Option A → Option (Arc A)
share address none = none
share address (some a) = some (record { address = address; value = a })

-- `build_pending_state` counts a status mismatch, the only error that it counts.
abbrev pub built : {A : Type 0} → ℕ → Result (Option A) → Outcome A
built address (ok pending) = ([], ok (share address pending))
built address (err (execution (status_mismatch hash success))) =
    (transaction_status_mismatch ∷ [], err (execution (status_mismatch hash success)))
built address (err e) = ([], err e)

abbrev pub counter : CanonicalMismatch → Metric
counter withdrawals_root = pending_withdrawals_root_mismatch
counter requests_hash = pending_requests_hash_mismatch
counter slot_number = pending_slot_number_mismatch
counter transaction_prefix = pending_tx_prefix_violation

-- The block's latest flashblock carries a requests list.
unfoldable pub requests_from_producer : List FlashBlock → BlockNumber → Bool
requests_from_producer flashblocks n =
    elim (first (keep (λ fb. fb.metadata.block_number == n) (reverse flashblocks))) [
      | none ↦ false
      | some fb ↦ is_some fb.diff.requests
    ]

unfoldable pub compare_with_canonical :
    {S B : Type 0} → PendingBlocks S B → Block → ReorgDetectionResult → List Metric
compare_with_canonical pending block reorg = elim (header_for_block pending block.header.number) [
  | none ↦ []
  | some header ↦ map counter (
      compare header.header block.header
        (requests_from_producer pending.flashblocks block.header.number) reorg)
]

abbrev pub reorg_metric : ReorgDetectionResult → Metric
reorg_metric (canonical_extends_tracked t c) = pending_rebase_canonical_extended
reorg_metric (untracked c) = pending_rebase_untracked
reorg_metric _ = pending_clear_reorg

-- `flashblocks.retain(|fb| fb.metadata.block_number > canonical_number)`
unfoldable pub above : BlockNumber → List FlashBlock → List FlashBlock
above n = keep (λ fb. ltb n fb.metadata.block_number)

abbrev pub measured : {A : Type 0} → List Metric → Outcome A → Outcome A
measured ms (ms', r) = (ms ++ ms', r)

abbrev pub block_hashes : Block → List B256
block_hashes block = map (λ tx. tx.tx_hash) block.transactions

-- The verdict on the transactions that pending tracks for the block.
unfoldable pub reorg_of : {S B : Type 0} → PendingBlocks S B → Block → ReorgDetectionResult
reorg_of pending block =
    detect (map tx_hash (get_transactions_for_block pending block.header.number))
      (block_hashes block)

module _ (spec : Spec) (evm : Evm) (max_depth : ℕ) (view : View evm) (address : ℕ) where
  -- The arms of the match on the strategy.
  unfoldable pub reconcile_pending :
      Arc (Snapshot evm)
      → ReorgDetectionResult
      → (canonical : BlockNumber) → ReconciliationStrategy
      → Outcome (Snapshot evm)
  reconcile_pending prev reorg canonical catch_up = (pending_clear_catchup ∷ [], ok none)
  reconcile_pending prev reorg canonical handle_reorg = measured (reorg_metric reorg ∷ []) (
      built address
        (build_pending_state spec evm view none (above canonical prev.value.flashblocks)))
  reconcile_pending prev reorg canonical (depth_limit_exceeded d m) =
      built address
        (build_pending_state spec evm view none (above canonical prev.value.flashblocks))
  reconcile_pending prev reorg canonical continue =
      built address (build_pending_state spec evm view (some prev.value) prev.value.flashblocks)
  reconcile_pending prev reorg canonical no_pending_state = ([], ok none)

  unfoldable pub process_canonical_block :
      Fallible BlockNumber → Option (Arc (Snapshot evm)) → Block → Outcome (Snapshot evm)
  unfolding reconcile_pending
  process_canonical_block best none block = ([], ok none)
  process_canonical_block best (some prev) block =
      let reorg = reorg_of prev.value block in
      let canonical = effective_canonical_number best block.header.number in
      measured (compare_with_canonical prev.value block reorg) (
        reconcile_pending prev reorg canonical (
          reconcile (some (earliest_block_number prev.value))
            (some (latest_block_number prev.value)) canonical max_depth (requires_rebuild reorg)))
