-- ===== src/Processor/Reconciling.antt =====
-- What `process_canonical_block` of crates/execution/flashblocks/src/processor.rs makes of a snapshot.
use ethgas_reth.Base.{
  ℕ, ◌+◌, ◌≤◌, ◌<◌, ◌≡◌, ◌≢◌, ◌⊎◌, refl, arith, Option, none, some, inl, inr, map,
}
use ethgas_reth.Fallible.{Fallible}
use ethgas_reth.Types.{BlockNumber, Block}
use ethgas_reth.Error.{Result, ok}
use ethgas_reth.Validation.Reorg.{requires_rebuild, requires_rebuild-detect}
use ethgas_reth.Validation.Reconcile.{
  ReconciliationStrategy, catch_up, handle_reorg, depth_limit_exceeded, continue, no_pending_state,
  reconcile, Fits, reconcile-eq_iff_Fits,
}
use ethgas_reth.World.{Spec, Evm, View}
use ethgas_reth.Pending.{
  tx_hash, get_transactions_for_block, latest_block_number, earliest_block_number,
}
use ethgas_reth.Processor.Build.{build_pending_state}
use ethgas_reth.Processor.State.{Arc, Snapshot, effective_canonical_number}
use ethgas_reth.Processor.Canonical.{
  built, above, block_hashes, reorg_of, reconcile_pending, process_canonical_block,
}

module _ (spec : Spec) (evm : Evm) (max_depth : ℕ) (view : View evm) (address : ℕ) where
  -- The three ends of a snapshot: dropped, rebuilt from its flashblocks above the canonical
  -- height without what it had, or extended as it is.
  abbrev pub Reconciled :
      Arc (Snapshot evm) → Block → BlockNumber → Result (Option (Arc (Snapshot evm))) → Type 0
  Reconciled prev block canonical r =
      let tracked = map tx_hash (get_transactions_for_block prev.value block.header.number) in
      let far = earliest_block_number prev.value + max_depth < canonical in
      ((latest_block_number prev.value ≤ canonical) × (r ≡ ok none))
      ⊎ (((canonical < latest_block_number prev.value)
            × ((tracked ≢ block_hashes block) ⊎ far)
            × (r
                ≡ (built address (
                    build_pending_state spec evm view none
                      (above canonical prev.value.flashblocks))).1))
          ⊎ ((canonical < latest_block_number prev.value)
              × (tracked ≡ block_hashes block)
              × (canonical ≤ earliest_block_number prev.value + max_depth)
              × (r
                  ≡ (built address (
                      build_pending_state spec evm view (some prev.value)
                        prev.value.flashblocks)).1)))

  strategy-Reconciled :
      (prev : Arc (Snapshot evm)) (block : Block) (c : BlockNumber) (s : ReconciliationStrategy)
      → Fits
          (earliest_block_number prev.value)
          (latest_block_number prev.value)
          c
          max_depth
          (requires_rebuild (reorg_of prev.value block))
          s
      → Reconciled prev block c
          (reconcile_pending spec evm max_depth view address prev (reorg_of prev.value block) c s).1
  unfolding reconcile_pending reorg_of
  strategy-Reconciled prev block c catch_up f = inl (f, refl)
  strategy-Reconciled prev block c handle_reorg f =
      let hashes = map tx_hash (get_transactions_for_block prev.value block.header.number) in
      let same = requires_rebuild-detect hashes (block_hashes block) in
      inr (inl (f.0, inl (λ t. cc (same.1 t, f.1)), refl))
  strategy-Reconciled prev block c (depth_limit_exceeded k m) f =
      inr (inl (f.0, inr (omega arith), refl))
  strategy-Reconciled prev block c continue f =
      let hashes = map tx_hash (get_transactions_for_block prev.value block.header.number) in
      let same = requires_rebuild-detect hashes (block_hashes block) in
      inr (inr (f.0, same.0 f.1, f.2, refl))
  strategy-Reconciled prev block c no_pending_state f = elim f [ ]

  -- A canonical block at a snapshot's height or above it, by the tip or the block, drops the
  -- snapshot. Below that height the snapshot is built anew, from its flashblocks above the
  -- canonical height, when its transactions for the block are not the block's, or when it starts
  -- more than the depth below; and it is built again on what it had, from all its flashblocks,
  -- when neither holds.
  pub process_canonical_block-Reconciled :
      (best : Fallible BlockNumber) (prev : Arc (Snapshot evm)) (block : Block)
      → Reconciled prev block
          (effective_canonical_number best block.header.number)
          (process_canonical_block spec evm max_depth view address best (some prev) block).1
  unfolding process_canonical_block
  process_canonical_block-Reconciled best prev block =
      let c = effective_canonical_number best block.header.number in
      let e = earliest_block_number prev.value in
      let l = latest_block_number prev.value in
      let rebuild = requires_rebuild (reorg_of prev.value block) in
      strategy-Reconciled prev block c (reconcile (some e) (some l) c max_depth rebuild) (
        (reconcile-eq_iff_Fits e l c max_depth rebuild
            (reconcile (some e) (some l) c max_depth rebuild)).0
          refl)
