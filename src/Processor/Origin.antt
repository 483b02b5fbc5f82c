-- ===== src/Processor/Origin.antt =====
-- Where a snapshot that crates/execution/flashblocks/src/processor.rs has published comes from.
use ethgas_reth.Base.{ℕ, suc, ◌+◌, ◌≤◌, ◌<◌, ◌≡◌, ◌⊎◌, false, List, [], ◌∷◌, Option, some}
use ethgas_reth.Fallible.{Fallible, done, failed}
use ethgas_reth.Types.{BlockNumber, Block}
use ethgas_reth.Payload.{FlashBlock}
use ethgas_reth.Error.{ok, err, StateProcessorError}
use ethgas_reth.World.{Spec, Evm}
use ethgas_reth.Pending.{PendingBlocks, latest_block_number, earliest_block_number}
use ethgas_reth.Processor.State.{
  Arc, Snapshot, Processor, Reads, load_pending_or_drop_stale, is_superseded,
}
use ethgas_reth.Processor.Flashblock.{apply_flashblock, process_flashblock}
use ethgas_reth.Processor.Queue.{StateUpdate, flashblock, canonical, settled, processed}

module _ {S B : Type 0} (max_depth : ℕ) (p : PendingBlocks S B) where
  -- The snapshot starts within the depth of the tip, where the tip is known.
  abbrev pub Near : Fallible BlockNumber → Type 0
  Near (done b) = b ≤ earliest_block_number p + max_depth
  Near (failed e) = Unit

  -- It also reaches past the tip.
  abbrev pub Extends : Fallible BlockNumber → Type 0
  Extends (done b) = (b ≤ earliest_block_number p + max_depth) × (b < latest_block_number p)
  Extends (failed e) = Unit

module _ (spec : Spec) (evm : Evm) (max_depth : ℕ) where
  -- The snapshot stayed from before, and starts within the depth of the tip read at loading.
  abbrev pub IsKept : Reads evm → Processor evm → Arc (Snapshot evm) → Type 0
  IsKept reads s a = (s.published ≡ some a) × Near max_depth a.value reads.load_tip

  -- The snapshot is the one that processing this flashblock gave, on what was loaded, and extends
  -- the tip that was read at its publication.
  abbrev pub IsBuilt : Reads evm → FlashBlock → Processor evm → Arc (Snapshot evm) → Type 0
  IsBuilt reads fb s a =
      let loaded = load_pending_or_drop_stale max_depth reads.load_tip s in
      (is_superseded reads.superseded_tip reads.last_canonical_block fb ≡ false)
      × ((process_flashblock spec evm reads.view loaded.0.next_address loaded.1 fb).1 ≡ ok (some a))
      × Extends max_depth a.value reads.publish_tip

  -- The snapshot starts within the depth of the tip that each of the flashblocks reads at loading.
  abbrev pub Outlasts : (ℕ → Reads evm) → ℕ → List FlashBlock → Arc (Snapshot evm) → Type 0
  Outlasts reads n [] a = Unit
  Outlasts reads n (fb ∷ fbs) a =
      Near max_depth a.value (reads n).load_tip × Outlasts reads (suc n) fbs a

  -- One of the flashblocks built the snapshot, with the reads of its own place, on the state that
  -- those before it left, and the snapshot outlasts those behind it.
  abbrev pub IsReplayed :
      (ℕ → Reads evm) → ℕ → List FlashBlock → Processor evm → Arc (Snapshot evm) → Type 0
  IsReplayed reads n [] s a = ⊥
  IsReplayed reads n (fb ∷ fbs) s a =
      let loaded = load_pending_or_drop_stale max_depth (reads n).load_tip s in
      (IsBuilt (reads n) fb s a × Outlasts reads (suc n) fbs a)
      ⊎ IsReplayed reads (suc n) fbs
          (apply_flashblock spec evm max_depth (reads n) loaded.1 fb loaded.0) a

  -- The snapshot that processing a canonical block gave is published and outlasts the replay, or
  -- one of the cached flashblocks built it.
  abbrev pub IsSettled :
      (ℕ → Reads evm)
      → Block
      → Option (Arc (Snapshot evm))
      → Processor evm
      → Arc (Snapshot evm)
      → Type 0
  IsSettled reads block new s a =
      let (s', cached) = settled spec evm max_depth (reads 0) block new s in
      ((new ≡ some a) × Extends max_depth a.value (reads 0).publish_tip × Outlasts reads 1 cached a)
      ⊎ IsReplayed reads 1 cached s' a

  -- Where a snapshot that is published after a turn of the loop comes from.
  abbrev pub IsPublishedBy :
      (ℕ → Reads evm) → StateUpdate → Processor evm → Arc (Snapshot evm) → Type 0
  IsPublishedBy reads (flashblock fb) s a = IsKept (reads 0) s a ⊎ IsBuilt (reads 0) fb s a
  IsPublishedBy reads (canonical block) s a =
      let (result, s') = processed spec evm max_depth (reads 0) block s in
      ((e : StateProcessorError) × (result ≡ err e) × IsKept (reads 0) s a)
      ⊎ ((new : Option (Arc (Snapshot evm))) × (result ≡ ok new) × IsSettled reads block new s' a)
