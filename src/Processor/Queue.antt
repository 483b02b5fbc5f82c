-- ===== src/Processor/Queue.antt =====
-- `start` of crates/execution/flashblocks/src/processor.rs: one update from the queue at a time.
use ethgas_reth.Base.{ℕ, suc, List, [], ◌∷◌, Option, none, some, add_u64}
use ethgas_reth.Types.{BlockNumber, Block}
use ethgas_reth.Payload.{FlashBlock}
use ethgas_reth.Cache
use ethgas_reth.Error.{Result, ok, err}
use ethgas_reth.World.{Spec, Evm}
use ethgas_reth.Processor.Canonical.{process_canonical_block}
use ethgas_reth.Processor.Flashblock.{apply_flashblock}
use ethgas_reth.Processor.State.{
  Arc, Snapshot, Processor, Reads, measure, record_pending_snapshot, publishable,
  load_pending_or_drop_stale,
}

pub data StateUpdate : Type 0 where
  canonical : Block → StateUpdate
  flashblock : FlashBlock → StateUpdate

-- `StateProcessor::new`: an unknown best block counts as block zero.
unfoldable pub new : (evm : Evm) → Option BlockNumber → Processor evm
new evm best = record {
  published = none;
  cache = elim best [ none ↦ Cache.new 0 | some n ↦ Cache.new n ];
  sent = [];
  metrics = [];
  next_address = 0;
}

module _ (spec : Spec) (evm : Evm) (max_depth : ℕ) where
  -- The cached flashblocks in turn; the n-th of them reads `reads n`.
  unfoldable pub replay : (ℕ → Reads evm) → ℕ → List FlashBlock → Processor evm → Processor evm
  replay reads n [] s = s
  replay reads n (fb ∷ fbs) s =
      let (s', prev) = load_pending_or_drop_stale max_depth (reads n).load_tip s in
      replay reads (suc n) fbs (apply_flashblock spec evm max_depth (reads n) prev fb s')

  -- After a canonical block that was processed: publish, and move the cache on, which gives the
  -- cached flashblocks of the next block.
  unfoldable pub settled :
      Reads evm
      → Block
      → Option (Arc (Snapshot evm))
      → Processor evm
      → Processor evm × List FlashBlock
  settled reads block new s =
      let (s', candidate) = publishable max_depth reads.publish_tip new s in
      let (cache, cached) =
        Cache.drain (Cache.update_canonical s'.cache block.header.number)
          (add_u64 block.header.number 1) in
      (
        record (record_pending_snapshot candidate s') { published = candidate; cache = cache },
        cached,
      )

  unfoldable pub settle :
      (ℕ → Reads evm) → Block → Option (Arc (Snapshot evm)) → Processor evm → Processor evm
  unfolding settled
  settle reads block new s =
      let (s', cached) = settled (reads 0) block new s in replay reads 1 cached s'

  -- The two arms of the match on the result; an error leaves what there was.
  unfoldable pub close :
      (ℕ → Reads evm) → Block → Result (Option (Arc (Snapshot evm))) → Processor evm → Processor evm
  close reads block (ok new) s = settle reads block new s
  close reads block (err e) s = s

  -- What processing gives, and the state that it leaves.
  unfoldable pub processed :
      Reads evm → Block → Processor evm → Result (Option (Arc (Snapshot evm))) × Processor evm
  processed reads block s =
      let (s', prev) = load_pending_or_drop_stale max_depth reads.load_tip s in
      let (ms, result) =
        process_canonical_block spec evm max_depth reads.view s'.next_address reads.reconcile_tip
          prev block in
      (result, measure ms (record s' { next_address = suc s'.next_address }))

  -- One turn of the loop. The update itself reads `reads 0`, and each replayed flashblock the next.
  unfoldable pub step : (ℕ → Reads evm) → StateUpdate → Processor evm → Processor evm
  unfolding processed
  step reads (flashblock fb) s =
      let (s', prev) = load_pending_or_drop_stale max_depth (reads 0).load_tip s in
      apply_flashblock spec evm max_depth (reads 0) prev fb s'
  step reads (canonical block) s =
      let (result, moved) = processed (reads 0) block s in close reads block result moved

  unfoldable pub run : List (StateUpdate × (ℕ → Reads evm)) → Processor evm → Processor evm
  run [] s = s
  run ((update, reads) ∷ updates) s = run updates (step reads update s)
