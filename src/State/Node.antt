-- ===== src/State/Node.antt =====
-- The receiving side and the processor together, as crates/execution/flashblocks/src/state.rs wires
-- them: one published snapshot and one queue between them.
use ethgas_reth.Base.{ℕ, Bool, List, [], ◌∷◌, some}
use ethgas_reth.Types.{Block}
use ethgas_reth.Payload.{FlashBlock}
use ethgas_reth.World.{Spec, Evm}
use ethgas_reth.Processor.State.{Processor, Reads}
use ethgas_reth.Processor.Queue
use ethgas_reth.State.Receiver.{
  Receiver, on_canonical_block, on_flashblock_received, drop_pending_behind,
}

pub record Node (evm : Evm) : Type 0 where
  pub receiver : Receiver
  pub processor : Processor evm

-- What happens to the node: a notification, a flashblock at a time, the sync source reporting, and
-- a turn of the processor's loop.
pub data Event (evm : Evm) : Type 0 where
  canonical_block_received : Block → Event evm
  flashblock_received : (now : ℕ) → FlashBlock → Event evm
  sync_reported : Bool → Event evm
  processed : (ℕ → Reads evm) → Event evm

unfoldable pub on_canonical_block_received : {evm : Evm} → Block → Node evm → Node evm
unfolding on_canonical_block
on_canonical_block_received block n =
    let published = n.processor.published in
    let (left, dropped) =
      drop_pending_behind n.receiver.max_pending_blocks_depth block.header.number published
        published in
    record {
      receiver = on_canonical_block block dropped n.receiver;
      processor = record n.processor { published = left };
    }

module _ (spec : Spec) (evm : Evm) where
  unfoldable pub process_next : (ℕ → Reads evm) → List Queue.StateUpdate → Node evm → Node evm
  process_next reads [] n = n
  process_next reads (update ∷ rest) n = record {
    receiver = record n.receiver { queue = rest };
    processor = Queue.step spec evm n.receiver.max_pending_blocks_depth reads update n.processor;
  }

  unfoldable pub step : Event evm → Node evm → Node evm
  unfolding on_canonical_block_received process_next
  step (canonical_block_received block) n = on_canonical_block_received block n
  step (flashblock_received now fb) n = record n {
    receiver = on_flashblock_received now fb n.receiver;
  }
  step (sync_reported syncing) n = record n {
    receiver = record n.receiver { sync_state = some syncing };
  }
  step (processed reads) n = process_next reads n.receiver.queue n
