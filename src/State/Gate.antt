-- ===== src/State/Gate.antt =====
-- What crates/execution/flashblocks/src/state.rs lets into the queue, and which snapshot and fee it
-- leaves to be served.
use ethgas_reth.Base.{
  ℕ, ◌+◌, ◌≤◌, ◌<◌, ◌≡◌, ◌⊎◌, refl, arith, false, [], ◌∷◌, ◌++◌, Option, none, some,
}
use ethgas_reth.Types.{BlockNumber, Block}
use ethgas_reth.Payload.{FlashBlock}
use ethgas_reth.World.{Evm}
use ethgas_reth.Pending.{PendingBlocks, earliest_block_number}
use ethgas_reth.Processor.State.{Arc, Snapshot}
use ethgas_reth.Processor.Queue.{flashblock}
use ethgas_reth.State.Receiver.{
  Receiver, is_syncing, drop_pending_behind, on_flashblock_received, received_fee,
}
use ethgas_reth.State.Node.{Node, on_canonical_block_received}

-- A flashblock passes the gate when the node does not sync and its block is not canonical.
abbrev pub Passes : FlashBlock → Receiver → Type 0
Passes fb r = (is_syncing r ≡ false) × (r.last_canonical_block < fb.metadata.block_number)

-- A flashblock that passes joins the end of the queue and decides the fee, which is cleared if it
-- brings none. One that does not pass leaves queue, fee and height as they were.
on_flashblock_received_lem :
    (now : ℕ) (fb : FlashBlock) (r : Receiver)
    → let r' = on_flashblock_received now fb r in
      (Passes fb r
        × (r'.queue ≡ r.queue ++ flashblock fb ∷ [])
        × (r'.inclusion_fee ≡ received_fee now fb)
        × (r'.last_canonical_block ≡ r.last_canonical_block))
      ⊎ (¬ Passes fb r
          × (r'.queue ≡ r.queue)
          × (r'.inclusion_fee ≡ r.inclusion_fee)
          × (r'.last_canonical_block ≡ r.last_canonical_block))
unfolding on_flashblock_received
on_flashblock_received_lem now fb r = ground arith

module _ {S B : Type 0} (max_depth : ℕ) (n : BlockNumber) where
  -- Only the snapshot that was judged is dropped, and only when it starts more than the depth
  -- below the canonical block; any other that was published meanwhile stays.
  drop_pending_behind_lem :
      (judged current : Option (Arc (PendingBlocks S B))) (a : Arc (PendingBlocks S B))
      → current ≡ some a
      → (drop_pending_behind max_depth n judged current).0 ≡ none
      → (b : Arc (PendingBlocks S B)) × (judged ≡ some b)
        × (a.address ≡ b.address)
        × (earliest_block_number b.value + max_depth < n)
  unfolding drop_pending_behind
  drop_pending_behind_lem none current a e h = cc
  drop_pending_behind_lem (some b) current a e h = (b, refl, ground arith, ground arith)

-- When a canonical block has been received, what is published was published before and starts
-- within the depth of the block.
canonical_near :
    {evm : Evm} (block : Block) (n : Node evm) (a : Arc (Snapshot evm))
    → (on_canonical_block_received block n).processor.published ≡ some a
    → (n.processor.published ≡ some a)
      × (block.header.number ≤ earliest_block_number a.value + n.receiver.max_pending_blocks_depth)
unfolding on_canonical_block_received drop_pending_behind
canonical_near block n a h = ground arith
