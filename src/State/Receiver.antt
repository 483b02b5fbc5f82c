-- ===== src/State/Receiver.antt =====
-- `FlashblocksState` of crates/execution/flashblocks/src/state.rs. It keeps the receiving end of
-- the queue itself, so that a send never fails; an entry leaves the queue in `State/Node.antt`.
use ethgas_reth.Base.{
  ℕ, ◌-◌, leb, if◌then◌else◌, Bool, false, List, [], ◌∷◌, ◌++◌, Option, none, some,
}
use ethgas_reth.Types.{BlockNumber, Block}
use ethgas_reth.Payload.{FlashBlock}
use ethgas_reth.Fee.{ReceivedInclusionFee}
use ethgas_reth.Pending.{PendingBlocks, earliest_block_number}
use ethgas_reth.Processor.State.{Arc}
use ethgas_reth.Processor.Queue.{StateUpdate, canonical, flashblock}
use ethgas_reth.Processor.Flashblock.{same_arc}

-- The counters that the receiving side moves.
pub data Metric : Type 0 where
  pending_drop_stale flashblock_dropped_syncing flashblock_superseded inclusion_fee_received :
      Metric

-- `sync_state` is what the bound source reports, and `none` before `start` binds one.
pub record Receiver : Type 0 where
  pub queue : List StateUpdate
  pub max_pending_blocks_depth : ℕ
  pub last_canonical_block : BlockNumber
  pub inclusion_fee : Option ReceivedInclusionFee
  pub sync_state : Option Bool
  pub metrics : List Metric

unfoldable pub new : ℕ → Receiver
new max_depth = record {
  queue = [];
  max_pending_blocks_depth = max_depth;
  last_canonical_block = 0;
  inclusion_fee = none;
  sync_state = none;
  metrics = [];
}

unfoldable pub is_syncing : Receiver → Bool
is_syncing r = elim r.sync_state [ none ↦ false | some syncing ↦ syncing ]

-- The snapshot that was judged, and the one that is published when the swap comes, which may be
-- another. The result is what is published then, and whether the count goes up.
unfoldable pub drop_pending_behind :
    {S B : Type 0} (max_depth : ℕ) (canonical_block_number : BlockNumber)
    (judged current : Option (Arc (PendingBlocks S B)))
    → Option (Arc (PendingBlocks S B)) × List Metric
drop_pending_behind max_depth n none current = (current, [])
drop_pending_behind max_depth n (some stale) current =
    if leb (n - earliest_block_number stale.value) max_depth
    then (current, [])
    else if same_arc current (some stale)
    then (none, pending_drop_stale ∷ [])
    else (current, [])

-- The receiver's part of `on_canonical_block_received`: the height is stored, not raised.
unfoldable pub on_canonical_block : Block → List Metric → Receiver → Receiver
on_canonical_block block dropped r = record r {
  last_canonical_block = block.header.number;
  metrics = r.metrics ++ dropped;
  queue = r.queue ++ canonical block ∷ [];
}

abbrev pub received_fee : ℕ → FlashBlock → Option ReceivedInclusionFee
received_fee now fb = elim fb.metadata.inclusion_fee [
  | none ↦ none
  | some fee ↦ some (record {
    inclusion_fee = fee;
    block_number = fb.metadata.block_number;
    flashblock_index = fb.index;
    received_at = now;
  })
]

abbrev pub fee_metric : Option ReceivedInclusionFee → List Metric
fee_metric none = []
fee_metric (some fee) = inclusion_fee_received ∷ []

-- `now` is what the clock shows.
unfoldable pub on_flashblock_received : (now : ℕ) → FlashBlock → Receiver → Receiver
unfolding is_syncing
on_flashblock_received now fb r =
    if is_syncing r
    then record r { metrics = r.metrics ++ flashblock_dropped_syncing ∷ [] }
    else if leb fb.metadata.block_number r.last_canonical_block
    then record r { metrics = r.metrics ++ flashblock_superseded ∷ [] }
    else record r {
      metrics = r.metrics ++ fee_metric (received_fee now fb);
      inclusion_fee = received_fee now fb;
      queue = r.queue ++ flashblock fb ∷ [];
    }
