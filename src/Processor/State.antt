-- ===== src/Processor/State.antt =====
-- The state of `StateProcessor` of crates/execution/flashblocks/src/processor.rs, what a handler
-- reads of the rest of the node, and the checks of a snapshot against the canonical tip.
use ethgas_reth.Base.{
  ℕ, ◌-◌, leb, if◌then◌else◌, Bool, true, false, not, List, [], ◌∷◌, ◌++◌, Option, none, some, max,
}
use ethgas_reth.Fallible.{Fallible, done, failed}
use ethgas_reth.Types.{BlockNumber}
use ethgas_reth.Payload.{FlashBlock}
use ethgas_reth.Cache.{FlashblockCache}
use ethgas_reth.World.{Evm, View}
use ethgas_reth.Pending.{PendingBlocks, latest_block_number, earliest_block_number}

-- `Arc<A>`: a value on the heap. `Arc::ptr_eq` compares the addresses.
pub record Arc (A : Type 0) : Type 0 where
  pub address : ℕ
  pub value : A

-- The counters and gauges of crates/execution/flashblocks/src/metrics.rs that the processor moves,
-- and one histogram. Timings are left out.
pub data Metric : Type 0 where
  pending_drop_stale flashblock_superseded pending_clear_catchup : Metric
  pending_rebase_canonical_extended pending_rebase_untracked pending_clear_reorg : Metric
  pending_withdrawals_root_mismatch pending_requests_hash_mismatch : Metric
  pending_slot_number_mismatch pending_tx_prefix_violation : Metric
  unexpected_block_order transaction_status_mismatch block_processing_error : Metric
  flashblocks_in_block : ℕ → Metric
  pending_snapshot : (height index : ℕ) → Metric

-- `best_block_number`, where an error means that the tip is unknown.
unfoldable pub canonical_tip : Fallible BlockNumber → Option BlockNumber
canonical_tip (done best) = some best
canonical_tip (failed e) = none

unfoldable pub effective_canonical_number : Fallible BlockNumber → BlockNumber → BlockNumber
unfolding canonical_tip
effective_canonical_number best notified = elim (canonical_tip best) [
  | none ↦ notified
  | some b ↦ max notified b
]

-- What `FlashblocksState` last stored is the second argument.
unfoldable pub is_superseded : Fallible BlockNumber → BlockNumber → FlashBlock → Bool
unfolding effective_canonical_number
is_superseded best last_canonical_block fb =
    leb fb.metadata.block_number (effective_canonical_number best last_canonical_block)

module _ {S B : Type 0} (max_depth : ℕ) (pending : PendingBlocks S B) where
  unfoldable pub is_anchored_near : BlockNumber → Bool
  is_anchored_near best = leb (best - earliest_block_number pending) max_depth

  unfoldable pub extends_canonical_tip : Fallible BlockNumber → Bool
  unfolding canonical_tip is_anchored_near
  extends_canonical_tip best = elim (canonical_tip best) [
    | none ↦ true
    | some b ↦
        if not (is_anchored_near b)
        then false
        else if leb (latest_block_number pending) b
        then false
        else true
  ]

module _ (evm : Evm) where
  abbrev pub Snapshot : Type 0
  Snapshot = PendingBlocks (Evm.EvmState evm) (Evm.BundleState evm)

  -- The published snapshot, the cache, what was broadcast and measured (oldest first), and the next
  -- free address of the heap.
  pub record Processor : Type 0 where
    pub published : Option (Arc Snapshot)
    pub cache : FlashblockCache
    pub sent : List (Arc Snapshot)
    pub metrics : List Metric
    pub next_address : ℕ

  -- What one handler reads of the node. The chain may move between two reads, so that each has
  -- a field of its own: `load_tip` in `load_pending_or_drop_stale`, `superseded_tip` and
  -- `last_canonical_block` in `is_superseded`, `reconcile_tip` in `process_canonical_block`,
  -- `publish_tip` in `publishable`, and `view` in `build_pending_state`.
  pub record Reads : Type 0 where
    pub load_tip : Fallible BlockNumber
    pub superseded_tip : Fallible BlockNumber
    pub last_canonical_block : BlockNumber
    pub reconcile_tip : Fallible BlockNumber
    pub publish_tip : Fallible BlockNumber
    pub view : View evm

-- The gauges; zero means no snapshot.
abbrev pub gauges : {S B : Type 0} → Option (Arc (PendingBlocks S B)) → Metric
gauges none = pending_snapshot 0 0
gauges (some a) = pending_snapshot (latest_block_number a.value) a.value.latest_flashblock_index

module _ {evm : Evm} where
  abbrev pub measure : List Metric → Processor evm → Processor evm
  measure ms s = record s { metrics = s.metrics ++ ms }

  abbrev pub record_pending_snapshot : Option (Arc (Snapshot evm)) → Processor evm → Processor evm
  record_pending_snapshot pending s = measure (gauges pending ∷ []) s

  unfoldable pub publishable :
      (max_depth : ℕ)
      → Fallible BlockNumber
      → Option (Arc (Snapshot evm))
      → Processor evm
      → Processor evm × Option (Arc (Snapshot evm))
  unfolding extends_canonical_tip
  publishable max_depth best none s = (s, none)
  publishable max_depth best (some candidate) s =
      if extends_canonical_tip max_depth candidate.value best
      then (s, some candidate)
      else (measure (pending_drop_stale ∷ []) s, none)

  unfoldable pub load_pending_or_drop_stale :
      (max_depth : ℕ)
      → Fallible BlockNumber
      → Processor evm
      → Processor evm × Option (Arc (Snapshot evm))
  unfolding canonical_tip is_anchored_near
  load_pending_or_drop_stale max_depth best s = elim s.published [
    | none ↦ (s, none)
    | some pending ↦ elim (canonical_tip best) [
      | none ↦ (s, some pending)
      | some b ↦ if is_anchored_near max_depth pending.value b then (s, some pending) else (
        record (record_pending_snapshot none (measure (pending_drop_stale ∷ []) s)) {
          published = none;
        },
        none,
      )
    ]
  ]
