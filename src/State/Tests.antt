-- ===== src/State/Tests.antt =====
-- Runs of crates/execution/flashblocks/src/state.rs on sample flashblocks.
use ethgas_reth.Base.{◌≡◌, refl, some, none, [], ◌∷◌}
use ethgas_reth.Processor.State.{Arc, Snapshot}
use ethgas_reth.Processor.Flashblock.{same_arc}
use ethgas_reth.State.Receiver.{drop_pending_behind, pending_drop_stale}
use ethgas_reth.Samples.{evm, pending_11}

abbrev shared : Arc (Snapshot evm)
shared = record { address = 0; value = pending_11 }

-- Five blocks behind the canonical one the snapshot stays, and six behind it goes.
kept_at_depth : drop_pending_behind 5 16 (some shared) (some shared) ≡ (some shared, [])
unfolding drop_pending_behind same_arc
kept_at_depth = refl

dropped_behind :
    drop_pending_behind 5 17 (some shared) (some shared) ≡ (none, pending_drop_stale ∷ [])
unfolding drop_pending_behind same_arc
dropped_behind = refl
