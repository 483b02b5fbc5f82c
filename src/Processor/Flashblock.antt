-- ===== src/Processor/Flashblock.antt =====
-- `process_flashblock` and `apply_flashblock` of crates/execution/flashblocks/src/processor.rs.
use ethgas_reth.Base.{
  ℕ, suc, ◌+◌, ◌-◌, ltb, ◌==◌, ◌&&◌, if◌then◌else◌, Bool, false, List, [], ◌∷◌, ◌++◌, Option, none,
  some,
}
use ethgas_reth.Payload.{FlashBlock}
use ethgas_reth.Cache
use ethgas_reth.Error.{
  Result, ok, err, StateProcessorError, provider, missing_canonical_header,
  missing_first_flashblock,
}
use ethgas_reth.Validation.Sequence.{
  SequenceValidationResult, next_in_sequence, first_of_next_block, new_payload_for_current_block,
  duplicate, non_sequential_gap, invalid_new_block_index, validate,
}
use ethgas_reth.World.{Spec, Evm, View}
use ethgas_reth.Pending.{PendingBlocks, latest_block_number, payload_id}
use ethgas_reth.Processor.Build.{build_pending_state}
use ethgas_reth.Processor.Canonical.{Outcome, built, measured}
use ethgas_reth.Processor.State.{
  Arc, Snapshot, Processor, Reads, flashblocks_in_block, unexpected_block_order,
  flashblock_superseded, block_processing_error, measure, record_pending_snapshot, publishable,
  is_superseded,
}

-- `validate` on the latest flashblock of a snapshot.
abbrev pub position : {S B : Type 0} → PendingBlocks S B → FlashBlock → SequenceValidationResult
position pending fb =
    validate (latest_block_number pending) pending.latest_flashblock_index (payload_id pending)
      fb.metadata.block_number fb.index fb.payload_id

-- `Arc::ptr_eq` of two snapshots that are both there.
abbrev pub same_arc : {A : Type 0} → Option (Arc A) → Option (Arc A) → Bool
same_arc (some a) (some b) = a.address == b.address
same_arc _ _ = false

module _ (spec : Spec) (evm : Evm) (view : View evm) (address : ℕ) where
  abbrev pub rebuild : Option (Snapshot evm) → List FlashBlock → Outcome (Snapshot evm)
  rebuild prev flashblocks = built address (build_pending_state spec evm view prev flashblocks)

  -- The arms of the match on the verdict.
  unfoldable pub place_flashblock :
      Arc (Snapshot evm) → FlashBlock → SequenceValidationResult → Outcome (Snapshot evm)
  place_flashblock prev fb next_in_sequence =
      rebuild (some prev.value) (prev.value.flashblocks ++ fb ∷ [])
  place_flashblock prev fb first_of_next_block =
      measured (flashblocks_in_block (prev.value.latest_flashblock_index + 1) ∷ [])
        (rebuild (some prev.value) (prev.value.flashblocks ++ fb ∷ []))
  place_flashblock prev fb new_payload_for_current_block = rebuild none (fb ∷ [])
  place_flashblock prev fb duplicate = (unexpected_block_order ∷ [], ok (some prev))
  place_flashblock prev fb (invalid_new_block_index n i) = (unexpected_block_order ∷ [], ok none)
  place_flashblock prev fb (non_sequential_gap e a) = (unexpected_block_order ∷ [], ok none)

  unfoldable pub process_flashblock :
      Option (Arc (Snapshot evm)) → FlashBlock → Outcome (Snapshot evm)
  process_flashblock none fb =
      if fb.index == 0 then rebuild none (fb ∷ []) else ([], err missing_first_flashblock)
  process_flashblock (some prev) fb = place_flashblock prev fb (position prev.value fb)

module _ {evm : Evm} where
  -- A snapshot that is new goes to the subscribers, and what is left is published.
  unfoldable pub publish :
      Option (Arc (Snapshot evm)) → Option (Arc (Snapshot evm)) → Processor evm → Processor evm
  publish prev new s =
      let broadcast : List (Arc (Snapshot evm)) = elim new [
        | none ↦ []
        | some a ↦ if same_arc prev (some a) then [] else a ∷ []
      ] in
      record (record_pending_snapshot new (record s { sent = s.sent ++ broadcast })) {
        published = new;
      }

  -- `self.cache.lock().await.insert(flashblock)`
  abbrev pub cache_flashblock : FlashBlock → Processor evm → Processor evm
  cache_flashblock fb s = record s { cache = (Cache.insert_flashblock s.cache fb).0 }

  unfoldable pub on_error : StateProcessorError → FlashBlock → Processor evm → Processor evm
  on_error (provider (missing_canonical_header n)) fb s = cache_flashblock fb s
  on_error missing_first_flashblock fb s =
      if ltb 0 fb.index && Cache.has_flashblock s.cache fb.metadata.block_number (fb.index - 1)
      then cache_flashblock fb s
      else s
  on_error e fb s = measure (block_processing_error ∷ []) s

  unfoldable pub finish :
      (max_depth : ℕ)
      → Reads evm
      → Option (Arc (Snapshot evm))
      → FlashBlock
      → Result (Option (Arc (Snapshot evm)))
      → Processor evm
      → Processor evm
  finish max_depth reads prev fb (err e) s = on_error e fb s
  finish max_depth reads prev fb (ok new) s =
      let (s', candidate) = publishable max_depth reads.publish_tip new s in
      publish prev candidate s'

module _ (spec : Spec) (evm : Evm) (max_depth : ℕ) where
  unfoldable pub apply_flashblock :
      Reads evm → Option (Arc (Snapshot evm)) → FlashBlock → Processor evm → Processor evm
  apply_flashblock reads prev fb s =
      if is_superseded reads.superseded_tip reads.last_canonical_block fb
      then measure (flashblock_superseded ∷ []) s
      else let (ms, result) = process_flashblock spec evm reads.view s.next_address prev fb in
        finish max_depth reads prev fb result
          (measure ms (record s { next_address = suc s.next_address }))
