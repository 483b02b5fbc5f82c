-- ===== src/Processor/Published.antt =====
-- Which snapshots crates/execution/flashblocks/src/processor.rs leaves published.
use ethgas_reth.Base.{
  ℕ, suc, ◌≡◌, ◌⊎◌, inl, inr, refl, sym, ap, ◌∙◌, arith, false, List, [], ◌∷◌, Option, none, some,
  Bool-cases,
}
use ethgas_reth.Fallible.{Fallible, done, failed}
use ethgas_reth.Types.{BlockNumber, Block}
use ethgas_reth.Payload.{FlashBlock}
use ethgas_reth.Error.{Result, ok, err, StateProcessorError}
use ethgas_reth.World.{Spec, Evm}
use ethgas_reth.Processor.State.{
  Arc, Snapshot, Processor, Reads, publishable, load_pending_or_drop_stale, is_superseded,
}
use ethgas_reth.Processor.Flashblock.{
  publish, on_error, finish, apply_flashblock, process_flashblock,
}
use ethgas_reth.Processor.Queue.{
  StateUpdate, flashblock, canonical, replay, settled, settle, close, processed, step,
}
use ethgas_reth.Processor.Origin.{
  Near, Extends, IsKept, IsBuilt, Outlasts, IsReplayed, IsSettled, IsPublishedBy,
}

module _ {evm : Evm} (max_depth : ℕ) where
  publishable-Extends :
      (best : Fallible BlockNumber) (new : Option (Arc (Snapshot evm))) (s : Processor evm)
      (a : Arc (Snapshot evm))
      → (publishable max_depth best new s).1 ≡ some a
      → Extends max_depth a.value best
  unfolding publishable
  publishable-Extends (done t) none s a e = cc
  publishable-Extends (failed x) none s a e = cc
  publishable-Extends (failed x) (some c) s a e = tt
  publishable-Extends (done t) (some c) s a e = ground arith

  publishable-same :
      (best : Fallible BlockNumber) (new : Option (Arc (Snapshot evm))) (s : Processor evm)
      (a : Arc (Snapshot evm))
      → (publishable max_depth best new s).1 ≡ some a
      → new ≡ some a
  unfolding publishable
  publishable-same best none s a e = cc
  publishable-same best (some c) s a e = ground arith

  publish-published :
      (prev new : Option (Arc (Snapshot evm))) (s : Processor evm)
      → (publish prev new s).published ≡ new
  unfolding publish
  publish-published prev new s = refl

  on_error-published :
      (e : StateProcessorError) (fb : FlashBlock) (s : Processor evm)
      → (on_error e fb s).published ≡ s.published
  unfolding on_error
  on_error-published e fb s = ground arith

  finish-published :
      (reads : Reads evm) (prev : Option (Arc (Snapshot evm))) (fb : FlashBlock)
      (r : Result (Option (Arc (Snapshot evm)))) (s : Processor evm) (a : Arc (Snapshot evm))
      → (finish max_depth reads prev fb r s).published ≡ some a
      → (s.published ≡ some a) ⊎ ((r ≡ ok (some a)) × Extends max_depth a.value reads.publish_tip)
  unfolding finish publish
  finish-published reads prev fb (err e) s a h = inl (sym (on_error-published e fb s) ∙ h)
  finish-published reads prev fb (ok new) s a h = inr (
    ap ok (publishable-same reads.publish_tip new s a h),
    publishable-Extends reads.publish_tip new s a h,
  )

  load-Near :
      (best : Fallible BlockNumber) (s : Processor evm) (a : Arc (Snapshot evm))
      → (load_pending_or_drop_stale max_depth best s).0.published ≡ some a
      → (s.published ≡ some a) × Near max_depth a.value best
  unfolding load_pending_or_drop_stale
  load-Near (done t) s a h = ground arith
  load-Near (failed x) s a h = ground arith

module _ (spec : Spec) (evm : Evm) (max_depth : ℕ) where
  -- A flashblock leaves what was published, or publishes a snapshot that extends the tip.
  pub apply-published :
      (reads : Reads evm) (prev : Option (Arc (Snapshot evm))) (fb : FlashBlock) (s : Processor evm)
      (a : Arc (Snapshot evm))
      → (apply_flashblock spec evm max_depth reads prev fb s).published ≡ some a
      → (s.published ≡ some a)
        ⊎ ((is_superseded reads.superseded_tip reads.last_canonical_block fb ≡ false)
            × ((process_flashblock spec evm reads.view s.next_address prev fb).1 ≡ ok (some a))
            × Extends max_depth a.value reads.publish_tip)
  unfolding apply_flashblock
  apply-published reads prev fb s a h =
      elim (Bool-cases (is_superseded reads.superseded_tip reads.last_canonical_block fb)) [
        | inl old ↦ inl (rw (old, apply_flashblock) at h)
        | inr new ↦
            elim (finish-published max_depth reads prev fb
              (process_flashblock spec evm reads.view s.next_address prev fb).1 _ a
              (rw (new, apply_flashblock) at h)) [
                | inl kept ↦ inl kept
                | inr (given, extends) ↦ inr (new, given, extends)
              ]
      ]

  turn-published :
      (reads : Reads evm) (fb : FlashBlock) (s : Processor evm) (a : Arc (Snapshot evm))
      → let loaded = load_pending_or_drop_stale max_depth reads.load_tip s in
        (apply_flashblock spec evm max_depth reads loaded.1 fb loaded.0).published ≡ some a
        → IsKept spec evm max_depth reads s a ⊎ IsBuilt spec evm max_depth reads fb s a
  turn-published reads fb s a h =
      let loaded = load_pending_or_drop_stale max_depth reads.load_tip s in
      elim (apply-published reads loaded.1 fb loaded.0 a h) [
        | inl kept ↦ inl (load-Near max_depth reads.load_tip s a kept)
        | inr built ↦ inr built
      ]

  replay-published :
      (reads : ℕ → Reads evm) (n : ℕ) (fbs : List FlashBlock) (s : Processor evm)
      (a : Arc (Snapshot evm))
      → (replay spec evm max_depth reads n fbs s).published ≡ some a
      → ((s.published ≡ some a) × Outlasts spec evm max_depth reads n fbs a)
        ⊎ IsReplayed spec evm max_depth reads n fbs s a
  unfolding replay
  replay-published reads n [] s a h = inl (h, tt)
  replay-published reads n (fb ∷ fbs) s a h =
      let loaded = load_pending_or_drop_stale max_depth (reads n).load_tip s in
      elim (replay-published reads (suc n) fbs
        (apply_flashblock spec evm max_depth (reads n) loaded.1 fb loaded.0) a h) [
          | inr later ↦ inr (inr later)
          | inl (here, outlasts) ↦ elim (turn-published (reads n) fb s a here) [
            | inl (kept, near) ↦ inl (kept, (near, outlasts))
            | inr new ↦ inr (inl (new, outlasts))
          ]
        ]

  settled-published :
      (reads : Reads evm) (block : Block) (new : Option (Arc (Snapshot evm))) (s : Processor evm)
      (a : Arc (Snapshot evm))
      → (settled spec evm max_depth reads block new s).0.published ≡ some a
      → (new ≡ some a) × Extends max_depth a.value reads.publish_tip
  unfolding settled
  settled-published reads block new s a h = (
    publishable-same max_depth reads.publish_tip new s a h,
    publishable-Extends max_depth reads.publish_tip new s a h,
  )

  settle-IsSettled :
      (reads : ℕ → Reads evm) (block : Block) (new : Option (Arc (Snapshot evm)))
      (s : Processor evm) (a : Arc (Snapshot evm))
      → (settle spec evm max_depth reads block new s).published ≡ some a
      → IsSettled spec evm max_depth reads block new s a
  unfolding settle
  settle-IsSettled reads block new s a h =
      let (s', cached) = settled spec evm max_depth (reads 0) block new s in
      elim (replay-published reads 1 cached s' a h) [
        | inr later ↦ inr later
        | inl (here, outlasts) ↦
            let (same, extends) = settled-published (reads 0) block new s a here in
            inl (same, extends, outlasts)
      ]

  processed-published :
      (reads : Reads evm) (block : Block) (s : Processor evm) (a : Arc (Snapshot evm))
      → (processed spec evm max_depth reads block s).1.published ≡ some a
      → IsKept spec evm max_depth reads s a
  unfolding processed
  processed-published reads block s a h = load-Near max_depth reads.load_tip s a h

  close-published :
      (reads : ℕ → Reads evm) (block : Block) (result : Result (Option (Arc (Snapshot evm))))
      (s s' : Processor evm) (a : Arc (Snapshot evm))
      → (s'.published ≡ some a → IsKept spec evm max_depth (reads 0) s a)
      → (close spec evm max_depth reads block result s').published ≡ some a
      → ((e : StateProcessorError) × (result ≡ err e) × IsKept spec evm max_depth (reads 0) s a)
        ⊎ ((new : Option (Arc (Snapshot evm))) × (result ≡ ok new)
            × IsSettled spec evm max_depth reads block new s' a)
  unfolding close
  close-published reads block (err e) s s' a before h = inl (e, refl, before h)
  close-published reads block (ok new) s s' a before h =
      inr (new, refl, settle-IsSettled reads block new s' a h)

  -- A snapshot that is published after a turn of the loop has one of these origins. A flashblock
  -- was processed: either the snapshot was published before and starts within the depth of the
  -- tip read at loading, or processing gave it, the flashblock was not superseded, and the
  -- snapshot starts within the depth of the tip that was read at its publication and reaches past
  -- it. A canonical block was processed: either that failed, and the snapshot was published
  -- before, as above; or processing gave it and it extends the tip that was read then; or one of
  -- the cached flashblocks gave it, on the state that those before it left, with the reads of its
  -- own place in the replay. In the last two cases it starts within the depth of the tip that
  -- each later flashblock of the replay reads at loading. A tip that could not be read bounds
  -- nothing.
  pub step-published :
      (reads : ℕ → Reads evm) (update : StateUpdate) (s : Processor evm) (a : Arc (Snapshot evm))
      → (step spec evm max_depth reads update s).published ≡ some a
      → IsPublishedBy spec evm max_depth reads update s a
  unfolding step
  step-published reads (flashblock fb) s a h = turn-published (reads 0) fb s a h
  step-published reads (canonical block) s a h =
      close-published reads block (processed spec evm max_depth (reads 0) block s).0 s _ a
        (λ kept. processed-published (reads 0) block s a kept) h
