-- ===== src/Processor/Broadcast.antt =====
-- What crates/execution/flashblocks/src/processor.rs sends to its subscribers: no snapshot twice.
use mathlib.Core.List.{append-nil}
use ethgas_reth.Base.{
  ℕ, suc, ◌≤◌, ◌≡◌, ◌≢◌, ◌⊎◌, inl, inr, refl, sym, ap, ◌∙◌, arith, List, [], ◌∷◌, ◌++◌, Option,
  none, some, Bool-cases, ◌==◌,
}
use ethgas_reth.Fallible.{Fallible}
use ethgas_reth.Types.{BlockNumber, Block}
use ethgas_reth.Payload.{FlashBlock}
use ethgas_reth.Error.{Result, ok, err, StateProcessorError}
use ethgas_reth.Validation.Sequence.{
  SequenceValidationResult, next_in_sequence, first_of_next_block, new_payload_for_current_block,
  duplicate, non_sequential_gap, invalid_new_block_index,
}
use ethgas_reth.World.{Spec, Evm, View}
use ethgas_reth.Processor.Canonical.{built}
use ethgas_reth.Processor.State.{
  Arc, Snapshot, Processor, Reads, publishable, load_pending_or_drop_stale, is_superseded,
}
use ethgas_reth.Processor.Flashblock.{
  publish, on_error, finish, apply_flashblock, process_flashblock, place_flashblock, position,
}
use ethgas_reth.Processor.Queue.{
  StateUpdate, flashblock, canonical, replay, settled, settle, close, step, run, new,
}

-- The addresses rise strictly along the list, from `lo` and below `hi`.
abbrev pub Rising : {A : Type 0} → ℕ → List (Arc A) → ℕ → Type 0
Rising lo [] hi = lo ≤ hi
Rising lo (a ∷ xs) hi = (lo ≤ a.address) × Rising (suc a.address) xs hi

module _ {A : Type 0} where
  Rising-mono : (lo hi hi' : ℕ) (xs : List (Arc A)) → Rising lo xs hi → hi ≤ hi' → Rising lo xs hi'
  Rising-mono lo hi hi' [] r h = omega arith
  Rising-mono lo hi hi' (a ∷ xs) r h = (r.0, Rising-mono (suc a.address) hi hi' xs r.1 h)

  Rising-snoc :
      (lo hi : ℕ) (xs : List (Arc A)) (a : Arc A)
      → Rising lo xs hi
      → a.address ≡ hi
      → Rising lo (xs ++ a ∷ []) (suc hi)
  Rising-snoc lo hi [] a r e = (omega arith, omega arith)
  Rising-snoc lo hi (b ∷ xs) a r e = (r.0, Rising-snoc (suc b.address) hi xs a r.1 e)

  built-address :
      (n : ℕ) (r : Result (Option A)) (a : Arc A) → (built n r).1 ≡ ok (some a) → a.address ≡ n
  built-address n r a h = ground arith

module _ {evm : Evm} where
  -- What was sent has rising addresses, all in use.
  abbrev pub IsBroadcast : Processor evm → Type 0
  IsBroadcast s = Rising 0 s.sent s.next_address

module _ (spec : Spec) (evm : Evm) where
  place-address :
      (view : View evm) (n : ℕ) (prev : Arc (Snapshot evm)) (fb : FlashBlock)
      (v : SequenceValidationResult) (a : Arc (Snapshot evm))
      → (place_flashblock spec evm view n prev fb v).1 ≡ ok (some a)
      → (a.address ≡ n) ⊎ (prev ≡ a)
  unfolding place_flashblock
  place-address view n prev fb next_in_sequence a h = inl (built-address n _ a h)
  place-address view n prev fb first_of_next_block a h = inl (built-address n _ a h)
  place-address view n prev fb new_payload_for_current_block a h = inl (built-address n _ a h)
  place-address view n prev fb duplicate a h = inr (ground arith)
  place-address view n prev fb (non_sequential_gap i j) a h = cc
  place-address view n prev fb (invalid_new_block_index i j) a h = cc

  process-address :
      (view : View evm) (n : ℕ) (prev : Option (Arc (Snapshot evm))) (fb : FlashBlock)
      (a : Arc (Snapshot evm))
      → (process_flashblock spec evm view n prev fb).1 ≡ ok (some a)
      → (a.address ≡ n) ⊎ (prev ≡ some a)
  unfolding process_flashblock
  process-address view n none fb a h = elim (Bool-cases (fb.index == 0)) [
    | inl e ↦ inl (built-address n _ a (rw e at h))
    | inr e ↦ cc (rw e at h)
  ]
  process-address view n (some prev) fb a h =
      elim (place-address view n prev fb (position prev.value fb) a h) [
        | inl fresh ↦ inl fresh
        | inr same ↦ inr (ap some same)
      ]

module _ {evm : Evm} (max_depth : ℕ) where
  publishable-snapshot :
      (best : Fallible BlockNumber) (r : Option (Arc (Snapshot evm))) (s : Processor evm)
      → ((publishable max_depth best r s).1 ≡ none) ⊎ ((publishable max_depth best r s).1 ≡ r)
  unfolding publishable
  publishable-snapshot best none s = inl refl
  publishable-snapshot best (some c) s = ground arith

  publishable-keeps :
      (best : Fallible BlockNumber) (r : Option (Arc (Snapshot evm))) (s : Processor evm)
      → ((publishable max_depth best r s).0.sent ≡ s.sent)
        × ((publishable max_depth best r s).0.next_address ≡ s.next_address)
  unfolding publishable
  publishable-keeps best none s = (refl, refl)
  publishable-keeps best (some c) s = ground arith

  load-keeps :
      (best : Fallible BlockNumber) (s : Processor evm)
      → ((load_pending_or_drop_stale max_depth best s).0.sent ≡ s.sent)
        × ((load_pending_or_drop_stale max_depth best s).0.next_address ≡ s.next_address)
  unfolding load_pending_or_drop_stale
  load-keeps best s = ground arith

  on_error-keeps :
      (e : StateProcessorError) (fb : FlashBlock) (s : Processor evm)
      → ((on_error e fb s).sent ≡ s.sent) × ((on_error e fb s).next_address ≡ s.next_address)
  unfolding on_error
  on_error-keeps e fb s = ground arith

  -- What `publish` sends is the new snapshot, unless that is the previous one.
  publish-sends :
      (prev r : Option (Arc (Snapshot evm))) (s : Processor evm)
      → ((publish prev r s).next_address ≡ s.next_address)
        × (((publish prev r s).sent ≡ s.sent)
            ⊎ ((a : Arc (Snapshot evm)) × (r ≡ some a)
                × (prev ≢ some a)
                × ((publish prev r s).sent ≡ s.sent ++ a ∷ [])))
  unfolding publish
  publish-sends none none s = (refl, inl (append-nil s.sent))
  publish-sends (some p) none s = (refl, inl (append-nil s.sent))
  publish-sends none (some a) s = (refl, inr (a, refl, (λ e. cc), refl))
  publish-sends (some p) (some a) s = elim (Bool-cases (p.address == a.address)) [
    | inl same ↦ (refl, inl (rw same (append-nil s.sent)))
    | inr other ↦ (refl, inr (a, refl, (λ e. ground (arith, e, other)), rw other))
  ]

  -- The processor before `finish` has taken the next address.
  finish-Sends :
      (reads : Reads evm) (prev : Option (Arc (Snapshot evm))) (fb : FlashBlock)
      (r : Result (Option (Arc (Snapshot evm)))) (n : ℕ) (s : Processor evm)
      → s.next_address ≡ suc n
      → ((a : Arc (Snapshot evm)) → r ≡ ok (some a) → (a.address ≡ n) ⊎ (prev ≡ some a))
      → ((finish max_depth reads prev fb r s).next_address ≡ suc n)
        × (((finish max_depth reads prev fb r s).sent ≡ s.sent)
            ⊎ ((a : Arc (Snapshot evm)) × ((finish max_depth reads prev fb r s).sent
                  ≡ s.sent ++ a ∷ [])
                × (a.address ≡ n)))
  unfolding finish
  finish-Sends reads prev fb (err e) n s h k =
      let (sent, next) = on_error-keeps e fb s in (next ∙ h, inl sent)
  finish-Sends reads prev fb (ok r) n s h k =
      let best = reads.publish_tip in
      let s' = (publishable max_depth best r s).0 in
      let c = (publishable max_depth best r s).1 in
      let (kept_sent, kept_next) = publishable-keeps best r s in
      let (next, sends) = publish-sends prev c s' in
      (
        next ∙ kept_next ∙ h,
        elim sends [
          | inl none_sent ↦ inl (none_sent ∙ kept_sent)
          | inr (a, is_a, other, sent) ↦ inr (
            a,
            sent ∙ ap (λ l. l ++ a ∷ []) kept_sent,
            elim (publishable-snapshot best r s) [
              | inl gone ↦ cc (gone, is_a)
              | inr stays ↦ elim (k a (ap ok (sym stays ∙ is_a))) [
                | inl fresh ↦ fresh
                | inr same ↦ absurd (other same)
              ]
            ],
          )
        ],
      )

  finish-IsBroadcast :
      (reads : Reads evm) (prev : Option (Arc (Snapshot evm))) (fb : FlashBlock)
      (r : Result (Option (Arc (Snapshot evm)))) (n : ℕ) (s : Processor evm)
      → s.next_address ≡ suc n
      → ((a : Arc (Snapshot evm)) → r ≡ ok (some a) → (a.address ≡ n) ⊎ (prev ≡ some a))
      → Rising 0 s.sent n
      → IsBroadcast (finish max_depth reads prev fb r s)
  finish-IsBroadcast reads prev fb r n s e k h =
      let (next, sends) = finish-Sends reads prev fb r n s e k in
      elim sends [
        | inl same ↦ rw (same, next) (Rising-mono 0 n (suc n) s.sent h (omega arith))
        | inr (a, sent, fresh) ↦ rw (sent, next) (Rising-snoc 0 n s.sent a h fresh)
      ]

module _ (spec : Spec) (evm : Evm) (max_depth : ℕ) where
  apply-IsBroadcast :
      (reads : Reads evm) (prev : Option (Arc (Snapshot evm))) (fb : FlashBlock) (s : Processor evm)
      → IsBroadcast s
      → IsBroadcast (apply_flashblock spec evm max_depth reads prev fb s)
  unfolding apply_flashblock
  apply-IsBroadcast reads prev fb s h =
      elim (Bool-cases (is_superseded reads.superseded_tip reads.last_canonical_block fb)) [
        | inl old ↦ rw (old, apply_flashblock) h
        | inr fresh ↦
            rw (fresh, apply_flashblock)
              (finish-IsBroadcast max_depth reads prev fb
                (process_flashblock spec evm reads.view s.next_address prev fb).1 s.next_address _
                refl (process-address spec evm reads.view s.next_address prev fb) h)
      ]

  load-IsBroadcast :
      (best : Fallible BlockNumber) (s : Processor evm)
      → IsBroadcast s
      → IsBroadcast (load_pending_or_drop_stale max_depth best s).0
  load-IsBroadcast best s h = let (sent, next) = load-keeps max_depth best s in rw (sent, next) h

  replay-IsBroadcast :
      (reads : ℕ → Reads evm) (n : ℕ) (fbs : List FlashBlock) (s : Processor evm)
      → IsBroadcast s
      → IsBroadcast (replay spec evm max_depth reads n fbs s)
  unfolding replay
  replay-IsBroadcast reads n [] s h = h
  replay-IsBroadcast reads n (fb ∷ fbs) s h =
      let loaded = load_pending_or_drop_stale max_depth (reads n).load_tip s in
      replay-IsBroadcast reads (suc n) fbs
        (apply_flashblock spec evm max_depth (reads n) loaded.1 fb loaded.0)
        (apply-IsBroadcast (reads n) loaded.1 fb loaded.0 (load-IsBroadcast (reads n).load_tip s h))

  close-IsBroadcast :
      (reads : ℕ → Reads evm) (block : Block) (r : Result (Option (Arc (Snapshot evm))))
      (s : Processor evm)
      → IsBroadcast s
      → IsBroadcast (close spec evm max_depth reads block r s)
  unfolding close settle settled
  close-IsBroadcast reads block (err e) s h = h
  close-IsBroadcast reads block (ok r) s h = replay-IsBroadcast reads 1 _ _ (
      let (sent, next) = publishable-keeps max_depth (reads 0).publish_tip r s in rw (sent, next) h)

  step-IsBroadcast :
      (reads : ℕ → Reads evm) (update : StateUpdate) (s : Processor evm)
      → IsBroadcast s
      → IsBroadcast (step spec evm max_depth reads update s)
  unfolding step
  step-IsBroadcast reads (flashblock fb) s h =
      apply-IsBroadcast (reads 0) _ fb _ (load-IsBroadcast (reads 0).load_tip s h)
  step-IsBroadcast reads (canonical block) s h = close-IsBroadcast reads block _ _ (
      let (sent, next) = load-keeps max_depth (reads 0).load_tip s in
      rw (sent, next) (Rising-mono 0 s.next_address (suc s.next_address) s.sent h (omega arith)))

  run-IsBroadcast :
      (updates : List (StateUpdate × (ℕ → Reads evm))) (s : Processor evm)
      → IsBroadcast s
      → IsBroadcast (run spec evm max_depth updates s)
  unfolding run
  run-IsBroadcast [] s h = h
  run-IsBroadcast ((update, reads) ∷ updates) s h =
      run-IsBroadcast updates (step spec evm max_depth reads update s)
        (step-IsBroadcast reads update s h)

  -- Whatever the queue brings to a new processor, the snapshots that it sends stand at addresses
  -- that rise strictly: none is sent twice.
  pub run-new-IsBroadcast :
      (best : Option BlockNumber) (updates : List (StateUpdate × (ℕ → Reads evm)))
      → IsBroadcast (run spec evm max_depth updates (new evm best))
  unfolding new
  run-new-IsBroadcast best updates = run-IsBroadcast updates (new evm best) (omega arith)
