-- ===== src/Rpc/Sync/Heard.antt =====
-- crates/execution/flashblocks/src/rpc/eth.rs: what `send_raw_transaction_sync` hears in time.
use ethgas_reth.Base.{
  ℕ, Bool, true, false, List, [], ◌∷◌, ◌++◌, Option, none, some, contains, ◌≡◌, refl, ◌∙◌, inl, inr,
  arith, is_some, Option-cases,
}
use ethgas_reth.Fallible.{done, failed, Fallible-cases}
use ethgas_reth.Types.{B256, TransactionReceipt}
use ethgas_reth.Pending.{PendingBlocks, get_receipt}
use ethgas_reth.Pending.Api.{get_transaction_receipt}
use ethgas_reth.Rpc.Eth.{
  EthApi, rpc_send_raw_transaction_sync_flashblock, rpc_send_raw_transaction_sync_canonical,
}
use ethgas_reth.Rpc.Sync.{
  Event, flashblock, flashblocks_lagged, flashblocks_closed, canonical_lagged, canonical_closed,
  elapsed, canonical_block, canonical_receipt, on_event, wait, send_raw_transaction_sync,
}

-- Events that do not end the wait.
abbrev pub IsQuiet : {S B : Type 0} → B256 → List (Event S B) → Type 0
IsQuiet tx_hash [] = Unit
IsQuiet tx_hash (flashblock p ∷ events) = (get_receipt p tx_hash ≡ none) × IsQuiet tx_hash events
IsQuiet tx_hash (flashblocks_lagged ∷ events) = IsQuiet tx_hash events
IsQuiet tx_hash (canonical_lagged ∷ events) = IsQuiet tx_hash events
IsQuiet tx_hash (canonical_block hashes ∷ events) = IsQuiet tx_hash events
IsQuiet tx_hash (_ ∷ events) = ⊥

abbrev pub Elapses : {S B : Type 0} → List (Event S B) → Type 0
Elapses [] = ⊥
Elapses (elapsed ∷ events) = Unit
Elapses (_ ∷ events) = Elapses events

module _ {S B : Type 0} (tx_hash : B256) where
  -- Whether a read of the receipt is under way after quiet events.
  is_reading : Bool → List (Event S B) → Bool
  is_reading reading [] = reading
  is_reading true (event ∷ events) = is_reading true events
  is_reading false (canonical_block hashes ∷ events) = is_reading (contains hashes tx_hash) events
  is_reading false (_ ∷ events) = is_reading false events

  wait-quiet :
      (reading : Bool) (earlier later : List (Event S B))
      → IsQuiet tx_hash earlier
      → wait tx_hash reading (earlier ++ later) ≡ wait tx_hash (is_reading reading earlier) later
  unfolding wait on_event is_reading
  wait-quiet true [] later q = refl
  wait-quiet false [] later q = refl
  wait-quiet true (flashblock p ∷ earlier) later q =
      ground (arith, q.0, wait-quiet true earlier later q.1)
  wait-quiet false (flashblock p ∷ earlier) later q =
      ground (arith, q.0, wait-quiet false earlier later q.1)
  wait-quiet true (flashblocks_lagged ∷ earlier) later q = wait-quiet true earlier later q
  wait-quiet false (flashblocks_lagged ∷ earlier) later q = wait-quiet false earlier later q
  wait-quiet true (canonical_lagged ∷ earlier) later q = wait-quiet true earlier later q
  wait-quiet false (canonical_lagged ∷ earlier) later q = wait-quiet false earlier later q
  wait-quiet true (canonical_block hashes ∷ earlier) later q = wait-quiet true earlier later q
  wait-quiet false (canonical_block hashes ∷ earlier) later q =
      wait-quiet (contains hashes tx_hash) earlier later q
  wait-quiet _ (flashblocks_closed ∷ earlier) later q = absurd q
  wait-quiet _ (canonical_closed ∷ earlier) later q = absurd q
  wait-quiet _ (elapsed ∷ earlier) later q = absurd q
  wait-quiet _ (canonical_receipt answer ∷ earlier) later q = absurd q

  reading-stays : (earlier : List (Event S B)) → is_reading true earlier ≡ true
  unfolding is_reading
  reading-stays [] = refl
  reading-stays (event ∷ earlier) = reading-stays earlier

  wait-flashblock :
      (p : PendingBlocks S B) (receipt : TransactionReceipt) (reading : Bool)
      (later : List (Event S B))
      → get_receipt p tx_hash ≡ some receipt
      → wait tx_hash reading (flashblock p ∷ later)
        ≡ some (rpc_send_raw_transaction_sync_flashblock ∷ [], done receipt)
  unfolding wait on_event
  wait-flashblock p receipt reading later e = ground (arith, e)

  wait-canonical :
      (hashes : List B256) (receipt : TransactionReceipt) (reading : Bool)
      (middle later : List (Event S B))
      → contains hashes tx_hash ≡ true
      → IsQuiet tx_hash middle
      → wait tx_hash reading
          (canonical_block hashes ∷ middle ++ (canonical_receipt (done (some receipt)) ∷ later))
        ≡ some (rpc_send_raw_transaction_sync_canonical ∷ [], done receipt)
  unfolding wait on_event
  wait-canonical hashes receipt true middle later e q =
      rw
        (
          wait-quiet true middle (canonical_receipt (done (some receipt)) ∷ later) q,
          reading-stays middle,
        )
        refl
  wait-canonical hashes receipt false middle later e q = rw e (
      rw
        (
          wait-quiet true middle (canonical_receipt (done (some receipt)) ∷ later) q,
          reading-stays middle,
        )
        refl)

  is_some-wait :
      (reading : Bool) (events : List (Event S B))
      → Elapses events
      → is_some (wait tx_hash reading events) ≡ true
  unfolding wait on_event
  is_some-wait reading [] h = absurd h
  is_some-wait reading (elapsed ∷ events) h = refl
  is_some-wait reading (flashblock p ∷ events) h =
      ground (arith, is_some-wait reading events h, Option-cases (get_receipt p tx_hash))
  is_some-wait reading (flashblocks_lagged ∷ events) h = is_some-wait reading events h
  is_some-wait reading (flashblocks_closed ∷ events) h = refl
  is_some-wait reading (canonical_lagged ∷ events) h = is_some-wait reading events h
  is_some-wait true (canonical_closed ∷ events) h = is_some-wait true events h
  is_some-wait false (canonical_closed ∷ events) h = refl
  is_some-wait true (canonical_block hashes ∷ events) h = is_some-wait true events h
  is_some-wait false (canonical_block hashes ∷ events) h =
      is_some-wait (contains hashes tx_hash) events h
  is_some-wait false (canonical_receipt answer ∷ events) h = is_some-wait false events h
  is_some-wait true (canonical_receipt (done (some r)) ∷ events) h = refl
  is_some-wait true (canonical_receipt (done none) ∷ events) h = refl
  is_some-wait true (canonical_receipt (failed x) ∷ events) h = refl

module _ {S B : Type 0} (eth : EthApi) (snapshot : Option (PendingBlocks S B)) (transaction : ℕ)
    (tx_hash : B256) where
  -- Without a receipt in the snapshot the events decide.
  sent :
      (events : List (Event S B))
      → eth.send_raw_transaction transaction ≡ done tx_hash
      → get_transaction_receipt snapshot tx_hash ≡ none
      → send_raw_transaction_sync eth snapshot transaction events ≡ wait tx_hash false events
  unfolding send_raw_transaction_sync
  sent events e absent = ground (arith, e, absent)

  -- When the pool takes the transaction and the snapshot has no receipt, a receipt in a later
  -- snapshot is returned, and so is one that the node gives after a canonical block with the
  -- transaction, if only gaps, canonical blocks and snapshots without the receipt came before and
  -- in between.
  pub send_raw_transaction_sync-heard :
      (earlier middle later : List (Event S B)) (p : PendingBlocks S B) (hashes : List B256)
      (receipt : TransactionReceipt)
      → eth.send_raw_transaction transaction ≡ done tx_hash
      → get_transaction_receipt snapshot tx_hash ≡ none
      → IsQuiet tx_hash earlier
      → IsQuiet tx_hash middle
      → get_receipt p tx_hash ≡ some receipt
      → contains hashes tx_hash ≡ true
      → (send_raw_transaction_sync eth snapshot transaction (earlier ++ (flashblock p ∷ later))
          ≡ some (rpc_send_raw_transaction_sync_flashblock ∷ [], done receipt))
        × (send_raw_transaction_sync eth snapshot transaction (
              earlier
              ++ (canonical_block hashes ∷ middle
                  ++ (canonical_receipt (done (some receipt)) ∷ later)))
            ≡ some (rpc_send_raw_transaction_sync_canonical ∷ [], done receipt))
  send_raw_transaction_sync-heard earlier middle later p hashes receipt e absent q r has mined =
      let last = canonical_receipt (done (some receipt)) ∷ later in
      (
        sent (earlier ++ (flashblock p ∷ later)) e absent
            ∙ wait-quiet tx_hash false earlier (flashblock p ∷ later) q
            ∙ wait-flashblock tx_hash p receipt (is_reading tx_hash false earlier) later has,
        sent (earlier ++ (canonical_block hashes ∷ middle ++ last)) e absent
            ∙ wait-quiet tx_hash false earlier (canonical_block hashes ∷ middle ++ last) q
            ∙ wait-canonical tx_hash hashes receipt (is_reading tx_hash false earlier) middle later
                mined r,
      )

module _ {S B : Type 0} (eth : EthApi) (snapshot : Option (PendingBlocks S B))
    (transaction : ℕ) where
  -- Once the timeout is among the events, the caller has a reply.
  pub send_raw_transaction_sync-replies :
      (events : List (Event S B))
      → Elapses events
      → is_some (send_raw_transaction_sync eth snapshot transaction events) ≡ true
  unfolding send_raw_transaction_sync
  send_raw_transaction_sync-replies events h =
      elim (Fallible-cases (eth.send_raw_transaction transaction)) [
        | inl (x, e) ↦ ground (arith, e)
        | inr (hash, e) ↦ elim (Option-cases (get_transaction_receipt snapshot hash)) [
          | inl absent ↦ ground (arith, e, absent, is_some-wait hash false events h)
          | inr (found, k) ↦ ground (arith, e, k)
        ]
      ]
