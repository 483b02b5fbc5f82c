-- ===== src/Rpc/Sync/Confirmed.antt =====
-- crates/execution/flashblocks/src/rpc/eth.rs: a receipt that `send_raw_transaction_sync` gives comes
-- from somewhere.
use ethgas_reth.Base.{
  ℕ, Bool, true, false, List, [], ◌∷◌, Option, none, some, contains, ◌≡◌, refl, ◌⊎◌, inl, inr,
  arith, Option-cases, Bool-cases,
}
use ethgas_reth.Fallible.{done, failed, Fallible-cases}
use ethgas_reth.Types.{B256, TransactionReceipt}
use ethgas_reth.Pending.{PendingBlocks, get_receipt}
use ethgas_reth.Pending.Api.{get_transaction_receipt}
use ethgas_reth.Rpc.Eth.{
  EthApi, Metric, rpc_send_raw_transaction_sync_flashblock, rpc_send_raw_transaction_sync_canonical,
}
use ethgas_reth.Rpc.Sync.{
  Event, flashblock, flashblocks_lagged, flashblocks_closed, canonical_lagged, canonical_closed,
  elapsed, canonical_block, canonical_receipt, on_event, wait, send_raw_transaction_sync,
}

abbrev pub Occurs : {S B : Type 0} → Event S B → List (Event S B) → Type 0
Occurs event [] = ⊥
Occurs event (other ∷ events) = (other ≡ event) ⊎ Occurs event events

module _ {S B : Type 0} (tx_hash : B256) (receipt : TransactionReceipt) where
  -- A snapshot among the events has the receipt.
  abbrev pub FromFlashblock : List (Metric) → List (Event S B) → Type 0
  FromFlashblock metrics events =
      (metrics ≡ rpc_send_raw_transaction_sync_flashblock ∷ [])
      × (p : PendingBlocks S B) × Occurs (flashblock p) events
      × (get_receipt p tx_hash ≡ some receipt)

  -- A canonical block with the transaction was seen.
  abbrev pub IsSeen : List (Event S B) → Type 0
  IsSeen events =
      (hashes : List B256) × Occurs (canonical_block hashes) events
      × (contains hashes tx_hash ≡ true)

  -- The node gave the receipt.
  abbrev pub FromNode : List Metric → List (Event S B) → Type 0
  FromNode metrics events =
      (metrics ≡ rpc_send_raw_transaction_sync_canonical ∷ [])
      × Occurs (canonical_receipt (done (some receipt))) events

  abbrev FromChain : Bool → List Metric → List (Event S B) → Type 0
  FromChain reading metrics events = FromNode metrics events × ((reading ≡ true) ⊎ IsSeen events)

  abbrev IsFrom : Bool → List Metric → List (Event S B) → Type 0
  IsFrom reading metrics events = FromFlashblock metrics events ⊎ FromChain reading metrics events

  later-IsFrom :
      (reading : Bool) (metrics : List Metric) (event : Event S B) (later : List (Event S B))
      → IsFrom reading metrics later
      → IsFrom reading metrics (event ∷ later)
  later-IsFrom reading metrics event later (inl (same, p, among, found)) =
      inl (same, p, inr among, found)
  later-IsFrom reading metrics event later (inr ((same, among), inl already)) =
      inr ((same, inr among), inl already)
  later-IsFrom reading metrics event later (inr ((same, among), inr (hashes, seen, has))) =
      inr ((same, inr among), inr (hashes, inr seen, has))

  seen-IsFrom :
      (metrics : List Metric) (hashes : List B256) (later : List (Event S B))
      → contains hashes tx_hash ≡ true
      → IsFrom true metrics later
      → IsFrom false metrics (canonical_block hashes ∷ later)
  seen-IsFrom metrics hashes later has (inl (same, p, among, found)) =
      inl (same, p, inr among, found)
  seen-IsFrom metrics hashes later has (inr ((same, among), _)) =
      inr ((same, inr among), inr (hashes, inl refl, has))

  wait-IsFrom :
      (reading : Bool) (metrics : List Metric) (events : List (Event S B))
      → wait tx_hash reading events ≡ some (metrics, done receipt)
      → IsFrom reading metrics events
  unfolding wait on_event
  wait-IsFrom reading metrics [] h = absurd (ground (arith, h))
  wait-IsFrom reading metrics (flashblock p ∷ later) h =
      elim (Option-cases (get_receipt p tx_hash)) [
        | inl absent ↦
            later-IsFrom reading metrics (flashblock p) later
              (wait-IsFrom reading metrics later (ground (arith, h, absent)))
        | inr (found, e) ↦ inl (ground (arith, h, e), p, inl refl, ground (arith, h, e))
      ]
  wait-IsFrom reading metrics (flashblocks_lagged ∷ later) h =
      later-IsFrom reading metrics flashblocks_lagged later (wait-IsFrom reading metrics later h)
  wait-IsFrom reading metrics (flashblocks_closed ∷ later) h = absurd (ground (arith, h))
  wait-IsFrom reading metrics (canonical_lagged ∷ later) h =
      later-IsFrom reading metrics canonical_lagged later (wait-IsFrom reading metrics later h)
  wait-IsFrom true metrics (canonical_closed ∷ later) h =
      later-IsFrom true metrics canonical_closed later (wait-IsFrom true metrics later h)
  wait-IsFrom false metrics (canonical_closed ∷ later) h = absurd (ground (arith, h))
  wait-IsFrom reading metrics (elapsed ∷ later) h = absurd (ground (arith, h))
  wait-IsFrom true metrics (canonical_block hashes ∷ later) h =
      later-IsFrom true metrics (canonical_block hashes) later (wait-IsFrom true metrics later h)
  wait-IsFrom false metrics (canonical_block hashes ∷ later) h =
      elim (Bool-cases (contains hashes tx_hash)) [
        | inl has ↦
            seen-IsFrom metrics hashes later has
              (wait-IsFrom true metrics later (ground (arith, h, has)))
        | inr lacks ↦
            later-IsFrom false metrics (canonical_block hashes) later
              (wait-IsFrom false metrics later (ground (arith, h, lacks)))
      ]
  wait-IsFrom false metrics (canonical_receipt answer ∷ later) h =
      later-IsFrom false metrics (canonical_receipt answer) later
        (wait-IsFrom false metrics later h)
  wait-IsFrom true metrics (canonical_receipt (done (some r)) ∷ later) h =
      inr ((ground (arith, h), inl (ground (arith, h))), inl refl)
  wait-IsFrom true metrics (canonical_receipt (done none) ∷ later) h = absurd (ground (arith, h))
  wait-IsFrom true metrics (canonical_receipt (failed x) ∷ later) h = absurd (ground (arith, h))

  -- Nothing was read before the events.
  unread :
      (metrics : List Metric) (events : List (Event S B))
      → IsFrom false metrics events
      → FromFlashblock metrics events ⊎ (FromNode metrics events × IsSeen events)
  unread metrics events (inl from) = inl from
  unread metrics events (inr (from, inl reading)) = absurd (ground (arith, reading))
  unread metrics events (inr (from, inr seen)) = inr (from, seen)

module _ {S B : Type 0} (eth : EthApi) (snapshot : Option (PendingBlocks S B)) (transaction : ℕ)
    (events : List (Event S B)) (metrics : List Metric) (receipt : TransactionReceipt) where
  abbrev pub FromSnapshot : B256 → Type 0
  FromSnapshot tx_hash =
      (metrics ≡ rpc_send_raw_transaction_sync_flashblock ∷ [])
      × (p : PendingBlocks S B) × (snapshot ≡ some p)
      × (get_receipt p tx_hash ≡ some receipt)

  -- A receipt that is returned was in the snapshot at the time of sending, was in a snapshot that
  -- came during the wait, or was given by the node, a canonical block with the transaction having
  -- come; the counter that goes up says whether a flashblock or the chain gave it.
  pub send_raw_transaction_sync-IsConfirmed :
      send_raw_transaction_sync eth snapshot transaction events ≡ some (metrics, done receipt)
      → (tx_hash : B256) × (eth.send_raw_transaction transaction ≡ done tx_hash)
        × (FromSnapshot tx_hash
            ⊎ FromFlashblock tx_hash receipt metrics events
            ⊎ (FromNode tx_hash receipt metrics events × IsSeen tx_hash receipt events))
  unfolding send_raw_transaction_sync get_transaction_receipt
  send_raw_transaction_sync-IsConfirmed h =
      elim (Fallible-cases (eth.send_raw_transaction transaction)) [
        | inl (x, e) ↦ absurd (ground (arith, h, e))
        | inr (tx_hash, e) ↦ (
          tx_hash,
          e,
          elim (Option-cases snapshot) [
            | inl bare ↦ inr (
                unread tx_hash receipt metrics events
                  (wait-IsFrom tx_hash receipt false metrics events (ground (arith, h, e, bare))))
            | inr (p, k) ↦ elim (Option-cases (get_receipt p tx_hash)) [
              | inl absent ↦ inr (
                  unread tx_hash receipt metrics events (
                    wait-IsFrom tx_hash receipt false metrics events
                      (ground (arith, h, e, k, absent))))
              | inr (found, has) ↦
                  inl (ground (arith, h, e, k, has), p, k, ground (arith, h, e, k, has))
            ]
          ],
        )
      ]
