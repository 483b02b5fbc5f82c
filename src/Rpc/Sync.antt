-- ===== src/Rpc/Sync.antt =====
-- `send_raw_transaction_sync` of crates/execution/flashblocks/src/rpc/eth.rs. `tokio::select!` takes
-- whichever of its branches is ready, so that what the three of them bring is one list of events, in
-- any order.
pub mod Confirmed
pub mod Heard
use ethgas_reth.Base.{
  ℕ, ltb, min, if◌then◌else◌, Bool, true, false, List, [], ◌∷◌, ◌++◌, Option, none, some, contains,
  ◌≡◌, refl, ◌⊎◌, inl, inr, ◌≢◌, arith, is_some, Option-cases, Bool-cases, ap, sym, ◌∙◌,
}
use ethgas_reth.Fallible.{Fallible, done, failed, Fallible-cases}
use ethgas_reth.Types.{B256, TransactionReceipt}
use ethgas_reth.Pending.{PendingBlocks, get_receipt}
use ethgas_reth.Pending.Api.{get_transaction_receipt}
use ethgas_reth.Rpc.Eth.{
  EthApi, Metric, Reply, rpc_send_raw_transaction_sync_flashblock,
  rpc_send_raw_transaction_sync_canonical, rpc_send_raw_transaction_sync_timeout,
}

-- In milliseconds. A positive timeout shortens the configured one.
unfoldable pub sync_timeout : (configured : ℕ) → Option ℕ → ℕ
sync_timeout configured none = configured
sync_timeout configured (some timeout_ms) =
    if ltb 0 timeout_ms then min timeout_ms configured else configured

-- What reaches the wait: a snapshot, a canonical block with the hashes of its receipts, the answer of
-- the node to the read that a canonical block brought about, the end or a gap of either channel, and
-- the end of the timeout.
pub data Event (S B : Type 0) : Type 0 where
  flashblock : PendingBlocks S B → Event S B
  flashblocks_lagged flashblocks_closed canonical_lagged canonical_closed elapsed : Event S B
  canonical_block : List B256 → Event S B
  canonical_receipt : Fallible (Option TransactionReceipt) → Event S B

-- After an event: the wait goes on, with a read of the receipt under way or not, or it is over.
pub data Turn : Type 0 where
  waiting : (reading : Bool) → Turn
  finished : Reply TransactionReceipt → Turn

abbrev pub confirmation_timeout : Reply TransactionReceipt
confirmation_timeout =
    (rpc_send_raw_transaction_sync_timeout ∷ [], failed "TransactionConfirmationTimeout")

module _ {S B : Type 0} (tx_hash : B256) where
  -- While the read is under way the canonical blocks are not polled.
  unfoldable pub on_event : Bool → Event S B → Turn
  on_event reading (flashblock pending) = elim (get_receipt pending tx_hash) [
    | some receipt ↦ finished (rpc_send_raw_transaction_sync_flashblock ∷ [], done receipt)
    | none ↦ waiting reading
  ]
  on_event reading flashblocks_lagged = waiting reading
  on_event reading flashblocks_closed = finished confirmation_timeout
  on_event reading canonical_lagged = waiting reading
  on_event true canonical_closed = waiting true
  on_event false canonical_closed = finished confirmation_timeout
  on_event true (canonical_block hashes) = waiting true
  on_event false (canonical_block hashes) = waiting (contains hashes tx_hash)
  on_event false (canonical_receipt answer) = waiting false
  on_event true (canonical_receipt (done (some receipt))) =
      finished (rpc_send_raw_transaction_sync_canonical ∷ [], done receipt)
  on_event true (canonical_receipt _) = finished confirmation_timeout
  on_event reading elapsed = finished confirmation_timeout

  -- The reply, unless the wait outlasts the events.
  unfoldable pub wait : Bool → List (Event S B) → Option (Reply TransactionReceipt)
  unfolding on_event
  wait reading [] = none
  wait reading (event ∷ later) = elim (on_event reading event) [
    | waiting still ↦ wait still later
    | finished reply ↦ some reply
  ]

-- `snapshot` is what is published once the pool has taken the transaction.
unfoldable pub send_raw_transaction_sync :
    {S B : Type 0}
    → EthApi
    → Option (PendingBlocks S B)
    → ℕ
    → List (Event S B)
    → Option (Reply TransactionReceipt)
unfolding wait get_transaction_receipt
send_raw_transaction_sync eth snapshot transaction events =
    elim (eth.send_raw_transaction transaction) [
      | failed reason ↦ some ([], failed reason)
      | done tx_hash ↦ elim (get_transaction_receipt snapshot tx_hash) [
        | some receipt ↦ some (rpc_send_raw_transaction_sync_flashblock ∷ [], done receipt)
        | none ↦ wait tx_hash false events
      ]
    ]
