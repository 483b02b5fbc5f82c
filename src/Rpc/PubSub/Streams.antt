-- ===== src/Rpc/PubSub/Streams.antt =====
-- The streams of crates/execution/flashblocks/src/rpc/pubsub.rs, and `pipe_from_stream`, which sends
-- every item of one in turn.
pub mod Continued
use mathlib.Core.Option
use ethgas_reth.Base.{
  ℕ, ◌+◌, leb, ◌||◌, if◌then◌else◌, Bool, true, false, List, [], ◌∷◌, ◌++◌, Option, none, some, map,
}
use ethgas_reth.Types.{B256, Log, Filter}
use ethgas_reth.Pending
use ethgas_reth.Pending.{PendingBlocks, RpcBlock, TransactionWithLogs, FlashblockBatch}
use ethgas_reth.Pending.Stream.{
  get_latest_flashblock_logs, get_latest_flashblock_transactions_with_logs,
  get_latest_flashblock_transactions_with_logs_filtered, get_latest_flashblock_batch,
  get_latest_flashblock_transaction_hashes,
}
use ethgas_reth.Rpc.PubSub.{
  FlashblocksSubscriptionKind, new_flashblocks, pending_logs, new_flashblock_transactions,
  new_flashblock_batches,
}
use ethgas_reth.Rpc.PubSub.Latest.{SlowSubscriberLimits}

-- `Params` of `eth_subscribe`.
pub data Params : Type 0 where
  logs : Filter → Params
  bool : Bool → Params

-- A message of a subscription.
pub data Notification : Type 0 where
  block : RpcBlock → Notification
  log : Log → Notification
  transaction : TransactionWithLogs → Notification
  tx_hash : B256 → Notification
  batch : FlashblockBatch → Notification

-- What a snapshot is for a subscription. `Filter::default()` matches every log.
unfoldable pub items_of :
    {S B : Type 0}
    → FlashblocksSubscriptionKind
    → Option Params
    → PendingBlocks S B
    → List Notification
items_of new_flashblocks params p = block (Pending.get_latest_block p true) ∷ []
items_of pending_logs (some (logs filter)) p = map log (get_latest_flashblock_logs p filter)
items_of pending_logs _ p = map log (get_latest_flashblock_logs p (λ inner. true))
items_of new_flashblock_transactions (some (logs filter)) p =
    map transaction (get_latest_flashblock_transactions_with_logs_filtered p filter)
items_of new_flashblock_transactions (some (bool true)) p =
    map transaction (get_latest_flashblock_transactions_with_logs p)
items_of new_flashblock_transactions _ p = map tx_hash (get_latest_flashblock_transaction_hashes p)
items_of new_flashblock_batches (some (logs filter)) p =
    batch (get_latest_flashblock_batch p (some filter)) ∷ []
items_of new_flashblock_batches _ p = batch (get_latest_flashblock_batch p none) ∷ []

-- The stream over what the channel gives: a snapshot, or a gap, which is logged.
unfoldable pub stream_of :
    {S B : Type 0}
    → FlashblocksSubscriptionKind
    → Option Params
    → List (Option (PendingBlocks S B))
    → List Notification
unfolding items_of
stream_of kind params [] = []
stream_of kind params (none ∷ results) = stream_of kind params results
stream_of kind params (some p ∷ results) = items_of kind params p ++ stream_of kind params results

-- A look at the connection while a subscription holds back.
pub record Poll : Type 0 where
  pub queued : ℕ
  pub is_closed : Bool
  pub now : ℕ

-- `none` while it still waits.
unfoldable pub wait_for_room : SlowSubscriberLimits → (deadline : ℕ) → List Poll → Option Bool
wait_for_room limits deadline [] = none
wait_for_room limits deadline (poll ∷ polls) = elim (leb poll.queued limits.max_queued) [
  | true ↦ some true
  | false ↦ elim (poll.is_closed || leb deadline poll.now) [
    | true ↦ some false
    | false ↦ wait_for_room limits deadline polls
  ]
]

-- How `send` ends: queued, refused before the message is counted, or refused after.
pub data Sending : Type 0 where
  queues unserialized disconnected : Sending

-- One item: when it came, the looks at the connection, and how the sending ended.
pub record Turn : Type 0 where
  pub started : ℕ
  pub polls : List Poll
  pub sending : Sending

abbrev pub is_queued : Sending → Bool
is_queued queues = true
is_queued _ = false

-- Whether the item is queued on the connection.
unfoldable pub is_sent : SlowSubscriberLimits → Turn → Bool
unfolding wait_for_room
is_sent limits turn = elim (wait_for_room limits (turn.started + limits.timeout) turn.polls) [
  | some true ↦ is_queued turn.sending
  | _ ↦ false
]

-- The items that are queued. The subscription is over, or waits, at the first that is not.
unfoldable pub pipe_from_stream {ℓ} :
    {A : Type ℓ} → SlowSubscriberLimits → List A → List Turn → List A
unfolding is_sent
pipe_from_stream limits [] turns = []
pipe_from_stream limits (item ∷ items) [] = []
pipe_from_stream limits (item ∷ items) (turn ∷ turns) = elim (is_sent limits turn) [
  | true ↦ item ∷ pipe_from_stream limits items turns
  | false ↦ []
]
