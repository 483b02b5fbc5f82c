-- ===== src/Rpc/PubSub/Tests.antt =====
-- Tests of the model of crates/execution/flashblocks/src/rpc/pubsub.rs, and witnesses of its theorems.
use ethgas_reth.Base.{
  ℕ, zero, suc, ◌≤◌, true, false, List, [], ◌∷◌, ◌++◌, none, some, map, ◌≡◌, refl, arith,
}
use ethgas_reth.Pending.{PendingBlocks, previous_flashblocks_tx_count, count_but_last}
use ethgas_reth.Pending.Stream.{get_latest_flashblock_transaction_hashes, latest_transactions}
use ethgas_reth.Pending.Delta.{total}
use ethgas_reth.Samples.{pending_11, first_of_11, second_of_11, transaction}
use ethgas_reth.Rpc.PubSub
use ethgas_reth.Rpc.PubSub.{
  Call, subscribe, finish, new_flashblocks, pending_logs, new_flashblock_transactions, whole_block,
  per_item,
}
use ethgas_reth.Rpc.PubSub.Spec.{holder, spec_run, spec_step, IsCounted}
use ethgas_reth.Rpc.PubSub.Counted.{run-new-IsCounted}
use ethgas_reth.Rpc.PubSub.Latest
use ethgas_reth.Rpc.PubSub.Latest.{default_limits, Event, access, other_counted, other, written}
use ethgas_reth.Rpc.PubSub.Latest.Racing.{own, races}
use ethgas_reth.Rpc.PubSub.Latest.Buffered.{run-new-own-le}
use ethgas_reth.Rpc.PubSub.Streams.{
  Notification, tx_hash, stream_of, items_of, Turn, queues, is_sent, wait_for_room,
  pipe_from_stream,
}
use ethgas_reth.Rpc.PubSub.Streams.Continued.{
  IsSeries, latest_of, hashes_of, sent_of, AreSent, sent-IsSeries,
}

-- Connection 7 asks for five subscriptions to whole blocks and is refused the last, and one ends.
abbrev calls : List Call
calls =
    subscribe 7 new_flashblocks
    ∷ subscribe 7 new_flashblocks
    ∷ subscribe 7 new_flashblocks
    ∷ subscribe 8 pending_logs
    ∷ subscribe 7 new_flashblocks
    ∷ subscribe 7 new_flashblocks
    ∷ finish 1
    ∷ []

holders_left :
    spec_run calls []
    ≡ (7, whole_block) ∷ (7, whole_block) ∷ (7, whole_block) ∷ (7, whole_block) ∷ []
unfolding spec_run spec_step PubSub.slot_of
holders_left = refl

run-new-IsCounted_example :
    (map holder (PubSub.run calls PubSub.new).live ≡ spec_run calls [])
    × IsCounted (PubSub.run calls PubSub.new).counts (map holder (PubSub.run calls PubSub.new).live)
run-new-IsCounted_example = run-new-IsCounted calls

-- The next accesses of a task that sends an item, and of one that skips it.
abbrev accesses : ℕ → List Event
accesses zero = []
accesses (suc n) = access 5 true ∷ accesses n

-- The client does not read: the second item is skipped, and a message of another subscription comes.
abbrev events : List Event
events = accesses 4 ++ other ∷ accesses 2 ++ written ∷ accesses 4

-- Once the first message is written, the third item is sent.
sent_again : (Latest.run default_limits events (Latest.new 40)).buffer ≡ false ∷ true ∷ []
unfolding Latest.run Latest.step Latest.advance Latest.new Latest.decide Latest.skip
    Latest.count_message Latest.queue_message Latest.previous_queued Latest.has_left
sent_again = refl

run-new-own-le_example :
    own (Latest.run default_limits events (Latest.new 40)).buffer
    ≤ suc (races default_limits events (Latest.new 40))
run-new-own-le_example = run-new-own-le default_limits 40 events (omega arith)

-- Another task counts its message between the two reads: a second message is queued.
abbrev raced_events : List Event
raced_events = accesses 5 ++ other_counted ∷ accesses 3

both_buffered : (Latest.run default_limits raced_events (Latest.new 40)).buffer ≡ true ∷ true ∷ []
unfolding Latest.run Latest.step Latest.advance Latest.new Latest.decide Latest.skip
    Latest.count_message Latest.queue_message Latest.previous_queued Latest.has_left
both_buffered = refl

-- Block 11 with its second flashblock.
abbrev grown : PendingBlocks ℕ ℕ
grown = record pending_11 {
  flashblocks = first_of_11 ∷ second_of_11 ∷ [];
  transactions = transaction 11 31 ∷ transaction 11 32 ∷ [];
}

-- The connection is full at first, and drains.
abbrev turn : Turn
turn = record {
  started = 100;
  polls =
      record { queued = 40; is_closed = false; now = 100 }
      ∷ record { queued = 3; is_closed = false; now = 101 }
      ∷ [];
  sending = queues;
}

grown-IsSeries : IsSeries pending_11 (grown ∷ [])
unfolding total
grown-IsSeries = ((second_of_11, transaction 11 32 ∷ [], refl, refl, refl), tt)

hash_of_the_second : sent_of default_limits pending_11 (grown ∷ []) (turn ∷ []) ≡ tx_hash 32 ∷ []
unfolding stream_of items_of pipe_from_stream is_sent wait_for_room
    get_latest_flashblock_transaction_hashes latest_transactions previous_flashblocks_tx_count
    count_but_last
hash_of_the_second = refl

sent-IsSeries_example :
    ((left : List Notification) × (hashes_of (latest_of pending_11 (grown ∷ []))
        ≡ hashes_of pending_11
          ++ (sent_of default_limits pending_11 (grown ∷ []) (turn ∷ []) ++ left)))
    × (AreSent default_limits
          (stream_of new_flashblock_transactions none (map some (grown ∷ [])))
          (turn ∷ [])
        → hashes_of (latest_of pending_11 (grown ∷ []))
          ≡ hashes_of pending_11 ++ sent_of default_limits pending_11 (grown ∷ []) (turn ∷ []))
sent-IsSeries_example =
    sent-IsSeries default_limits pending_11 (grown ∷ []) (turn ∷ []) grown-IsSeries
