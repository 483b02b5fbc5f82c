-- ===== src/Rpc/PubSub/Latest.antt =====
-- `pipe_latest` of crates/execution/flashblocks/src/rpc/pubsub.rs, which sends a subscription's newest
-- item, and skips items while its previous message is in the buffer of the connection.
pub mod Racing
pub mod Since
pub mod Buffered
use mathlib.Core.Option
use ethgas_reth.Base.{
  ℕ, suc, ◌+◌, ◌-◌, leb, if◌then◌else◌, Bool, true, false, not, List, [], ◌∷◌, ◌++◌, Option, none,
  some, length, add_u64,
}

pub record SlowSubscriberLimits : Type 0 where
  pub max_queued : ℕ
  pub timeout : ℕ

-- In milliseconds.
abbrev pub default_limits : SlowSubscriberLimits
default_limits = record { max_queued = 32; timeout = 10000 }

unfoldable pub has_left : (queued_now queued_after : ℕ) → Bool
has_left queued_now queued_after = leb queued_now queued_after

-- Where the task of the subscription stands between two of its accesses to what the connection's
-- tasks share: before an item, with the length of the buffer read, before counting a message, with
-- the message counted, and at its end.
pub data Phase : Type 0 where
  waiting : Phase
  reading : (held : ℕ) → Phase
  sending : Phase
  queueing : (total : ℕ) → Phase
  over : Phase

-- `buffer` has the oldest message first, and says of each whether it is the subscription's own.
pub record Pipe : Type 0 where
  pub queued_total : ℕ
  pub buffer : List Bool
  pub skipping_since : Option ℕ
  pub previous_at : Option ℕ
  pub phase : Phase

-- What happens on the connection, one access at a time. The task takes its next one: `now` is what
-- its clock reads, and `succeeds` whether an item comes and not the end, or whether the call of
-- this access succeeds. Other tasks count a message, queue one, do both with nothing in between,
-- and write the oldest to the client.
pub data Event : Type 0 where
  access : (now : ℕ) (succeeds : Bool) → Event
  other_counted other_queued other written : Event

unfoldable pub previous_queued : Option ℕ → (held total : ℕ) → Bool
unfolding has_left
previous_queued none held total = false
previous_queued (some at_total) held total = not (has_left held (total - at_total))

-- `queued_total.fetch_add(1) + 1`
abbrev pub counted : Pipe → ℕ
counted s = add_u64 s.queued_total 1

unfoldable pub skip : SlowSubscriberLimits → ℕ → Pipe → Pipe
skip limits now s =
    let since = Option.get_or s.skipping_since now in
    if leb limits.timeout (now - since)
    then record s { skipping_since = some since; phase = over }
    else record s { skipping_since = some since; phase = waiting }

-- The decision, on the length of the buffer that was read before.
unfoldable pub decide : SlowSubscriberLimits → (held now : ℕ) → Pipe → Pipe
unfolding previous_queued skip
decide limits held now s =
    if previous_queued s.previous_at held s.queued_total
    then skip limits now s
    else record s { skipping_since = none; phase = sending }

-- `send` up to its `await`: an item that cannot be serialized is not counted.
unfoldable pub count_message : (succeeds : Bool) → Pipe → Pipe
count_message true s = record s { queued_total = counted s; phase = queueing (counted s) }
count_message false s = record s { phase = over }

-- The rest of `send`, which a client that left refuses.
unfoldable pub queue_message : (succeeds : Bool) → (total : ℕ) → Pipe → Pipe
queue_message true total s = record s {
  buffer = s.buffer ++ true ∷ [];
  previous_at = some total;
  phase = waiting;
}
queue_message false total s = record s { phase = over }

-- The task's next access: it waits for an item and reads the buffer's length, reads the total and
-- decides, serializes and counts the message, or queues it.
unfoldable pub advance : SlowSubscriberLimits → (now : ℕ) (succeeds : Bool) → Phase → Pipe → Pipe
unfolding decide count_message queue_message
advance limits now true waiting s = record s { phase = reading (length s.buffer) }
advance limits now false waiting s = record s { phase = over }
advance limits now succeeds (reading held) s = decide limits held now s
advance limits now succeeds sending s = count_message succeeds s
advance limits now succeeds (queueing total) s = queue_message succeeds total s
advance limits now succeeds over s = s

abbrev pub tail : List Bool → List Bool
tail [] = []
tail (message ∷ buffer) = buffer

unfoldable pub step : SlowSubscriberLimits → Event → Pipe → Pipe
unfolding advance
step limits (access now succeeds) s = advance limits now succeeds s.phase s
step limits other_counted s = record s { queued_total = counted s }
step limits other_queued s = record s { buffer = s.buffer ++ false ∷ [] }
step limits other s = record s { queued_total = counted s; buffer = s.buffer ++ false ∷ [] }
step limits written s = record s { buffer = tail s.buffer }

unfoldable pub run : SlowSubscriberLimits → List Event → Pipe → Pipe
unfolding step
run limits [] s = s
run limits (event ∷ events) s = run limits events (step limits event s)

-- A new subscription on a connection that has nothing buffered.
unfoldable pub new : ℕ → Pipe
new queued_total = record {
  queued_total = queued_total;
  buffer = [];
  skipping_since = none;
  previous_at = none;
  phase = waiting;
}
