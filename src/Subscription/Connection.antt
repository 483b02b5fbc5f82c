-- ===== src/Subscription/Connection.antt =====
-- The connections of crates/execution/flashblocks/src/subscription.rs: reads, pings, and the backoff
-- before the next try. Durations are nanoseconds.
pub mod Pings
pub mod Forwarding
use Prim.Native.String.{String, compare}
use Prim.Native.Nat.{Ordering}
use ethgas_reth.Base.{
  ℕ, suc, ◌+◌, ◌*◌, min, ◌&&◌, ltb, if◌then◌else◌, Bool, true, false, List, [], ◌∷◌, ◌++◌, Option,
  none, some, length,
}
use ethgas_reth.Fallible.{Fallible, done, failed}
use ethgas_reth.Payload.{FlashBlock}
use ethgas_reth.Subscription.Wire.{
  Bytes, WireShape, Decoders, max_warned_unknown_keys, try_decode_message,
  try_decode_plaintext_message,
}

abbrev pub initial_backoff : ℕ
initial_backoff = 1000000000

abbrev pub max_backoff : ℕ
max_backoff = 2000000000

-- What outlives a connection: the backoff, the keys that were warned about, the flashblocks sent to
-- the mailbox, oldest first, and the counters.
pub record Subscriber : Type 0 where
  pub backoff : ℕ
  pub warned_keys : List (String × String)
  pub sent : List FlashBlock
  pub upstream_messages : ℕ
  pub upstream_errors : ℕ
  pub reconnect_attempts : ℕ
  pub unknown_wire_fields : ℕ
  pub wire_slot_number_missing : ℕ
  pub wire_requests_missing : ℕ

abbrev pub new : Subscriber
new = record {
  backoff = initial_backoff;
  warned_keys = [];
  sent = [];
  upstream_messages = 0;
  upstream_errors = 0;
  reconnect_attempts = 0;
  unknown_wire_fields = 0;
  wire_slot_number_missing = 0;
  wire_requests_missing = 0;
}

-- `Result<Message, Error>` of the stream; the last stands for pings and raw frames.
pub data Incoming : Type 0 where
  binary : Bytes → Incoming
  text : String → Incoming
  close pong read_error other : Incoming

-- One turn of the `select!`: something is read, or it is time to ping, which succeeds or not.
pub data Turn : Type 0 where
  incoming : Incoming → Turn
  tick : (ping_sent : Bool) → Turn

abbrev pub next_backoff : ℕ → ℕ
next_backoff backoff = min (backoff * 2) max_backoff

-- `Self::sleep`, with what is assigned from it.
abbrev pub sleep : Subscriber → Subscriber
sleep s = record s {
  reconnect_attempts = suc s.reconnect_attempts;
  backoff = next_backoff s.backoff;
}

abbrev same_text : String → String → Bool
same_text a b = elim (compare a b) [ Ordering.eq ↦ true | _ ↦ false ]

unfoldable is_warned : List (String × String) → String × String → Bool
is_warned [] key = false
is_warned ((called, name) ∷ rest) key =
    if same_text called key.0 && same_text name key.1 then true else is_warned rest key

unfoldable pub warn_keys : List (String × String) → List (String × String) → List (String × String)
unfolding is_warned
warn_keys warned [] = warned
warn_keys warned (key ∷ keys) =
    warn_keys
      (if ltb (length warned) max_warned_unknown_keys
        then (if is_warned warned key then warned else key ∷ warned)
        else warned)
      keys

abbrev count_if : Bool → ℕ → ℕ
count_if true n = suc n
count_if false n = n

unfoldable pub record_wire_shape : WireShape → Subscriber → Subscriber
unfolding warn_keys
record_wire_shape shape s = record s {
  unknown_wire_fields = s.unknown_wire_fields + length shape.unknown_keys;
  warned_keys = warn_keys s.warned_keys shape.unknown_keys;
  wire_slot_number_missing = count_if shape.base_without_slot_number s.wire_slot_number_missing;
  wire_requests_missing = count_if shape.diff_without_requests s.wire_requests_missing;
}

-- A message that decodes is recorded and sent, and any other is dropped.
unfoldable pub forward : Fallible (FlashBlock × WireShape) → Subscriber → Subscriber
unfolding record_wire_shape
forward (failed reason) s = s
forward (done (payload, shape)) s =
    let recorded = record_wire_shape shape s in
    record recorded { sent = recorded.sent ++ payload ∷ [] }

module _ (decoders : Decoders) where
  -- The arms of the match on a message. Without an answer, the connection is left; otherwise it is
  -- whether a pong is awaited.
  unfoldable pub on_message : Incoming → Bool → Subscriber → Subscriber × Option Bool
  unfolding forward
  on_message (binary bytes) awaiting s =
      (forward (try_decode_message decoders bytes) s, some awaiting)
  on_message (text content) awaiting s =
      (forward (try_decode_plaintext_message decoders content) s, some awaiting)
  on_message close awaiting s = (s, none)
  on_message pong awaiting s = (s, some false)
  on_message read_error awaiting s = (record s { upstream_errors = suc s.upstream_errors }, none)
  on_message other awaiting s = (s, some awaiting)

  unfoldable pub step : Turn → (awaiting_pong_resp : Bool) → Subscriber → Subscriber × Option Bool
  unfolding on_message
  step (incoming message) awaiting s =
      on_message message awaiting (record s { upstream_messages = suc s.upstream_messages })
  step (tick ping_sent) true s = (sleep s, none)
  step (tick true) false s = (s, some true)
  step (tick false) false s = (sleep s, none)

  -- One connection: what is left, whether it still stands, and the turns that it did not come to.
  unfoldable pub run_connection :
      List Turn → Bool → Subscriber → Subscriber × Option Bool × List Turn
  unfolding step
  run_connection [] awaiting s = (s, some awaiting, [])
  run_connection (turn ∷ turns) awaiting s =
      let s' = (step turn awaiting s).0 in
      elim (step turn awaiting s).1 as (λ _. Subscriber × Option Bool × List Turn) [
        | none ↦ (s', none, turns)
        | some awaiting' ↦ run_connection turns awaiting' s'
      ]

  -- A try to connect: refused, or the turns of the connection.
  pub data Attempt : Type 0 where
    refused : Attempt
    connected : List Turn → Attempt

  unfoldable pub attempt : Attempt → Subscriber → Subscriber
  unfolding run_connection
  attempt refused s = sleep s
  attempt (connected turns) s =
      (run_connection turns false (record s { backoff = initial_backoff })).0

  -- The loop of `start` over the tries.
  unfoldable pub run : List Attempt → Subscriber → Subscriber
  unfolding attempt
  run [] s = s
  run (first ∷ rest) s = run rest (attempt first s)
