-- ===== src/Rpc/PubSub.antt =====
-- crates/execution/flashblocks/src/rpc/pubsub.rs and types.rs: the flashblocks subscriptions.
-- Sending on a connection, and what a stream yields, are in the modules below.
pub mod Spec
pub mod Taking
pub mod Dropping
pub mod Counted
pub mod Latest
pub mod Streams
mod Tests
use ethgas_reth.Base.{
  ℕ, zero, suc, ◌-◌, leb, ltb, ◌==◌, ◌&&◌, if◌then◌else◌, Bool, true, false, List, [], ◌∷◌, Option,
  none, some, Map, lookup, insert, remove, get_elem?,
}
use mathlib.Core.Option

pub data FlashblocksSubscriptionKind : Type 0 where
  new_flashblocks pending_logs new_flashblock_transactions new_flashblock_batches :
      FlashblocksSubscriptionKind

-- `SubscriptionKind` is alloy's.
pub data ExtendedSubscriptionKind (SubscriptionKind : Type 0) : Type 0 where
  standard : SubscriptionKind → ExtendedSubscriptionKind SubscriptionKind
  flashblocks : FlashblocksSubscriptionKind → ExtendedSubscriptionKind SubscriptionKind

pub data SlotKind : Type 0 where
  whole_block per_item : SlotKind

abbrev pub max_flashblocks_subscriptions_per_connection : ℕ
max_flashblocks_subscriptions_per_connection = 32

abbrev pub max_new_flashblocks_subscriptions_per_connection : ℕ
max_new_flashblocks_subscriptions_per_connection = 4

unfoldable pub slot_of : FlashblocksSubscriptionKind → SlotKind
slot_of new_flashblocks = whole_block
slot_of pending_logs = per_item
slot_of new_flashblock_transactions = per_item
slot_of new_flashblock_batches = per_item

abbrev pub cap : SlotKind → ℕ
cap whole_block = max_new_flashblocks_subscriptions_per_connection
cap per_item = max_flashblocks_subscriptions_per_connection

-- `queued_total` is the address of the connection's counter.
pub record HeldSubscriptions : Type 0 where
  pub new_flashblocks_count : ℕ
  pub per_item_count : ℕ
  pub queued_total : ℕ

abbrev pub count : SlotKind → HeldSubscriptions → ℕ
count whole_block held = held.new_flashblocks_count
count per_item held = held.per_item_count

abbrev pub with_count : SlotKind → ℕ → HeldSubscriptions → HeldSubscriptions
with_count whole_block n held = record held { new_flashblocks_count = n }
with_count per_item n held = record held { per_item_count = n }

unfoldable pub is_unheld : HeldSubscriptions → Bool
is_unheld held = held.new_flashblocks_count == 0 && held.per_item_count == 0

pub record ConnectionSlot : Type 0 where
  pub connection : ℕ
  pub kind : SlotKind
  pub slot_total : ℕ

-- `SubscriptionCounts`, with the next free address for a counter.
pub record Counts : Type 0 where
  pub held : Map HeldSubscriptions
  pub next_total : ℕ

-- `entry(connection).or_default()`
unfoldable pub entry_of : ℕ → Counts → HeldSubscriptions × ℕ
entry_of connection counts = elim (lookup connection counts.held) [
  | some held ↦ (held, counts.next_total)
  | none ↦ (
    record { new_flashblocks_count = 0; per_item_count = 0; queued_total = counts.next_total },
    suc counts.next_total,
  )
]

unfoldable pub take_slot : ℕ → SlotKind → Counts → Counts × Option ConnectionSlot
unfolding entry_of
take_slot connection kind counts =
    let (subscriptions, next) = entry_of connection counts in
    if leb (cap kind) (count kind subscriptions)
    then (record { held = insert connection subscriptions counts.held; next_total = next }, none)
    else (
      record {
        held =
            insert connection (with_count kind (suc (count kind subscriptions)) subscriptions)
              counts.held;
        next_total = next;
      },
      some record { connection = connection; kind = kind; slot_total = subscriptions.queued_total },
    )

-- `Drop::drop`
unfoldable pub drop_slot : ConnectionSlot → Counts → Counts
unfolding is_unheld
drop_slot slot counts = elim (lookup slot.connection counts.held) [
  | none ↦ counts
  | some held ↦
      let left = with_count slot.kind (count slot.kind held - 1) held in
      if is_unheld left
      then record counts { held = remove slot.connection counts.held }
      else record counts { held = insert slot.connection left counts.held }
]

-- The server: the counts, and the slots that its subscription tasks hold.
pub record Server : Type 0 where
  pub counts : Counts
  pub live : List ConnectionSlot

-- A connection asks for a subscription, or the task of the i-th live one ends.
pub data Call : Type 0 where
  subscribe : (connection : ℕ) → FlashblocksSubscriptionKind → Call
  finish : ℕ → Call

abbrev pub remove_at {ℓ} : {A : Type ℓ} → ℕ → List A → List A
remove_at i [] = []
remove_at zero (x ∷ xs) = xs
remove_at (suc i) (x ∷ xs) = x ∷ remove_at i xs

unfoldable pub grant : Counts × Option ConnectionSlot → List ConnectionSlot → Server
grant (counts, none) live = record { counts = counts; live = live }
grant (counts, some slot) live = record { counts = counts; live = slot ∷ live }

unfoldable pub step : Call → Server → Server
unfolding take_slot drop_slot slot_of grant
step (subscribe connection kind) s = grant (take_slot connection (slot_of kind) s.counts) s.live
step (finish i) s = elim (get_elem? s.live i) [
  | none ↦ s
  | some slot ↦ record { counts = drop_slot slot s.counts; live = remove_at i s.live }
]

unfoldable pub run : List Call → Server → Server
unfolding step
run [] s = s
run (call ∷ calls) s = run calls (step call s)

unfoldable pub new : Server
new = record { counts = record { held = []; next_total = 0 }; live = [] }
