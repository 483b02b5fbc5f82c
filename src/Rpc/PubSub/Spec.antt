-- ===== src/Rpc/PubSub/Spec.antt =====
-- crates/execution/flashblocks/src/rpc/pubsub.rs: who holds the slots of a connection, and when it is given one.
use ethgas_reth.Base.{
  ℕ, suc, ◌+◌, ◌≤◌, ◌<◌, ltb, ◌==◌, ◌&&◌, if◌then◌else◌, Bool, true, false, List, [], ◌∷◌, Option,
  none, some, lookup, ◌≡◌,
}
use ethgas_reth.Rpc.PubSub.{
  SlotKind, whole_block, per_item, slot_of, cap, HeldSubscriptions, ConnectionSlot, Counts, Call,
  subscribe, finish, remove_at,
}

abbrev pub same_kind : SlotKind → SlotKind → Bool
same_kind whole_block whole_block = true
same_kind per_item per_item = true
same_kind _ _ = false

-- Who holds a slot, and of which kind.
abbrev pub Holder : Type 0
Holder = ℕ × SlotKind

abbrev pub holder : ConnectionSlot → Holder
holder slot = (slot.connection, slot.kind)

abbrev pub is_holder : ℕ → SlotKind → Holder → Bool
is_holder connection kind (other, other_kind) = other == connection && same_kind other_kind kind

abbrev pub held_by : ℕ → SlotKind → List Holder → ℕ
held_by connection kind [] = 0
held_by connection kind (h ∷ holders) =
    if is_holder connection kind h
    then suc (held_by connection kind holders)
    else held_by connection kind holders

-- The specification knows the holders alone: a connection is given a slot while it holds fewer of the
-- kind than it may.
unfoldable pub spec_step : Call → List Holder → List Holder
unfolding slot_of
spec_step (subscribe connection kind) holders =
    if ltb (held_by connection (slot_of kind) holders) (cap (slot_of kind))
    then (connection, slot_of kind) ∷ holders
    else holders
spec_step (finish i) holders = remove_at i holders

unfoldable pub spec_run : List Call → List Holder → List Holder
unfolding spec_step
spec_run [] holders = holders
spec_run (call ∷ calls) holders = spec_run calls (spec_step call holders)

-- The entry of a connection counts its holders, and is there only if it has one.
abbrev pub IsEntry : Option HeldSubscriptions → (whole items : ℕ) → Type 0
IsEntry none whole items = (whole ≡ 0) × (items ≡ 0)
IsEntry (some held) whole items =
    (held.new_flashblocks_count ≡ whole)
    × (held.per_item_count ≡ items)
    × (0 < whole + items)
    × (whole ≤ 4)
    × (items ≤ 32)

abbrev pub IsCounted : Counts → List Holder → Type 0
IsCounted counts holders =
    (c : ℕ)
    → IsEntry (lookup c counts.held) (held_by c whole_block holders) (held_by c per_item holders)
