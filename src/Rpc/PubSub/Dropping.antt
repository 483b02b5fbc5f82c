-- ===== src/Rpc/PubSub/Dropping.antt =====
-- crates/execution/flashblocks/src/rpc/pubsub.rs: a slot that is dropped is no longer counted.
use mathlib.Core.Path.{subst}
use ethgas_reth.Base.{
  ℕ, zero, suc, ◌-◌, ◌≤◌, ◌==◌, if◌then◌else◌, false, List, [], ◌∷◌, map, Option, none, some,
  lookup, insert, remove, get_elem?, ◌≡◌, refl, arith, Bool-cases, Option-cases, inl, inr, ==_iff,
  ◌⊎◌, sym,
}
use ethgas_reth.Rpc.PubSub.{
  SlotKind, whole_block, per_item, count, with_count, is_unheld, ConnectionSlot, Counts, drop_slot,
  remove_at, grant,
}
use ethgas_reth.Rpc.PubSub.Spec.{holder, is_holder, held_by, IsCounted}
use ethgas_reth.Rpc.PubSub.Taking.{insert-IsCounted, remove-IsCounted}

held_by-remove_at :
    (c : ℕ) (kind : SlotKind) (i : ℕ) (live : List ConnectionSlot) (slot : ConnectionSlot)
    → get_elem? live i ≡ some slot
    → held_by c kind (map holder live) ≡ (
        if is_holder c kind (holder slot)
        then suc (held_by c kind (map holder (remove_at i live)))
        else held_by c kind (map holder (remove_at i live)))
held_by-remove_at c kind i [] slot e = absurd (ground (arith, e))
held_by-remove_at c kind zero (x ∷ live) slot e = ground (arith, e)
held_by-remove_at c kind (suc i) (x ∷ live) slot e =
    ground (arith, held_by-remove_at c kind i live slot e)

pub remove_at-map :
    (i : ℕ) (live : List ConnectionSlot)
    → map holder (remove_at i live) ≡ remove_at i (map holder live)
remove_at-map i [] = refl
remove_at-map zero (x ∷ live) = refl
remove_at-map (suc i) (x ∷ live) = rw (remove_at-map i live) refl

pub remove_at-beyond :
    (i : ℕ) (live : List ConnectionSlot) → get_elem? live i ≡ none → remove_at i live ≡ live
remove_at-beyond i [] e = refl
remove_at-beyond zero (x ∷ live) e = absurd (ground (arith, e))
remove_at-beyond (suc i) (x ∷ live) e = rw (remove_at-beyond i live e) refl

pub granted :
    (taken : Counts × Option ConnectionSlot) (live : List ConnectionSlot) (slot : ConnectionSlot)
    → taken.1 ≡ some slot
    → grant taken live ≡ record { counts = taken.0; live = slot ∷ live }
unfolding grant
granted (counts, none) live slot e = absurd (ground (arith, e))
granted (counts, some other) live slot e = ground (arith, e)

pub not_granted :
    (taken : Counts × Option ConnectionSlot) (live : List ConnectionSlot)
    → taken.1 ≡ none
    → grant taken live ≡ record { counts = taken.0; live = live }
unfolding grant
not_granted (counts, none) live e = refl
not_granted (counts, some other) live e = absurd (ground (arith, e))

SlotKind-cases : (kind : SlotKind) → (kind ≡ whole_block) ⊎ (kind ≡ per_item)
SlotKind-cases whole_block = inl refl
SlotKind-cases per_item = inr refl

pub drop_slot-IsCounted :
    (counts : Counts) (live : List ConnectionSlot) (i : ℕ) (slot : ConnectionSlot)
    → IsCounted counts (map holder live)
    → get_elem? live i ≡ some slot
    → IsCounted (drop_slot slot counts) (map holder (remove_at i live))
unfolding drop_slot is_unheld
drop_slot-IsCounted counts live i slot h e =
    let own = h slot.connection in
    let self = (==_iff slot.connection slot.connection).1 refl in
    let whole = held_by-remove_at slot.connection whole_block i live slot e in
    let items = held_by-remove_at slot.connection per_item i live slot e in
    let apart : (d : ℕ)
        → (slot.connection == d) ≡ false
        → (held_by d whole_block (map holder (remove_at i live))
            ≡ held_by d whole_block (map holder live))
          × (held_by d per_item (map holder (remove_at i live))
              ≡ held_by d per_item (map holder live)) =
      λ d other. ground (
        arith,
        other,
        held_by-remove_at d whole_block i live slot e,
        held_by-remove_at d per_item i live slot e,
      ) in
    elim (Option-cases (lookup slot.connection counts.held)) [
      | inl absent ↦
          absurd (ground (arith, absent, own, whole, items, self, SlotKind-cases slot.kind))
      | inr (held, found) ↦
          let left = with_count slot.kind (count slot.kind held - 1) held in
          let counted : (left.new_flashblocks_count
                ≡ held_by slot.connection whole_block (map holder (remove_at i live)))
              × (left.per_item_count
                  ≡ held_by slot.connection per_item (map holder (remove_at i live)))
              × (left.new_flashblocks_count ≤ 4)
              × (left.per_item_count ≤ 32) =
            ground (arith, found, own, whole, items, self, SlotKind-cases slot.kind) in
          elim (Bool-cases (is_unheld left)) [
            | inl gone ↦
                let after : drop_slot slot counts
                    ≡ record counts { held = remove slot.connection counts.held } =
                  ground (arith, found, gone) in
                subst (λ (t : Counts). IsCounted t (map holder (remove_at i live))) (sym after)
                  (remove-IsCounted counts (map holder live) slot.connection
                    (map holder (remove_at i live)) h (ground (arith, gone, counted))
                    (ground (arith, gone, counted)) apart)
            | inr kept ↦
                let after : drop_slot slot counts
                    ≡ record counts { held = insert slot.connection left counts.held } =
                  ground (arith, found, kept) in
                subst (λ (t : Counts). IsCounted t (map holder (remove_at i live))) (sym after)
                  (insert-IsCounted counts (map holder live) counts.next_total slot.connection left
                    (map holder (remove_at i live)) h (ground (arith, kept, counted)) apart)
          ]
    ]
