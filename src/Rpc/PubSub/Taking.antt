-- ===== src/Rpc/PubSub/Taking.antt =====
-- crates/execution/flashblocks/src/rpc/pubsub.rs: a slot that is taken is counted.
use mathlib.Core.Path.{subst}
use ethgas_reth.Base.{
  ℕ, ◌≤◌, leb, ltb, ◌==◌, true, false, List, ◌∷◌, none, some, lookup, insert, remove, lookup-insert,
  lookup-remove, ◌≡◌, refl, arith, Bool-cases, Option-cases, inl, inr, ==_iff,
}
use ethgas_reth.Rpc.PubSub.{
  SlotKind, whole_block, per_item, cap, HeldSubscriptions, ConnectionSlot, Counts, entry_of,
  take_slot,
}
use ethgas_reth.Rpc.PubSub.Spec.{Holder, holder, held_by, IsEntry, IsCounted}

module _ (counts : Counts) (holders : List Holder) where
  entry_of_lem :
      (c : ℕ)
      → IsCounted counts holders
      → ((entry_of c counts).0.new_flashblocks_count ≡ held_by c whole_block holders)
        × ((entry_of c counts).0.per_item_count ≡ held_by c per_item holders)
        × (held_by c whole_block holders ≤ 4)
        × (held_by c per_item holders ≤ 32)
  unfolding entry_of
  entry_of_lem c h = ground (arith, h c, Option-cases (lookup c counts.held))

  -- A connection whose entry is written over.
  pub insert-IsCounted :
      (next : ℕ) (c : ℕ) (held : HeldSubscriptions) (others : List Holder)
      → IsCounted counts holders
      → IsEntry (some held) (held_by c whole_block others) (held_by c per_item others)
      → ((d : ℕ)
          → (c == d) ≡ false
          → (held_by d whole_block others ≡ held_by d whole_block holders)
            × (held_by d per_item others ≡ held_by d per_item holders))
      → IsCounted (record { held = insert c held counts.held; next_total = next }) others
  insert-IsCounted next c held others h own apart d = elim (Bool-cases (c == d)) [
    | inl same ↦
        subst
          (λ (x : ℕ).
            IsEntry (lookup x (insert c held counts.held)) (held_by x whole_block others)
              (held_by x per_item others))
          ((==_iff c d).0 same)
          (rw (lookup-insert c c held counts.held) (rw ((==_iff c c).1 refl) own))
    | inr other ↦
        rw (lookup-insert c d held counts.held)
          (rw (other, (apart d other).0, (apart d other).1) (h d))
  ]

  -- A slot that is given is the connection's, and is counted; one is given below the cap only.
  pub take_slot-granted :
      (c : ℕ) (kind : SlotKind)
      → IsCounted counts holders
      → ltb (held_by c kind holders) (cap kind) ≡ true
      → (slot : ConnectionSlot) × ((take_slot c kind counts).1 ≡ some slot)
        × (holder slot ≡ (c, kind))
        × IsCounted (take_slot c kind counts).0 ((c, kind) ∷ holders)
  unfolding take_slot
  take_slot-granted c whole_block h below =
      let (e, f, le, le') = entry_of_lem c h in
      let self = (==_iff c c).1 refl in
      let open_slot : leb 4 (entry_of c counts).0.new_flashblocks_count ≡ false =
        ground (arith, e, f, below) in
      (
        record {
          connection = c;
          kind = whole_block;
          slot_total = (entry_of c counts).0.queued_total;
        },
        rw open_slot refl,
        refl,
        rw open_slot (
            insert-IsCounted (entry_of c counts).1 c _ ((c, whole_block) ∷ holders) h
              (ground (arith, e, f, le, le', self, below)) (λ d apart. ground (arith, apart))),
      )
  take_slot-granted c per_item h below =
      let (e, f, le, le') = entry_of_lem c h in
      let self = (==_iff c c).1 refl in
      let open_slot : leb 32 (entry_of c counts).0.per_item_count ≡ false =
        ground (arith, e, f, below) in
      (
        record { connection = c; kind = per_item; slot_total = (entry_of c counts).0.queued_total },
        rw open_slot refl,
        refl,
        rw open_slot (
            insert-IsCounted (entry_of c counts).1 c _ ((c, per_item) ∷ holders) h
              (ground (arith, e, f, le, le', self, below)) (λ d apart. ground (arith, apart))),
      )

  pub take_slot-refused :
      (c : ℕ) (kind : SlotKind)
      → IsCounted counts holders
      → ltb (held_by c kind holders) (cap kind) ≡ false
      → ((take_slot c kind counts).1 ≡ none) × IsCounted (take_slot c kind counts).0 holders
  unfolding take_slot
  take_slot-refused c whole_block h full =
      let (e, f, le, le') = entry_of_lem c h in
      let shut : leb 4 (entry_of c counts).0.new_flashblocks_count ≡ true =
        ground (arith, e, full) in
      (
        rw shut refl,
        rw shut (
            insert-IsCounted (entry_of c counts).1 c _ holders h
              (ground (arith, e, f, le, le', full)) (λ d apart. (refl, refl))),
      )
  take_slot-refused c per_item h full =
      let (e, f, le, le') = entry_of_lem c h in
      let shut : leb 32 (entry_of c counts).0.per_item_count ≡ true = ground (arith, f, full) in
      (
        rw shut refl,
        rw shut (
            insert-IsCounted (entry_of c counts).1 c _ holders h
              (ground (arith, e, f, le, le', full)) (λ d apart. (refl, refl))),
      )

  pub remove-IsCounted :
      (c : ℕ) (others : List Holder)
      → IsCounted counts holders
      → held_by c whole_block others ≡ 0
      → held_by c per_item others ≡ 0
      → ((d : ℕ)
          → (c == d) ≡ false
          → (held_by d whole_block others ≡ held_by d whole_block holders)
            × (held_by d per_item others ≡ held_by d per_item holders))
      → IsCounted (record counts { held = remove c counts.held }) others
  remove-IsCounted c others h whole items apart d = elim (Bool-cases (c == d)) [
    | inl same ↦
        subst
          (λ (x : ℕ).
            IsEntry (lookup x (remove c counts.held)) (held_by x whole_block others)
              (held_by x per_item others))
          ((==_iff c d).0 same)
          (rw (lookup-remove c c counts.held) (rw ((==_iff c c).1 refl) (whole, items)))
    | inr other ↦
        rw (lookup-remove c d counts.held) (rw (other, (apart d other).0, (apart d other).1) (h d))
  ]
