-- ===== src/Runner/Overlay.antt =====
-- crates/execution/runner/src/pending_state.rs and
-- crates/execution/flashblocks-node/src/pending_state.rs: the overlay of a snapshot, kept for as
-- long as the snapshot stays published.
use ethgas_reth.Base.{
  List, [], ◌∷◌, map, Option, none, some, ◌≡◌, refl, sym, ◌∙◌, ap, ◌==◌, if◌then◌else◌, arith,
  Bool-cases, Option-cases, inl, inr,
}
use ethgas_reth.Types.{SealedHeader}
use ethgas_reth.Pending.{PendingBlocks}
use ethgas_reth.Processor.State.{Arc}

pub record PendingOverlay (B : Type 0) : Type 0 where
  pub anchor : SealedHeader
  pub latest_header : SealedHeader
  pub bundle : B

unfoldable pub from_bundle : {B : Type 0} → SealedHeader → SealedHeader → B → PendingOverlay B
from_bundle anchor latest bundle = record {
  anchor = anchor;
  latest_header = latest;
  bundle = bundle;
}

-- `FlashblocksPendingState::cached`
abbrev pub Cached : Type 0 → Type 0 → Type 0
Cached S B = Option (Arc (PendingBlocks S B) × PendingOverlay B)

module _ {S B : Type 0} where
  -- The overlay of a snapshot, built when no other is kept for it.
  unfoldable pub built_overlay :
      Arc (PendingBlocks S B) → SealedHeader → Cached S B × Option (PendingOverlay B)
  unfolding from_bundle
  built_overlay pending anchor =
      let overlay = from_bundle anchor pending.value.latest_header pending.value.bundle_state in
      (some (pending, overlay), some overlay)

  -- The overlay that is kept, if it is kept for the snapshot.
  unfoldable pub kept_overlay :
      Arc (PendingBlocks S B) → SealedHeader → Cached S B → Cached S B × Option (PendingOverlay B)
  unfolding built_overlay
  kept_overlay pending anchor none = built_overlay pending anchor
  kept_overlay pending anchor (some (snapshot, overlay)) =
      if snapshot.address == pending.address
      then (some (snapshot, overlay), some overlay)
      else built_overlay pending anchor

  unfoldable pub pending_overlay :
      Option (Arc (PendingBlocks S B)) → Cached S B → Cached S B × Option (PendingOverlay B)
  unfolding kept_overlay
  pending_overlay none cached = (none, none)
  pending_overlay (some pending) cached = elim pending.value.anchor [
    | none ↦ (none, none)
    | some anchor ↦ kept_overlay pending anchor cached
  ]

  -- The calls of the `eth` API in turn, each with the snapshot that it finds published.
  unfoldable pub answers :
      List (Option (Arc (PendingBlocks S B))) → Cached S B → List (Option (PendingOverlay B))
  unfolding pending_overlay
  answers [] cached = []
  answers (published ∷ later) cached =
      let (next, overlay) = pending_overlay published cached in overlay ∷ answers later next

  abbrev pub fresh : Arc (PendingBlocks S B) → SealedHeader → PendingOverlay B
  fresh pending anchor = record {
    anchor = anchor;
    latest_header = pending.value.latest_header;
    bundle = pending.value.bundle_state;
  }

  -- With no cache: the overlay that a snapshot has.
  abbrev pub overlay_of : Option (Arc (PendingBlocks S B)) → Option (PendingOverlay B)
  overlay_of none = none
  overlay_of (some pending) = elim pending.value.anchor [
    | none ↦ none
    | some anchor ↦ some (fresh pending anchor)
  ]

  -- What is kept is the overlay of the snapshot that it is kept for.
  abbrev pub IsOwn : Cached S B → Type 0
  IsOwn none = Unit
  IsOwn (some (snapshot, overlay)) = overlay_of (some snapshot) ≡ some overlay

  -- The snapshot that is kept is alive, so that nothing else is published at its address.
  abbrev pub IsAlive : Option (Arc (PendingBlocks S B)) → Cached S B → Type 0
  IsAlive (some pending) (some (snapshot, overlay)) =
      snapshot.address ≡ pending.address → snapshot ≡ pending
  IsAlive _ _ = Unit

  abbrev pub AreAlive : List (Option (Arc (PendingBlocks S B))) → Cached S B → Type 0
  AreAlive [] cached = Unit
  AreAlive (published ∷ later) cached =
      IsAlive published cached × AreAlive later (pending_overlay published cached).0

  built_overlay-IsOwn :
      (pending : Arc (PendingBlocks S B)) (anchor : SealedHeader)
      → pending.value.anchor ≡ some anchor
      → IsOwn (built_overlay pending anchor).0
        × ((built_overlay pending anchor).1 ≡ some (fresh pending anchor))
  unfolding built_overlay from_bundle
  built_overlay-IsOwn pending anchor e = (rw e refl, refl)

  kept_overlay-IsOwn :
      (pending : Arc (PendingBlocks S B)) (anchor : SealedHeader) (cached : Cached S B)
      → pending.value.anchor ≡ some anchor
      → IsOwn cached
      → IsAlive (some pending) cached
      → IsOwn (kept_overlay pending anchor cached).0
        × ((kept_overlay pending anchor cached).1 ≡ some (fresh pending anchor))
  unfolding kept_overlay
  kept_overlay-IsOwn pending anchor none e own alive = built_overlay-IsOwn pending anchor e
  kept_overlay-IsOwn pending anchor (some (snapshot, overlay)) e own alive =
      elim (Bool-cases (snapshot.address == pending.address)) [
        | inl same ↦
            let held : overlay_of (some pending) ≡ some overlay =
              ap overlay_of (ap some (sym (alive (ground arith)))) ∙ own in
            rw same (own, sym held ∙ rw e refl)
        | inr other ↦ rw other (built_overlay-IsOwn pending anchor e)
      ]

  pending_overlay-IsOwn :
      (published : Option (Arc (PendingBlocks S B))) (cached : Cached S B)
      → IsOwn cached
      → IsAlive published cached
      → IsOwn (pending_overlay published cached).0
        × ((pending_overlay published cached).1 ≡ overlay_of published)
  unfolding pending_overlay
  pending_overlay-IsOwn none cached own alive = (tt, refl)
  pending_overlay-IsOwn (some pending) cached own alive = elim (Option-cases pending.value.anchor) [
    | inl absent ↦ rw absent (tt, refl)
    | inr (anchor, e) ↦
        let kept = kept_overlay-IsOwn pending anchor cached e own alive in simp e kept
  ]

  answers_of :
      (reads : List (Option (Arc (PendingBlocks S B)))) (cached : Cached S B)
      → IsOwn cached
      → AreAlive reads cached
      → answers reads cached ≡ map overlay_of reads
  unfolding answers
  answers_of [] cached own alive = refl
  answers_of (published ∷ later) cached own (here, there) =
      let (next, same) = pending_overlay-IsOwn published cached own here in
      let rest = answers_of later (pending_overlay published cached).0 next there in
      rw (same, rest) refl

  -- Whatever snapshots a series of calls finds published, the overlays that the cache gives are
  -- those of the snapshots, if no snapshot is published at the address of another that the cache
  -- still holds.
  pub answers-eq-map :
      (reads : List (Option (Arc (PendingBlocks S B))))
      → AreAlive reads none
      → answers reads none ≡ map overlay_of reads
  answers-eq-map reads alive = answers_of reads none tt alive
