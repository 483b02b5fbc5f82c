-- ===== src/Runner/Pending.antt =====
-- crates/execution/runner/src/eth_api.rs: what the `pending` tag resolves to. The rest of the file
-- hands calls on to reth's `EthApi`.
pub mod Served
use mathlib.Core.Path.{subst}
use ethgas_reth.Base.{
  leb, if◌then◌else◌, Bool, false, Option, none, some, ◌≡◌, ◌↔◌, ◌<◌, inl, inr, refl, ap, ◌∙◌,
  arith, Option-cases, Bool-cases,
}
use ethgas_reth.Fallible.{Fallible, done, failed, ◌>>=◌, Fallible-cases}
use ethgas_reth.Types.{B256, BlockNumber, SealedHeader, BlockId, tagged, at_pending}
use ethgas_reth.Runner.Provider.{Trie, StateProvider, BundleState, pending_state_provider}
use ethgas_reth.Runner.Overlay.{PendingOverlay}

-- What one call reads of the node: its provider, reth's own answers, and the overlay of the
-- pending state's source, which is absent when there is no source too. `EvmEnv`, and a block with
-- its receipts, are reth's.
module _ (trie : Trie) (EvmEnv Executed : Type 0) where
  pub record Node : Type 0 where
    pub pending_overlay : Option (PendingOverlay (BundleState trie))
    pub pending_block_number : Fallible (Option BlockNumber)
    pub block_number : B256 → Fallible (Option BlockNumber)
    pub state_by_block_hash : B256 → Fallible (StateProvider trie)
    pub pending_block_and_receipts : Fallible (Option Executed)
    pub latest_header : Fallible (Option SealedHeader)
    pub get_block_and_receipts : B256 → Fallible (Option Executed)
    pub evm_env_for_header : SealedHeader → Fallible EvmEnv
    pub evm_env_at : BlockId → Fallible (EvmEnv × BlockId)

module _ {trie : Trie} {EvmEnv Executed : Type 0} (node : Node trie EvmEnv Executed) where
  -- Whether the engine's executed block is at least as new as the overlay. An error is no block.
  unfoldable pub is_engine_newer : PendingOverlay (BundleState trie) → Bool
  is_engine_newer overlay = elim node.pending_block_number [
    | failed reason ↦ false
    | done none ↦ false
    | done (some number) ↦ leb overlay.latest_header.header.number number
  ]

  unfoldable pub served_overlay : Fallible (Option (PendingOverlay (BundleState trie)))
  unfolding is_engine_newer
  served_overlay = elim node.pending_overlay [
    | none ↦ done none
    | some overlay ↦
        if is_engine_newer overlay
        then done none
        else node.block_number overlay.anchor.hash
          >>= (λ found. elim found [ none ↦ done none | some number ↦ done (some overlay) ])
  ]

  unfoldable pub evm_env_at : BlockId → Fallible (EvmEnv × BlockId)
  unfolding served_overlay
  evm_env_at (tagged at_pending) = served_overlay >>= (λ served. elim served [
    | none ↦ node.evm_env_at (tagged at_pending)
    | some overlay ↦
        node.evm_env_for_header overlay.latest_header >>= (λ env. done (env, tagged at_pending))
  ])
  evm_env_at at = node.evm_env_at at

  unfoldable pub local_pending_state : Fallible (Option (StateProvider trie))
  unfolding served_overlay
  local_pending_state = served_overlay >>= (λ served. elim served [
    | none ↦ done none
    | some overlay ↦
        node.state_by_block_hash overlay.anchor.hash
        >>= (λ anchor. done (some (pending_state_provider trie anchor overlay.bundle)))
  ])

  -- The engine's executed block, or else the canonical tip.
  unfoldable pub local_pending_block : Fallible (Option Executed)
  local_pending_block = node.pending_block_and_receipts >>= (λ pending. elim pending [
    | some executed ↦ done (some executed)
    | none ↦ node.latest_header >>= (λ latest. elim latest [
      | none ↦ failed "HeaderNotFound latest"
      | some header ↦ node.get_block_and_receipts header.hash
    ])
  ])

  -- The engine has no executed block that is as new as the overlay.
  abbrev pub IsOlder : PendingOverlay (BundleState trie) → Type 0
  IsOlder overlay =
      (number : BlockNumber)
      → node.pending_block_number ≡ done (some number)
      → number < overlay.latest_header.header.number

  abbrev pub IsServed : PendingOverlay (BundleState trie) → Type 0
  IsServed overlay =
      (node.pending_overlay ≡ some overlay)
      × IsOlder overlay
      × ((n : BlockNumber) × (node.block_number overlay.anchor.hash ≡ done (some n)))

  is_engine_newer_iff :
      (overlay : PendingOverlay (BundleState trie))
      → (is_engine_newer overlay ≡ false) ↔ IsOlder overlay
  unfolding is_engine_newer
  is_engine_newer_iff overlay = elim (Fallible-cases node.pending_block_number) [
    | inl (x, e) ↦ (λ _ n h. absurd (ground arith), λ _. rw e refl)
    | inr (none, e) ↦ (λ _ n h. absurd (ground arith), λ _. rw e refl)
    | inr (some number, e) ↦ (λ k n h. ground (arith, e, h, k), λ k. ground (arith, e, k number))
  ]

  pub served_overlay_lem :
      (overlay : PendingOverlay (BundleState trie))
      → IsServed overlay
      → served_overlay ≡ done (some overlay)
  unfolding served_overlay
  served_overlay_lem overlay (same, older, (n, found)) =
      rw (same, (is_engine_newer_iff overlay).1 older, found) refl

  pub served_overlay-IsServed :
      (overlay : PendingOverlay (BundleState trie))
      → served_overlay ≡ done (some overlay)
      → IsServed overlay
  unfolding served_overlay
  served_overlay-IsServed overlay h = elim (Option-cases node.pending_overlay) [
    | inl absent ↦ absurd (ground (arith, absent, h))
    | inr (other, e) ↦ elim (Bool-cases (is_engine_newer other)) [
      | inl newer ↦ absurd (ground (arith, e, newer, h))
      | inr older ↦ elim (Fallible-cases (node.block_number other.anchor.hash)) [
        | inl (x, err) ↦ absurd (ground (arith, e, older, err, h))
        | inr (none, err) ↦ absurd (ground (arith, e, older, err, h))
        | inr (some n, found) ↦
            let same : other ≡ overlay = ground (arith, e, older, found, h) in
            subst IsServed same (e, (is_engine_newer_iff other).0 older, (n, found))
      ]
    ]
  ]

  pub served_overlay_iff :
      (overlay : PendingOverlay (BundleState trie))
      → (served_overlay ≡ done (some overlay)) ↔ IsServed overlay
  served_overlay_iff overlay = (served_overlay-IsServed overlay, served_overlay_lem overlay)
