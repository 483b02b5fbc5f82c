-- ===== src/Runner/Pending/Served.antt =====
-- When crates/execution/runner/src/eth_api.rs serves the overlay for the `pending` tag, and what it
-- serves.
use Prim.Native.String.{String}
use ethgas_reth.Base.{none, some, ◌≡◌, ◌⊎◌, inl, inr, refl, arith, Bool-cases}
use ethgas_reth.Fallible.{done, failed, ◌>>=◌, Fallible-cases}
use ethgas_reth.Types.{Address, tagged, at_pending}
use ethgas_reth.Runner.Provider.{StateProvider, BundleState, Trie, pending_state_provider}
use ethgas_reth.Runner.Layering.{Commitment, State, Answers, DestroysOnly, IsMapped, HasNoSlots}
use ethgas_reth.Runner.Layering.Applied.{applied}
use ethgas_reth.Runner.Layering.Refinement.{pending_state_provider-Answers}
use ethgas_reth.Runner.Overlay.{PendingOverlay}
use ethgas_reth.Runner.Pending.{
  Node, is_engine_newer, served_overlay, evm_env_at, local_pending_state, IsServed,
  served_overlay_lem, served_overlay-IsServed,
}

module _ {trie : Trie} {EvmEnv Executed : Type 0} (node : Node trie EvmEnv Executed) where
  -- The pending tag's environment is that of the overlay's latest header.
  abbrev pub HasEnv : PendingOverlay (BundleState trie) → Type 0
  HasEnv overlay =
      evm_env_at node (tagged at_pending)
      ≡ (node.evm_env_for_header overlay.latest_header >>= (λ env. done (env, tagged at_pending)))

  -- Neither method serves an overlay.
  abbrev pub IsPassedOver : Type 0
  IsPassedOver =
      (local_pending_state node ≡ done none)
      × (evm_env_at node (tagged at_pending) ≡ node.evm_env_at (tagged at_pending))

  -- The anchor's number could not be read, and both methods fail with that error.
  abbrev pub IsUnread : PendingOverlay (BundleState trie) → Type 0
  IsUnread overlay =
      (x : String) × (node.block_number overlay.anchor.hash ≡ failed x)
      × (local_pending_state node ≡ failed x)
      × (evm_env_at node (tagged at_pending) ≡ failed x)

  HasEnv_lem :
      (overlay : PendingOverlay (BundleState trie))
      → served_overlay node ≡ done (some overlay)
      → HasEnv overlay
  unfolding evm_env_at
  HasEnv_lem overlay h = rw h refl

  IsPassedOver_lem : served_overlay node ≡ done none → IsPassedOver
  unfolding local_pending_state evm_env_at
  IsPassedOver_lem h = (rw h refl, rw h refl)

  IsUnread_lem :
      (overlay : PendingOverlay (BundleState trie)) (x : String)
      → node.block_number overlay.anchor.hash ≡ failed x
      → served_overlay node ≡ failed x
      → IsUnread overlay
  unfolding local_pending_state evm_env_at
  IsUnread_lem overlay x unread h = (x, unread, rw h refl, rw h refl)

  -- The three ways to look at an overlay.
  served_overlay-cases :
      (overlay : PendingOverlay (BundleState trie))
      → node.pending_overlay ≡ some overlay
      → (served_overlay node ≡ done (some overlay))
        ⊎ ((¬ IsServed node overlay) × (served_overlay node ≡ done none))
        ⊎ ((x : String) × (node.block_number overlay.anchor.hash ≡ failed x)
            × (served_overlay node ≡ failed x))
  unfolding served_overlay
  served_overlay-cases overlay there = elim (Bool-cases (is_engine_newer node overlay)) [
    | inl newer ↦
        let h : served_overlay node ≡ done none = ground (arith, there, newer) in
        inr (inl (λ served. absurd (ground (arith, h, served_overlay_lem node overlay served)), h))
    | inr older ↦ elim (Fallible-cases (node.block_number overlay.anchor.hash)) [
      | inl (x, unread) ↦ inr (inr (x, unread, ground (arith, there, older, unread)))
      | inr (none, gone) ↦
          let h : served_overlay node ≡ done none = ground (arith, there, older, gone) in
          inr
            (inl (λ served. absurd (ground (arith, h, served_overlay_lem node overlay served)), h))
      | inr (some n, found) ↦ inl (ground (arith, there, older, found))
    ]
  ]

module _ {trie : Trie} {EvmEnv Executed : Type 0} (node : Node trie EvmEnv Executed)
    (commitment : Commitment trie) (Fresh : Address → Type 0) (before : State trie commitment)
    (overlay : PendingOverlay (BundleState trie)) where
  -- What the bundle and the states around it must be.
  abbrev pub IsApplicable : Type 0
  IsApplicable =
      IsMapped trie overlay.bundle
      × DestroysOnly trie Fresh overlay.bundle
      × HasNoSlots trie commitment Fresh before
      × HasNoSlots trie commitment Fresh (applied trie commitment overlay.bundle before)

  -- The pending state is a provider that answers truly for the anchor's state with the bundle
  -- written to it, or else the anchor's state could not be opened, which is the error then.
  abbrev pub HasState : Type 0
  HasState =
      ((q : StateProvider trie) × (local_pending_state node ≡ done (some q))
        × Answers trie commitment Fresh q (applied trie commitment overlay.bundle before))
      ⊎ ((x : String) × (node.state_by_block_hash overlay.anchor.hash ≡ failed x)
          × (local_pending_state node ≡ failed x))

  HasState_lem :
      served_overlay node ≡ done (some overlay)
      → ((p : StateProvider trie)
          → node.state_by_block_hash overlay.anchor.hash ≡ done p
          → Answers trie commitment Fresh p before)
      → IsApplicable
      → HasState
  unfolding local_pending_state
  HasState_lem h opens (mapped, destroys, none_before, none_after) =
      elim (Fallible-cases (node.state_by_block_hash overlay.anchor.hash)) [
        | inl (x, unopened) ↦ inr (x, unopened, rw (h, unopened) refl)
        | inr (p, opened) ↦ inl (
          pending_state_provider trie p overlay.bundle,
          rw (h, opened) refl,
          pending_state_provider-Answers trie commitment Fresh p before overlay.bundle
              (opens p opened) mapped destroys none_before none_after,
        )
      ]

  -- With an overlay at the pending state's source, one of three things holds. The overlay is
  -- served: the engine has no executed block as new as it and its anchor is canonical; then the
  -- `pending` tag has the environment of the overlay's latest header, and its state is a provider
  -- that answers truly for the anchor's state with the overlay's bundle written to it, unless the
  -- anchor's state cannot be opened, which is the error then. Or it is not so: there is no
  -- pending state, and the environment is the node's own. Or the anchor's number cannot be read,
  -- and both give that error. The providers that the node opens on the anchor answer truly for
  -- its state, and the bundle is as in the theorem on the provider.
  pub pending-Answers :
      node.pending_overlay ≡ some overlay
      → ((p : StateProvider trie)
          → node.state_by_block_hash overlay.anchor.hash ≡ done p
          → Answers trie commitment Fresh p before)
      → IsApplicable
      → (IsServed node overlay × HasEnv node overlay × HasState)
        ⊎ ((¬ IsServed node overlay) × IsPassedOver node)
        ⊎ IsUnread node overlay
  pending-Answers there opens applicable = elim (served_overlay-cases node overlay there) [
    | inl h ↦ inl (
      served_overlay-IsServed node overlay h,
      HasEnv_lem node overlay h,
      HasState_lem h opens applicable,
    )
    | inr (inl (not_served, h)) ↦ inr (inl (not_served, IsPassedOver_lem node h))
    | inr (inr (x, unread, h)) ↦ inr (inr (IsUnread_lem node overlay x unread h))
  ]
