-- ===== src/Runner/Tests.antt =====
-- Tests of the model of crates/execution/runner/src, and witnesses of its theorems.
use mathlib.Core.Path.{subst}
use ethgas_reth.Base.{
  ℕ, ◌==◌, if◌then◌else◌, List, [], ◌∷◌, Option, none, some, ◌≡◌, ◌⊎◌, refl, arith, lookup, map,
}
use ethgas_reth.Fallible.{done}
use ethgas_reth.Pending.{PendingBlocks}
use ethgas_reth.Processor.State.{Arc}
use ethgas_reth.Samples.{pending_11}
use ethgas_reth.Runner.Provider.{
  StateProvider, pending_state_provider, basic_account, storage, bytecode_by_hash,
}
use ethgas_reth.Runner.Layering.{Answers, DestroysOnly, IsMapped, HasNoSlots}
use ethgas_reth.Runner.Layering.Applied.{
  applied, apply_accounts, apply_account, slots_after, write_all,
}
use ethgas_reth.Runner.Layering.Refinement.{pending_state_provider-Answers}
use ethgas_reth.Runner.Overlay.{
  from_bundle, answers, pending_overlay, kept_overlay, built_overlay, overlay_of, AreAlive,
  answers-eq-map,
}
use ethgas_reth.Runner.Pending.{is_engine_newer, served_overlay, local_pending_block, IsServed}
use ethgas_reth.Runner.Pending.Served.{HasEnv, HasState, IsPassedOver, IsUnread, pending-Answers}
use ethgas_reth.Runner.Samples.{
  trie, commitment, before, anchor, Fresh, bundle, overlay, node_with, node,
}

anchor-Answers : Answers trie commitment Fresh anchor before
anchor-Answers = record {
  account_lem = λ a. refl;
  slot_lem = λ a k. (if a == 1 then some 5 else none, refl, ground arith);
  code_lem = λ h. refl;
  block_hash_lem = λ n. refl;
  hashes_lem = λ m n. refl;
  hashed_lem = λ b d. refl;
  root_lem = λ h. refl;
  nodes_lem = λ i. refl;
  updates_lem = λ h. (0, refl);
  node_updates_lem = λ i. (0, refl);
  storage_root_lem = λ a h. refl;
  storage_proof_lem = λ a k h. refl;
  storage_multiproof_lem = λ a ks h. refl;
  proof_lem = λ i a ks. refl;
  multiproof_lem = λ i t. refl;
  witness_lem = λ i t m. refl;
}

bundle-IsMapped : IsMapped trie bundle
unfolding lookup
bundle-IsMapped = ((refl, (refl, (refl, tt))), (refl, tt), λ a account e. ground (arith, e))

bundle-DestroysOnly : DestroysOnly trie Fresh bundle
unfolding lookup
bundle-DestroysOnly a account e gone = ground (arith, e, gone)

before-HasNoSlots : HasNoSlots trie commitment Fresh before
before-HasNoSlots a e k = ground (arith, e)

after-HasNoSlots : HasNoSlots trie commitment Fresh (applied trie commitment bundle before)
unfolding applied apply_accounts apply_account slots_after write_all
after-HasNoSlots a e k = rw e refl

-- A slot that the bundle wrote, one that only the anchor has, and one of a destroyed account.
reads_of_the_bundle :
    (storage trie anchor bundle 1 3 ≡ done (some 30))
    × (storage trie anchor bundle 1 4 ≡ done (some 5))
    × (storage trie anchor bundle 2 3 ≡ done (some 0))
    × (storage trie anchor bundle 8 3 ≡ done none)
unfolding storage lookup
reads_of_the_bundle = (refl, refl, refl, refl)

reads_of_codes :
    (bytecode_by_hash trie anchor bundle 77 ≡ done (some 770))
    × (basic_account trie anchor bundle 2 ≡ done none)
unfolding bytecode_by_hash basic_account lookup
reads_of_codes = (refl, refl)

pending_state_provider-Answers_example :
    Answers trie commitment Fresh
      (pending_state_provider trie anchor bundle)
      (applied trie commitment bundle before)
pending_state_provider-Answers_example =
    pending_state_provider-Answers trie commitment Fresh anchor before bundle anchor-Answers
      bundle-IsMapped bundle-DestroysOnly before-HasNoSlots after-HasNoSlots

-- The same snapshot read twice, none, and one that was published later.
abbrev snapshot : ℕ → Arc (PendingBlocks ℕ ℕ)
snapshot address = record { address = address; value = pending_11 }

abbrev reads : List (Option (Arc (PendingBlocks ℕ ℕ)))
reads = some (snapshot 0) ∷ some (snapshot 0) ∷ none ∷ some (snapshot 1) ∷ []

reads-AreAlive : AreAlive reads none
unfolding pending_overlay kept_overlay built_overlay from_bundle
reads-AreAlive = (tt, ((λ _. refl), (tt, (tt, tt))))

answers-eq-map_example : answers reads none ≡ map overlay_of reads
answers-eq-map_example = answers-eq-map reads reads-AreAlive

newer_engine_block : served_overlay (node_with (some overlay) (done (some 11))) ≡ done none
unfolding served_overlay is_engine_newer
newer_engine_block = refl

tip_as_pending_block : local_pending_block node ≡ done (some 1010)
unfolding local_pending_block
tip_as_pending_block = refl

pending-Answers_example :
    (IsServed node overlay × HasEnv node overlay × HasState node commitment Fresh before overlay)
    ⊎ ((¬ IsServed node overlay) × IsPassedOver node)
    ⊎ IsUnread node overlay
pending-Answers_example =
    pending-Answers node commitment Fresh before overlay refl
      (λ p opened.
        let e : anchor ≡ p = cc in
        subst (λ (q : StateProvider trie). Answers trie commitment Fresh q before) e anchor-Answers)
      (bundle-IsMapped, bundle-DestroysOnly, before-HasNoSlots, after-HasNoSlots)
