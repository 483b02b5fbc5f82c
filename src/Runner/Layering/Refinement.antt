-- ===== src/Runner/Layering/Refinement.antt =====
-- crates/execution/runner/src/pending_provider.rs tells the truth about the state with the bundle
-- applied, if the anchor does about its own.
use mathlib.Core.Option
use ethgas_reth.Base.{
  Option, some, if◌then◌else◌, lookup, ◌≡◌, refl, sym, ◌∙◌, ap, arith, Option-cases, Bool-cases,
  inl, inr,
}
use ethgas_reth.Fallible.{done}
use ethgas_reth.Types.{B256, Address, U256}
use ethgas_reth.Runner.Provider.{
  Trie, BundleState, StateProvider, hashed_bundle, hashed_bundle_storage, basic_account,
  bytecode_by_hash, storage, over_bundle, below_input, over_storage, pending_state_provider,
}
use ethgas_reth.Runner.Layering.{Commitment, State, Answers, DestroysOnly, IsMapped, HasNoSlots}
use ethgas_reth.Runner.Layering.Applied.{
  write_all_lem, slots_after, applied, hashes-apply_accounts, account-apply_accounts,
  slot-apply_accounts, code-write_codes,
}

module _ (trie : Trie) where
  open trie use {
    Bytecode, HashedPostState, HashedStorage, TrieInput, StorageProof, StorageMultiProof,
    AccountProof, MultiProof, MultiProofTargets, ExecutionWitnessMode, Witness, account_from,
    keccak256, extend, prepend, extend_storage, storages, default_storage,
  }

  module _ (commitment : Commitment trie) where
    open commitment use {
      Content, apply, apply_input, apply_storage, storage_at, root, storage_root_of,
      storage_proof_of, storage_multiproof_of, proof_of, multiproof_of, witness_of, hash_over,
      apply_extend, apply_prepend, apply_extend_storage, storage_at-apply, hash_over_congr,
    }

    module _ (Fresh : Address → Type 0) (p : StateProvider trie) (before : State trie commitment)
        (bundle : BundleState trie) where
      -- The reads of the maps.
      account-Answers :
          Answers trie commitment Fresh p before
          → IsMapped trie bundle
          → (a : Address)
          → basic_account trie p bundle a ≡ done ((applied trie commitment bundle before).account a)
      unfolding basic_account applied
      account-Answers h u a =
          rw (account-apply_accounts trie commitment bundle.state before a u.0)
            (ground (arith, h.account_lem a, Option-cases (lookup a bundle.state)))

      code-Answers :
          Answers trie commitment Fresh p before
          → IsMapped trie bundle
          → (c : B256)
          → bytecode_by_hash trie p bundle c ≡ done ((applied trie commitment bundle before).code c)
      unfolding bytecode_by_hash applied
      code-Answers h u c =
          rw (code-write_codes trie commitment bundle.contracts before.code c u.1)
            (ground (arith, h.code_lem c, Option-cases (lookup c bundle.contracts)))

      slot-Answers :
          Answers trie commitment Fresh p before
          → IsMapped trie bundle
          → (a : Address) (k : B256)
          → (v : Option U256) × (storage trie p bundle a k ≡ done v)
            × (Option.get_or v 0 ≡ (applied trie commitment bundle before).slot a k)
      unfolding storage applied slots_after
      slot-Answers h u a k = elim (Option-cases (lookup a bundle.state)) [
        | inl absent ↦
            let (v, e, t) = h.slot_lem a k in
            (
              v,
              ground (arith, absent, e),
              rw (slot-apply_accounts trie commitment bundle.state before a u.0, absent) t,
            )
        | inr (account, found) ↦
            let (v, e, t) = h.slot_lem a k in
            let after =
              write_all_lem account.storage
                (λ slot. if account.was_destroyed then 0 else before.slot a slot) k
                (u.2 a account found) in
            let slots =
              ap (λ (f : U256 → U256). f k)
                (slot-apply_accounts trie commitment bundle.state before a u.0) in
            elim (Option-cases (lookup k account.storage)) [
              | inr (value, known) ↦ (
                some value,
                ground (arith, found, known),
                rw slots (rw found (rw after (rw known refl))),
              )
              | inl unknown ↦ elim (Bool-cases account.was_destroyed) [
                | inl gone ↦ (
                  some 0,
                  ground (arith, found, unknown, gone),
                  rw slots (rw found (rw after (rw (unknown, gone) refl))),
                )
                | inr kept ↦ (
                  v,
                  ground (arith, found, unknown, kept, e),
                  rw slots (rw found (rw after (rw (unknown, kept) t))),
                )
              ]
            ]
      ]

      hashed_bundle-Answers :
          Answers trie commitment Fresh p before
          → DestroysOnly trie Fresh bundle
          → hashed_bundle trie p bundle ≡ done (hash_over bundle before.slot)
      unfolding hashed_bundle
      hashed_bundle-Answers h d = h.hashed_lem bundle d

      over_bundle-Answers :
          Answers trie commitment Fresh p before
          → DestroysOnly trie Fresh bundle
          → (hashed : HashedPostState)
          → (whole : HashedPostState) × (over_bundle trie p bundle hashed ≡ done whole)
            × (apply whole before.content
                ≡ apply hashed (applied trie commitment bundle before).content)
      unfolding over_bundle hashed_bundle applied
      over_bundle-Answers h d hashed = (
        extend (hash_over bundle before.slot) hashed,
        rw (h.hashed_lem bundle d) refl,
        apply_extend (hash_over bundle before.slot) hashed before.content,
      )

      below_input-Answers :
          Answers trie commitment Fresh p before
          → DestroysOnly trie Fresh bundle
          → (input : TrieInput)
          → (whole : TrieInput) × (below_input trie p bundle input ≡ done whole)
            × (apply_input whole before.content
                ≡ apply_input input (applied trie commitment bundle before).content)
      unfolding below_input hashed_bundle applied
      below_input-Answers h d input = (
        prepend input (hash_over bundle before.slot),
        rw (h.hashed_lem bundle d) refl,
        apply_prepend input (hash_over bundle before.slot) before.content,
      )

      over_storage-Answers :
          Answers trie commitment Fresh p before
          → DestroysOnly trie Fresh bundle
          → (a : Address) (hashed : HashedStorage)
          → (whole : HashedStorage) × (over_storage trie p bundle a hashed ≡ done whole)
            × (apply_storage whole (storage_at a before.content)
                ≡ apply_storage hashed
                    (storage_at a (applied trie commitment bundle before).content))
      unfolding over_storage hashed_bundle_storage hashed_bundle applied
      over_storage-Answers h d a hashed =
          let own : HashedStorage =
            Option.get_or (storages (hash_over bundle before.slot) (keccak256 a)) default_storage in
          (
            extend_storage own hashed,
            rw (h.hashed_lem bundle d) refl,
            rw (apply_extend_storage own hashed (storage_at a before.content))
                (rw (storage_at-apply a (hash_over bundle before.slot) before.content) refl),
          )

      hashed-Answers :
          Answers trie commitment Fresh p before
          → HasNoSlots trie commitment Fresh before
          → HasNoSlots trie commitment Fresh (applied trie commitment bundle before)
          → (b : BundleState trie) → DestroysOnly trie Fresh b
          → p.hashed_post_state b ≡ done (hash_over b (applied trie commitment bundle before).slot)
      hashed-Answers h x y b d =
          h.hashed_lem b d
          ∙ ap done (
              hash_over_congr b before.slot (applied trie commitment bundle before).slot
                (λ a account found gone k.
                  x a (d a account found gone) k ∙ sym (y a (d a account found gone) k)))

      -- Where the anchor answers truly for a state, the provider answers truly for what that
      -- state becomes when the bundle is written to it, change by change: accounts, slots, codes,
      -- block hashes, later bundles in hashed form, roots and proofs. The bundle's maps have each
      -- key once, it destroys only accounts that a transaction may create, and these have no
      -- slots before or after it. Nothing is claimed of the trie updates that come with a root,
      -- nor of `multiproof_v2`.
      pub pending_state_provider-Answers :
          Answers trie commitment Fresh p before
          → IsMapped trie bundle
          → DestroysOnly trie Fresh bundle
          → HasNoSlots trie commitment Fresh before
          → HasNoSlots trie commitment Fresh (applied trie commitment bundle before)
          → Answers trie commitment Fresh
              (pending_state_provider trie p bundle)
              (applied trie commitment bundle before)
      unfolding pending_state_provider applied
      pending_state_provider-Answers h u d x y =
          let over = over_bundle-Answers h d in
          let below = below_input-Answers h d in
          let storages = over_storage-Answers h d in
          record {
            account_lem = account-Answers h u;
            slot_lem = slot-Answers h u;
            code_lem = code-Answers h u;
            block_hash_lem = λ n.
                rw (hashes-apply_accounts trie commitment bundle.state before).0
                  (h.block_hash_lem n);
            hashes_lem = λ m n.
                rw (hashes-apply_accounts trie commitment bundle.state before).1 (h.hashes_lem m n);
            hashed_lem = hashed-Answers h x y;
            root_lem = λ hashed. rw (over hashed).1 (rw (← (over hashed).2) (h.root_lem _));
            nodes_lem = λ input. rw (below input).1 (rw (← (below input).2) (h.nodes_lem _));
            updates_lem = λ hashed. rw (over hashed).1 (rw (← (over hashed).2) (h.updates_lem _));
            node_updates_lem =
                λ input. rw (below input).1 (rw (← (below input).2) (h.node_updates_lem _));
            storage_root_lem = λ a hashed.
                rw (storages a hashed).1 (rw (← (storages a hashed).2) (h.storage_root_lem a _));
            storage_proof_lem = λ a k hashed.
                rw (storages a hashed).1 (rw (← (storages a hashed).2) (h.storage_proof_lem a k _));
            storage_multiproof_lem = λ a ks hashed.
                rw (storages a hashed).1
                  (rw (← (storages a hashed).2) (h.storage_multiproof_lem a ks _));
            proof_lem =
                λ input a ks. rw (below input).1 (rw (← (below input).2) (h.proof_lem _ a ks));
            multiproof_lem =
                λ input t. rw (below input).1 (rw (← (below input).2) (h.multiproof_lem _ t));
            witness_lem =
                λ input t m. rw (below input).1 (rw (← (below input).2) (h.witness_lem _ t m));
          }
