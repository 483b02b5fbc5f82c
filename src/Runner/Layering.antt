-- ===== src/Runner/Layering.antt =====
-- crates/execution/runner/src/pending_provider.rs against the state that it stands for: what the
-- chain's state becomes when the bundle is applied to it.
pub mod Applied
pub mod Refinement
use mathlib.Core.Option
use ethgas_reth.Base.{
  ℕ, List, Option, none, some, if◌then◌else◌, lookup, ◌≡◌, refl, sym, ◌∙◌, ap, arith, Option-cases,
  Bool, Bool-cases, true, false, ==_iff, inl, inr, Map, IsUnique, ◌==◌, [], ◌∷◌,
}
use ethgas_reth.Fallible.{Fallible, done, failed, ◌>>=◌, Fallible-cases}
use ethgas_reth.Types.{B256, Address, U256, BlockNumber}
use ethgas_reth.Runner.Provider.{
  Account, Trie, BundleAccount, BundleState, StateProvider, hashed_bundle, hashed_bundle_storage,
  basic_account, bytecode_by_hash, storage, over_bundle, below_input, over_storage,
  pending_state_provider,
}

module _ (trie : Trie) where
  open trie use {
    Bytecode, HashedPostState, HashedStorage, TrieInput, StorageProof, StorageMultiProof,
    AccountProof, MultiProof, MultiProofTargets, ExecutionWitnessMode, Witness, account_from,
    keccak256, extend, prepend, extend_storage, storages, default_storage,
  }

  -- The bundle destroys only accounts of a set: by EIP-6780, those that a transaction may create.
  abbrev pub DestroysOnly : (Address → Type 0) → BundleState trie → Type 0
  DestroysOnly Fresh bundle =
      (address : Address) (account : BundleAccount trie)
      → lookup address bundle.state ≡ some account
      → account.was_destroyed ≡ true
      → Fresh address

  -- A bundle whose maps have each key once.
  abbrev pub IsMapped : BundleState trie → Type 0
  IsMapped bundle =
      IsUnique bundle.state
      × IsUnique bundle.contracts
      × ((address : Address) (account : BundleAccount trie)
          → lookup address bundle.state ≡ some account
          → IsUnique account.storage)

  -- What reth documents of its tries: what one holds, how a hashed state changes that, and what
  -- roots and proofs say of it. A bundle is hashed with the slots that the accounts which it
  -- destroys had before it.
  pub record Commitment : Type 1 where
    pub Content : Type 0
    pub StorageContent : Type 0
    pub apply : HashedPostState → Content → Content
    pub apply_input : TrieInput → Content → Content
    pub apply_storage : HashedStorage → StorageContent → StorageContent
    pub storage_at : Address → Content → StorageContent
    pub root : Content → B256
    pub storage_root_of : StorageContent → B256
    pub storage_proof_of : StorageContent → B256 → StorageProof
    pub storage_multiproof_of : StorageContent → List B256 → StorageMultiProof
    pub proof_of : Content → Address → List B256 → AccountProof
    pub multiproof_of : Content → MultiProofTargets → MultiProof
    pub witness_of : Content → HashedPostState → ExecutionWitnessMode → Witness
    pub hash_over : BundleState trie → (Address → U256 → U256) → HashedPostState
    pub apply_extend :
        (a b : HashedPostState) (c : Content) → apply (extend a b) c ≡ apply b (apply a c)
    pub apply_prepend :
        (i : TrieInput) (a : HashedPostState) (c : Content)
        → apply_input (prepend i a) c ≡ apply_input i (apply a c)
    pub apply_extend_storage :
        (a b : HashedStorage) (c : StorageContent)
        → apply_storage (extend_storage a b) c ≡ apply_storage b (apply_storage a c)
    pub storage_at-apply :
        (address : Address) (a : HashedPostState) (c : Content)
        → storage_at address (apply a c)
          ≡ apply_storage
              (Option.get_or (storages a (keccak256 address)) default_storage)
              (storage_at address c)
    pub hash_over_congr :
        (bundle : BundleState trie) (f g : Address → U256 → U256)
        → ((address : Address) (account : BundleAccount trie)
            → lookup address bundle.state ≡ some account
            → account.was_destroyed ≡ true
            → (slot : U256) → f address slot ≡ g address slot)
        → hash_over bundle f ≡ hash_over bundle g

  module _ (commitment : Commitment) where
    open commitment use {
      Content, apply, apply_input, apply_storage, storage_at, root, storage_root_of,
      storage_proof_of, storage_multiproof_of, proof_of, multiproof_of, witness_of, hash_over,
      apply_extend, apply_prepend, apply_extend_storage, storage_at-apply, hash_over_congr,
    }

    pub record State : Type 0 where
      pub account : Address → Option Account
      pub slot : Address → U256 → U256
      pub code : B256 → Option Bytecode
      pub block_hash : BlockNumber → Option B256
      pub hashes : BlockNumber → BlockNumber → List B256
      pub content : Content

    abbrev pub HasNoSlots : (Address → Type 0) → State → Type 0
    HasNoSlots Fresh s = (a : Address) → Fresh a → (k : U256) → s.slot a k ≡ 0

    -- A provider tells the truth about a state. A slot that it does not know is zero. Of a root
    -- with trie updates it tells the root; `multiproof_v2` is left open.
    pub record Answers (Fresh : Address → Type 0) (p : StateProvider trie) (s : State)
        : Type 0 where
      pub account_lem : (a : Address) → p.basic_account a ≡ done (s.account a)
      pub slot_lem :
          (a : Address) (k : B256)
          → (v : Option U256) × (p.storage a k ≡ done v) × (Option.get_or v 0 ≡ s.slot a k)
      pub code_lem : (h : B256) → p.bytecode_by_hash h ≡ done (s.code h)
      pub block_hash_lem : (n : BlockNumber) → p.block_hash n ≡ done (s.block_hash n)
      pub hashes_lem : (m n : BlockNumber) → p.canonical_hashes_range m n ≡ done (s.hashes m n)
      pub hashed_lem :
          (b : BundleState trie)
          → DestroysOnly Fresh b
          → p.hashed_post_state b ≡ done (hash_over b s.slot)
      pub root_lem : (h : HashedPostState) → p.state_root h ≡ done (root (apply h s.content))
      pub nodes_lem :
          (i : TrieInput) → p.state_root_from_nodes i ≡ done (root (apply_input i s.content))
      pub updates_lem :
          (h : HashedPostState)
          → (u : Trie.TrieUpdates trie) × (p.state_root_with_updates h
              ≡ done (root (apply h s.content), u))
      pub node_updates_lem :
          (i : TrieInput)
          → (u : Trie.TrieUpdates trie) × (p.state_root_from_nodes_with_updates i
              ≡ done (root (apply_input i s.content), u))
      pub storage_root_lem :
          (a : Address) (h : HashedStorage)
          → p.storage_root a h ≡ done (storage_root_of (apply_storage h (storage_at a s.content)))
      pub storage_proof_lem :
          (a : Address) (k : B256) (h : HashedStorage)
          → p.storage_proof a k h
            ≡ done (storage_proof_of (apply_storage h (storage_at a s.content)) k)
      pub storage_multiproof_lem :
          (a : Address) (ks : List B256) (h : HashedStorage)
          → p.storage_multiproof a ks h
            ≡ done (storage_multiproof_of (apply_storage h (storage_at a s.content)) ks)
      pub proof_lem :
          (i : TrieInput) (a : Address) (ks : List B256)
          → p.proof i a ks ≡ done (proof_of (apply_input i s.content) a ks)
      pub multiproof_lem :
          (i : TrieInput) (t : MultiProofTargets)
          → p.multiproof i t ≡ done (multiproof_of (apply_input i s.content) t)
      pub witness_lem :
          (i : TrieInput) (t : HashedPostState) (m : ExecutionWitnessMode)
          → p.witness i t m ≡ done (witness_of (apply_input i s.content) t m)
