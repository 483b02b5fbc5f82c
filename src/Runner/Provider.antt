-- ===== src/Runner/Provider.antt =====
-- crates/execution/runner/src/pending_provider.rs: the state of a block with the snapshot's bundle
-- over it. The trie, its hashed forms and its proofs are reth's.
use ethgas_reth.Base.{ℕ, Bool, List, Option, none, some, if◌then◌else◌, Map, lookup}
use mathlib.Core.Option
use ethgas_reth.Fallible.{Fallible, done, failed, ◌>>=◌}
use ethgas_reth.Types.{B256, Address, U256, BlockNumber}

pub record Account : Type 0 where
  pub nonce : ℕ
  pub balance : U256
  pub bytecode_hash : Option B256

-- What `crates/execution/runner` takes from reth's trie and from revm, as types and functions.
pub record Trie : Type 1 where
  pub AccountInfo : Type 0
  pub Bytecode : Type 0
  pub HashedPostState : Type 0
  pub HashedStorage : Type 0
  pub TrieInput : Type 0
  pub TrieUpdates : Type 0
  pub StorageProof : Type 0
  pub StorageMultiProof : Type 0
  pub AccountProof : Type 0
  pub MultiProof : Type 0
  pub MultiProofTargets : Type 0
  pub MultiProofTargetsV2 : Type 0
  pub DecodedMultiProofV2 : Type 0
  pub ExecutionWitnessMode : Type 0
  pub Witness : Type 0
  pub account_from : AccountInfo → Account
  pub keccak256 : Address → B256
  -- `HashedPostState::extend`, `TrieInput::prepend`, `HashedStorage::extend`
  pub extend : HashedPostState → HashedPostState → HashedPostState
  pub prepend : TrieInput → HashedPostState → TrieInput
  pub extend_storage : HashedStorage → HashedStorage → HashedStorage
  -- `storages.remove(key)` of the hashed state
  pub storages : HashedPostState → B256 → Option HashedStorage
  pub default_storage : HashedStorage

module _ (trie : Trie) where
  open trie use {
    AccountInfo, Bytecode, HashedPostState, HashedStorage, TrieInput, TrieUpdates, StorageProof,
    StorageMultiProof, AccountProof, MultiProof, MultiProofTargets, MultiProofTargetsV2,
    DecodedMultiProofV2, ExecutionWitnessMode, Witness, account_from, keccak256, extend, prepend,
    extend_storage, storages, default_storage,
  }

  -- An account of the bundle, its slots with their present values.
  pub record BundleAccount : Type 0 where
    pub info : Option AccountInfo
    pub storage : Map U256
    pub was_destroyed : Bool

  pub record BundleState : Type 0 where
    pub state : Map BundleAccount
    pub contracts : Map Bytecode

  -- `StateProviderBox`: the state of one block. A 32-byte key is the number that it encodes, so
  -- that `U256::from_be_bytes` changes nothing.
  pub record StateProvider : Type 0 where
    pub basic_account : Address → Fallible (Option Account)
    pub block_hash : BlockNumber → Fallible (Option B256)
    pub canonical_hashes_range : BlockNumber → BlockNumber → Fallible (List B256)
    pub bytecode_by_hash : B256 → Fallible (Option Bytecode)
    pub storage : Address → B256 → Fallible (Option U256)
    pub hashed_post_state : BundleState → Fallible HashedPostState
    pub state_root : HashedPostState → Fallible B256
    pub state_root_from_nodes : TrieInput → Fallible B256
    pub state_root_with_updates : HashedPostState → Fallible (B256 × TrieUpdates)
    pub state_root_from_nodes_with_updates : TrieInput → Fallible (B256 × TrieUpdates)
    pub storage_root : Address → HashedStorage → Fallible B256
    pub storage_proof : Address → B256 → HashedStorage → Fallible StorageProof
    pub storage_multiproof : Address → List B256 → HashedStorage → Fallible StorageMultiProof
    pub proof : TrieInput → Address → List B256 → Fallible AccountProof
    pub multiproof : TrieInput → MultiProofTargets → Fallible MultiProof
    pub multiproof_v2 : MultiProofTargetsV2 → Bool → Fallible DecodedMultiProofV2
    pub witness : TrieInput → HashedPostState → ExecutionWitnessMode → Fallible Witness

  -- `PendingStateProvider { anchor, bundle }`, a method at a time.
  module _ (anchor : StateProvider) (bundle : BundleState) where
    unfoldable pub hashed_bundle : Fallible HashedPostState
    hashed_bundle = anchor.hashed_post_state bundle

    unfoldable pub hashed_bundle_storage : Address → Fallible HashedStorage
    unfolding hashed_bundle
    hashed_bundle_storage address =
        hashed_bundle
        >>= (λ hashed. done (Option.get_or (storages hashed (keccak256 address)) default_storage))

    unfoldable pub basic_account : Address → Fallible (Option Account)
    basic_account address = elim (lookup address bundle.state) [
      | some account ↦ done (Option.map account_from account.info)
      | none ↦ anchor.basic_account address
    ]

    unfoldable pub bytecode_by_hash : B256 → Fallible (Option Bytecode)
    bytecode_by_hash code_hash = elim (lookup code_hash bundle.contracts) [
      | some bytecode ↦ done (some bytecode)
      | none ↦ anchor.bytecode_by_hash code_hash
    ]

    unfoldable pub storage : Address → B256 → Fallible (Option U256)
    storage address slot = elim (lookup address bundle.state) [
      | some account ↦ elim (lookup slot account.storage) [
        | some value ↦ done (some value)
        | none ↦ if account.was_destroyed then done (some 0) else anchor.storage address slot
      ]
      | none ↦ anchor.storage address slot
    ]

    -- A hashed state over that of the bundle, and a trie input with that of the bundle below it.
    unfoldable pub over_bundle : HashedPostState → Fallible HashedPostState
    unfolding hashed_bundle
    over_bundle hashed_state = hashed_bundle >>= (λ state. done (extend state hashed_state))

    unfoldable pub below_input : TrieInput → Fallible TrieInput
    unfolding hashed_bundle
    below_input input = hashed_bundle >>= (λ state. done (prepend input state))

    unfoldable pub over_storage : Address → HashedStorage → Fallible HashedStorage
    unfolding hashed_bundle_storage
    over_storage address hashed_storage =
        hashed_bundle_storage address >>= (λ storage. done (extend_storage storage hashed_storage))

    unfoldable pub pending_state_provider : StateProvider
    unfolding basic_account bytecode_by_hash storage over_bundle below_input over_storage
    pending_state_provider = record {
      basic_account = basic_account;
      block_hash = anchor.block_hash;
      canonical_hashes_range = anchor.canonical_hashes_range;
      bytecode_by_hash = bytecode_by_hash;
      storage = storage;
      hashed_post_state = anchor.hashed_post_state;
      state_root = λ hashed. over_bundle hashed >>= anchor.state_root;
      state_root_from_nodes = λ input. below_input input >>= anchor.state_root_from_nodes;
      state_root_with_updates = λ hashed. over_bundle hashed >>= anchor.state_root_with_updates;
      state_root_from_nodes_with_updates =
          λ input. below_input input >>= anchor.state_root_from_nodes_with_updates;
      storage_root = λ address hashed. over_storage address hashed >>= anchor.storage_root address;
      storage_proof =
          λ address slot hashed. over_storage address hashed >>= anchor.storage_proof address slot;
      storage_multiproof = λ address slots hashed.
          over_storage address hashed >>= anchor.storage_multiproof address slots;
      proof =
          λ input address slots. below_input input >>= (λ whole. anchor.proof whole address slots);
      multiproof =
          λ input targets. below_input input >>= (λ whole. anchor.multiproof whole targets);
      multiproof_v2 = λ targets requires_masks. failed "UnsupportedProvider";
      witness =
          λ input target mode. below_input input >>= (λ whole. anchor.witness whole target mode);
    }
