-- ===== src/Runner/Samples.antt =====
-- Sample values for crates/execution/runner/src: a trie that only counts, and a bundle that changes an
-- account, makes one and destroys another.
use ethgas_reth.Base.{
  ℕ, ◌+◌, ◌==◌, if◌then◌else◌, true, false, [], ◌∷◌, Option, none, some, ◌≡◌, refl, arith, length,
}
use ethgas_reth.Fallible.{Fallible, done, failed}
use ethgas_reth.Types.{Address, BlockNumber}
use ethgas_reth.Samples.{sealed_at}
use ethgas_reth.Runner.Provider.{Trie, BundleState, StateProvider}
use ethgas_reth.Runner.Layering.{Commitment, State}
use ethgas_reth.Runner.Overlay.{PendingOverlay}
use ethgas_reth.Runner.Pending.{Node}

abbrev pub trie : Trie
trie = record {
  AccountInfo = ℕ;
  Bytecode = ℕ;
  HashedPostState = ℕ;
  HashedStorage = ℕ;
  TrieInput = ℕ;
  TrieUpdates = ℕ;
  StorageProof = ℕ;
  StorageMultiProof = ℕ;
  AccountProof = ℕ;
  MultiProof = ℕ;
  MultiProofTargets = ℕ;
  MultiProofTargetsV2 = ℕ;
  DecodedMultiProofV2 = ℕ;
  ExecutionWitnessMode = ℕ;
  Witness = ℕ;
  account_from = λ info. record { nonce = info; balance = 7; bytecode_hash = none };
  keccak256 = λ address. address;
  extend = λ a b. a + b;
  prepend = λ i a. i + a;
  extend_storage = λ a b. a + b;
  storages = λ a k. some a;
  default_storage = 0;
}

abbrev pub commitment : Commitment trie
commitment = record {
  Content = ℕ;
  StorageContent = ℕ;
  apply = λ a c. a + c;
  apply_input = λ i c. i + c;
  apply_storage = λ a c. a + c;
  storage_at = λ address c. c;
  root = λ c. 500 + c;
  storage_root_of = λ c. 600 + c;
  storage_proof_of = λ c k. c;
  storage_multiproof_of = λ c ks. c;
  proof_of = λ c a ks. c;
  multiproof_of = λ c t. c;
  witness_of = λ c t m. c;
  hash_over = λ bundle slots. length bundle.state;
  apply_extend = λ a b c. omega arith;
  apply_prepend = λ i a c. omega arith;
  apply_extend_storage = λ a b c. omega arith;
  storage_at-apply = λ address a c. refl;
  hash_over_congr = λ bundle f g same. refl;
}

abbrev pub before : State trie commitment
before = record {
  account =
      λ a. if a == 1 then some (record { nonce = 4; balance = 7; bytecode_hash = none }) else none;
  slot = λ a k. if a == 1 then 5 else 0;
  code = λ h. none;
  block_hash = λ n. some (1000 + n);
  hashes = λ m n. (1000 + m) ∷ [];
  content = 90;
}

-- A provider that tells the truth about `before`.
abbrev pub anchor : StateProvider trie
anchor = record {
  basic_account = λ a. done (before.account a);
  block_hash = λ n. done (before.block_hash n);
  canonical_hashes_range = λ m n. done (before.hashes m n);
  bytecode_by_hash = λ h. done none;
  storage = λ a k. done (if a == 1 then some 5 else none);
  hashed_post_state = λ bundle. done (length bundle.state);
  state_root = λ h. done (500 + (h + 90));
  state_root_from_nodes = λ i. done (500 + (i + 90));
  state_root_with_updates = λ h. done (500 + (h + 90), 0);
  state_root_from_nodes_with_updates = λ i. done (500 + (i + 90), 0);
  storage_root = λ a h. done (600 + (h + 90));
  storage_proof = λ a k h. done (h + 90);
  storage_multiproof = λ a ks h. done (h + 90);
  proof = λ i a ks. done (i + 90);
  multiproof = λ i t. done (i + 90);
  multiproof_v2 = λ t masks. failed "UnsupportedProvider";
  witness = λ i t m. done (i + 90);
}

abbrev pub Fresh : Address → Type 0
Fresh a = a ≡ 2

abbrev pub bundle : BundleState trie
bundle = record {
  state =
      (1, record { info = some 5; storage = (3, 30) ∷ []; was_destroyed = false })
      ∷ (2, record { info = none; storage = []; was_destroyed = true })
      ∷ (6, record { info = some 1; storage = (9, 99) ∷ []; was_destroyed = false })
      ∷ [];
  contracts = (77, 770) ∷ [];
}

abbrev pub overlay : PendingOverlay (BundleState trie)
overlay = record { anchor = sealed_at 10; latest_header = sealed_at 11; bundle = bundle }

abbrev pub node_with :
    Option (PendingOverlay (BundleState trie)) → Fallible (Option BlockNumber) → Node trie ℕ ℕ
node_with overlay engine = record {
  pending_overlay = overlay;
  pending_block_number = engine;
  block_number = λ hash. done (if hash == 1010 then some 10 else none);
  state_by_block_hash = λ hash. done anchor;
  pending_block_and_receipts = done none;
  latest_header = done (some (sealed_at 10));
  get_block_and_receipts = λ hash. done (some hash);
  evm_env_for_header = λ header. done header.header.number;
  evm_env_at = λ at. done (10, at);
}

abbrev pub node : Node trie ℕ ℕ
node = node_with (some overlay) (done (some 10))
