-- ===== src/Runner/Layering/Applied.antt =====
-- What crates/execution/runner/src/pending_provider.rs stands for: a state with a bundle applied to
-- it, change by change.
use mathlib.Core.Option
use ethgas_reth.Base.{
  ℕ, Option, none, some, if◌then◌else◌, lookup, ◌≡◌, refl, arith, Option-cases, Bool-cases, ==_iff,
  inl, inr, Map, IsUnique, ◌==◌, [], ◌∷◌,
}
use ethgas_reth.Types.{B256, Address, U256}
use ethgas_reth.Runner.Provider.{Account, Trie, BundleAccount, BundleState}
use ethgas_reth.Runner.Layering.{Commitment, State}

module _ {ℓ} {V : Type ℓ} where
  abbrev pub write : ℕ → V → (ℕ → V) → ℕ → V
  write key new f other = if key == other then new else f other

  unfoldable pub write_all : Map V → (ℕ → V) → ℕ → V
  write_all [] f = f
  write_all ((key, new) ∷ rest) f = write_all rest (write key new f)

  write_all_absent : (m : Map V) (f : ℕ → V) (k : ℕ) → lookup k m ≡ none → write_all m f k ≡ f k
  unfolding lookup write_all
  write_all_absent [] f k e = refl
  write_all_absent ((j, v) ∷ m) f k e = ground (arith, e, write_all_absent m (write j v f) k)

  pub write_all_lem :
      (m : Map V) (f : ℕ → V) (k : ℕ)
      → IsUnique m
      → write_all m f k ≡ Option.get_or (lookup k m) (f k)
  unfolding lookup write_all
  write_all_lem [] f k u = refl
  write_all_lem ((j, v) ∷ m) f k u =
      ground (arith, u.0, write_all_lem m (write j v f) k u.1, write_all_absent m (write j v f) k)

module _ (trie : Trie) where
  open trie use {
    Bytecode, HashedPostState, HashedStorage, TrieInput, StorageProof, StorageMultiProof,
    AccountProof, MultiProof, MultiProofTargets, ExecutionWitnessMode, Witness, account_from,
    keccak256, extend, prepend, extend_storage, storages, default_storage,
  }

  module _ (commitment : Commitment trie) where
    open commitment use {
      Content, apply, apply_input, apply_storage, storage_at, root, storage_root_of,
      storage_proof_of, storage_multiproof_of, proof_of, multiproof_of, witness_of, hash_over,
      apply_extend, apply_prepend, apply_extend_storage, storage_at-apply, hash_over_congr,
    }

    -- One account of the bundle replaces the account, clears its slots if the bundle destroyed it,
    -- and writes the slots that it has.
    unfoldable pub slots_after : BundleAccount trie → (U256 → U256) → U256 → U256
    slots_after account old =
        write_all account.storage (λ slot. if account.was_destroyed then 0 else old slot)

    unfoldable pub apply_account :
        Address → BundleAccount trie → (State trie commitment) → (State trie commitment)
    unfolding slots_after
    apply_account address account s = record s {
      account = write address (Option.map account_from account.info) s.account;
      slot = write address (slots_after account (s.slot address)) s.slot;
    }

    unfoldable pub apply_accounts :
        Map (BundleAccount trie) → (State trie commitment) → (State trie commitment)
    apply_accounts [] s = s
    apply_accounts ((address, account) ∷ rest) s =
        apply_accounts rest (apply_account address account s)

    unfoldable pub write_codes : Map Bytecode → (B256 → Option Bytecode) → B256 → Option Bytecode
    write_codes [] codes = codes
    write_codes ((hash, code) ∷ rest) codes = write_codes rest (write hash (some code) codes)

    -- The state that a bundle leaves: each account and each code written in turn, and the hashed
    -- bundle put into the trie. Pending blocks have no hashes.
    unfoldable pub applied : BundleState trie → (State trie commitment) → (State trie commitment)
    unfolding apply_accounts write_codes
    applied bundle s = record (apply_accounts bundle.state s) {
      code = write_codes bundle.contracts s.code;
      content = apply (hash_over bundle s.slot) s.content;
    }

    pub hashes-apply_accounts :
        (m : Map (BundleAccount trie)) (s : (State trie commitment))
        → ((apply_accounts m s).block_hash ≡ s.block_hash)
          × ((apply_accounts m s).hashes ≡ s.hashes)
    unfolding apply_accounts apply_account
    hashes-apply_accounts [] s = (refl, refl)
    hashes-apply_accounts ((b, c) ∷ m) s = hashes-apply_accounts m (apply_account b c s)

    absent-apply_accounts :
        (m : Map (BundleAccount trie)) (s : (State trie commitment)) (a : Address)
        → lookup a m ≡ none
        → ((apply_accounts m s).account a ≡ s.account a) × ((apply_accounts m s).slot a ≡ s.slot a)
    unfolding lookup apply_accounts apply_account
    absent-apply_accounts [] s a e = (refl, refl)
    absent-apply_accounts ((b, c) ∷ m) s a e =
        ground (arith, e, absent-apply_accounts m (apply_account b c s) a)

    abbrev pub account_after : Option (BundleAccount trie) → Option Account → Option Account
    account_after none old = old
    account_after (some account) old = Option.map account_from account.info

    abbrev pub changed_slots : Option (BundleAccount trie) → (U256 → U256) → U256 → U256
    changed_slots none old = old
    changed_slots (some account) old = slots_after account old

    pub account-apply_accounts :
        (m : Map (BundleAccount trie)) (s : (State trie commitment)) (a : Address)
        → IsUnique m
        → (apply_accounts m s).account a ≡ account_after (lookup a m) (s.account a)
    unfolding lookup apply_accounts apply_account
    account-apply_accounts [] s a u = refl
    account-apply_accounts ((b, c) ∷ m) s a u = ground (
      arith,
      account-apply_accounts m (apply_account b c s) a u.1,
      absent-apply_accounts m (apply_account b c s) a,
    )

    pub slot-apply_accounts :
        (m : Map (BundleAccount trie)) (s : (State trie commitment)) (a : Address)
        → IsUnique m
        → (apply_accounts m s).slot a ≡ changed_slots (lookup a m) (s.slot a)
    unfolding lookup apply_accounts apply_account
    slot-apply_accounts [] s a u = refl
    slot-apply_accounts ((b, c) ∷ m) s a u = ground (
      arith,
      slot-apply_accounts m (apply_account b c s) a u.1,
      absent-apply_accounts m (apply_account b c s) a,
    )

    abbrev pub or_else : Option Bytecode → Option Bytecode → Option Bytecode
    or_else none old = old
    or_else (some new) old = some new

    pub code-write_codes :
        (m : Map Bytecode) (f : B256 → Option Bytecode) (h : B256)
        → IsUnique m
        → write_codes m f h
          ≡ elim (lookup h m) as (λ _. Option Bytecode) [ none ↦ f h | some code ↦ some code ]
    unfolding lookup write_codes
    code-write_codes [] f h u = refl
    code-write_codes ((j, c) ∷ m) f h u =
        let ih = code-write_codes m (write j (some c) f) h u.1 in
        let (e, t) = (==_iff j h) in
        elim (Bool-cases (j == h)) [
          | inl same ↦ rw ih (ground (arith, u.0, t, e same, Option-cases (lookup h m)))
          | inr other ↦ rw ih (ground (arith, other, Option-cases (lookup h m)))
        ]
