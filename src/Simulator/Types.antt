-- ===== src/Simulator/Types.antt =====
-- What crates/execution/simulator/src/validation/mod.rs reads of a submitted block, of its
-- execution and of the bid on it, and the errors of
-- crates/execution/simulator/src/validation/error.rs.
use Prim.Native.String.{String}
use ethgas_reth.Base.{ℕ, Bool, List, Option, none, some, Map, ◌≡◌, refl}
use ethgas_reth.Fallible.{Fallible, done, failed}
use ethgas_reth.Types.{B256, Address, U256, BlockNumber}
use ethgas_reth.Simulator.Multisend.{Bytes, Abi}

-- A transaction of the block with the sender that was recovered for it.
pub record SubmittedTransaction : Type 0 where
  pub tx_hash : B256
  pub sender : Address
  pub to : Option Address
  pub input : Bytes
  pub value : U256
  pub chain_id : Option ℕ
  pub effective_tip_per_gas : ℕ → Option ℕ

pub record Withdrawal : Type 0 where
  pub address : Address
  pub amount_wei : U256

-- `RecoveredBlock<Block>`, `hash` being that of its sealed header.
pub record SubmittedBlock : Type 0 where
  pub hash : B256
  pub parent_hash : B256
  pub number : BlockNumber
  pub timestamp : ℕ
  pub gas_limit : ℕ
  pub gas_used : ℕ
  pub beneficiary : Address
  pub state_root : B256
  pub base_fee_per_gas : Option ℕ
  pub transactions : List SubmittedTransaction
  pub withdrawals : Option (List Withdrawal)
  pub rlp_length : ℕ

-- A sealed header, as the provider gives one.
pub record SealedHeader : Type 0 where
  pub hash : B256
  pub number : BlockNumber

pub record BidTrace : Type 0 where
  pub block_hash : B256
  pub parent_hash : B256
  pub gas_limit : ℕ
  pub gas_used : ℕ
  pub proposer_fee_recipient : Address
  pub value : U256

-- An account of the bundle: its balance before and after, where there is an account.
pub record AccountChange : Type 0 where
  pub original_balance : Option U256
  pub balance : Option U256

-- `BlockExecutionOutput`: the status of each receipt, and the accounts that changed.
pub record Output : Type 0 where
  pub receipts : List Bool
  pub accounts : Map AccountChange

-- The chain that payments are checked on: its id, what the latest state has at the address of the
-- PaymentForwarder (the hash of its code, if there is an account and it has code), and the decoders.
pub record Chain : Type 0 where
  pub id : ℕ
  pub forwarder_account : Fallible (Option (Option B256))
  pub abi : Abi

pub data GetParentError : Type 0 where
  missing_latest_block missing_parent_block block_too_old : GetParentError
  provider : String → GetParentError

pub data ConsensusError : Type 0 where
  block_too_large : (rlp_length max_rlp_length : ℕ) → ConsensusError
  body_state_root_diff : (got expected : B256) → ConsensusError
  other_consensus : String → ConsensusError

pub data BlockExecutionError : Type 0 where
  validation internal : String → BlockExecutionError

pub data NewPayloadError : Type 0 where
  eth other : String → NewPayloadError

pub data ValidationApiError : Type 0 where
  gas_limit_mismatch gas_used_mismatch : (got expected : ℕ) → ValidationApiError
  parent_hash_mismatch block_hash_mismatch : (got expected : B256) → ValidationApiError
  get_parent : GetParentError → ValidationApiError
  proposer_payment invalid_blobs_bundle inclusion_list : ValidationApiError
  blacklist : Address → ValidationApiError
  blob provider_failed : String → ValidationApiError
  consensus : ConsensusError → ValidationApiError
  execution : BlockExecutionError → ValidationApiError
  payload : NewPayloadError → ValidationApiError

pub data Result {ℓ} (A : Type ℓ) : Type ℓ where
  ok : A → Result A
  err : ValidationApiError → Result A

module _ {ℓ κ} {A : Type ℓ} {B : Type κ} where
  infixl 6 ◌>>=◌
  abbrev pub ◌>>=◌ : Result A → (A → Result B) → Result B
  ok found >>= rest = rest found
  err refusal >>= rest = err refusal

  pub bind-eq-ok :
      (r : Result A) (rest : A → Result B) (b : B)
      → (r >>= rest) ≡ ok b
      → (a : A) × (r ≡ ok a) × (rest a ≡ ok b)
  bind-eq-ok (ok found) rest b e = (found, refl, e)
  bind-eq-ok (err refusal) rest b e = cc

module _ {ℓ} {B : Type ℓ} where
  infixl 6 ◌>>◌
  abbrev pub ◌>>◌ : Result (Unit {0}) → Result B → Result B
  check >> rest = check >>= (λ _. rest)

pub then-eq-ok {ℓ} :
    {B : Type ℓ} (check : Result (Unit {0})) (rest : Result B) (b : B)
    → (check >> rest) ≡ ok b
    → (check ≡ ok tt) × (rest ≡ ok b)
then-eq-ok (ok found) rest b e = (refl, e)
then-eq-ok (err refusal) rest b e = cc

abbrev pub map_err {ℓ} : {A : Type ℓ} → Fallible A → (String → ValidationApiError) → Result A
map_err (done a) f = ok a
map_err (failed reason) f = err (f reason)

-- `check?` for a check that answers with its error.
abbrev pub check_with {ℓ} : {E : Type ℓ} → Option E → (E → ValidationApiError) → Result (Unit {0})
check_with none f = ok tt
check_with (some e) f = err (f e)

-- `if test { return Err(e) }`
abbrev pub fail_if : Bool → ValidationApiError → Result (Unit {0})
fail_if Bool.true e = err e
fail_if Bool.false e = ok tt
