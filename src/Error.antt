-- ===== src/Error.antt =====
-- crates/execution/flashblocks/src/error.rs: the errors of the state processor, and its results.
use Prim.Native.String.{String}
use ethgas_reth.Base.{Bool, Option, none, some, ◌≡◌, refl}
use ethgas_reth.Fallible.{Fallible, done, failed}
use ethgas_reth.Types.{B256, Address, BlockNumber}

pub data ProtocolError : Type 0 where
  invalid_sequence missing_base empty_flashblocks genesis_flashblock : ProtocolError
  missing_slot_number : (block_number : BlockNumber) → ProtocolError

pub data ProviderError : Type 0 where
  missing_canonical_header : (block_number : BlockNumber) → ProviderError
  state_provider : String → ProviderError

pub data ExecutionError : Type 0 where
  transaction_failed : (tx_hash : B256) (sender : Address) (reason : String) → ExecutionError
  missing_receipt : (tx_hash : B256) → ExecutionError
  status_mismatch : (tx_hash : B256) (producer_success : Bool) → ExecutionError
  sender_recovery : String → ExecutionError
  evm_env : String → ExecutionError
  block_conversion : String → ExecutionError

pub data BuildError : Type 0 where
  missing_headers no_flashblocks : BuildError
  duplicate_transaction : (tx_hash : B256) → BuildError

pub data StateProcessorError : Type 0 where
  protocol : ProtocolError → StateProcessorError
  provider : ProviderError → StateProcessorError
  execution : ExecutionError → StateProcessorError
  build_failed : BuildError → StateProcessorError
  missing_first_flashblock : StateProcessorError

-- `crate::error::Result`
pub data Result {ℓ} (Value : Type ℓ) : Type ℓ where
  err : StateProcessorError → Result Value
  ok : Value → Result Value

-- The operator `?`.
module _ {ℓ κ} {V : Type ℓ} {W : Type κ} where
  infixl 6 ◌>>=◌
  abbrev pub ◌>>=◌ : Result V → (V → Result W) → Result W
  err failure >>= next = err failure
  ok value >>= next = next value

  -- Inversion of a successful chain.
  pub >>=-eq-ok :
      (r : Result V) (next : V → Result W) {w : W}
      → (r >>= next) ≡ ok w
      → (v : V) × (r ≡ ok v) × (next v ≡ ok w)
  >>=-eq-ok (err failure) next h = cc
  >>=-eq-ok (ok value) next h = (value, refl, h)

module _ {ℓ} {W : Type ℓ} where
  infixl 6 ◌>>◌
  abbrev pub ◌>>◌ : Result (Unit {0}) → Result W → Result W
  check >> after = check >>= (λ _. after)

-- `ok_or(e)?`
abbrev pub ok_or {ℓ} : {A : Type ℓ} → Option A → StateProcessorError → Result A
ok_or none e = err e
ok_or (some a) e = ok a

-- `map_err(f)?`
abbrev pub map_err {ℓ} : {A : Type ℓ} → Fallible A → (String → StateProcessorError) → Result A
map_err (done a) f = ok a
map_err (failed s) f = err (f s)

pub ok_or-eq-ok {ℓ} :
    {A : Type ℓ} (o : Option A) (e : StateProcessorError) (a : A) → ok_or o e ≡ ok a → o ≡ some a
ok_or-eq-ok none e a h = cc
ok_or-eq-ok (some b) e a h = cc

pub map_err-eq-ok {ℓ} :
    {A : Type ℓ} (m : Fallible A) (f : String → StateProcessorError) (a : A)
    → map_err m f ≡ ok a
    → m ≡ done a
map_err-eq-ok (done b) f a h = cc
map_err-eq-ok (failed s) f a h = cc

pub ok-injective {ℓ} : {A : Type ℓ} {a b : A} → Path (Result A) (ok a) (ok b) → a ≡ b
ok-injective h = cc
