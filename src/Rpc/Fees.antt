-- ===== src/Rpc/Fees.antt =====
-- `EthgasApiExt` of crates/execution/flashblocks/src/rpc/ethgas.rs: the fees that are served from the
-- builder's inclusion fee.
pub mod Prices
use mathlib.Core.Option
use ethgas_reth.Base.{
  ℕ, ◌+◌, ◌-◌, ◌^◌, leb, min, if◌then◌else◌, ◌&&◌, not, Bool, true, false, List, [], ◌∷◌, Option,
  none, some, is_some, u64_mod,
}
use ethgas_reth.Fallible.{Fallible, done, failed, ◌>>=◌}
use ethgas_reth.Types.{Address, U256, BlockNumber}
use ethgas_reth.Fee.{
  ReceivedInclusionFee, InclusionPriorityFee, builder_inclusion_fee, fallback_inclusion_fee,
}

pub data Metric : Type 0 where
  rpc_inclusion_fee_builder rpc_inclusion_fee_fallback : Metric

abbrev pub Reply : Type 0 → Type 0
Reply A = List Metric × Fallible A

-- Of a request, the code reads and sets these. `rest` is handed on.
pub record TransactionRequest : Type 0 where
  pub sender : Option Address
  pub nonce : Option ℕ
  pub gas_price : Option ℕ
  pub max_fee_per_gas : Option ℕ
  pub max_priority_fee_per_gas : Option ℕ
  pub rest : ℕ

-- Reth's `eth` API. `count_at_pending` is `transaction_count` at the pending block.
pub record FeeApi : Type 0 where
  pub best_block_number : Fallible BlockNumber
  pub suggested_priority_fee : Fallible U256
  pub base_fee : Fallible (Option U256)
  pub gas_price : Fallible U256
  pub count_at_pending : Address → Fallible U256
  pub fill_transaction : TransactionRequest → Fallible ℕ

-- What the extension holds and reads: the fee last received, the time, and the flags.
pub record Held : Type 0 where
  pub latest_inclusion_fee : Option ReceivedInclusionFee
  pub now : ℕ
  pub max_age : ℕ
  pub ceiling : U256

abbrev pub u128_mod : ℕ
u128_mod = 2 ^ 128

abbrev pub u256_mod : ℕ
u256_mod = 2 ^ 256

-- `saturating_add` on `U256`, and `saturating_to` on a narrower type.
abbrev pub saturating_add : U256 → U256 → U256
saturating_add a b = min (a + b) (u256_mod - 1)

abbrev pub saturating_to : (modulus : ℕ) → U256 → ℕ
saturating_to modulus a = min a (modulus - 1)

unfoldable pub sets_no_fee : TransactionRequest → Bool
sets_no_fee request =
    not (is_some request.gas_price)
    && (not (is_some request.max_fee_per_gas) && not (is_some request.max_priority_fee_per_gas))

module _ (eth : FeeApi) (held : Held) where
  -- Whether the block of the fee is canonical. An unknown tip is not.
  unfoldable pub is_sealed : ReceivedInclusionFee → Bool
  is_sealed latest = elim eth.best_block_number [
    | failed reason ↦ false
    | done best ↦ leb latest.block_number best
  ]

  unfoldable pub builder_fee : Option InclusionPriorityFee
  unfolding is_sealed
  builder_fee = elim held.latest_inclusion_fee [
    | none ↦ none
    | some latest ↦
        if is_sealed latest
        then none
        else builder_inclusion_fee (some latest) held.now held.max_age held.ceiling
  ]

  unfoldable pub inclusion_fee : Reply InclusionPriorityFee
  unfolding builder_fee
  inclusion_fee = elim builder_fee [
    | some served ↦ (rpc_inclusion_fee_builder ∷ [], done served)
    | none ↦ elim eth.suggested_priority_fee [
      | failed reason ↦ ([], failed reason)
      | done suggested ↦ (rpc_inclusion_fee_fallback ∷ [], done (fallback_inclusion_fee suggested))
    ]
  ]

  unfoldable pub max_priority_fee_per_gas : Reply U256
  unfolding inclusion_fee
  max_priority_fee_per_gas =
      (inclusion_fee.0, inclusion_fee.1 >>= (λ fee. done fee.max_priority_fee_per_gas))

  unfoldable pub gas_price : Reply U256
  unfolding builder_fee
  gas_price = elim builder_fee [
    | some served ↦ elim eth.base_fee [
      | failed reason ↦ ([], failed reason)
      | done base ↦ (
        rpc_inclusion_fee_builder ∷ [],
        done (saturating_add (Option.get_or base 0) served.max_priority_fee_per_gas),
      )
    ]
    | none ↦ elim eth.gas_price [
      | failed reason ↦ ([], failed reason)
      | done price ↦ (rpc_inclusion_fee_fallback ∷ [], done price)
    ]
  ]

  -- A missing nonce of a known sender.
  unfoldable pub with_nonce : TransactionRequest → Fallible TransactionRequest
  with_nonce request = elim request.nonce [
    | some nonce ↦ done request
    | none ↦ elim request.sender [
      | none ↦ done request
      | some sender ↦
          eth.count_at_pending sender
          >>= (λ next. done (record request { nonce = some (saturating_to u64_mod next) }))
    ]
  ]

  -- A priority fee where no fee is set.
  unfoldable pub with_fee : TransactionRequest → List Metric × TransactionRequest
  unfolding builder_fee sets_no_fee
  with_fee request =
      if sets_no_fee request
      then elim builder_fee [
        | some served ↦ (
          rpc_inclusion_fee_builder ∷ [],
          record request {
            max_priority_fee_per_gas =
                some (saturating_to u128_mod served.max_priority_fee_per_gas);
          },
        )
        | none ↦ ([], request)
      ]
      else ([], request)

  unfoldable pub fill_transaction : TransactionRequest → Reply ℕ
  unfolding with_nonce with_fee
  fill_transaction request = elim (with_nonce request) [
    | failed reason ↦ ([], failed reason)
    | done counted ↦ ((with_fee counted).0, eth.fill_transaction (with_fee counted).1)
  ]
