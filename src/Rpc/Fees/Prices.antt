-- ===== src/Rpc/Fees/Prices.antt =====
-- crates/execution/flashblocks/src/rpc/ethgas.rs: the fee that all of its methods serve.
use mathlib.Core.Option
use mathlib.Core.Path.{subst}
use ethgas_reth.Base.{
  ℕ, ◌+◌, ◌≤◌, ◌<◌, true, false, Option, none, some, ◌≡◌, ◌↔◌, ◌⊎◌, arith, Bool-cases, Option-cases,
  inl, inr,
}
use ethgas_reth.Fallible.{done, Fallible-cases}
use ethgas_reth.Types.{U256, BlockNumber}
use ethgas_reth.Fee.{
  ReceivedInclusionFee, InclusionPriorityFee, builder_inclusion_fee, age, fallback_inclusion_fee,
}
use ethgas_reth.Rpc.Fees.{
  TransactionRequest, FeeApi, Held, u128_mod, saturating_add, saturating_to, sets_no_fee, is_sealed,
  builder_fee, inclusion_fee, max_priority_fee_per_gas, gas_price, with_nonce, with_fee,
  fill_transaction,
}

module _ (eth : FeeApi) (held : Held) where
  -- The fee is young and low enough, and the chain, if its tip is known, is below the fee's block.
  abbrev pub IsCurrent : ReceivedInclusionFee → Type 0
  IsCurrent r =
      ((best : BlockNumber) → eth.best_block_number ≡ done best → best < r.block_number)
      × (held.now ≤ r.received_at + held.max_age)
      × (r.inclusion_fee.priority_fee ≤ held.ceiling)

  -- What the methods answer where the builder's fee is `fee`. A request has its nonce.
  pub record IsPriced (fee : U256) : Type 0 where
    pub priority : (max_priority_fee_per_gas eth held).1 ≡ done fee
    pub price :
        (base : Option U256)
        → eth.base_fee ≡ done base
        → (gas_price eth held).1 ≡ done (saturating_add (Option.get_or base 0) fee)
    pub filled :
        (request : TransactionRequest) (nonce : ℕ)
        → request.nonce ≡ some nonce
        → sets_no_fee request ≡ true
        → (fill_transaction eth held request).1
          ≡ eth.fill_transaction
              (record request { max_priority_fee_per_gas = some (saturating_to u128_mod fee) })

  -- What they answer without it: the node's values.
  pub record IsNodes : Type 0 where
    pub priority : (max_priority_fee_per_gas eth held).1 ≡ eth.suggested_priority_fee
    pub price : (gas_price eth held).1 ≡ eth.gas_price
    pub filled :
        (request : TransactionRequest) (nonce : ℕ)
        → request.nonce ≡ some nonce
        → (fill_transaction eth held request).1 ≡ eth.fill_transaction request

  served-IsPriced :
      (f : InclusionPriorityFee)
      → builder_fee eth held ≡ some f
      → IsPriced f.max_priority_fee_per_gas
  unfolding max_priority_fee_per_gas inclusion_fee gas_price fill_transaction with_fee with_nonce
  served-IsPriced f e = record {
    priority = ground (arith, e);
    price = λ base known. ground (arith, e, known);
    filled = λ request nonce has free. ground (arith, e, has, free);
  }

  unserved-IsNodes : builder_fee eth held ≡ none → IsNodes
  unfolding max_priority_fee_per_gas inclusion_fee gas_price fill_transaction with_fee with_nonce
      fallback_inclusion_fee
  unserved-IsNodes e = record {
    priority = ground (arith, e, Fallible-cases eth.suggested_priority_fee);
    price = ground (arith, e, Fallible-cases eth.gas_price);
    filled = λ request nonce has. ground (arith, e, has, Bool-cases (sets_no_fee request));
  }

  is_sealed_iff :
      (r : ReceivedInclusionFee)
      → (is_sealed eth held r ≡ false)
        ↔ ((best : BlockNumber) → eth.best_block_number ≡ done best → best < r.block_number)
  unfolding is_sealed
  is_sealed_iff r = elim (Fallible-cases eth.best_block_number) [
    | inl (x, e) ↦ (λ _ n h. absurd (ground (arith, e, h)), λ _. ground (arith, e))
    | inr (tip, e) ↦ (λ k n h. ground (arith, e, h, k), λ k. ground (arith, e, k tip))
  ]

  -- The held fee where it is young and low enough.
  young_iff :
      (r : ReceivedInclusionFee)
      → ((held.now ≤ r.received_at + held.max_age)
          × (r.inclusion_fee.priority_fee ≤ held.ceiling)
          × ((f : InclusionPriorityFee) × (builder_inclusion_fee
                  (some r)
                  held.now
                  held.max_age
                  held.ceiling
                ≡ some f)
              × (f.max_priority_fee_per_gas ≡ r.inclusion_fee.priority_fee)))
        ⊎ ((held.now ≤ r.received_at + held.max_age
              → r.inclusion_fee.priority_fee ≤ held.ceiling
              → ⊥)
            × (builder_inclusion_fee (some r) held.now held.max_age held.ceiling ≡ none))
  unfolding builder_inclusion_fee age
  young_iff r =
      elim (Option-cases (builder_inclusion_fee (some r) held.now held.max_age held.ceiling)) [
        | inl gone ↦ inr (λ young low. ground (arith, gone, young, low), gone)
        | inr (f, e) ↦ inl (ground (arith, e), ground (arith, e), (f, e, ground (arith, e)))
      ]

  -- With a held fee, either the fee is current, that is, at most `max_age` old, at most the
  -- ceiling, and of a block above the tip, if that is known, and then the priority fee is that
  -- fee, the gas price adds it to the base fee up to the range of `U256`, and a request that sets
  -- no fee is filled with it; or it is not, and then the node's values and its filling are
  -- served. Requests have their nonce.
  pub fees-IsPriced :
      (r : ReceivedInclusionFee)
      → held.latest_inclusion_fee ≡ some r
      → (IsCurrent r × IsPriced r.inclusion_fee.priority_fee) ⊎ ((IsCurrent r → ⊥) × IsNodes)
  unfolding builder_fee
  fees-IsPriced r e = elim (Bool-cases (is_sealed eth held r)) [
    | inl sealed ↦ inr (
      λ (tip, _, _). ground (arith, sealed, (is_sealed_iff r).1 tip),
      unserved-IsNodes (ground (arith, e, sealed)),
    )
    | inr open_still ↦ elim (young_iff r) [
      | inl (young, low, (f, k, same)) ↦ inl (
        ((is_sealed_iff r).0 open_still, young, low),
        subst IsPriced same (served-IsPriced f (ground (arith, e, open_still, k))),
      )
      | inr (old, k) ↦
          inr
            (λ (_, young, low). old young low, unserved-IsNodes (ground (arith, e, open_still, k)))
    ]
  ]
