-- ===== src/Simulator/Payment/Merged.antt =====
-- What the check on merged blocks of crates/execution/simulator/src/validation/mod.rs accept.
use ethgas_reth.Base.{
  ℕ, suc, ◌+◌, ◌-◌, ◌≤◌, ◌≡◌, ◌⊎◌, inl, inr, refl, arith, ◌==◌, ◌||◌, true, false, Bool-cases, List,
  [], ◌∷◌, some, Option-cases, length, get_elem?, opt_eq_iff, is_empty,
}
use ethgas_reth.Types.{Address, U256}
use ethgas_reth.Simulator.Multisend.{multisend_paid_amount}
use ethgas_reth.Simulator.Types.{SubmittedTransaction, SubmittedBlock, BidTrace, Output, Chain, ok}
use ethgas_reth.Simulator.Payment.{
  balance_pays, paid_directly, paid_via_forwarder, has_tip, recognized_payment,
  recognized_payment_at, merged_total, ensure_merged_payment,
}
use ethgas_reth.Simulator.Payment.Soundness.{PaysOn, paid_directly-PaysOn, Grew, balance_pays_iff}

nonempty-length : {A : Type 0} (xs : List A) → is_empty xs ≡ false → length xs ≡ suc (length xs - 1)
nonempty-length [] h = cc
nonempty-length (x ∷ xs) h = omega arith

module _ (chain : Chain) (block : SubmittedBlock) (output : Output) where
  -- A transaction on the chain, with no tip, that pays the recipient the amount.
  abbrev pub Worth : Address → SubmittedTransaction → U256 → Type 0
  Worth recipient tx amount =
      (tx.chain_id ≡ some chain.id)
      × (has_tip block tx ≡ false)
      × ((PaysOn chain tx recipient × (amount ≡ tx.value))
          ⊎ (amount ≡ multisend_paid_amount chain.abi tx.input recipient))

  -- What the transaction at a position is worth to the recipient.
  abbrev pub WorthAt : Address → ℕ → U256 → Type 0
  WorthAt recipient ix amount =
      (amount ≡ 0)
      ⊎ ((tx : SubmittedTransaction) × (get_elem? output.receipts ix ≡ some true)
          × (get_elem? block.transactions ix ≡ some tx)
          × Worth recipient tx amount)

  recognized_payment-Worth :
      (recipient : Address) (tx : SubmittedTransaction)
      → let amount = recognized_payment chain block output recipient tx in
        (amount ≡ 0) ⊎ Worth recipient tx amount
  unfolding recognized_payment
  recognized_payment-Worth recipient tx =
      let id = opt_eq_iff tx.chain_id (some chain.id) in
      elim (Bool-cases (paid_directly tx recipient || paid_via_forwarder chain tx recipient)) [
        | inl on ↦
            let pays = (paid_directly-PaysOn chain tx recipient).0 on in
            rw (on, recognized_payment) (ground (arith, id))
        | inr off ↦ rw (off, recognized_payment) (ground (arith, id))
      ]

  recognized_payment_at-WorthAt :
      (recipient : Address) (ix : ℕ)
      → WorthAt recipient ix (recognized_payment_at chain block output recipient ix)
  unfolding recognized_payment_at
  recognized_payment_at-WorthAt recipient ix = elim (Option-cases (get_elem? output.receipts ix)) [
    | inl bare ↦ inl (rw (bare, recognized_payment_at) refl)
    | inr (status, r) ↦ elim (Option-cases (get_elem? block.transactions ix)) [
      | inl bare ↦ inl (rw (r, bare, recognized_payment_at) refl)
      | inr (tx, t) ↦
          let worth = recognized_payment-Worth recipient tx in
          rw (r, t, recognized_payment_at) (ground (arith, r, t, worth))
    ]
  ]

  -- Two amounts, of the last position and of the base payment's, which pay the value together; the
  -- second counts for nothing where the positions are one.
  abbrev pub SharedBy : Address → (value last_ix base_ix : ℕ) → Type 0
  SharedBy recipient value last_ix base_ix =
      (a b : U256) × WorthAt recipient last_ix a
      × WorthAt recipient base_ix b
      × (base_ix ≡ last_ix → b ≡ 0)
      × (value ≤ a + b)

  merged_total-SharedBy :
      (recipient : Address) (last_ix base_ix : ℕ)
      → SharedBy recipient
          (merged_total chain block output recipient last_ix base_ix)
          last_ix
          base_ix
  unfolding merged_total
  merged_total-SharedBy recipient last_ix base_ix =
      let a = recognized_payment_at chain block output recipient last_ix in
      let b = recognized_payment_at chain block output recipient base_ix in
      let worth_a = recognized_payment_at-WorthAt recipient last_ix in
      let worth_b = recognized_payment_at-WorthAt recipient base_ix in
      elim (Bool-cases (base_ix == last_ix)) [
        | inl same ↦ (a, 0, worth_a, inl refl, λ _. refl, rw (same, merged_total) (omega arith))
        | inr two ↦ (
          a,
          b,
          worth_a,
          worth_b,
          λ e. absurd (ground arith),
          rw (two, merged_total) (omega arith),
        )
      ]

  -- A merged block that passes has a balance that grew by the bid, modulo 2 ^ 256, or has a last
  -- transaction, and the bid is at most the sum of two amounts: the worth of the last transaction
  -- and that of the base payment's, the second being nothing when both are one position. A worth
  -- that is not zero comes from a transaction that succeeded, is of the chain and gives no tip:
  -- its value, if it pays on to the recipient, or what its batch pays the recipient.
  pub ensure_merged_payment-IsPaid :
      (message : BidTrace) (base_ix : ℕ)
      → ensure_merged_payment chain block output message base_ix ≡ ok tt
      → Grew chain block output message
        ⊎ ((last_ix : ℕ) × (length block.transactions ≡ suc last_ix)
            × SharedBy message.proposer_fee_recipient message.value last_ix base_ix)
  unfolding ensure_merged_payment
  ensure_merged_payment-IsPaid message base_ix h =
      let last_ix = length block.transactions - 1 in
      let (a, b, worth_a, worth_b, once, total) =
        merged_total-SharedBy message.proposer_fee_recipient last_ix base_ix in
      elim (Bool-cases (balance_pays block output message)) [
        | inl more ↦ inl ((balance_pays_iff block output message).0 more)
        | inr less ↦ elim (Bool-cases (is_empty block.transactions)) [
          | inl bare ↦ absurd (ground (arith, h, less, bare))
          | inr filled ↦
              let paid : SharedBy message.proposer_fee_recipient message.value last_ix base_ix =
                (a, b, worth_a, worth_b, once, ground (arith, h, less, filled)) in
              inr (last_ix, nonempty-length block.transactions filled, paid)
        ]
      ]
