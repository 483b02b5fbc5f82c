-- ===== src/Simulator/Payment/Soundness.antt =====
-- What the payment checks of crates/execution/simulator/src/validation/mod.rs accept.
use ethgas_reth.Base.{
  ℕ, ◌+◌, ◌%◌, ◌^◌, ◌≤◌, ◌≡◌, ◌↔◌, ◌⊎◌, inl, inr, refl, ◌∙◌, arith, ◌==◌, ◌||◌, if◌then◌else◌, Bool,
  true, false, Bool-cases, List, [], ◌∷◌, some, Option-cases, last, opt_eq_iff, is_empty,
}
use ethgas_reth.Types.{Address, U256}
use ethgas_reth.Simulator.Multisend.{add_u256, payment_forwarder_recipient}
use ethgas_reth.Simulator.Types.{
  SubmittedTransaction, Withdrawal, SubmittedBlock, BidTrace, Output, Chain, ok,
}
use ethgas_reth.Simulator.Payment.{
  payment_forwarder, balances, add_withdrawals, withdrawn, balance_pays, paid_directly,
  forwarder_deployed, paid_via_forwarder, has_tip, last_pays, ensure_payment, ensure_merged_payment,
}

-- What is withdrawn to the recipient, as a plain sum.
unfoldable pub withdrawn_to : Address → List Withdrawal → ℕ
withdrawn_to recipient [] = 0
withdrawn_to recipient (w ∷ ws) =
    let rest = withdrawn_to recipient ws in
    if w.address == recipient then w.amount_wei + rest else rest

add_withdrawals-eq :
    (recipient : Address) (acc : U256) (ws : List Withdrawal)
    → add_withdrawals recipient acc ws % 2 ^ 256 ≡ (acc + withdrawn_to recipient ws) % 2 ^ 256
unfolding add_withdrawals withdrawn_to
add_withdrawals-eq recipient acc [] = omega arith
add_withdrawals-eq recipient acc (w ∷ ws) = elim (Bool-cases (w.address == recipient)) [
  | inl hit ↦
      rw (hit, add_withdrawals, withdrawn_to)
        (add_withdrawals-eq recipient (add_u256 acc w.amount_wei) ws ∙ omega arith)
  | inr miss ↦ rw (miss, add_withdrawals, withdrawn_to) (add_withdrawals-eq recipient acc ws)
]

-- What the recipient should have after the block, had `U256` no bound.
abbrev pub due : SubmittedBlock → Output → BidTrace → ℕ
due block output message =
    (balances output message.proposer_fee_recipient).0
    + withdrawn_to message.proposer_fee_recipient (withdrawn block)
    + message.value

pub balance_pays_iff :
    (block : SubmittedBlock) (output : Output) (message : BidTrace)
    → (balance_pays block output message ≡ true)
      ↔ (due block output message % 2 ^ 256 ≤ (balances output message.proposer_fee_recipient).1)
unfolding balance_pays
balance_pays_iff block output message = ground (
  arith,
  add_withdrawals-eq message.proposer_fee_recipient
      (balances output message.proposer_fee_recipient).0 (withdrawn block),
)

-- A transaction that pays its value on to the recipient: a plain transfer, or a call of the
-- forwarder where that is deployed.
abbrev pub PaysOn : Chain → SubmittedTransaction → Address → Type 0
PaysOn chain tx recipient =
    ((tx.to ≡ some recipient) × (is_empty tx.input ≡ true))
    ⊎ ((tx.to ≡ some payment_forwarder)
        × (payment_forwarder_recipient tx.input ≡ some recipient)
        × (forwarder_deployed chain.forwarder_account ≡ true))

pub paid_directly-PaysOn :
    (chain : Chain) (tx : SubmittedTransaction) (recipient : Address)
    → (paid_directly tx recipient || paid_via_forwarder chain tx recipient ≡ true)
      ↔ PaysOn chain tx recipient
paid_directly-PaysOn chain tx recipient = ground (
  arith,
  opt_eq_iff tx.to (some recipient),
  opt_eq_iff tx.to (some payment_forwarder),
  opt_eq_iff (payment_forwarder_recipient tx.input) (some recipient),
)

module _ (chain : Chain) (block : SubmittedBlock) (output : Output) where
  -- The transaction succeeded and pays the bid on, on the chain and with no tip.
  abbrev pub Pays : BidTrace → Bool → SubmittedTransaction → Type 0
  Pays message status tx =
      (status ≡ true)
      × (tx.chain_id ≡ some chain.id)
      × PaysOn chain tx message.proposer_fee_recipient
      × (tx.value ≡ message.value)
      × (has_tip block tx ≡ false)

  last_pays_iff :
      (message : BidTrace) (status : Bool) (tx : SubmittedTransaction)
      → (last_pays chain block output message status tx ≡ true) ↔ Pays message status tx
  unfolding last_pays
  last_pays_iff message status tx =
      let id = opt_eq_iff tx.chain_id (some chain.id) in
      let pays = paid_directly-PaysOn chain tx message.proposer_fee_recipient in
      (
        λ h. (ground arith, id.0 (ground arith), pays.0 (ground arith), ground arith, ground arith),
        λ (s, i, p, v, t). let i' = id.1 i in let p' = pays.1 p in ground arith,
      )

  -- The balance grew by the value, modulo the bound of `U256`.
  abbrev pub Grew : BidTrace → Type 0
  Grew message =
      due block output message % 2 ^ 256 ≤ (balances output message.proposer_fee_recipient).1

  -- The last transaction pays the bid.
  abbrev pub EndsInPayment : BidTrace → Type 0
  EndsInPayment message =
      (status : Bool) × (tx : SubmittedTransaction) × (last output.receipts ≡ some status)
      × (last block.transactions ≡ some tx)
      × Pays message status tx

  accepted_is_paid :
      (message : BidTrace)
      → ensure_payment chain block output message ≡ ok tt
      → balance_pays block output message ≡ false
      → EndsInPayment message
  unfolding ensure_payment
  accepted_is_paid message h less = elim (Option-cases (last output.receipts)) [
    | inl bare ↦ absurd (ground (arith, bare, less, h))
    | inr (status, r) ↦ elim (Option-cases (last block.transactions)) [
      | inl bare ↦ absurd (ground (arith, r, bare, less, h))
      | inr (tx, t) ↦
          (status, tx, r, t, (last_pays_iff message status tx).0 (ground (arith, r, t, less, h)))
    ]
  ]

  paid_is_accepted :
      (message : BidTrace)
      → EndsInPayment message
      → ensure_payment chain block output message ≡ ok tt
  unfolding ensure_payment
  paid_is_accepted message (status, tx, r, t, paid) =
      let pays = (last_pays_iff message status tx).1 paid in ground (arith, r, t, pays)

  -- A block passes the payment check exactly when the balance of the fee recipient reaches what
  -- it had, what was withdrawn to it and the bid, summed modulo 2 ^ 256; or when its last
  -- transaction succeeded, is of the chain, gives no tip and pays exactly the bid to the
  -- recipient, directly or by the forwarder where that is deployed.
  pub ensure_payment_iff :
      (message : BidTrace)
      → (ensure_payment chain block output message ≡ ok tt) ↔ (Grew message ⊎ EndsInPayment message)
  unfolding ensure_payment
  ensure_payment_iff message =
      let grew = balance_pays_iff block output message in
      (
        λ h. elim (Bool-cases (balance_pays block output message)) [
          | inl more ↦ inl (grew.0 more)
          | inr less ↦ inr (accepted_is_paid message h less)
        ],
        elim [
          | inl low ↦ rw (grew.1 low, ensure_payment) refl
          | inr paid ↦ paid_is_accepted message paid
        ],
      )

  -- Both payment checks accept a bid that pushes the sum of balance, withdrawals and value to 2 ^
  -- 256 or above it, if the sum exceeds 2 ^ 256 by at most the balance after the block, whatever
  -- the block's transactions pay.
  pub ensure_payment-overflow :
      (message : BidTrace)
      → 2 ^ 256 ≤ due block output message
      → due block output message ≤ 2 ^ 256 + (balances output message.proposer_fee_recipient).1
      → (base_ix : ℕ)
      → (ensure_payment chain block output message ≡ ok tt)
        × (ensure_merged_payment chain block output message base_ix ≡ ok tt)
  unfolding ensure_payment ensure_merged_payment
  ensure_payment-overflow message over wrapped base_ix =
      let grew = (balance_pays_iff block output message).1 (omega (arith, over, wrapped)) in
      (rw (grew, ensure_payment) refl, rw (grew, ensure_merged_payment) refl)
