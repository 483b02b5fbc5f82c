-- ===== src/Simulator/Payment.antt =====
-- The payment checks of crates/execution/simulator/src/validation/mod.rs, with the constants of
-- crates/execution/simulator/src/payment.rs.
pub mod Soundness
pub mod Merged
use mathlib.Core.Option
use ethgas_reth.Base.{
  ℕ, ◌-◌, leb, ◌==◌, ◌&&◌, ◌||◌, not, if◌then◌else◌, Bool, true, false, List, [], ◌∷◌, Option, none,
  some, length, get_elem?, last, Map, lookup, opt_eq, is_empty,
}
use ethgas_reth.Fallible.{Fallible, done, failed}
use ethgas_reth.Types.{B256, Address, U256}
use ethgas_reth.Simulator.Multisend.{add_u256, multisend_paid_amount, payment_forwarder_recipient}
use ethgas_reth.Simulator.Types.{
  SubmittedTransaction, Withdrawal, SubmittedBlock, BidTrace, AccountChange, Output, Chain, Result,
  ok, err, proposer_payment,
}

abbrev pub payment_forwarder : Address
payment_forwarder = 0xfeeeeee44046c3f61a8cc081e0918ef0de0a7ffc

abbrev pub payment_forwarder_code_hash : B256
payment_forwarder_code_hash = 0xd9f5db49d3c0a174c39701485406cd78d01dd27f73b7ef7b883e5f69d8103220

-- The balances before and after, zero where the account did not change.
unfoldable pub balances : Output → Address → U256 × U256
balances output recipient = elim (lookup recipient output.accounts) [
  | none ↦ (0, 0)
  | some change ↦ (Option.get_or change.original_balance 0, Option.get_or change.balance 0)
]

unfoldable pub add_withdrawals : Address → U256 → List Withdrawal → U256
add_withdrawals recipient acc [] = acc
add_withdrawals recipient acc (w ∷ ws) =
    add_withdrawals recipient (if w.address == recipient then add_u256 acc w.amount_wei else acc) ws

abbrev pub withdrawn : SubmittedBlock → List Withdrawal
withdrawn block = Option.get_or block.withdrawals []

-- What both checks begin with: the balance grew by the value at least.
unfoldable pub balance_pays : SubmittedBlock → Output → BidTrace → Bool
unfolding balances add_withdrawals
balance_pays block output message =
    let (balance_before, balance_after) = balances output message.proposer_fee_recipient in
    leb
      (add_u256 (add_withdrawals message.proposer_fee_recipient balance_before (withdrawn block))
        message.value)
      balance_after

abbrev pub paid_directly : SubmittedTransaction → Address → Bool
paid_directly tx recipient = opt_eq tx.to (some recipient) && is_empty tx.input

abbrev pub forwarder_deployed : Fallible (Option (Option B256)) → Bool
forwarder_deployed (failed e) = false
forwarder_deployed (done none) = false
forwarder_deployed (done (some code)) = opt_eq code (some payment_forwarder_code_hash)

abbrev pub paid_via_forwarder : Chain → SubmittedTransaction → Address → Bool
paid_via_forwarder chain tx recipient =
    opt_eq tx.to (some payment_forwarder)
    && (opt_eq (payment_forwarder_recipient tx.input) (some recipient)
        && forwarder_deployed chain.forwarder_account)

-- The block has a base fee, and the transaction a priority fee above it.
abbrev pub has_tip : SubmittedBlock → SubmittedTransaction → Bool
has_tip block tx = elim block.base_fee_per_gas [
  | none ↦ false
  | some fee ↦ not (Option.get_or (tx.effective_tip_per_gas fee) 0 == 0)
]

module _ (chain : Chain) (block : SubmittedBlock) (output : Output) where
  -- The checks on the last transaction of the block, with the status of the last receipt.
  unfoldable pub last_pays : BidTrace → Bool → SubmittedTransaction → Bool
  last_pays message status tx =
      status
      && (opt_eq tx.chain_id (some chain.id)
          && ((paid_directly tx message.proposer_fee_recipient
                || paid_via_forwarder chain tx message.proposer_fee_recipient)
              && (tx.value == message.value && not (has_tip block tx))))

  unfoldable pub ensure_payment : BidTrace → Result (Unit {0})
  unfolding last_pays balance_pays
  ensure_payment message =
      if balance_pays block output message then ok tt else elim (last output.receipts) [
        | none ↦ err proposer_payment
        | some status ↦ elim (last block.transactions) [
          | none ↦ err proposer_payment
          | some tx ↦ if last_pays message status tx then ok tt else err proposer_payment
        ]
      ]

  -- The payment of a transaction whose receipt is a success.
  unfoldable pub recognized_payment : Address → SubmittedTransaction → U256
  recognized_payment recipient tx =
      let contributed =
        if paid_directly tx recipient || paid_via_forwarder chain tx recipient
        then tx.value
        else multisend_paid_amount chain.abi tx.input recipient in
      if contributed == 0
      then 0
      else if not (opt_eq tx.chain_id (some chain.id))
      then 0
      else if has_tip block tx
      then 0
      else contributed

  unfoldable pub recognized_payment_at : Address → ℕ → U256
  unfolding recognized_payment
  recognized_payment_at recipient ix = elim (get_elem? output.receipts ix) as (λ _. U256) [
    | none ↦ 0
    | some status ↦ elim (get_elem? block.transactions ix) as (λ _. U256) [
      | none ↦ 0
      | some tx ↦ if status then recognized_payment recipient tx else 0
    ]
  ]

  -- The payments at the last position and at that of the base payment, one position once.
  unfoldable pub merged_total : Address → (last_ix base_payment_tx_index : ℕ) → U256
  unfolding recognized_payment_at
  merged_total recipient last_ix base_ix =
      let total = recognized_payment_at recipient last_ix in
      if base_ix == last_ix then total else add_u256 total (recognized_payment_at recipient base_ix)

  unfoldable pub ensure_merged_payment : BidTrace → ℕ → Result (Unit {0})
  unfolding merged_total balance_pays
  ensure_merged_payment message base_ix =
      if balance_pays block output message
      then ok tt
      else if is_empty block.transactions
      then err proposer_payment
      else if leb message.value
          (merged_total message.proposer_fee_recipient (length block.transactions - 1) base_ix)
      then ok tt
      else err proposer_payment
