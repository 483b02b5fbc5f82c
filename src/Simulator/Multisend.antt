-- ===== src/Simulator/Multisend.antt =====
-- The Safe `multiSend` payload of crates/execution/simulator/src/payment.rs, and the payments that
-- it recognises in one. A byte is a number below 256.
pub mod RoundTrip
pub mod Entries
use ethgas_reth.Base.{
  ℕ, zero, suc, ◌+◌, ◌-◌, ◌*◌, ◌%◌, ◌^◌, ltb, leb, ◌==◌, not, if◌then◌else◌, List, [], ◌∷◌, Option,
  none, some, length, take, drop, Bool, u64_mod,
}
use ethgas_reth.Types.{Address, U256}

abbrev pub Bytes : Type 0
Bytes = List ℕ

-- `Address::from_slice`, `U256::from_be_slice`: the most significant byte comes first.
unfoldable pub from_be : ℕ → Bytes → ℕ
from_be acc [] = acc
from_be acc (b ∷ bs) = from_be (acc * 256 + b) bs

-- `&bytes[offset..offset + n]`
abbrev pub slice : ℕ → ℕ → Bytes → Bytes
slice offset n bytes = take n (drop offset bytes)

-- `U256 + U256` wraps.
abbrev pub add_u256 : U256 → U256 → U256
add_u256 a b = (a + b) % 2 ^ 256

abbrev pub entry_header_len : ℕ
entry_header_len = 85

-- One call of the closure: the entry at `offset`, with the offset behind it.
unfoldable pub next_entry : Bytes → ℕ → Option ((Address × U256) × ℕ)
unfolding from_be
next_entry transactions offset =
    let to = from_be 0 (slice (offset + 1) 20 transactions) in
    let value = from_be 0 (slice (offset + 21) 32 transactions) in
    let data_len = from_be 0 (slice (offset + 53) 32 transactions) in
    if ltb (length transactions - offset) entry_header_len
    then none
    else if not (ltb data_len u64_mod)
    then none
    else if ltb (length transactions - (offset + 85)) data_len
    then none
    else some ((to, value), offset + 85 + data_len)

-- The iterator, until it yields no more.
unfoldable pub entries_from : ℕ → Bytes → ℕ → List (Address × U256)
entries_from zero transactions offset = []
entries_from (suc fuel) transactions offset = elim (next_entry transactions offset) [
  | none ↦ []
  | some (found, after) ↦ found ∷ entries_from fuel transactions after
]

-- Each entry takes bytes, so that there are fewer than `suc (length transactions)`.
unfoldable pub multisend_entries : Bytes → List (Address × U256)
unfolding entries_from
multisend_entries transactions = entries_from (suc (length transactions)) transactions 0

-- `filter(|(to, _)| *to == recipient).fold(ZERO, |acc, (_, value)| acc + value)`
unfoldable pub sum_to : Address → U256 → List (Address × U256) → U256
sum_to recipient acc [] = acc
sum_to recipient acc ((to, value) ∷ rest) =
    sum_to recipient (if to == recipient then add_u256 acc value else acc) rest

-- What the code reads of `execTransactionCall`.
pub record ExecTransactionCall : Type 0 where
  pub operation : ℕ
  pub transaction_data : Bytes

-- The ABI decoders that `sol!` generates. The second gives `multiSendCall`'s payload.
pub record Abi : Type 0 where
  pub decode_exec_transaction : Bytes → Option ExecTransactionCall
  pub decode_multi_send : Bytes → Option Bytes

abbrev pub safe_delegatecall : ℕ
safe_delegatecall = 1

unfoldable pub multisend_paid_amount : Abi → Bytes → Address → U256
multisend_paid_amount abi input recipient =
    elim (abi.decode_exec_transaction input) as (λ _. U256) [
      | none ↦ 0
      | some exec ↦
          if not (exec.operation == safe_delegatecall)
          then 0
          else elim (abi.decode_multi_send exec.transaction_data) as (λ _. U256) [
            | none ↦ 0
            | some transactions ↦ sum_to recipient 0 (multisend_entries transactions)
          ]
    ]

-- A call of the PaymentForwarder: a timestamp of four bytes, then the recipient.
unfoldable pub payment_forwarder_recipient : Bytes → Option Address
unfolding from_be
payment_forwarder_recipient input =
    if leb 24 (length input) then some (from_be 0 (slice 4 20 input)) else none
