-- ===== src/Simulator/Constraint.antt =====
-- `validate_inclusion_list_constraint` of crates/execution/simulator/src/validation/mod.rs.
pub mod Soundness
use ethgas_reth.Base.{
  ℕ, ◌==◌, if◌then◌else◌, Bool, true, false, List, [], ◌∷◌, Option, none, some, length, is_empty,
  contains, add_to,
}
use ethgas_reth.Types.{B256}
use ethgas_reth.Simulator.Multisend.{Bytes}
use ethgas_reth.Simulator.Types.{SubmittedTransaction, Result, ok, err, inclusion_list}

-- `InclusionListTxWithMetadata`; the whole list is `InclusionListWithMetadata`.
pub record ListedTransaction : Type 0 where
  pub hash : B256
  pub bytes : Bytes

-- revm on the state after the block: the decoding of a transaction with its sender, the EVM for the
-- block, and a run, which tells whether it gave an outcome and leaves the EVM behind.
pub record PostBlock : Type 1 where
  pub Evm : Type 0
  pub Transaction : Type 0
  pub recover_raw_transaction : Bytes → Option Transaction
  pub transact : Transaction → Evm → Bool × Evm

-- `txs.iter().find(|t| t.hash == hash)`
unfoldable pub is_listed : List ListedTransaction → B256 → Bool
is_listed [] hash = false
is_listed (t ∷ txs) hash = if t.hash == hash then true else is_listed txs hash

-- The hashes of the list that the block's transactions have.
unfoldable pub included_hashes :
    List ListedTransaction → List SubmittedTransaction → (included : List B256) → List B256
unfolding is_listed add_to
included_hashes txs [] included = included
included_hashes txs (tx ∷ block) included =
    included_hashes txs block
      (if is_listed txs tx.tx_hash then add_to tx.tx_hash included else included)

module _ (post : PostBlock) where
  open post use {Evm, recover_raw_transaction, transact}

  -- The loop over the list: a transaction that is left out and succeeds is an error.
  unfoldable pub check_missing : List B256 → List ListedTransaction → Evm → Result (Unit {0})
  check_missing included [] evm = ok tt
  check_missing included (t ∷ txs) evm =
      if contains included t.hash
      then check_missing included txs evm
      else elim (recover_raw_transaction t.bytes) as (λ _. Result (Unit {0})) [
        | none ↦ err inclusion_list
        | some tx ↦
            let (success, evm') = transact tx evm in
            if success then err inclusion_list else check_missing included txs evm'
      ]

  -- `evm` is what `evm_for_block` gives on the state after the block.
  unfoldable pub validate_inclusion_list_constraint :
      List SubmittedTransaction → Option Evm → Option (List ListedTransaction) → Result (Unit {0})
  unfolding included_hashes check_missing
  validate_inclusion_list_constraint block evm none = ok tt
  validate_inclusion_list_constraint block evm (some txs) =
      let included = included_hashes txs block [] in
      if is_empty txs
      then ok tt
      else if length included == length txs
      then ok tt
      else elim evm as (λ _. Result (Unit {0})) [
        | none ↦ err inclusion_list
        | some evm ↦ check_missing included txs evm
      ]
