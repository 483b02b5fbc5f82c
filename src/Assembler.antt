-- ===== src/Assembler.antt =====
-- crates/execution/flashblocks/src/block_assembler.rs: an Ethereum block from the flashblocks of
-- one block number.
pub mod Contents
mod Tests
use ethgas_reth.Base.{
  ℕ, ◌==◌, ◌&&◌, if◌then◌else◌, Bool, List, [], ◌∷◌, ◌++◌, Option, none, some, Map, lookup, extend,
  first, last, is_some, not,
}
use ethgas_reth.Types.{B256, Header, SealedHeader, Block, TransactionSigned}
use ethgas_reth.Payload.{FlashBlock, ExecutionPayloadBaseV1, Receipt}
use ethgas_reth.Error.{
  Result, ok, err, ok_or, map_err, ◌>>=◌, ◌>>◌, protocol, execution, missing_base,
  empty_flashblocks, genesis_flashblock, missing_slot_number, missing_receipt, block_conversion,
  StateProcessorError,
}
use ethgas_reth.World.{Spec, ExecutionPayload}

pub record AssembledBlock : Type 0 where
  pub block : Block
  pub header : SealedHeader

-- `if test { return Err(e) }`
abbrev pub fail_if : Bool → StateProcessorError → Result (Unit {0})
fail_if test e = if test then err e else ok tt

unfoldable pub all_transactions : List FlashBlock → List ℕ
all_transactions [] = []
all_transactions (fb ∷ fbs) = fb.diff.transactions ++ all_transactions fbs

-- The receipts of every flashblock; a later one wins.
unfoldable pub all_receipts : Map Receipt → List FlashBlock → Map Receipt
all_receipts acc [] = acc
all_receipts acc (fb ∷ fbs) = all_receipts (extend acc fb.metadata.receipts) fbs

unfoldable pub payload : ExecutionPayloadBaseV1 → List FlashBlock → FlashBlock → ExecutionPayload
unfolding all_transactions
payload base flashblocks latest = record {
  blob_gas_used = latest.diff.blob_gas_used;
  excess_blob_gas = latest.diff.excess_blob_gas;
  withdrawals = latest.diff.withdrawals;
  parent_hash = base.parent_hash;
  fee_recipient = base.fee_recipient;
  state_root = latest.diff.state_root;
  receipts_root = latest.diff.receipts_root;
  logs_bloom = latest.diff.logs_bloom;
  prev_randao = base.prev_randao;
  block_number = base.block_number;
  gas_limit = base.gas_limit;
  gas_used = latest.diff.gas_used;
  timestamp = base.timestamp;
  extra_data = base.extra_data;
  base_fee_per_gas = base.base_fee_per_gas;
  block_hash = latest.diff.block_hash;
  transactions = all_transactions flashblocks;
}

-- The receipts in block order.
unfoldable pub ordered_receipts : Map Receipt → List TransactionSigned → Result (List Receipt)
ordered_receipts receipts [] = ok []
ordered_receipts receipts (tx ∷ txs) = do
  receipt ← ok_or (lookup tx.tx_hash receipts) (execution (missing_receipt tx.tx_hash))
  rest ← ordered_receipts receipts txs
  ok (receipt ∷ rest)

-- The requests list of the latest flashblock.
abbrev pub producer_requests : List FlashBlock → Option ℕ
producer_requests flashblocks = elim (last flashblocks) [ none ↦ none | some fb ↦ fb.diff.requests ]

module _ (spec : Spec) where
  open spec use {
    is_amsterdam_active_at_timestamp, is_prague_active_at_timestamp, try_into_block,
    parse_deposits_from_receipts, push_request_with_type, default_requests, deposit_request_type,
  }

  -- The hash from the deposits alone, which the receipts carry as logs.
  unfoldable pub derived_requests_hash : Block → List FlashBlock → Result (Option B256)
  unfolding ordered_receipts all_receipts
  derived_requests_hash block flashblocks = do
    ordered ← ordered_receipts (all_receipts [] flashblocks) block.transactions
    deposits ← map_err (parse_deposits_from_receipts ordered) (λ e. execution (block_conversion e))
    ok (
        some (
          spec.requests_hash
            (push_request_with_type deposit_request_type deposits default_requests)))

  unfoldable pub requests_hash : Block → List FlashBlock → Result (Option B256)
  requests_hash block flashblocks =
      if not (is_prague_active_at_timestamp block.header.timestamp)
      then ok none
      else elim (producer_requests flashblocks) [
        | some requests ↦ ok (some (spec.requests_hash requests))
        | none ↦ derived_requests_hash block flashblocks
      ]

  -- The payload's block under the base's beacon root.
  abbrev pub rooted : ExecutionPayloadBaseV1 → Block → Block
  rooted base converted = record converted {
    header = record converted.header {
      parent_beacon_block_root = some base.parent_beacon_block_root;
    };
  }

  -- The requests hash and the slot number go into the header, which is sealed with a zero hash.
  abbrev pub seal : ExecutionPayloadBaseV1 → Option B256 → Block → AssembledBlock
  seal base hash block =
      let header = record block.header {
        requests_hash = hash;
        slot_number =
            if is_amsterdam_active_at_timestamp base.timestamp
            then base.slot_number
            else block.header.slot_number;
      } in
      record {
        block = record { header = header; transactions = block.transactions };
        header = record { header = header; hash = 0 };
      }

  -- The warning for withdrawals that are not cumulative is left out: it changes nothing.
  unfoldable pub assemble : List FlashBlock → Result AssembledBlock
  unfolding payload
  assemble flashblocks = do
    head ← ok_or (first flashblocks) (protocol empty_flashblocks)
    base ← ok_or head.base (protocol missing_base)
    fail_if (base.block_number == 0) (protocol genesis_flashblock)
    fail_if (is_amsterdam_active_at_timestamp base.timestamp && not (is_some base.slot_number))
        (protocol (missing_slot_number base.block_number))
    latest ← ok_or (last flashblocks) (protocol empty_flashblocks)
    converted ←
        map_err (try_into_block (payload base flashblocks latest))
          (λ e. execution (block_conversion e))
    hash ← requests_hash (rooted base converted) flashblocks
    ok (seal base hash (rooted base converted))
