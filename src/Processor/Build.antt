-- ===== src/Processor/Build.antt =====
-- `build_pending_state` of crates/execution/flashblocks/src/processor.rs.
use mathlib.Core.List.{zip}
use ethgas_reth.Base.{
  ◌-◌, ◌==◌, ltb, if◌then◌else◌, List, [], ◌∷◌, ◌++◌, Option, none, some, Map, extend, first,
}
use ethgas_reth.Types.{B256, Address, U256, BlockNumber, Header, SealedHeader}
use ethgas_reth.Payload.{FlashBlock, ExecutionPayloadBaseV1}
use ethgas_reth.Error.{
  Result, ok, err, ok_or, map_err, ◌>>=◌, protocol, provider, execution, empty_flashblocks,
  missing_base, genesis_flashblock, missing_canonical_header, state_provider, evm_env,
}
use ethgas_reth.World.{Spec, Evm, View, NextBlockEnvAttributes}
use ethgas_reth.Assembler.{assemble, all_receipts}
use ethgas_reth.Pending.{PendingBlocks, get_transaction_sender}
use ethgas_reth.Pending.Builder.{
  PendingBlocksBuilder, new_builder, with_flashblocks, with_header, with_account_balance,
  with_bundle_state, with_anchor, build,
}
use ethgas_reth.Processor.Transactions.{Loop, Scope, recover_senders, process_transactions}

-- `BTreeMap<BlockNumber, Vec<FlashBlock>>`, in order of the keys: `entry(n).or_default().push(fb)`.
unfoldable pub push_group : BlockNumber → FlashBlock → Map (List FlashBlock) → Map (List FlashBlock)
push_group n fb [] = (n, fb ∷ []) ∷ []
push_group n fb ((k, fbs) ∷ groups) =
    if n == k
    then (k, fbs ++ fb ∷ []) ∷ groups
    else if ltb n k
    then (n, fb ∷ []) ∷ (k, fbs) ∷ groups
    else (k, fbs) ∷ push_group n fb groups

unfoldable pub group_from : Map (List FlashBlock) → List FlashBlock → Map (List FlashBlock)
unfolding push_group
group_from groups [] = groups
group_from groups (fb ∷ fbs) = group_from (push_group fb.metadata.block_number fb groups) fbs

-- The balances of every flashblock; a later one wins.
unfoldable pub all_balances : Map U256 → List FlashBlock → Map U256
all_balances acc [] = acc
all_balances acc (fb ∷ fbs) = all_balances (extend acc fb.metadata.new_account_balances) fbs

unfoldable pub with_account_balances :
    {S B : Type 0} → PendingBlocksBuilder S B → Map U256 → PendingBlocksBuilder S B
with_account_balances b [] = b
with_account_balances b ((address, balance) ∷ rest) =
    with_account_balances (with_account_balance b address balance) rest

unfoldable pub env_attributes : ExecutionPayloadBaseV1 → SealedHeader → NextBlockEnvAttributes
env_attributes base header = record {
  timestamp = base.timestamp;
  suggested_fee_recipient = base.fee_recipient;
  prev_randao = base.prev_randao;
  gas_limit = base.gas_limit;
  parent_beacon_block_root = some base.parent_beacon_block_root;
  withdrawals = none;
  extra_data = base.extra_data;
  slot_number = header.header.slot_number;
}

module _ (spec : Spec) (evm : Evm) where
  open evm use {
    Db, EvmState, BundleState, default_bundle, insert_block_hash, next_evm_env,
    apply_blockhashes_contract_call, apply_beacon_root_contract_call, take_bundle,
  }

  -- The variables of the loop over blocks.
  pub record Progress : Type 0 where
    pub db : Db
    pub builder : PendingBlocksBuilder EvmState BundleState
    pub last_block_header : Header

  abbrev pub cached_sender : Option (PendingBlocks EvmState BundleState) → B256 → Option Address
  cached_sender none hash = none
  cached_sender (some p) hash = get_transaction_sender p hash

  -- One block. `base.block_number - 1` does not wrap: `assemble` refuses block zero.
  unfoldable pub build_block :
      Option (PendingBlocks EvmState BundleState) → Progress → List FlashBlock → Result Progress
  build_block prev p flashblocks = do
    head ← ok_or (first flashblocks) (protocol empty_flashblocks)
    base ← ok_or head.base (protocol missing_base)
    assembled ← assemble spec flashblocks
    let builder = with_header (with_flashblocks p.builder flashblocks) assembled.header
    let db = insert_block_hash (base.block_number - 1) base.parent_hash p.db
    env ←
        map_err (next_evm_env p.last_block_header (env_attributes base assembled.header))
          (λ e. execution (evm_env e))
    db' ←
        map_err (apply_blockhashes_contract_call env base.parent_hash db)
          (λ e. execution (evm_env e))
    db'' ←
        map_err (apply_beacon_root_contract_call env (some base.parent_beacon_block_root) db')
          (λ e. execution (evm_env e))
    senders ← recover_senders (cached_sender prev) assembled.block.transactions
    let scope : Scope evm = record {
      env = env;
      base = base;
      block = assembled.block;
      receipt_by_hash = all_receipts [] flashblocks;
      prev = prev;
    }
    let start : Loop evm = record { db = db''; builder = builder; gas_used = 0; next_log_index = 0 }
    l ← process_transactions evm scope start 0 (zip assembled.block.transactions senders)
    ok (record {
      db = l.db;
      builder = with_account_balances l.builder (all_balances [] flashblocks);
      last_block_header = assembled.block.header;
    })

  unfoldable pub build_blocks :
      Option (PendingBlocks EvmState BundleState)
      → Progress
      → Map (List FlashBlock)
      → Result Progress
  build_blocks prev p [] = ok p
  build_blocks prev p ((n, flashblocks) ∷ groups) = do
    p' ← build_block prev p flashblocks
    build_blocks prev p' groups

  -- The state before the first block, on the canonical block below it.
  unfoldable pub open_state :
      View evm
      → Option (PendingBlocks EvmState BundleState)
      → BlockNumber
      → Result (Progress × SealedHeader)
  open_state view prev earliest = do
    canonical ← (if earliest == 0 then err (protocol genesis_flashblock) else ok (earliest - 1))
    found ← map_err (view.header_by_number canonical) (λ e. provider (state_provider e))
    header ← ok_or found (provider (missing_canonical_header canonical))
    state_db ← map_err (view.state_db canonical) (λ e. provider (state_provider e))
    let bundle : Option BundleState = elim prev [
      | none ↦ none
      | some pending ↦ some pending.bundle_state
    ]
    ok (
      record {
        db = state_db bundle;
        builder = new_builder default_bundle;
        last_block_header = header;
      },
      record { header = header; hash = view.hash_slow header },
    )

  -- `none` is an empty list of flashblocks, from which nothing is built.
  unfoldable pub build_pending_state :
      View evm
      → Option (PendingBlocks EvmState BundleState)
      → List FlashBlock
      → Result (Option (PendingBlocks EvmState BundleState))
  unfolding group_from
  build_pending_state view prev flashblocks =
      let groups = group_from [] flashblocks in
      elim (first groups) as (λ _. Result (Option (PendingBlocks EvmState BundleState))) [
        | none ↦ ok none
        | some (earliest, _) ↦ do
          (start, anchor) ← open_state view prev earliest
          p ← build_blocks prev start groups
          pending ← build (with_anchor (with_bundle_state p.builder (take_bundle p.db)) anchor)
          ok (some pending)
      ]
