-- ===== src/Samples.antt =====
-- Sample values for the tests: a chain at block 10, flashblocks above it, and a world in which
-- every payload converts and every transaction succeeds.
use ethgas_reth.Base.{
  ℕ, suc, ◌+◌, true, false, List, [], ◌∷◌, map, none, some, Map, if◌then◌else◌, ltb,
}
use ethgas_reth.Fallible.{Fallible, done}
use ethgas_reth.Types.{BlockNumber, Header, SealedHeader, TransactionSigned, Block, Transaction}
use ethgas_reth.Payload.{
  Receipt, ExecutionPayloadBaseV1, ExecutionPayloadFlashblockDeltaV1, FlashBlock,
}
use ethgas_reth.World.{Spec, Evm, View, ExecutionPayload}
use ethgas_reth.Pending.{PendingBlocks}
use ethgas_reth.Processor.State.{Reads}

abbrev pub header_at : BlockNumber → Header
header_at n = record {
  number = n;
  timestamp = 12 + n;
  base_fee_per_gas = some 7;
  excess_blob_gas = none;
  parent_beacon_block_root = none;
  withdrawals_root = none;
  requests_hash = none;
  slot_number = none;
}

abbrev pub sealed_at : BlockNumber → SealedHeader
sealed_at n = record { header = header_at n; hash = 1000 + n }

-- A signed transaction is its hash here.
abbrev pub signed : ℕ → TransactionSigned
signed hash = record {
  tx_hash = hash;
  recover_signer = done (100 + hash);
  effective_tip_per_gas = λ base_fee. some 2;
  max_fee_per_gas = 9;
}

abbrev pub transaction : BlockNumber → ℕ → Transaction
transaction n hash = record {
  inner = signed hash;
  sender = 100 + hash;
  block_hash = none;
  block_number = some n;
  transaction_index = some 0;
  effective_gas_price = none;
  block_timestamp = none;
}

abbrev pub block_of : BlockNumber → List ℕ → Block
block_of n hashes = record { header = header_at n; transactions = map signed hashes }

abbrev pub base_of : BlockNumber → ExecutionPayloadBaseV1
base_of n = record {
  parent_beacon_block_root = 5;
  parent_hash = 6;
  fee_recipient = 8;
  prev_randao = 4;
  block_number = n;
  gas_limit = 30000000;
  timestamp = 12 + n;
  extra_data = 0;
  base_fee_per_gas = 7;
  slot_number = none;
}

abbrev pub delta_of : List ℕ → ExecutionPayloadFlashblockDeltaV1
delta_of hashes = record {
  state_root = 1;
  receipts_root = 2;
  logs_bloom = 0;
  gas_used = 21000;
  block_hash = 3;
  transactions = hashes;
  withdrawals = [];
  blob_gas_used = 0;
  excess_blob_gas = 0;
  requests = none;
}

abbrev pub receipt_up_to : ℕ → Receipt
receipt_up_to gas = record { success = true; cumulative_gas_used = gas; logs = 77 ∷ [] }

-- The flashblock of block `n` at `index`, with transactions and their receipts.
abbrev pub flashblock_of : BlockNumber → ℕ → List ℕ → Map Receipt → FlashBlock
flashblock_of n index hashes receipts = record {
  payload_id = n;
  index = index;
  base = if ltb 0 index then none else some (base_of n);
  diff = delta_of hashes;
  metadata = record {
    block_number = n;
    new_account_balances = [];
    receipts = receipts;
    inclusion_fee = some (record { priority_fee = 3 });
  };
}

abbrev pub first_of_11 : FlashBlock
first_of_11 = flashblock_of 11 0 (31 ∷ []) ((31, receipt_up_to 21000) ∷ [])

abbrev pub second_of_11 : FlashBlock
second_of_11 = flashblock_of 11 1 (32 ∷ []) ((32, receipt_up_to 42000) ∷ [])

abbrev pub first_of_12 : FlashBlock
first_of_12 = flashblock_of 12 0 [] []

-- A snapshot of block 11 after the first flashblock.
abbrev pub pending_11 : PendingBlocks ℕ ℕ
pending_11 = record {
  earliest_header = sealed_at 11;
  latest_header = sealed_at 11;
  headers = sealed_at 11 ∷ [];
  latest_flashblock_index = 0;
  flashblocks = first_of_11 ∷ [];
  transactions = transaction 11 31 ∷ [];
  account_balances = [];
  transaction_receipts = [];
  transactions_by_hash = (31, transaction 11 31) ∷ [];
  transaction_state = (31, 31) ∷ [];
  transaction_senders = (31, 131) ∷ [];
  bundle_state = 0;
  anchor = some (sealed_at 10);
}

abbrev pub convert : ExecutionPayload → Fallible Block
convert payload = done (block_of payload.block_number payload.transactions)

abbrev pub spec : Spec
spec = record {
  is_amsterdam_active_at_timestamp = λ t. false;
  is_prague_active_at_timestamp = λ t. false;
  try_into_block = convert;
  requests_hash = suc;
  default_requests = 0;
  push_request_with_type = λ type request requests. requests + request;
  deposit_request_type = 0;
  parse_deposits_from_receipts = λ receipts. done 0;
}

-- The database counts the commits.
abbrev pub evm : Evm
evm = record {
  Db = ℕ;
  EvmEnv = ℕ;
  EvmState = ℕ;
  BundleState = ℕ;
  default_bundle = 0;
  insert_block_hash = λ n hash db. db;
  next_evm_env = λ parent attributes. done attributes.timestamp;
  apply_blockhashes_contract_call = λ env hash db. done db;
  apply_beacon_root_contract_call = λ env root db. done db;
  transact = λ env tx sender db. done (true, tx.tx_hash, db);
  commit = λ state db. suc db;
  take_bundle = λ db. db;
  blob_params_at_timestamp = λ t. 0;
  build_receipt = λ input params logs. record {
    logs = logs;
    gas_used = input.gas_used;
    status = 1;
    cumulative_gas_used = input.receipt.cumulative_gas_used;
    contract_address = none;
    logs_bloom = 0;
  };
}

abbrev pub view : View evm
view = record {
  header_by_number = λ n. done (some (header_at n));
  hash_slow = λ header. 1000 + header.number;
  state_db = λ n. done (λ bundle. 0);
}

-- What a handler reads while block 10 is the tip.
abbrev pub reads_at_10 : ℕ → Reads evm
reads_at_10 k = record {
  load_tip = done 10;
  superseded_tip = done 10;
  last_canonical_block = 10;
  reconcile_tip = done 10;
  publish_tip = done 10;
  view = view;
}
