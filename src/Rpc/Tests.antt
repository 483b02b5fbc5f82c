-- ===== src/Rpc/Tests.antt =====
-- Tests of the model of crates/execution/flashblocks/src/rpc, and witnesses of its theorems, on the
-- snapshot of block 11.
use ethgas_reth.Base.{
  ℕ, ◌+◌, ◌==◌, if◌then◌else◌, true, false, List, [], ◌∷◌, ◌++◌, none, some, ◌≡◌, ◌↔◌, ◌⊎◌, refl,
  lookup, contains, is_some,
}
use ethgas_reth.Fallible.{done}
use ethgas_reth.Types.{
  B256, BlockNumber, Transaction, TransactionReceipt, Log, at_pending, at_number, tagged,
}
use ethgas_reth.Pending
use ethgas_reth.Pending.{PendingBlocks, get_receipt}
use ethgas_reth.Pending.Api.{get_transaction_receipt}
use ethgas_reth.Samples.{sealed_at, pending_11, transaction}
use ethgas_reth.Runner.Overlay.{PendingOverlay}
use ethgas_reth.Rpc.Eth.{
  EthApi, LogFilter, range, get_logs, historical_logs, balance_at, builder_balance, is_current,
  is_anchored, estimate_gas, estimate_id, rpc_get_balance, rpc_estimate_gas,
  rpc_send_raw_transaction_sync_flashblock, rpc_send_raw_transaction_sync_canonical,
}
use ethgas_reth.Processor.State.{Arc}
use ethgas_reth.Runner.Provider.{BundleState}
use ethgas_reth.Runner.Pending.{served_overlay}
use ethgas_reth.Runner.Samples.{trie, bundle, node}
use ethgas_reth.Fee.{ReceivedInclusionFee, builder_inclusion_fee, age}
use ethgas_reth.Rpc.Fees.{FeeApi, Held, gas_price, builder_fee, is_sealed}
use ethgas_reth.Rpc.Fees.Prices.{IsCurrent, IsPriced, IsNodes, fees-IsPriced}
use ethgas_reth.Rpc.Views.{IsOneBlock, pending-IsOneBlock, builder_balance_iff_served}
use ethgas_reth.Rpc.Logs.{IsMerged, get_logs-IsMerged}
use ethgas_reth.Rpc.Sync.{
  Event, flashblock, flashblocks_lagged, canonical_block, canonical_receipt, canonical_lagged,
  elapsed, sync_timeout, send_raw_transaction_sync, wait, on_event,
}
use ethgas_reth.Rpc.Sync.Confirmed.{
  FromSnapshot, FromFlashblock, FromNode, IsSeen, send_raw_transaction_sync-IsConfirmed,
}
use ethgas_reth.Rpc.Sync.Heard.{send_raw_transaction_sync-heard, send_raw_transaction_sync-replies}

abbrev log_of : BlockNumber → ℕ → Log
log_of n index = record {
  inner = 70 + index;
  block_hash = none;
  block_number = some n;
  block_timestamp = none;
  transaction_hash = some 31;
  transaction_index = some 0;
  log_index = some index;
  removed = false;
}

abbrev receipt : TransactionReceipt
receipt = record {
  logs = log_of 11 0 ∷ log_of 11 1 ∷ [];
  gas_used = 21000;
  status = 1;
  cumulative_gas_used = 21000;
  contract_address = none;
  logs_bloom = 0;
}

abbrev snapshot : PendingBlocks ℕ ℕ
snapshot = record pending_11 {
  transaction_receipts = (31, receipt) ∷ [];
  account_balances = (131, 900) ∷ [];
}

-- The node at block 10, which has a log of block 10 and, by the time it is asked, one of block 11.
abbrev eth : EthApi
eth = record {
  pending_block_number = done (some 10);
  block_number = λ hash. done (if hash == 1010 then some 10 else none);
  rpc_block = λ id is_full. done none;
  transaction_receipt = λ hash. done none;
  balance = λ address id. done 5;
  transaction_count = λ address id. done 1;
  transaction_by_hash = λ hash. done none;
  send_raw_transaction_sync_timeout = 30000;
  send_raw_transaction = λ tx. done tx;
  call = λ request id overrides. done 0;
  estimate_gas_at = λ request id overrides. done (if request == 0 then 21000 else 50000);
  simulate_v1 = λ request id. done 0;
  logs = λ filter. done (log_of 10 0 ∷ log_of 11 0 ∷ []);
  block_transaction_count = λ id. done none;
  block_receipts = λ id. done none;
  transaction_by_block_and_tx_index = λ id index. done none;
}

-- The builder's balance for an account that it lists, and the node's for another.
balances :
    (balance_at eth (some snapshot) 131 (some (tagged at_pending))
      ≡ (rpc_get_balance ∷ [], done 900))
    × (balance_at eth (some snapshot) 7 (some (tagged at_pending)) ≡ (rpc_get_balance ∷ [], done 5))
    × (balance_at eth (some snapshot) 131 none ≡ ([], done 5))
unfolding balance_at builder_balance is_current is_anchored Pending.get_balance lookup
balances = (refl, refl, refl)

-- Without a block an estimate runs on the pending state, if there is a snapshot.
estimates :
    (estimate_gas eth (some snapshot) 0 none 0 ≡ (rpc_estimate_gas ∷ [], done 21000))
    × (estimate_gas {S = ℕ} {B = ℕ} eth none 0 none 0 ≡ ([], done 21000))
unfolding estimate_gas estimate_id
estimates = (refl, refl)

timeouts :
    (sync_timeout 30000 (some 5) ≡ 5)
    × (sync_timeout 30000 (some 0) ≡ 30000)
    × (sync_timeout 30000 (some 90000) ≡ 30000)
    × (sync_timeout 30000 none ≡ 30000)
unfolding sync_timeout
timeouts = (refl, refl, refl, refl)

pending-IsOneBlock_example : (txs : List Transaction) × IsOneBlock eth snapshot txs
pending-IsOneBlock_example = pending-IsOneBlock eth snapshot

abbrev filter : LogFilter
filter = record {
  block_option = range (some (at_number 9)) (some at_pending);
  matches = λ inner. true;
}

get_logs-IsMerged_example :
    (result : List Log) × ((get_logs eth (some snapshot) filter).1 ≡ done result)
    × IsMerged
        (log_of 10 0 ∷ log_of 11 0 ∷ [])
        (Pending.get_pending_logs snapshot filter.matches)
        result
unfolding historical_logs
get_logs-IsMerged_example =
    get_logs-IsMerged eth snapshot filter (some (at_number 9)) (log_of 10 0 ∷ log_of 11 0 ∷ []) refl
      refl

-- A gap, then a snapshot with the receipt.
abbrev events : List (Event ℕ ℕ)
events = flashblocks_lagged ∷ canonical_block (30 ∷ []) ∷ flashblock snapshot ∷ elapsed ∷ []

send_raw_transaction_sync-IsConfirmed_example :
    (tx_hash : B256) × (eth.send_raw_transaction 31 ≡ done tx_hash)
    × (FromSnapshot eth
          (some pending_11)
          31
          events
          (rpc_send_raw_transaction_sync_flashblock ∷ [])
          receipt
          tx_hash
        ⊎ FromFlashblock tx_hash receipt (rpc_send_raw_transaction_sync_flashblock ∷ []) events
        ⊎ (FromNode tx_hash receipt (rpc_send_raw_transaction_sync_flashblock ∷ []) events
            × IsSeen tx_hash receipt events))
unfolding send_raw_transaction_sync wait on_event get_receipt get_transaction_receipt contains
    lookup
send_raw_transaction_sync-IsConfirmed_example =
    send_raw_transaction_sync-IsConfirmed eth (some pending_11) 31 events
      (rpc_send_raw_transaction_sync_flashblock ∷ []) receipt refl

send_raw_transaction_sync-heard_example :
    (send_raw_transaction_sync eth
        (some pending_11)
        31
        ((flashblocks_lagged ∷ []) ++ (flashblock snapshot ∷ []))
      ≡ some (rpc_send_raw_transaction_sync_flashblock ∷ [], done receipt))
    × (send_raw_transaction_sync eth (some pending_11) 31 (
          (flashblocks_lagged ∷ [])
          ++ (canonical_block (31 ∷ []) ∷ (canonical_lagged ∷ [])
              ++ (canonical_receipt (done (some receipt)) ∷ [])))
        ≡ some (rpc_send_raw_transaction_sync_canonical ∷ [], done receipt))
unfolding get_receipt get_transaction_receipt contains lookup
send_raw_transaction_sync-heard_example =
    send_raw_transaction_sync-heard eth (some pending_11) 31 31 (flashblocks_lagged ∷ [])
      (canonical_lagged ∷ []) [] snapshot (31 ∷ []) receipt refl refl tt tt refl refl

send_raw_transaction_sync-replies_example :
    is_some (send_raw_transaction_sync eth (some pending_11) 31 events) ≡ true
send_raw_transaction_sync-replies_example =
    send_raw_transaction_sync-replies eth (some pending_11) 31 events tt

-- The snapshot with a bundle, and the node with its overlay.
abbrev bundled : Arc (PendingBlocks ℕ (BundleState trie))
bundled = record {
  address = 0;
  value = record {
    earliest_header = sealed_at 11;
    latest_header = sealed_at 11;
    headers = sealed_at 11 ∷ [];
    latest_flashblock_index = 0;
    flashblocks = [];
    transactions = transaction 11 31 ∷ [];
    account_balances = (131, 900) ∷ [];
    transaction_receipts = [];
    transactions_by_hash = [];
    transaction_state = [];
    transaction_senders = [];
    bundle_state = bundle;
    anchor = some (sealed_at 10);
  };
}

builder_balance_iff_served_example : (builder_balance eth (some bundled.value) 131 ≡ some 900) ↔ (
    ((overlay : PendingOverlay (BundleState trie)) × (served_overlay node ≡ done (some overlay)))
    × (Pending.get_balance bundled.value 131 ≡ some 900))
builder_balance_iff_served_example =
    builder_balance_iff_served node eth bundled 131 900 refl refl (λ hash. refl)

-- The builder's fee for block 11 while block 10 is the tip, with a base fee of seven.
abbrev fee_api : FeeApi
fee_api = record {
  best_block_number = done 10;
  suggested_priority_fee = done 2;
  base_fee = done (some 7);
  gas_price = done 9;
  count_at_pending = λ sender. done 4;
  fill_transaction = λ request. done (if is_some request.max_priority_fee_per_gas then 1 else 0);
}

abbrev fee_of_11 : ReceivedInclusionFee
fee_of_11 = record {
  inclusion_fee = record { priority_fee = 40 };
  block_number = 11;
  flashblock_index = 2;
  received_at = 3000000;
}

abbrev held_fee : Held
held_fee = record {
  latest_inclusion_fee = some fee_of_11;
  now = 5000000;
  max_age = 9000000;
  ceiling = 50;
}

fee_with_base : (gas_price fee_api held_fee).1 ≡ done 47
unfolding gas_price builder_fee is_sealed builder_inclusion_fee age
fee_with_base = refl

fees-IsPriced_example :
    (IsCurrent fee_api held_fee fee_of_11 × IsPriced fee_api held_fee 40)
    ⊎ ((IsCurrent fee_api held_fee fee_of_11 → ⊥) × IsNodes fee_api held_fee)
fees-IsPriced_example = fees-IsPriced fee_api held_fee fee_of_11 refl
