-- ===== src/Processor/Tests.antt =====
-- Runs of crates/execution/flashblocks/src/processor.rs in a sample world.
use ethgas_reth.Base.{
  ℕ, ◌≡◌, ◌⊎◌, refl, sym, arith, Bool, List, [], ◌∷◌, Option, some, none, if◌then◌else◌, map, ◌-◌,
  suc,
}
use ethgas_reth.Fallible.{done}
use ethgas_reth.Types.{Address, TransactionSigned}
use ethgas_reth.Error.{Result, ok, err}
use ethgas_reth.Pending.{latest_block_number, get_pending_transaction_hashes}
use ethgas_reth.Pending.Builder.{new_builder}
use ethgas_reth.Processor.Build.{group_from}
use ethgas_reth.Processor.Transactions.{Loop, Scope, process_transactions}
use ethgas_reth.Processor.State.{Arc, Snapshot, Processor, Reads, effective_canonical_number}
use ethgas_reth.Processor.Flashblock.{apply_flashblock}
use ethgas_reth.Processor.Canonical.{process_canonical_block}
use ethgas_reth.Processor.Queue.{StateUpdate, flashblock, run, step, new}
use ethgas_reth.Processor.Origin.{IsPublishedBy}
use ethgas_reth.Processor.Published.{step-published}
use ethgas_reth.Processor.Broadcast.{IsBroadcast, run-new-IsBroadcast}
use ethgas_reth.Processor.Runs.{Runs, process_transactions-Runs}
use ethgas_reth.Processor.Reconciling.{Reconciled, process_canonical_block-Reconciled}
use ethgas_reth.Samples.{
  spec, evm, view, reads_at_10, first_of_11, second_of_11, pending_11, block_of, base_of, signed,
  receipt_up_to,
}

-- Two flashblocks of block 11, the second one twice.
abbrev updates : List (StateUpdate × (ℕ → Reads evm))
updates =
    (flashblock first_of_11, reads_at_10)
    ∷ (flashblock second_of_11, reads_at_10)
    ∷ (flashblock second_of_11, reads_at_10)
    ∷ []

abbrev after : Processor evm
after = run spec evm 5 updates (new evm (some 10))

abbrev shown : Option (Arc (Snapshot evm)) → List ℕ
shown none = []
shown (some a) = get_pending_transaction_hashes a.value

abbrev after_shows : List ℕ
after_shows = shown after.published

abbrev after_sent : List ℕ
after_sent = map (λ (a : Arc (Snapshot evm)). a.address) after.sent

run-new-IsBroadcast_example : IsBroadcast after
run-new-IsBroadcast_example = run-new-IsBroadcast spec evm 5 (some 10) updates

abbrev shared : Arc (Snapshot evm)
shared = record { address = 0; value = pending_11 }

abbrev or_shared : Option (Arc (Snapshot evm)) → Arc (Snapshot evm)
or_shared none = shared
or_shared (some a) = a

abbrev fresh : Processor evm
fresh = new evm (some 10)

abbrev stepped : Processor evm
stepped = step spec evm 5 reads_at_10 (flashblock first_of_11) fresh

abbrev last_stepped : Arc (Snapshot evm)
last_stepped = or_shared stepped.published

stepped_published : stepped.published ≡ some last_stepped
unfolding step new ethgas_reth.Processor.State.load_pending_or_drop_stale apply_flashblock
    ethgas_reth.Processor.State.is_superseded ethgas_reth.Processor.Flashblock.finish
    ethgas_reth.Processor.Flashblock.process_flashblock
    ethgas_reth.Processor.Build.build_pending_state ethgas_reth.Processor.Build.open_state
    ethgas_reth.Processor.Build.build_blocks ethgas_reth.Processor.Build.build_block
    ethgas_reth.Assembler.assemble ethgas_reth.Assembler.requests_hash
    ethgas_reth.Processor.Transactions.recover_senders ethgas_reth.Pending.Builder.build
    ethgas_reth.Pending.Builder.with_anchor ethgas_reth.Pending.Builder.with_bundle_state
    ethgas_reth.Processor.Build.with_account_balances ethgas_reth.Assembler.all_receipts
    ethgas_reth.Assembler.payload ethgas_reth.Base.extend ethgas_reth.Base.insert
    ethgas_reth.Base.lookup ethgas_reth.Base.retain ethgas_reth.Pending.Builder.with_account_balance
    ethgas_reth.Pending.Builder.with_flashblocks ethgas_reth.Pending.Builder.with_header
    ethgas_reth.Pending.Builder.with_receipt ethgas_reth.Pending.Builder.with_transaction
    ethgas_reth.Pending.Builder.with_transaction_sender
    ethgas_reth.Pending.Builder.with_transaction_state ethgas_reth.Processor.Build.all_balances
    ethgas_reth.Processor.Flashblock.publish ethgas_reth.Processor.State.publishable
    process_transactions mathlib.Core.List.zip mathlib.Core.List.zip_with new_builder group_from
stepped_published = refl

step-published_example :
    IsPublishedBy spec evm 5 reads_at_10 (flashblock first_of_11) fresh last_stepped
step-published_example =
    step-published spec evm 5 reads_at_10 (flashblock first_of_11) fresh last_stepped
      stepped_published

process_canonical_block-Reconciled_example :
    Reconciled spec evm 5 view 1 shared
      (block_of 10 (30 ∷ []))
      (effective_canonical_number (done 10) 10)
      (process_canonical_block spec evm 5 view 1 (done 10) (some shared) (block_of 10 (30 ∷ []))).1
process_canonical_block-Reconciled_example =
    process_canonical_block-Reconciled spec evm 5 view 1 (done 10) shared (block_of 10 (30 ∷ []))

abbrev scope : Scope evm
scope = record {
  env = 0;
  base = base_of 11;
  block = block_of 11 (31 ∷ 32 ∷ []);
  receipt_by_hash = (31, receipt_up_to 21000) ∷ (32, receipt_up_to 42000) ∷ [];
  prev = some pending_11;
}

abbrev start : Loop evm
start = record { db = 0; builder = new_builder 0; gas_used = 0; next_log_index = 0 }

abbrev both : List (TransactionSigned × Address)
both = (signed 31, 131) ∷ (signed 32, 132) ∷ []

abbrev or_start : Result (Loop evm) → Loop evm
or_start (ok l) = l
or_start (err e) = start

abbrev ended : Loop evm
ended = or_start (process_transactions evm scope start 0 both)

both_succeed : process_transactions evm scope start 0 both ≡ ok ended
unfolding process_transactions ethgas_reth.Base.lookup ethgas_reth.Pending.get_transaction_state
both_succeed = refl

process_transactions-Runs_example : Runs scope start both ended
process_transactions-Runs_example = process_transactions-Runs scope both 0 start ended both_succeed
