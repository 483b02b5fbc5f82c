-- ===== src/Pending/Delta.antt =====
-- What crates/execution/flashblocks/src/pending_blocks.rs streams for the latest flashblock: each
-- transaction and each log once.
use ethgas_reth.Base.{
  ℕ, ◌+◌, ◌≡◌, refl, sym, ap, arith, List, [], ◌∷◌, ◌++◌, drop, length, keep, inl, inr, Map, lookup,
  Option-cases, filter_map,
}
use mathlib.Core.List.{append_assoc, map-append}
use ethgas_reth.Types.{Transaction, TransactionReceipt, Filter}
use ethgas_reth.Payload.{FlashBlock}
use ethgas_reth.Pending.{
  PendingBlocks, tx_hash, transaction_with_logs, count_but_last, previous_flashblocks_tx_count,
  collect_logs, matching, any_matches, get_pending_logs, get_pending_transaction_hashes,
}
use ethgas_reth.Pending.Stream.{
  entry, filtered_entry, get_latest_flashblock_transactions_with_logs,
  get_latest_flashblock_transactions_with_logs_filtered, latest_transactions,
  get_latest_flashblock_logs, get_latest_flashblock_transaction_hashes,
}

-- The number of transactions in all flashblocks.
unfoldable pub total : List FlashBlock → ℕ
total [] = 0
total (fb ∷ fbs) = length fb.diff.transactions + total fbs

count_but_last-snoc :
    (fbs : List FlashBlock) (fb : FlashBlock) → count_but_last (fbs ++ fb ∷ []) ≡ total fbs
unfolding count_but_last total
count_but_last-snoc [] fb = refl
count_but_last-snoc (g ∷ []) fb = refl
count_but_last-snoc (g ∷ h ∷ fbs) fb =
    ap (λ n. length g.diff.transactions + n) (count_but_last-snoc (h ∷ fbs) fb)

drop-length-append : {A : Type 0} (xs ys : List A) → drop (length xs) (xs ++ ys) ≡ ys
drop-length-append [] ys = refl
drop-length-append (x ∷ xs) ys = drop-length-append xs ys

collect_logs-append :
    (filter : Filter) (receipts : Map TransactionReceipt) (xs ys : List Transaction)
    → collect_logs filter receipts (xs ++ ys)
      ≡ collect_logs filter receipts xs ++ collect_logs filter receipts ys
unfolding collect_logs
collect_logs-append filter receipts [] ys = refl
collect_logs-append filter receipts (x ∷ xs) ys =
    elim (Option-cases (lookup (tx_hash x) receipts)) [
      | inl e ↦ rw (e, collect_logs) (collect_logs-append filter receipts xs ys)
      | inr (r, e) ↦
          rw (e, collect_logs, collect_logs-append filter receipts xs ys)
            (sym (
              append_assoc (matching filter r.logs) (collect_logs filter receipts xs)
                (collect_logs filter receipts ys)))
    ]

module _ {S B : Type 0} (p q : PendingBlocks S B) (fb : FlashBlock) (new : List Transaction)
    (flashblocks : q.flashblocks ≡ p.flashblocks ++ fb ∷ [])
    (transactions : q.transactions ≡ p.transactions ++ new)
    (counted : length p.transactions ≡ total p.flashblocks) where
  -- When one more flashblock has added transactions to a snapshot that lists as many as its
  -- flashblocks carry, the latest transactions are the added ones.
  latest_transactions-new : latest_transactions q ≡ new
  unfolding latest_transactions previous_flashblocks_tx_count
  latest_transactions-new =
      rw (flashblocks, transactions, count_but_last-snoc, ← counted)
        (drop-length-append p.transactions new)

  -- When a snapshot lists as many transactions as its flashblocks carry, and the next one has one
  -- more flashblock and more transactions, the streamed hashes continue the hashes of the
  -- snapshot before, with none left out and none repeated, and the streamed logs continue its
  -- logs, read with the receipts of now.
  pub stream-continues :
      (filter : Filter)
      → (get_pending_transaction_hashes q
          ≡ get_pending_transaction_hashes p ++ get_latest_flashblock_transaction_hashes q)
        × (get_pending_logs q filter
            ≡ collect_logs filter q.transaction_receipts p.transactions
              ++ get_latest_flashblock_logs q filter)
  unfolding get_pending_transaction_hashes get_latest_flashblock_transaction_hashes get_pending_logs
      get_latest_flashblock_logs
  stream-continues filter = (
    rw (latest_transactions-new, transactions) (map-append tx_hash p.transactions new),
    rw (latest_transactions-new, transactions)
        (collect_logs-append filter q.transaction_receipts p.transactions new),
  )

keep-filter_map :
    (filter : Filter) (receipts : Map TransactionReceipt) (txs : List Transaction)
    → filter_map (filtered_entry filter receipts) txs
      ≡ keep (λ t. any_matches filter t.logs) (filter_map (entry receipts) txs)
unfolding filter_map transaction_with_logs
keep-filter_map filter receipts [] = refl
keep-filter_map filter receipts (tx ∷ txs) = ground (arith, keep-filter_map filter receipts txs)

-- The filtered stream is the unfiltered one without the transactions that have no matching log;
-- what is left keeps its order and all its logs.
filtered-eq-keep :
    {S B : Type 0} (p : PendingBlocks S B) (filter : Filter)
    → get_latest_flashblock_transactions_with_logs_filtered p filter
      ≡ keep (λ t. any_matches filter t.logs) (get_latest_flashblock_transactions_with_logs p)
unfolding get_latest_flashblock_transactions_with_logs_filtered
    get_latest_flashblock_transactions_with_logs
filtered-eq-keep p filter = keep-filter_map filter p.transaction_receipts (latest_transactions p)
