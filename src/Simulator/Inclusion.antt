-- ===== src/Simulator/Inclusion.antt =====
-- The inclusion list of crates/execution/simulator/src/inclusion/inclusion_producer.rs: the pending
-- transactions by score, and the list that is published on every canonical commit.
pub mod Bounds
pub mod Ranking
pub mod Ties
mod Tests
use ethgas_reth.Base.{
  ℕ, suc, ◌+◌, ◌-◌, ◌/◌, ◌==◌, ltb, leb, if◌then◌else◌, Bool, true, false, List, [], ◌∷◌, Option,
  none, some, Map, lookup, insert, remove,
}
use ethgas_reth.Types.{B256}
use ethgas_reth.Simulator.Multisend.{Bytes}

abbrev pub max_list_bytes : ℕ
max_list_bytes = 8192

-- What the code reads of a transaction of the pool; `timestamp` is in nanoseconds. `encoded` is
-- what `to_consensus().into_encoded().into_encoded_bytes()` gives.
pub record PoolTransaction : Type 0 where
  pub hash : B256
  pub blob_count : Option ℕ
  pub timestamp : ℕ
  pub gas_limit : ℕ
  pub priority_fee_or_price : ℕ
  pub encoded_length : ℕ
  pub encoded : Bytes

-- The floats of the language: `as f64`, the product, the quotient, and the place of a float in the
-- order of `total_cmp`.
pub record Floats : Type 1 where
  pub F64 : Type 0
  pub as_f64 : ℕ → F64
  pub mul : F64 → F64 → F64
  pub div : F64 → F64 → F64
  pub total_rank : F64 → ℕ

-- `FullTransactionEvent`
pub data PoolEvent : Type 0 where
  pending queued mined discarded invalid propagated replaced : B256 → PoolEvent

-- An `OrderedTx`, with the place of its score in the order.
pub record OrderedTx : Type 0 where
  pub score : ℕ
  pub tx_hash : B256

-- `BTreeSet::insert` under the reversed order: the highest score comes first. An entry that equals
-- one of the set is not added.
unfoldable pub insert_ordered : OrderedTx → List OrderedTx → List OrderedTx
insert_ordered o [] = o ∷ []
insert_ordered o (other ∷ others) =
    if o.score == other.score
    then other ∷ others
    else if ltb other.score o.score
    then o ∷ other ∷ others
    else other ∷ insert_ordered o others

-- `ordered_txs.extend(to_add)`
unfoldable pub extend_ordered : List OrderedTx → List OrderedTx → List OrderedTx
unfolding insert_ordered
extend_ordered ordered [] = ordered
extend_ordered ordered (o ∷ os) = extend_ordered (insert_ordered o ordered) os

-- The two collections and what was last sent on the channel.
pub record Producer : Type 0 where
  pub ordered_txs : List OrderedTx
  pub pending_txs : Map PoolTransaction
  pub published : Option (List Bytes)

abbrev pub new : Producer
new = record { ordered_txs = []; pending_txs = []; published = none }

abbrev pub carries_no_blobs : PoolTransaction → Bool
carries_no_blobs tx = elim tx.blob_count [ none ↦ true | some n ↦ n == 0 ]

-- The loop that pops: the list, and the entries to add back.
unfoldable pub build_from :
    Map PoolTransaction → (total : ℕ) → List OrderedTx → List Bytes × List OrderedTx
build_from pending_txs total [] = ([], [])
build_from pending_txs total (o ∷ os) = elim (lookup o.tx_hash pending_txs) [
  | none ↦ build_from pending_txs total os
  | some tx ↦
      let fits = leb (total + tx.encoded_length) max_list_bytes in
      let (inclusion_list, to_add) =
        build_from pending_txs (if fits then total + tx.encoded_length else total) os in
      (if fits then tx.encoded ∷ inclusion_list else inclusion_list, o ∷ to_add)
]

unfoldable pub build_inclusion_list : Producer → Producer
unfolding build_from extend_ordered
build_inclusion_list p =
    let (inclusion_list, to_add) = build_from p.pending_txs 0 p.ordered_txs in
    record p { published = some inclusion_list; ordered_txs = extend_ordered [] to_add }

module _ (floats : Floats) where
  open floats use {F64, as_f64, mul, div, total_rank}

  -- The time since the pool saw the transaction, in microseconds, times the fee, by the gas limit.
  unfoldable pub score_tx : (now : ℕ) → PoolTransaction → F64
  score_tx now tx =
      div (mul (as_f64 ((now - tx.timestamp) / 1000)) (as_f64 tx.priority_fee_or_price))
        (as_f64 tx.gas_limit)

  abbrev pub ordered_tx : ℕ → PoolTransaction → OrderedTx
  ordered_tx now tx = record { score = total_rank (score_tx now tx); tx_hash = tx.hash }

  -- `found` is what the pool has under the hash.
  unfoldable pub handle_tx_event :
      (now : ℕ) (found : Option PoolTransaction) → PoolEvent → Producer → Producer
  unfolding insert_ordered score_tx
  handle_tx_event now none (pending hash) p = p
  handle_tx_event now (some tx) (pending hash) p =
      if carries_no_blobs tx
      then record p {
        ordered_txs = insert_ordered (ordered_tx now tx) p.ordered_txs;
        pending_txs = insert tx.hash tx p.pending_txs;
      }
      else p
  handle_tx_event now found (queued hash) p = record p { pending_txs = remove hash p.pending_txs }
  handle_tx_event now found (mined hash) p = record p { pending_txs = remove hash p.pending_txs }
  handle_tx_event now found (discarded hash) p = record p {
    pending_txs = remove hash p.pending_txs;
  }
  handle_tx_event now found (invalid hash) p = record p { pending_txs = remove hash p.pending_txs }
  handle_tx_event now found (replaced hash) p = record p { pending_txs = remove hash p.pending_txs }
  handle_tx_event now found (propagated hash) p = p

  -- What one of the two streams brings.
  pub data Update : Type 0 where
    tx_event : (now : ℕ) → (found : Option PoolTransaction) → PoolEvent → Update
    commit reorg : Update

  unfoldable pub step : Update → Producer → Producer
  unfolding handle_tx_event build_inclusion_list
  step (tx_event now found event) p = handle_tx_event now found event p
  step commit p = build_inclusion_list p
  step reorg p = p

  -- `inclusion_producer`, until one of the streams closes.
  unfoldable pub run : List Update → Producer → Producer
  run [] p = p
  run (u ∷ us) p = run us (step u p)
