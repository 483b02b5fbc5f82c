-- ===== src/Simulator/Inclusion/Bounds.antt =====
-- How long the lists of crates/execution/simulator/src/inclusion/inclusion_producer.rs are, and
-- what they leave out.
use ethgas_reth.Base.{
  ℕ, ap, ◌+◌, ◌≤◌, ◌<◌, ◌≡◌, ◌⊎◌, inl, inr, arith, leb, Bool-cases, Option-cases, List, [], ◌∷◌,
  Option, none, some, length, Map, lookup, insert, remove, lookup-insert, lookup-remove,
}
use ethgas_reth.Types.{B256}
use ethgas_reth.Simulator.Multisend.{Bytes}
use ethgas_reth.Simulator.Inclusion.{
  PoolTransaction, Producer, OrderedTx, Floats, Update, PoolEvent, pending, queued, mined,
  discarded, invalid, replaced, propagated, tx_event, commit, reorg, new, build_from,
  build_inclusion_list, handle_tx_event, step, run, carries_no_blobs,
}

-- The bytes of a list.
abbrev pub total_bytes : List Bytes → ℕ
total_bytes [] = 0
total_bytes (bytes ∷ list) = length bytes + total_bytes list

-- The pool measures the encoding of the transaction.
abbrev pub Measured : PoolTransaction → Type 0
Measured tx = length tx.encoded ≡ tx.encoded_length

abbrev pub AllMeasured : Map PoolTransaction → Type 0
AllMeasured m = (hash : B256) (tx : PoolTransaction) → lookup hash m ≡ some tx → Measured tx

build_from-le :
    (m : Map PoolTransaction) (total : ℕ) (os : List OrderedTx)
    → AllMeasured m
    → total ≤ 8192
    → total + total_bytes (build_from m total os).0 ≤ 8192
unfolding build_from
build_from-le m total [] all h = omega (arith, h)
build_from-le m total (o ∷ os) all h = elim (Option-cases (lookup o.tx_hash m)) [
  | inl gone ↦ rw (gone, build_from) (build_from-le m total os all h)
  | inr (tx, there) ↦
      let size = all o.tx_hash tx there in
      elim (Bool-cases (leb (total + tx.encoded_length) 8192)) [
        | inl fits ↦
            let rest = build_from-le m (total + tx.encoded_length) os all (ground (arith, fits)) in
            rw (there, fits, build_from) (omega (arith, size, rest))
        | inr full ↦ rw (there, full, build_from) (build_from-le m total os all h)
      ]
]

-- The list has the bytes, or is too long to take them.
abbrev pub Listed : Bytes → List Bytes → Type 0
Listed bytes [] = ⊥
Listed bytes (other ∷ list) = (bytes ≡ other) ⊎ Listed bytes list

abbrev pub Ordered : OrderedTx → List OrderedTx → Type 0
Ordered o [] = ⊥
Ordered o (other ∷ others) = (o ≡ other) ⊎ Ordered o others

build_from-Listed :
    (m : Map PoolTransaction) (total : ℕ) (os : List OrderedTx) (o : OrderedTx)
    (tx : PoolTransaction)
    → AllMeasured m
    → Ordered o os
    → lookup o.tx_hash m ≡ some tx
    → let list = (build_from m total os).0 in
      Listed tx.encoded list ⊎ (8192 < total + total_bytes list + tx.encoded_length)
unfolding build_from
build_from-Listed m total [] o tx all among there = elim among [ ]
build_from-Listed m total (other ∷ os) o tx all among there =
    elim (Option-cases (lookup other.tx_hash m)) [
      | inl gone ↦ elim among [
        | inl same ↦ cc
        | inr later ↦ rw (gone, build_from) (build_from-Listed m total os o tx all later there)
      ]
      | inr (tx', there') ↦
          let size = all other.tx_hash tx' there' in
          elim (Bool-cases (leb (total + tx'.encoded_length) 8192)) [
            | inl fits ↦ elim among [
              | inl same ↦
                  let here : tx ≡ tx' = cc in
                  rw (there', fits, build_from) (inl (inl (ap (λ t. t.encoded) here)))
              | inr later ↦
                  let rest =
                    build_from-Listed m (total + tx'.encoded_length) os o tx all later there in
                  rw (there', fits, build_from) (ground (arith, size, rest))
            ]
            | inr full ↦ elim among [
              | inl same ↦
                  let here : tx ≡ tx' = cc in
                  let long = ap (λ t. t.encoded_length) here in
                  rw (there', full, build_from) (inr (ground (arith, full, long)))
              | inr later ↦
                  rw (there', full, build_from) (build_from-Listed m total os o tx all later there)
            ]
          ]
    ]

-- Where the lengths are measured, a pending transaction of the ordered set is on the list that is
-- built, or the list and it are longer than 8192 bytes together.
build_inclusion_list-Greedy :
    (p : Producer) (o : OrderedTx) (tx : PoolTransaction) (list : List Bytes)
    → AllMeasured p.pending_txs
    → Ordered o p.ordered_txs
    → lookup o.tx_hash p.pending_txs ≡ some tx
    → (build_inclusion_list p).published ≡ some list
    → Listed tx.encoded list ⊎ (8192 < total_bytes list + length tx.encoded)
unfolding build_inclusion_list
build_inclusion_list-Greedy p o tx list all among there built = ground (
  arith,
  all o.tx_hash tx there,
  built,
  build_from-Listed p.pending_txs 0 p.ordered_txs o tx all among there,
)

-- What the producer holds is measured, and what it has sent is short enough.
abbrev pub IsBounded : Producer → Type 0
IsBounded p =
    AllMeasured p.pending_txs
    × ((list : List Bytes) → p.published ≡ some list → total_bytes list ≤ 8192)

-- The pool measures what it gives.
abbrev pub GivesMeasured : {floats : Floats} → Update floats → Type 0
GivesMeasured (tx_event now (some tx) event) = Measured tx
GivesMeasured _ = Unit {0}

insert-AllMeasured :
    (hash : B256) (tx : PoolTransaction) (m : Map PoolTransaction)
    → Measured tx
    → AllMeasured m
    → AllMeasured (insert hash tx m)
insert-AllMeasured hash tx m size all sought found there =
    ground (arith, lookup-insert hash sought tx m, all sought found)

remove-AllMeasured :
    (hash : B256) (m : Map PoolTransaction) → AllMeasured m → AllMeasured (remove hash m)
remove-AllMeasured hash m all sought found there =
    ground (arith, lookup-remove hash sought m, all sought found)

handle_tx_event-IsBounded :
    (floats : Floats) (now : ℕ) (found : Option PoolTransaction) (event : PoolEvent) (p : Producer)
    → GivesMeasured {floats = floats} (tx_event now found event)
    → IsBounded p
    → IsBounded (handle_tx_event floats now found event p)
unfolding handle_tx_event
handle_tx_event-IsBounded floats now none (pending hash) p g b = b
handle_tx_event-IsBounded floats now (some tx) (pending hash) p g (all, short) =
    elim (Bool-cases (carries_no_blobs tx)) [
      | inl plain ↦
          rw (plain, handle_tx_event) (insert-AllMeasured tx.hash tx p.pending_txs g all, short)
      | inr blobs ↦ rw (blobs, handle_tx_event) (all, short)
    ]
handle_tx_event-IsBounded floats now found (queued hash) p g (all, short) =
    (remove-AllMeasured hash p.pending_txs all, short)
handle_tx_event-IsBounded floats now found (mined hash) p g (all, short) =
    (remove-AllMeasured hash p.pending_txs all, short)
handle_tx_event-IsBounded floats now found (discarded hash) p g (all, short) =
    (remove-AllMeasured hash p.pending_txs all, short)
handle_tx_event-IsBounded floats now found (invalid hash) p g (all, short) =
    (remove-AllMeasured hash p.pending_txs all, short)
handle_tx_event-IsBounded floats now found (replaced hash) p g (all, short) =
    (remove-AllMeasured hash p.pending_txs all, short)
handle_tx_event-IsBounded floats now found (propagated hash) p g b = b

step-IsBounded :
    (floats : Floats) (u : Update floats) (p : Producer)
    → GivesMeasured u
    → IsBounded p
    → IsBounded (step floats u p)
unfolding step build_inclusion_list
step-IsBounded floats (tx_event now found event) p g b =
    handle_tx_event-IsBounded floats now found event p g b
step-IsBounded floats commit p g (all, short) = (
  all,
  λ list e. ground (arith, e, build_from-le p.pending_txs 0 p.ordered_txs all (omega arith)),
)
step-IsBounded floats reorg p g b = b

-- Every update's transaction is measured.
abbrev pub AllGiveMeasured : {floats : Floats} → List (Update floats) → Type 0
AllGiveMeasured [] = Unit {0}
AllGiveMeasured (u ∷ us) = GivesMeasured u × AllGiveMeasured us

run-IsBounded :
    (floats : Floats) (us : List (Update floats)) (p : Producer)
    → AllGiveMeasured us
    → IsBounded p
    → IsBounded (run floats us p)
unfolding run
run-IsBounded floats [] p g b = b
run-IsBounded floats (u ∷ us) p (g, gs) b =
    run-IsBounded floats us (step floats u p) gs (step-IsBounded floats u p g b)

-- Whatever the pool and the chain bring, a list that the producer has published is 8192 bytes at
-- most, if the pool measures the encoding of each transaction that it gives.
pub run-new-le :
    (floats : Floats) (us : List (Update floats)) (list : List Bytes)
    → AllGiveMeasured us
    → (run floats us new).published ≡ some list
    → total_bytes list ≤ 8192
unfolding lookup
run-new-le floats us list g e = (run-IsBounded floats us new g (λ _ _ h. cc, λ _ h. cc)).1 list e
