-- ===== src/Simulator/Inclusion/Ties.antt =====
-- The transactions that the ordered set of
-- crates/execution/simulator/src/inclusion/inclusion_producer.rs turns away.
use ethgas_reth.Base.{
  if◌then◌else◌, leb, ℕ, ◌+◌, ◌<◌, ◌≡◌, ◌≢◌, inl, inr, refl, ap, arith, Bool-cases, Option-cases,
  List, [], ◌∷◌, some, Map, lookup, insert, lookup-insert,
}
use ethgas_reth.Simulator.Inclusion.{
  PoolTransaction, Producer, OrderedTx, Floats, pending, insert_ordered, build_from,
  build_inclusion_list, ordered_tx, score_tx, handle_tx_event, carries_no_blobs,
}
use ethgas_reth.Simulator.Inclusion.Bounds.{Ordered}
use ethgas_reth.Simulator.Inclusion.Ranking.{Falls, IsRanked, Falls-IsRanked}

Falls-Ordered :
    (n : ℕ) (other : OrderedTx) (os : List OrderedTx)
    → Falls n os
    → Ordered other os
    → other.score < n
Falls-Ordered n other [] f among = elim among [ ]
Falls-Ordered n other (o ∷ os) f among = elim among [
  | inl here ↦ ground (arith, ap (λ t. t.score) here)
  | inr later ↦ ground (arith, Falls-Ordered o.score other os f.1 later)
]

insert_ordered_tied :
    (o other : OrderedTx) (os : List OrderedTx)
    → IsRanked os
    → Ordered other os
    → other.score ≡ o.score
    → insert_ordered o os ≡ os
unfolding insert_ordered
insert_ordered_tied o other [] r among same = elim among [ ]
insert_ordered_tied o other (x ∷ os) r among same = elim among [
  | inl here ↦ ground (arith, ap (λ t. t.score) here)
  | inr later ↦
      let high = Falls-Ordered x.score other os r later in
      let rest = insert_ordered_tied o other os (Falls-IsRanked x.score os r) later same in
      ground (arith, high, rest)
]

build_from_congr :
    (m m' : Map PoolTransaction) (total : ℕ) (os : List OrderedTx)
    → ((o : OrderedTx) → Ordered o os → lookup o.tx_hash m ≡ lookup o.tx_hash m')
    → build_from m total os ≡ build_from m' total os
unfolding build_from
build_from_congr m m' total [] same = refl
build_from_congr m m' total (o ∷ os) same = elim (Option-cases (lookup o.tx_hash m')) [
  | inl gone ↦
      rw (same o (inl refl), gone, build_from)
        (build_from_congr m m' total os (λ x among. same x (inr among)))
  | inr (tx, there) ↦
      let next =
        if leb (total + tx.encoded_length) 8192 then total + tx.encoded_length else total in
      rw
        (
          same o (inl refl),
          there,
          build_from,
          build_from_congr m m' next os (λ x among. same x (inr among)),
        )
        refl
]

-- When an entry of the ordered set has the score of a transaction that is new to it, the event
-- that the transaction is pending changes neither the set nor the list that is built next.
pub tied_pending :
    (floats : Floats) (now : ℕ) (tx : PoolTransaction) (other : OrderedTx) (p : Producer)
    → IsRanked p.ordered_txs
    → Ordered other p.ordered_txs
    → other.score ≡ floats.total_rank (score_tx floats now tx)
    → ((o : OrderedTx) → Ordered o p.ordered_txs → o.tx_hash ≢ tx.hash)
    → let p' = handle_tx_event floats now (some tx) (pending tx.hash) p in
      (p'.ordered_txs ≡ p.ordered_txs)
      × ((build_inclusion_list p').published ≡ (build_inclusion_list p).published)
unfolding build_inclusion_list handle_tx_event
tied_pending floats now tx other p r among same absent =
    let kept = insert_ordered_tied (ordered_tx floats now tx) other p.ordered_txs r among same in
    let list =
      build_from_congr (insert tx.hash tx p.pending_txs) p.pending_txs 0 p.ordered_txs (λ o there.
        ground (arith, lookup-insert tx.hash o.tx_hash tx p.pending_txs, absent o there)) in
    elim (Bool-cases (carries_no_blobs tx)) [
      | inl plain ↦ rw (plain, handle_tx_event) (kept, rw (kept, list) refl)
      | inr blobs ↦ rw (blobs, handle_tx_event) (refl, refl)
    ]
