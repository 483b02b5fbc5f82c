-- ===== src/Simulator/Inclusion/Ranking.antt =====
-- The ordered set of crates/execution/simulator/src/inclusion/inclusion_producer.rs: its order, what
-- is added back to it, and the transactions that it turns away.
use ethgas_reth.Base.{
  if◌then◌else◌, leb, ℕ, ◌+◌, ◌<◌, ◌≡◌, inl, inr, refl, sym, ◌∙◌, ap, arith, Bool-cases,
  Option-cases, Bool, List, [], ◌∷◌, ◌++◌, Option, none, some, keep, is_some, Map, lookup,
}
use mathlib.Core.List.{append_assoc, append-nil}
use ethgas_reth.Simulator.Inclusion.{
  PoolTransaction, Producer, OrderedTx, Floats, Update, PoolEvent, pending, queued, mined,
  discarded, invalid, replaced, propagated, tx_event, commit, reorg, new, insert_ordered,
  extend_ordered, build_from, build_inclusion_list, ordered_tx, handle_tx_event, step, run,
  carries_no_blobs,
}

-- Every score is below the number, and they fall along the list.
abbrev pub Falls : ℕ → List OrderedTx → Type 0
Falls n [] = Unit {0}
Falls n (o ∷ os) = (o.score < n) × Falls o.score os

-- The scores fall strictly along the list.
abbrev pub IsRanked : List OrderedTx → Type 0
IsRanked [] = Unit {0}
IsRanked (o ∷ os) = Falls o.score os

insert_ordered-Falls :
    (n : ℕ) (o : OrderedTx) (os : List OrderedTx)
    → o.score < n
    → Falls n os
    → Falls n (insert_ordered o os)
unfolding insert_ordered
insert_ordered-Falls n o [] h f = (h, tt)
insert_ordered-Falls n o (other ∷ os) h f = ground (arith, insert_ordered-Falls other.score o os)

insert_ordered-IsRanked :
    (o : OrderedTx) (os : List OrderedTx) → IsRanked os → IsRanked (insert_ordered o os)
unfolding insert_ordered
insert_ordered-IsRanked o [] r = tt
insert_ordered-IsRanked o (other ∷ os) r = ground (arith, insert_ordered-Falls other.score o os)

pub Falls-IsRanked : (n : ℕ) (os : List OrderedTx) → Falls n os → IsRanked os
Falls-IsRanked n [] f = tt
Falls-IsRanked n (o ∷ os) f = f.1

Falls-le : (n k : ℕ) (os : List OrderedTx) → n < k → Falls n os → Falls k os
Falls-le n k [] h f = tt
Falls-le n k (o ∷ os) h f = ground arith

keep-Falls : (p : OrderedTx → Bool) (n : ℕ) (os : List OrderedTx) → Falls n os → Falls n (keep p os)
keep-Falls p n [] f = tt
keep-Falls p n (o ∷ os) f = ground (arith, keep-Falls p o.score os, Falls-le o.score n (keep p os))

keep-IsRanked : (p : OrderedTx → Bool) (os : List OrderedTx) → IsRanked os → IsRanked (keep p os)
keep-IsRanked p [] r = tt
keep-IsRanked p (o ∷ os) r =
    ground (arith, keep-Falls p o.score os, Falls-IsRanked o.score (keep p os))

Falls-append :
    (n : ℕ) (o : OrderedTx) (xs os : List OrderedTx) → Falls n (xs ++ o ∷ os) → o.score < n
Falls-append n o [] os f = f.0
Falls-append n o (x ∷ xs) os f = ground (arith, Falls-append x.score o xs os f.1)

insert_ordered_last :
    (o : OrderedTx) (xs os : List OrderedTx)
    → IsRanked (xs ++ o ∷ os)
    → insert_ordered o xs ≡ xs ++ o ∷ []
unfolding insert_ordered
insert_ordered_last o [] os r = refl
insert_ordered_last o (x ∷ xs) os r =
    let below = Falls-append x.score o xs os r in
    let rest = insert_ordered_last o xs os (Falls-IsRanked x.score (xs ++ o ∷ os) r) in
    ground (arith, below, rest)

extend_ordered-append :
    (xs os : List OrderedTx) → IsRanked (xs ++ os) → extend_ordered xs os ≡ xs ++ os
unfolding extend_ordered
extend_ordered-append xs [] r = sym (append-nil xs)
extend_ordered-append xs (o ∷ os) r =
    rw (insert_ordered_last o xs os r, extend_ordered)
      (extend_ordered-append (xs ++ o ∷ []) os (rw (append_assoc xs (o ∷ []) os) r)
        ∙ append_assoc xs (o ∷ []) os)

build_from-keep :
    (m : Map PoolTransaction) (total : ℕ) (os : List OrderedTx)
    → (build_from m total os).1 ≡ keep (λ o. is_some (lookup o.tx_hash m)) os
unfolding build_from
build_from-keep m total [] = refl
build_from-keep m total (o ∷ os) = elim (Option-cases (lookup o.tx_hash m)) [
  | inl gone ↦ rw (gone, build_from) (build_from-keep m total os)
  | inr (tx, there) ↦
      rw (there, build_from)
        (ap (◌∷◌ o) (
          build_from-keep m
            (if leb (total + tx.encoded_length) 8192 then total + tx.encoded_length else total) os))
]

-- What is added back is what is still pending, in the same order.
pub build_inclusion_list-keep :
    (p : Producer)
    → IsRanked p.ordered_txs
    → (build_inclusion_list p).ordered_txs
      ≡ keep (λ o. is_some (lookup o.tx_hash p.pending_txs)) p.ordered_txs
unfolding build_inclusion_list
build_inclusion_list-keep p r =
    let back = build_from-keep p.pending_txs 0 p.ordered_txs in
    rw (back, build_inclusion_list)
      (extend_ordered-append [] (keep (λ o. is_some (lookup o.tx_hash p.pending_txs)) p.ordered_txs)
        (keep-IsRanked (λ o. is_some (lookup o.tx_hash p.pending_txs)) p.ordered_txs r))

build_inclusion_list-IsRanked :
    (p : Producer) → IsRanked p.ordered_txs → IsRanked (build_inclusion_list p).ordered_txs
build_inclusion_list-IsRanked p r =
    rw (build_inclusion_list-keep p r)
      (keep-IsRanked (λ o. is_some (lookup o.tx_hash p.pending_txs)) p.ordered_txs r)

module _ (floats : Floats) where
  handle_tx_event-IsRanked :
      (now : ℕ) (found : Option PoolTransaction) (event : PoolEvent) (p : Producer)
      → IsRanked p.ordered_txs
      → IsRanked (handle_tx_event floats now found event p).ordered_txs
  unfolding handle_tx_event
  handle_tx_event-IsRanked now none (pending hash) p r = r
  handle_tx_event-IsRanked now (some tx) (pending hash) p r =
      elim (Bool-cases (carries_no_blobs tx)) [
        | inl plain ↦
            rw (plain, handle_tx_event)
              (insert_ordered-IsRanked (ordered_tx floats now tx) p.ordered_txs r)
        | inr blobs ↦ rw (blobs, handle_tx_event) r
      ]
  handle_tx_event-IsRanked now found (queued hash) p r = r
  handle_tx_event-IsRanked now found (mined hash) p r = r
  handle_tx_event-IsRanked now found (discarded hash) p r = r
  handle_tx_event-IsRanked now found (invalid hash) p r = r
  handle_tx_event-IsRanked now found (replaced hash) p r = r
  handle_tx_event-IsRanked now found (propagated hash) p r = r

  run-IsRanked :
      (us : List (Update floats)) (p : Producer)
      → IsRanked p.ordered_txs
      → IsRanked (run floats us p).ordered_txs
  unfolding run step
  run-IsRanked [] p r = r
  run-IsRanked (tx_event now found event ∷ us) p r =
      run-IsRanked us (handle_tx_event floats now found event p)
        (handle_tx_event-IsRanked now found event p r)
  run-IsRanked (commit ∷ us) p r =
      run-IsRanked us (build_inclusion_list p) (build_inclusion_list-IsRanked p r)
  run-IsRanked (reorg ∷ us) p r = run-IsRanked us p r

  -- After any updates the scores of the ordered set fall strictly, and a commit leaves of it what
  -- is still pending, in the same order.
  pub run-new-keep :
      (us : List (Update floats))
      → let p = run floats us new in
        IsRanked p.ordered_txs
        × ((step floats commit p).ordered_txs
            ≡ keep (λ o. is_some (lookup o.tx_hash p.pending_txs)) p.ordered_txs)
  unfolding step
  run-new-keep us =
      let ranked = run-IsRanked us new tt in
      (ranked, build_inclusion_list-keep (run floats us new) ranked)
