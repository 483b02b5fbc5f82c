-- ===== src/Simulator/Inclusion/Tests.antt =====
-- Runs of crates/execution/simulator/src/inclusion/inclusion_producer.rs on two transactions.
use ethgas_reth.Base.{ℕ, ◌≡◌, inl, refl, arith, [], ◌∷◌, none, some, lookup}
use ethgas_reth.Base.{◌≤◌, ◌*◌, ◌/◌, List, insert, keep, is_some}
use ethgas_reth.Simulator.Inclusion.{
  PoolTransaction, Floats, Producer, Update, tx_event, commit, pending, new, score_tx,
  handle_tx_event, build_inclusion_list, step, run,
}
use ethgas_reth.Simulator.Inclusion.Bounds.{total_bytes, AllMeasured, run-new-le}
use ethgas_reth.Simulator.Inclusion.Ranking.{IsRanked, run-new-keep}
use ethgas_reth.Simulator.Inclusion.Ties.{tied_pending}

-- Floats that are numbers, the quotient being rounded down.
abbrev floats : Floats
floats = record {
  F64 = ℕ;
  as_f64 = λ n. n;
  mul = λ a b. a * b;
  div = λ a b. a / b;
  total_rank = λ a. a;
}

abbrev pooled : (hash fee : ℕ) → PoolTransaction
pooled hash fee = record {
  hash = hash;
  blob_count = none;
  timestamp = 0;
  gas_limit = 1;
  priority_fee_or_price = fee;
  encoded_length = 2;
  encoded = 1 ∷ 2 ∷ [];
}

-- One transaction is tracked.
abbrev tracked : Producer
tracked = record {
  ordered_txs = record { score = 0; tx_hash = 8 } ∷ [];
  pending_txs = (8, pooled 8 0) ∷ [];
  published = none;
}

abbrev updates : List (Update floats)
updates = tx_event 5000 (some (pooled 8 3)) (pending 8) ∷ commit ∷ []

run-new-le_example : total_bytes ((1 ∷ 2 ∷ []) ∷ []) ≤ 8192
unfolding run step handle_tx_event build_inclusion_list lookup insert
run-new-le_example = run-new-le floats updates ((1 ∷ 2 ∷ []) ∷ []) (refl, (tt, tt)) refl

tracked-AllMeasured : AllMeasured tracked.pending_txs
unfolding lookup
tracked-AllMeasured hash tx e = ground arith

run-new-keep_example :
    let p = run floats updates new in
    IsRanked p.ordered_txs
    × ((step floats commit p).ordered_txs
        ≡ keep (λ o. is_some (lookup o.tx_hash p.pending_txs)) p.ordered_txs)
run-new-keep_example = run-new-keep floats updates

tied_pending_example :
    let p = handle_tx_event floats 5000 (some (pooled 9 0)) (pending 9) tracked in
    (p.ordered_txs ≡ tracked.ordered_txs)
    × ((build_inclusion_list p).published ≡ (build_inclusion_list tracked).published)
unfolding score_tx
tied_pending_example =
    tied_pending floats 5000 (pooled 9 0) (record { score = 0; tx_hash = 8 }) tracked tt (inl refl)
      refl (λ o among. ground (arith, among))
