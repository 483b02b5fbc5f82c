-- ===== src/Processor/Runs.antt =====
-- What the loop over a block's transactions in crates/execution/flashblocks/src/processor.rs does
-- when it succeeds.
use ethgas_reth.Base.{
  ℕ, suc, ◌+◌, ◌≤◌, ◌≡◌, sym, ap, ◌∙◌, arith, List, [], ◌∷◌, none, some, inl, inr, Option-cases,
  ◌⊎◌, Bool-cases, bool_eq, bool_eq-true, lookup, length, leb,
}
use ethgas_reth.Fallible.{done, Fallible-cases}
use ethgas_reth.Types.{Address, TransactionSigned}
use ethgas_reth.Payload.{Receipt}
use ethgas_reth.Error.{ok, >>=-eq-ok, ok-injective}
use ethgas_reth.World.{Evm}
use ethgas_reth.Processor.Transactions.{
  Loop, Scope, record_transaction, execute_transaction, process_transaction, process_transactions,
  cached_state,
}

module _ {evm : Evm} (s : Scope evm) where
  -- The database after a transaction: as it was where the previous snapshot has the transaction's
  -- state, and else with the changes of an execution that ended as the receipt says.
  abbrev pub Executes : Loop evm → TransactionSigned → Address → Receipt → Loop evm → Type 0
  Executes l tx sender receipt m =
      ((state : Evm.EvmState evm) × (cached_state evm s.prev tx.tx_hash ≡ some state)
        × (m.db ≡ l.db))
      ⊎ ((cached_state evm s.prev tx.tx_hash ≡ none)
          × ((state : Evm.EvmState evm) × (db : Evm.Db evm) × (Evm.transact evm s.env tx sender l.db
                ≡ done (receipt.success, state, db))
              × (m.db ≡ Evm.commit evm state db)))

  -- One transaction: its receipt is there, the cumulative gas does not fall, and the log numbers go
  -- on after the receipt's logs.
  abbrev pub RunsOne : Loop evm → TransactionSigned → Address → Loop evm → Type 0
  RunsOne l tx sender m =
      (receipt : Receipt) × (lookup tx.tx_hash s.receipt_by_hash ≡ some receipt)
      × (l.gas_used ≤ receipt.cumulative_gas_used)
      × (m.gas_used ≡ receipt.cumulative_gas_used)
      × (m.next_log_index ≡ l.next_log_index + length receipt.logs)
      × Executes l tx sender receipt m

  abbrev pub Runs : Loop evm → List (TransactionSigned × Address) → Loop evm → Type 0
  Runs l [] m = l ≡ m
  Runs l ((tx, sender) ∷ rest) m = (l' : Loop evm) × RunsOne l tx sender l' × Runs l' rest m

  record_transaction-eq-ok :
      (l : Loop evm) (idx : ℕ) (tx : TransactionSigned) (sender : Address) (m : Loop evm)
      (receipt : Receipt)
      → record_transaction evm s l idx tx sender ≡ ok (m, receipt)
      → (lookup tx.tx_hash s.receipt_by_hash ≡ some receipt)
        × (l.gas_used ≤ receipt.cumulative_gas_used)
        × (m.gas_used ≡ receipt.cumulative_gas_used)
        × (m.next_log_index ≡ l.next_log_index + length receipt.logs)
        × (m.db ≡ l.db)
  unfolding record_transaction
  record_transaction-eq-ok l idx tx sender m receipt h =
      elim (Option-cases (lookup tx.tx_hash s.receipt_by_hash)) [
        | inl e ↦ absurd (cc (rw (e, record_transaction) at h))
        | inr (r, e) ↦ elim (Bool-cases (leb l.gas_used r.cumulative_gas_used)) [
          | inr g ↦ absurd (cc (rw (e, g, record_transaction) at h))
          | inl g ↦
              let parts : (_, r) ≡ (m, receipt) =
                ok-injective (rw (e, g, record_transaction) at h) in
              let same : r ≡ receipt = ap (λ (q : Loop evm × Receipt). q.1) parts in
              (
                e ∙ ap some same,
                ground (arith, e, g, ap (λ (x : Receipt). x.cumulative_gas_used) same),
                sym (ap (λ (q : Loop evm × Receipt). q.0.gas_used) parts)
                    ∙ ap (λ (x : Receipt). x.cumulative_gas_used) same,
                sym (ap (λ (q : Loop evm × Receipt). q.0.next_log_index) parts)
                    ∙ ap (λ (x : Receipt). l.next_log_index + length x.logs) same,
                sym (ap (λ (q : Loop evm × Receipt). q.0.db) parts),
              )
        ]
      ]

  execute_transaction-eq-ok :
      (l m : Loop evm) (receipt : Receipt) (tx : TransactionSigned) (sender : Address)
      → execute_transaction evm s l receipt tx sender ≡ ok m
      → (m.gas_used ≡ l.gas_used)
        × (m.next_log_index ≡ l.next_log_index)
        × ((state : Evm.EvmState evm) × (db : Evm.Db evm) × (Evm.transact evm s.env tx sender l.db
              ≡ done (receipt.success, state, db))
            × (m.db ≡ Evm.commit evm state db))
  unfolding execute_transaction
  execute_transaction-eq-ok l m receipt tx sender h =
      elim (Fallible-cases (Evm.transact evm s.env tx sender l.db)) [
        | inl (x, e) ↦ absurd (cc (rw (e, execute_transaction) at h))
        | inr ((success, state, db), e) ↦ elim (Bool-cases (bool_eq success receipt.success)) [
          | inr f ↦ absurd (cc (rw (e, f, execute_transaction) at h))
          | inl f ↦
              let same : success ≡ receipt.success = bool_eq-true success receipt.success f in
              let next = ok-injective (rw (e, f, execute_transaction) at h) in
              (
                sym (ap (λ (x : Loop evm). x.gas_used) next),
                sym (ap (λ (x : Loop evm). x.next_log_index) next),
                (
                  state,
                  db,
                  e ∙ ap (λ b. done (b, state, db)) same,
                  sym (ap (λ (x : Loop evm). x.db) next),
                ),
              )
        ]
      ]

  process_transaction-RunsOne :
      (l m : Loop evm) (idx : ℕ) (tx : TransactionSigned) (sender : Address)
      → process_transaction evm s l idx tx sender ≡ ok m
      → RunsOne l tx sender m
  unfolding process_transaction
  process_transaction-RunsOne l m idx tx sender h =
      let ((l', receipt), e, h') = >>=-eq-ok (record_transaction evm s l idx tx sender) _ h in
      let (found, rises, gas, logs, db) = record_transaction-eq-ok l idx tx sender l' receipt e in
      elim (Option-cases (cached_state evm s.prev tx.tx_hash)) [
        | inr (state, cached) ↦
            let next = ok-injective (rw cached at h') in
            (
              receipt,
              found,
              rises,
              sym (ap (λ (x : Loop evm). x.gas_used) next) ∙ gas,
              sym (ap (λ (x : Loop evm). x.next_log_index) next) ∙ logs,
              inl (state, cached, sym (ap (λ (x : Loop evm). x.db) next) ∙ db),
            )
        | inl executed ↦
            let (gas', logs', changes) =
              execute_transaction-eq-ok l' m receipt tx sender (rw executed at h') in
            let (state, db', done_so, commits) = changes in
            (
              receipt,
              found,
              rises,
              gas' ∙ gas,
              logs' ∙ logs,
              inr (
                executed,
                (
                  state,
                  db',
                  ap (λ d. Evm.transact evm s.env tx sender d) (sym db) ∙ done_so,
                  commits,
                ),
              ),
            )
      ]

  -- A run of the loop that succeeds runs each transaction in turn, on what the ones before it
  -- left: each has its receipt, the cumulative gas never falls, the log numbers go on, and each
  -- is either taken from the previous snapshot, the database as it was, or executed with the
  -- status of its receipt, its changes committed.
  pub process_transactions-Runs :
      (txs : List (TransactionSigned × Address)) (idx : ℕ) (l m : Loop evm)
      → process_transactions evm s l idx txs ≡ ok m
      → Runs l txs m
  unfolding process_transactions
  process_transactions-Runs [] idx l m h = ok-injective h
  process_transactions-Runs ((tx, sender) ∷ txs) idx l m h =
      let (l', e, h') =
        >>=-eq-ok (process_transaction evm s l idx tx sender)
          (λ l'. process_transactions evm s l' (suc idx) txs) h in
      (
        l',
        process_transaction-RunsOne l l' idx tx sender e,
        process_transactions-Runs txs (suc idx) l' m h',
      )
