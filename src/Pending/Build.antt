-- ===== src/Pending/Build.antt =====
-- `with_transaction` and `build` of crates/execution/flashblocks/src/pending_blocks.rs: a hash that
-- is added twice fails the build, and otherwise every transaction is kept once, in order.
use mathlib.Core.List.{append-nil, append_assoc}
use ethgas_reth.Base.{
  ◌≡◌, ◌≢◌, ◌⊎◌, inl, inr, refl, sym, ap, ◌∙◌, arith, List, [], ◌∷◌, ◌++◌, ◌==◌, if◌then◌else◌,
  Option, none, some, lookup, lookup-insert, Bool-cases, Option-cases,
}
use ethgas_reth.Types.{B256, Transaction}
use ethgas_reth.Error.{err, build_failed, BuildError, duplicate_transaction}
use ethgas_reth.Pending.{tx_hash}
use ethgas_reth.Pending.Builder.{PendingBlocksBuilder, with_transaction, build}

-- The first transaction with this hash.
unfoldable pub find : B256 → List Transaction → Option Transaction
find h [] = none
find h (tx ∷ txs) = if tx_hash tx == h then some tx else find h txs

-- No hash stands twice.
abbrev pub IsDistinct : List Transaction → Type 0
IsDistinct [] = Unit {0}
IsDistinct (tx ∷ txs) = (find (tx_hash tx) txs ≡ none) × IsDistinct txs

find-snoc :
    (h : B256) (txs : List Transaction) (tx : Transaction)
    → find h txs ≡ none
    → find h (txs ++ tx ∷ []) ≡ (if tx_hash tx == h then some tx else none)
unfolding find
find-snoc h [] tx e = refl
find-snoc h (t ∷ txs) tx e = ground (arith, find-snoc h txs tx)

find-append_some :
    (h : B256) (txs : List Transaction) (tx t : Transaction)
    → find h txs ≡ some t
    → find h (txs ++ tx ∷ []) ≡ some t
unfolding find
find-append_some h [] tx t e = cc
find-append_some h (u ∷ txs) tx t e = ground (arith, find-append_some h txs tx t)

IsDistinct-snoc :
    (txs : List Transaction) (tx : Transaction)
    → IsDistinct txs
    → find (tx_hash tx) txs ≡ none
    → IsDistinct (txs ++ tx ∷ [])
unfolding find
IsDistinct-snoc [] tx d e = (refl, tt)
IsDistinct-snoc (t ∷ txs) tx d e =
    ground (arith, IsDistinct-snoc txs tx, find-snoc (tx_hash t) txs tx)

module _ {S B : Type 0} where
  -- The builder lists each transaction once and finds it by its hash.
  pub record Lists (b : PendingBlocksBuilder S B) : Type 0 where
    pub distinct : IsDistinct b.transactions
    pub found : (h : B256) → lookup h b.transactions_by_hash ≡ find h b.transactions

  -- `with_transaction` for a list of transactions in turn.
  unfoldable pub add_transactions :
      List Transaction → PendingBlocksBuilder S B → PendingBlocksBuilder S B
  add_transactions [] b = b
  add_transactions (tx ∷ txs) b = add_transactions txs (with_transaction b tx)

  with_transaction-new :
      (b : PendingBlocksBuilder S B) (tx : Transaction)
      → Lists b
      → find (tx_hash tx) b.transactions ≡ none
      → Lists (with_transaction b tx)
        × ((with_transaction b tx).transactions ≡ b.transactions ++ tx ∷ [])
        × ((with_transaction b tx).deferred_error ≡ b.deferred_error)
  unfolding with_transaction
  with_transaction-new b tx l e =
      rw (l.found (tx_hash tx), e)
        (
          record {
            distinct = IsDistinct-snoc b.transactions tx l.distinct e;
            found = λ h. elim (Option-cases (find h b.transactions)) [
              | inl miss ↦ ground (
                arith,
                e,
                miss,
                lookup-insert (tx_hash tx) h tx b.transactions_by_hash,
                l.found h,
                find-snoc h b.transactions tx,
              )
              | inr (t, hit) ↦ ground (
                arith,
                e,
                hit,
                lookup-insert (tx_hash tx) h tx b.transactions_by_hash,
                l.found h,
                find-append_some h b.transactions tx t hit,
              )
            ];
          },
          refl,
          refl,
        )

  with_transaction-repeat :
      (b : PendingBlocksBuilder S B) (tx t : Transaction)
      → lookup (tx_hash tx) b.transactions_by_hash ≡ some t
      → b.deferred_error ≡ none
      → (with_transaction b tx).deferred_error ≡ some (duplicate_transaction (tx_hash tx))
  unfolding with_transaction
  with_transaction-repeat b tx t e d = rw (e, d)

  -- The first error stays.
  add-deferred :
      (txs : List Transaction) (b : PendingBlocksBuilder S B) (e : BuildError)
      → b.deferred_error ≡ some e
      → (add_transactions txs b).deferred_error ≡ some e
  unfolding add_transactions with_transaction
  add-deferred [] b e h = h
  add-deferred (tx ∷ txs) b e h = add-deferred txs (with_transaction b tx) e (ground arith)

find-middle :
    (h : B256) (xs ys : List Transaction) (tx : Transaction)
    → tx_hash tx ≡ h
    → find h (xs ++ tx ∷ ys) ≢ none
unfolding find
find-middle h [] ys tx e n = ground (arith, n)
find-middle h (x ∷ xs) ys tx e n = ground (arith, find-middle h xs ys tx e, n)

not-IsDistinct :
    (xs ys : List Transaction) (tx t : Transaction)
    → find (tx_hash tx) xs ≡ some t
    → ¬ IsDistinct (xs ++ tx ∷ ys)
unfolding find
not-IsDistinct [] ys tx t e d = cc
not-IsDistinct (x ∷ xs) ys tx t e d = elim (Bool-cases (tx_hash x == tx_hash tx)) [
  | inl same ↦ find-middle (tx_hash x) xs ys tx (ground arith) d.0
  | inr other ↦ not-IsDistinct xs ys tx t (ground arith) d.1
]

module _ {S B : Type 0} where
  -- What a builder becomes when transactions are added to it.
  abbrev pub Outcome :
      PendingBlocksBuilder S B → List Transaction → PendingBlocksBuilder S B → Type 0
  Outcome b txs b' =
      (IsDistinct (b.transactions ++ txs)
        × (b'.deferred_error ≡ none)
        × (b'.transactions ≡ b.transactions ++ txs)
        × Lists b')
      ⊎ (¬ IsDistinct (b.transactions ++ txs)
          × ((h : B256) × (b'.deferred_error ≡ some (duplicate_transaction h))))

  -- Adding transactions to a builder with no deferred error lists them all after its own and
  -- finds each by its hash, if no hash stands twice; otherwise the error of some hash is
  -- deferred.
  add_transactions-Outcome :
      (txs : List Transaction) (b : PendingBlocksBuilder S B)
      → Lists b
      → b.deferred_error ≡ none
      → Outcome b txs (add_transactions txs b)
  unfolding add_transactions
  add_transactions-Outcome [] b l e =
      inl (rw (append-nil b.transactions) l.distinct, e, sym (append-nil b.transactions), l)
  add_transactions-Outcome (tx ∷ txs) b l e =
      elim (Option-cases (lookup (tx_hash tx) b.transactions_by_hash)) [
        | inr (t, hit) ↦ inr (
          not-IsDistinct b.transactions txs tx t (sym (l.found (tx_hash tx)) ∙ hit),
          (
            tx_hash tx,
            add-deferred txs (with_transaction b tx) _ (with_transaction-repeat b tx t hit e),
          ),
        )
        | inl miss ↦
            let (l', listed, kept) =
              with_transaction-new b tx l (sym (l.found (tx_hash tx)) ∙ miss) in
            let regroup : (with_transaction b tx).transactions ++ txs ≡ b.transactions ++ tx ∷ txs =
              ap (λ ts. ts ++ txs) listed ∙ append_assoc b.transactions (tx ∷ []) txs in
            rw regroup at (add_transactions-Outcome txs (with_transaction b tx) l' (kept ∙ e))
      ]

  -- A deferred error fails the build.
  pub build-deferred :
      (b : PendingBlocksBuilder S B) (e : BuildError)
      → b.deferred_error ≡ some e
      → build b ≡ err (build_failed e)
  unfolding build
  build-deferred b e h = rw h
