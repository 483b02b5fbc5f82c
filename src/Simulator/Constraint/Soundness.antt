-- ===== src/Simulator/Constraint/Soundness.antt =====
-- What the inclusion list check of crates/execution/simulator/src/validation/mod.rs accepts.
use ethgas_reth.Base.{
  ◌==◌, ◌≡◌, ◌⊎◌, inl, inr, refl, arith, true, false, Bool-cases, Option-cases, List, [], ◌∷◌,
  Option, some, map, length, contains, add_to, IsDistinct, add_to-IsDistinct, contains-add_to,
  contains_of_length, length-map,
}
use ethgas_reth.Types.{B256}
use ethgas_reth.Simulator.Types.{SubmittedTransaction, ok}
use ethgas_reth.Simulator.Constraint.{
  ListedTransaction, PostBlock, is_listed, included_hashes, check_missing,
  validate_inclusion_list_constraint,
}

abbrev pub block_hashes : List SubmittedTransaction → List B256
block_hashes = map (λ tx. tx.tx_hash)

abbrev listed_hashes : List ListedTransaction → List B256
listed_hashes = map (λ t. t.hash)

is_listed-contains :
    (txs : List ListedTransaction) (hash : B256)
    → is_listed txs hash ≡ contains (listed_hashes txs) hash
unfolding is_listed contains
is_listed-contains [] hash = refl
is_listed-contains (t ∷ txs) hash = ground (arith, is_listed-contains txs hash)

module _ (txs : List ListedTransaction) where
  included_hashes-IsDistinct :
      (block : List SubmittedTransaction) (included : List B256)
      → IsDistinct included
      → IsDistinct (included_hashes txs block included)
  unfolding included_hashes
  included_hashes-IsDistinct [] included d = d
  included_hashes-IsDistinct (tx ∷ block) included d =
      elim (Bool-cases (is_listed txs tx.tx_hash)) [
        | inl hit ↦
            rw (hit, included_hashes)
              (included_hashes-IsDistinct block (add_to tx.tx_hash included)
                (add_to-IsDistinct tx.tx_hash included d))
        | inr miss ↦ rw (miss, included_hashes) (included_hashes-IsDistinct block included d)
      ]

  -- What is collected was there, or is listed and in the block.
  included_hashes-sub :
      (block : List SubmittedTransaction) (included : List B256) (hash : B256)
      → contains (included_hashes txs block included) hash ≡ true
      → (contains included hash ≡ true)
        ⊎ ((is_listed txs hash ≡ true) × (contains (block_hashes block) hash ≡ true))
  unfolding included_hashes contains
  included_hashes-sub [] included hash h = inl h
  included_hashes-sub (tx ∷ block) included hash h = elim (Bool-cases (is_listed txs tx.tx_hash)) [
    | inl hit ↦
        let rest =
          included_hashes-sub block (add_to tx.tx_hash included) hash
            (rw (hit, included_hashes) at h) in
        ground (arith, rest, hit, contains-add_to tx.tx_hash hash included)
    | inr miss ↦
        let rest = included_hashes-sub block included hash (rw (miss, included_hashes) at h) in
        ground (arith, rest)
  ]

-- A transaction of the list that is in the block, or that gives no outcome on some state of the EVM.
abbrev pub IsSatisfied : PostBlock → List SubmittedTransaction → ListedTransaction → Type 0
IsSatisfied post block t =
    (contains (block_hashes block) t.hash ≡ true)
    ⊎ ((tx : post.Transaction) × (evm : post.Evm) × (post.recover_raw_transaction t.bytes ≡ some tx)
        × ((post.transact tx evm).0 ≡ false))

abbrev pub AllSatisfied : PostBlock → List SubmittedTransaction → List ListedTransaction → Type 0
AllSatisfied post block [] = Unit {0}
AllSatisfied post block (t ∷ txs) = IsSatisfied post block t × AllSatisfied post block txs

module _ (post : PostBlock) (block : List SubmittedTransaction) where
  contained-AllSatisfied :
      (txs : List ListedTransaction)
      → ((b : B256)
          → contains (listed_hashes txs) b ≡ true
          → contains (block_hashes block) b ≡ true)
      → AllSatisfied post block txs
  unfolding contains
  contained-AllSatisfied [] sub = tt
  contained-AllSatisfied (t ∷ txs) sub = (
    inl (sub t.hash (ground arith)),
    contained-AllSatisfied txs (λ b h. sub b (ground (arith, h))),
  )

  check_missing-AllSatisfied :
      (included : List B256) (txs : List ListedTransaction) (evm : post.Evm)
      → ((b : B256) → contains included b ≡ true → contains (block_hashes block) b ≡ true)
      → check_missing post included txs evm ≡ ok tt
      → AllSatisfied post block txs
  unfolding check_missing
  check_missing-AllSatisfied included [] evm sub h = tt
  check_missing-AllSatisfied included (t ∷ txs) evm sub h =
      elim (Bool-cases (contains included t.hash)) [
        | inl there ↦ (
          inl (sub t.hash there),
          check_missing-AllSatisfied included txs evm sub (rw (there, check_missing) at h),
        )
        | inr missing ↦ elim (Option-cases (post.recover_raw_transaction t.bytes)) [
          | inl bad ↦ absurd (ground (arith, missing, bad, h))
          | inr (tx, good) ↦ elim (Bool-cases (post.transact tx evm).0) [
            | inl success ↦ absurd (ground (arith, missing, good, success, h))
            | inr failure ↦ (
              inr (tx, evm, good, failure),
              check_missing-AllSatisfied included txs (post.transact tx evm).1 sub
                  (rw (missing, good, failure, check_missing) at h),
            )
          ]
        ]
      ]

  included-sub :
      (txs : List ListedTransaction) (b : B256)
      → contains (included_hashes txs block []) b ≡ true
      → (contains (listed_hashes txs) b ≡ true) × (contains (block_hashes block) b ≡ true)
  unfolding contains
  included-sub txs b h =
      ground (arith, included_hashes-sub txs block [] b h, is_listed-contains txs b)

  -- When the check of the inclusion list passes, each listed transaction is in the block, or was
  -- decoded and gave no outcome on some state of the EVM.
  pub validate_inclusion_list_constraint-AllSatisfied :
      (evm : Option post.Evm) (txs : List ListedTransaction)
      → validate_inclusion_list_constraint post block evm (some txs) ≡ ok tt
      → AllSatisfied post block txs
  unfolding validate_inclusion_list_constraint
  validate_inclusion_list_constraint-AllSatisfied evm [] h = tt
  validate_inclusion_list_constraint-AllSatisfied evm (t ∷ rest) h =
      let txs = t ∷ rest in
      let included = included_hashes txs block [] in
      elim (Bool-cases (length included == length txs)) [
        | inl complete ↦ contained-AllSatisfied txs (λ b listed.
            (included-sub txs b (
              contains_of_length included (listed_hashes txs)
                (included_hashes-IsDistinct txs block [] tt) (λ a e. (included-sub txs a e).0)
                (ground (arith, complete, length-map txs (λ t. t.hash))) b listed)).1)
        | inr partial ↦ elim (Option-cases evm) [
          | inl bare ↦ absurd (ground (arith, partial, bare, h))
          | inr (start, e) ↦
              check_missing-AllSatisfied included txs start (λ b e. (included-sub txs b e).1)
                (ground (arith, partial, e, h))
        ]
      ]
