-- ===== src/Rpc/Views.antt =====
-- The methods of crates/execution/flashblocks/src/rpc/eth.rs among themselves, and with
-- crates/execution/runner/src/eth_api.rs, on one snapshot.
use ethgas_reth.Base.{
  ℕ, true, false, List, none, some, length, map, filter_map, get_elem?, lookup, ◌≡◌, ◌↔◌, refl,
  arith, Option-cases, inl, inr, length-map, ap, ◌∙◌,
}
use ethgas_reth.Fallible.{done, Fallible-cases}
use ethgas_reth.Types.{
  B256, Address, U256, BlockNumber, Transaction, at_pending, tagged, SealedHeader,
}
use ethgas_reth.Pending
use ethgas_reth.Pending.{
  PendingBlocks, RpcBlock, full, hashes, tx_hash, get_latest_block, get_latest_block_receipts,
  get_latest_block_transaction, get_transactions_for_block, latest_block_number,
}
use ethgas_reth.Pending.Api.{get_block, get_block_receipts, get_transaction_by_index}
use ethgas_reth.Processor.State.{Arc}
use ethgas_reth.Runner.Provider.{Trie, BundleState}
use ethgas_reth.Runner.Overlay.{PendingOverlay, overlay_of, fresh}
use ethgas_reth.Runner.Pending.{Node, served_overlay, served_overlay_iff, IsOlder}
use ethgas_reth.Rpc.Eth.{
  EthApi, block_by_number, transaction_count_by_number, transaction_by_number_and_index,
  block_receipts, transactions_len, builder_balance, is_current, is_anchored,
}

-- The pending block by its four methods: one header, one list of transactions.
pub record IsOneBlock {S B : Type 0} (eth : EthApi) (p : PendingBlocks S B) (txs : List Transaction)
    : Type 0 where
  pub in_full :
      (block : RpcBlock) × ((block_by_number eth (some p) at_pending true).1 ≡ done (some block))
      × (block.header ≡ p.latest_header)
      × (block.transactions ≡ full txs)
  pub in_hashes :
      (block : RpcBlock) × ((block_by_number eth (some p) at_pending false).1 ≡ done (some block))
      × (block.header ≡ p.latest_header)
      × (block.transactions ≡ hashes (map tx_hash txs))
  pub counted : (transaction_count_by_number eth (some p) at_pending).1 ≡ done (some (length txs))
  pub indexed :
      (i : ℕ)
      → (transaction_by_number_and_index eth (some p) at_pending i).1 ≡ done (get_elem? txs i)
  pub receipts :
      (block_receipts eth (some p) (tagged at_pending)).1
      ≡ done (some (filter_map (λ tx. lookup (tx_hash tx) p.transaction_receipts) txs))

-- With a snapshot, the methods for the pending block agree: by hashes or in full it has the
-- latest header and one list of transactions, which is counted, indexed and given receipts as
-- that list.
pub pending-IsOneBlock :
    {S B : Type 0} (eth : EthApi) (p : PendingBlocks S B)
    → (txs : List Transaction) × IsOneBlock eth p txs
unfolding block_by_number transaction_count_by_number transaction_by_number_and_index block_receipts
    transactions_len get_block get_block_receipts get_transaction_by_index get_latest_block
    get_latest_block_receipts get_latest_block_transaction get_transactions_for_block
pending-IsOneBlock eth p =
    let txs = get_transactions_for_block p (latest_block_number p) in
    (
      txs,
      record {
        in_full = (get_latest_block p true, refl, refl, refl);
        in_hashes = (get_latest_block p false, refl, refl, refl);
        counted = ap (λ (n : ℕ). done (some n)) (length-map txs tx_hash);
        indexed = λ i. refl;
        receipts = refl;
      },
    )

module _ {trie : Trie} {EvmEnv Executed S : Type 0} (node : Node trie EvmEnv Executed)
    (eth : EthApi) (p : Arc (PendingBlocks S (BundleState trie))) where
  is_current_iff :
      (overlay : PendingOverlay (BundleState trie))
      → overlay.latest_header.header.number ≡ latest_block_number p.value
      → node.pending_block_number ≡ eth.pending_block_number
      → (is_current eth (some p.value) p.value ≡ true) ↔ IsOlder node overlay
  unfolding is_current
  is_current_iff overlay same_number same = elim (Fallible-cases eth.pending_block_number) [
    | inl (x, e) ↦ (λ _ n h. absurd (ground (arith, e, h, same)), λ _. rw e refl)
    | inr (none, e) ↦ (λ _ n h. absurd (ground (arith, e, h, same)), λ _. rw e refl)
    | inr (some number, e) ↦ (
      λ k n h. ground (arith, e, h, k, same, same_number),
      λ k. ground (arith, e, k number, same, same_number),
    )
  ]

  is_anchored_iff :
      (anchor : SealedHeader)
      → p.value.anchor ≡ some anchor
      → (is_anchored eth (some p.value) p.value ≡ true)
        ↔ ((n : BlockNumber) × (eth.block_number anchor.hash ≡ done (some n)))
  unfolding is_anchored
  is_anchored_iff anchor e = elim (Fallible-cases (eth.block_number anchor.hash)) [
    | inl (x, h) ↦ (λ k. absurd (ground (arith, e, h, k)), λ (n, k). absurd (ground (arith, h, k)))
    | inr (none, h) ↦
        (λ k. absurd (ground (arith, e, h, k)), λ (n, k). absurd (ground (arith, h, k)))
    | inr (some n, h) ↦ (λ _. (n, h), λ _. ground (arith, e, h))
  ]

  not_anchored : p.value.anchor ≡ none → is_anchored eth (some p.value) p.value ≡ false
  unfolding is_anchored
  not_anchored absent = ground (arith, absent)

module _ {trie : Trie} {EvmEnv Executed S : Type 0} (node : Node trie EvmEnv Executed)
    (eth : EthApi) (p : Arc (PendingBlocks S (BundleState trie))) (address : Address)
    (v : U256) where
  -- On one snapshot and the same answers of the node, the builder's balance is given exactly
  -- while the overlay of the snapshot is served, for the accounts that the snapshot lists.
  pub builder_balance_iff_served :
      node.pending_overlay ≡ overlay_of (some p)
      → node.pending_block_number ≡ eth.pending_block_number
      → ((hash : B256) → node.block_number hash ≡ eth.block_number hash)
      → (builder_balance eth (some p.value) address ≡ some v) ↔ (
          ((overlay : PendingOverlay (BundleState trie)) × (served_overlay node
              ≡ done (some overlay)))
          × (Pending.get_balance p.value address ≡ some v))
  unfolding builder_balance
  builder_balance_iff_served same_overlay same_engine same_chain =
      elim (Option-cases p.value.anchor) [
        | inl absent ↦ (
          λ b. absurd (ground (arith, b, not_anchored node eth p absent)),
          λ ((overlay, served), known).
              let (own, _, _) = (served_overlay_iff node overlay).0 served in
              absurd (ground (arith, own, same_overlay, absent)),
        )
        | inr (anchor, e) ↦
            let k : node.pending_overlay ≡ some (fresh p anchor) = same_overlay ∙ simp e refl in
            let current = is_current_iff node eth p (fresh p anchor) refl same_engine in
            let anchored = is_anchored_iff node eth p anchor e in
            (
              λ b.
                  let c : is_current eth (some p.value) p.value ≡ true = ground (arith, b) in
                  let a : is_anchored eth (some p.value) p.value ≡ true = ground (arith, b) in
                  let (n, found) = anchored.0 a in
                  (
                    (
                      fresh p anchor,
                      (served_overlay_iff node (fresh p anchor)).1
                          (k, current.0 c, (n, same_chain anchor.hash ∙ found)),
                    ),
                    ground (arith, b, c, a),
                  ),
              λ ((overlay, served), known).
                  let (own, older, (n, found)) = (served_overlay_iff node overlay).0 served in
                  let same : overlay ≡ fresh p anchor = ground (arith, own, k) in
                  let c : is_current eth (some p.value) p.value ≡ true =
                    (is_current_iff node eth p overlay (ground (arith, same)) same_engine).1
                      older in
                  let a : is_anchored eth (some p.value) p.value ≡ true =
                    anchored.1 (n, ground (arith, same, found, same_chain anchor.hash)) in
                  ground (arith, c, a, known),
            )
      ]
