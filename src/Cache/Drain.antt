-- ===== src/Cache/Drain.antt =====
-- `drain` of crates/execution/flashblocks/src/cache.rs: what is replayed, and in which order.
use ethgas_reth.Base.{
  ℕ, ◌≡◌, refl, sym, ◌∙◌, arith, some, Map, lookup, values, Option-cases, inl, inr,
}
use ethgas_reth.Types.{BlockNumber}
use ethgas_reth.Payload.{FlashBlock}
use ethgas_reth.Cache.{FlashblockCache, get, drain}
use ethgas_reth.Cache.Sorting.{
  find, IsAscending, eq_of_find, find-values, find-sort_by_index, sort_by_index-IsAscending,
}
use ethgas_reth.Cache.Invariant.{IsValid}

module _ (c : FlashblockCache) (v : IsValid c) (n : BlockNumber) where
  filed :
      (m : Map FlashBlock)
      → lookup n c.entries ≡ some m
      → (j : ℕ) (fb : FlashBlock) → lookup j m ≡ some fb
      → fb.index ≡ j
  unfolding get
  filed m e j fb h = ground (arith, e, h, v.filed n j fb)

  -- The flashblocks of one block that a valid cache drains rise strictly in index, and are those
  -- that the cache held for the block.
  pub drain-IsAscending : IsAscending (drain c n).1 × ((i : ℕ) → find i (drain c n).1 ≡ get c n i)
  unfolding drain get find
  drain-IsAscending = elim (Option-cases (lookup n c.entries)) [
    | inl e ↦ rw (e, drain, get) (tt, λ i. refl)
    | inr (m, e) ↦
        rw (e, drain, get)
          (
            sort_by_index-IsAscending (values m)
                (find-values 0 m (v.unique_within n m e) (filed m e)).1,
            λ i.
                let (found, distinct) = find-values i m (v.unique_within n m e) (filed m e) in
                find-sort_by_index i (values m) distinct ∙ found,
          )
  ]

-- The order of iteration over the map does not show: two valid caches with the same flashblocks
-- for a block drain them as the same list.
pub drain_congr :
    (c d : FlashblockCache) (n : BlockNumber)
    → IsValid c
    → IsValid d
    → ((i : ℕ) → get c n i ≡ get d n i)
    → (drain c n).1 ≡ (drain d n).1
drain_congr c d n v w same =
    let (up, found) = drain-IsAscending c v n in
    let (up', found') = drain-IsAscending d w n in
    eq_of_find (drain c n).1 (drain d n).1 up up' (λ i. found i ∙ same i ∙ sym (found' i))
