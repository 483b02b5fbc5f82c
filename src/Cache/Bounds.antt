-- ===== src/Cache/Bounds.antt =====
-- How much crates/execution/flashblocks/src/cache.rs can hold.
use ethgas_reth.Base.{
  ◌+◌, ◌≤◌, ◌<◌, ◌≡◌, ◌↔◌, arith, true, List, [], ◌∷◌, some, none, u64_mod, length_le_of_window,
  Map, lookup, lookup-remove, lookup-retain, lookup-insert, ltb, refl, retain, insert, ◌-◌,
}
use ethgas_reth.Types.{BlockNumber}
use ethgas_reth.Payload.{FlashBlock}
use ethgas_reth.Cache.{
  FlashblockCache, new, is_cacheable, insert_flashblock, drain, update_canonical, len, or_default,
}
use ethgas_reth.Cache.Invariant.{
  IsValid, Op, inserts, drains, updates, step, run, new-IsValid, step-IsValid,
}

-- With a canonical block that is more than six below the range of `u64`, a flashblock is eligible
-- exactly up to six blocks above it.
pub is_cacheable_iff :
    (c : FlashblockCache) (k b : BlockNumber)
    → c.latest_canonical ≡ some k
    → k + 6 < u64_mod
    → (is_cacheable c b ≡ true) ↔ (b ≤ k + 6)
unfolding is_cacheable
is_cacheable_iff c k b e h = ground arith

-- Every cached block is one of the six above the canonical block.
abbrev pub IsWindowed : FlashblockCache → Type 0
IsWindowed c =
    (k : BlockNumber) × (c.latest_canonical ≡ some k)
    × ((b : BlockNumber) (m : Map FlashBlock) → lookup b c.entries ≡ some m → (k < b) × (b ≤ k + 6))

-- A flashblock is inserted only above the canonical block, and that does not move down.
abbrev pub IsForward : FlashblockCache → Op → Type 0
IsForward c (inserts fb) = elim c.latest_canonical [
  | none ↦ Unit
  | some k ↦ k < fb.metadata.block_number
]
IsForward c (drains n) = Unit
IsForward c (updates n) = elim c.latest_canonical [ none ↦ Unit | some k ↦ k ≤ n ]

abbrev pub AreForward : FlashblockCache → List Op → Type 0
AreForward c [] = Unit
AreForward c (o ∷ os) = IsForward c o × AreForward (step c o) os

step-IsWindowed :
    (c : FlashblockCache) (o : Op) → IsForward c o → IsWindowed c → IsWindowed (step c o)
unfolding step insert_flashblock drain update_canonical
step-IsWindowed c (inserts fb) f (k, e, w) = (
  k,
  ground arith,
  λ b m h.
      let kept = retain (λ bn. ltb (fb.metadata.block_number - 5) bn) c.entries in
      ground (
        arith,
        h,
        f,
        w b m,
        lookup-insert fb.metadata.block_number b
            (insert fb.index fb (or_default (lookup fb.metadata.block_number kept))) kept,
        lookup-retain (λ bn. ltb (fb.metadata.block_number - 5) bn) b c.entries,
      ),
)
step-IsWindowed c (drains n) f (k, e, w) =
    (k, ground arith, λ b m h. ground (arith, h, w b m, lookup-remove n b c.entries))
step-IsWindowed c (updates n) f (k, e, w) =
    (n, refl, λ b m h. ground (arith, h, f, w b m, lookup-retain (λ bn. ltb n bn) b c.entries))

new-IsWindowed : (n : BlockNumber) → IsWindowed (new n)
unfolding new lookup
new-IsWindowed n = (n, refl, λ b m e. cc)

run-len :
    (c : FlashblockCache) (os : List Op)
    → IsValid c
    → IsWindowed c
    → AreForward c os
    → len (run c os) ≤ 6
unfolding run len
run-len c [] v (k, e, w) f = length_le_of_window k 6 c.entries v.unique w
run-len c (o ∷ os) v w f =
    run-len (step c o) os (step-IsValid c o v) (step-IsWindowed c o f.0 w) f.1

-- While each flashblock that is inserted is above the cache's canonical block, and the canonical
-- block is never set to a lower one, a cache that started new never holds more than six blocks.
pub run-new-len-le :
    (n : BlockNumber) (os : List Op) → AreForward (new n) os → len (run (new n) os) ≤ 6
run-new-len-le n os f = run-len (new n) os (new-IsValid n) (new-IsWindowed n) f
