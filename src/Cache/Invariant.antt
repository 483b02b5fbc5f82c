-- ===== src/Cache/Invariant.antt =====
-- What the operations of crates/execution/flashblocks/src/cache.rs keep, and what each leaves in
-- the cache.
use ethgas_reth.Base.{
  ℕ, ◌-◌, ◌≡◌, ◌⊎◌, ltb, ◌==◌, ◌&&◌, if◌then◌else◌, arith, List, [], ◌∷◌, none, some, Map, lookup,
  insert, retain, IsUnique, lookup-insert, lookup-remove, lookup-retain, insert-IsUnique,
  remove-IsUnique, retain-IsUnique, Option-cases, inl, inr,
}
use ethgas_reth.Types.{BlockNumber}
use ethgas_reth.Payload.{FlashBlock}
use ethgas_reth.Cache.{
  FlashblockCache, new, get, is_cacheable, insert_flashblock, drain, update_canonical, or_default,
}

pub record IsValid (c : FlashblockCache) : Type 0 where
  pub unique : IsUnique c.entries
  pub unique_within :
      (b : BlockNumber) (m : Map FlashBlock) → lookup b c.entries ≡ some m → IsUnique m
  pub filed :
      (b : BlockNumber) (i : ℕ) (fb : FlashBlock)
      → get c b i ≡ some fb
      → (fb.index ≡ i) × (fb.metadata.block_number ≡ b)

abbrev kept : FlashblockCache → FlashBlock → Map (Map FlashBlock)
kept c fb = retain (λ bn. ltb (fb.metadata.block_number - 5) bn) c.entries

abbrev filed_with : FlashblockCache → FlashBlock → Map FlashBlock
filed_with c fb = or_default (lookup fb.metadata.block_number (kept c fb))

-- A flashblock that is accepted is found at its place; what is cached for the blocks from four
-- below it on stays, and the rest goes. One that is refused changes nothing.
pub get-insert_flashblock :
    (c : FlashblockCache) (fb : FlashBlock) (b : BlockNumber) (i : ℕ)
    → get (insert_flashblock c fb).0 b i ≡ (
        if is_cacheable c fb.metadata.block_number
        then (if b == fb.metadata.block_number && i == fb.index
            then some fb
            else if ltb (fb.metadata.block_number - 5) b
            then get c b i
            else none)
        else get c b i)
unfolding get insert_flashblock lookup
get-insert_flashblock c fb b i = ground (
  arith,
  lookup-insert fb.metadata.block_number b (insert fb.index fb (filed_with c fb)) (kept c fb),
  lookup-insert fb.index i fb (filed_with c fb),
  lookup-retain (λ bn. ltb (fb.metadata.block_number - 5) bn) b c.entries,
  lookup-retain (λ bn. ltb (fb.metadata.block_number - 5) bn) fb.metadata.block_number c.entries,
)

pub get-drain :
    (c : FlashblockCache) (n b : BlockNumber) (i : ℕ)
    → get (drain c n).0 b i ≡ (if n == b then none else get c b i)
unfolding get drain
get-drain c n b i = ground (arith, lookup-remove n b c.entries)

pub get-update_canonical :
    (c : FlashblockCache) (n b : BlockNumber) (i : ℕ)
    → get (update_canonical c n) b i ≡ (if ltb n b then get c b i else none)
unfolding get update_canonical
get-update_canonical c n b i = ground (arith, lookup-retain (λ bn. ltb n bn) b c.entries)

pub new-IsValid : (n : BlockNumber) → IsValid (new n)
unfolding new get lookup
new-IsValid n = record { unique = tt; unique_within = λ b m e. cc; filed = λ b i fb e. cc }

module _ (c : FlashblockCache) (v : IsValid c) where
  insert_flashblock-IsUnique : (fb : FlashBlock) → IsUnique (insert_flashblock c fb).0.entries
  unfolding insert_flashblock
  insert_flashblock-IsUnique fb = ground (
    arith,
    v.unique,
    insert-IsUnique fb.metadata.block_number (insert fb.index fb (filed_with c fb)) (kept c fb)
        (retain-IsUnique _ c.entries v.unique),
  )

  filed_with-IsUnique : (fb : FlashBlock) → IsUnique (filed_with c fb)
  filed_with-IsUnique fb = elim (Option-cases (lookup fb.metadata.block_number (kept c fb))) [
    | inl e ↦ rw e tt
    | inr (m, e) ↦ rw e (
        v.unique_within fb.metadata.block_number m (
          ground (
            arith,
            e,
            lookup-retain (λ bn. ltb (fb.metadata.block_number - 5) bn) fb.metadata.block_number
                c.entries,
          )))
  ]

  insert_flashblock_maps :
      (fb : FlashBlock) (b : BlockNumber) (m : Map FlashBlock)
      → lookup b (insert_flashblock c fb).0.entries ≡ some m
      → (lookup b c.entries ≡ some m) ⊎ (m ≡ insert fb.index fb (filed_with c fb))
  unfolding insert_flashblock
  insert_flashblock_maps fb b m e = ground (
    arith,
    e,
    lookup-insert fb.metadata.block_number b (insert fb.index fb (filed_with c fb)) (kept c fb),
    lookup-retain (λ bn. ltb (fb.metadata.block_number - 5) bn) b c.entries,
  )

  insert_flashblock-IsUnique_within :
      (fb : FlashBlock) (b : BlockNumber) (m : Map FlashBlock)
      → lookup b (insert_flashblock c fb).0.entries ≡ some m
      → IsUnique m
  insert_flashblock-IsUnique_within fb b m e = elim (insert_flashblock_maps fb b m e) [
    | inl old ↦ v.unique_within b m old
    | inr new ↦ rw new (insert-IsUnique fb.index fb (filed_with c fb) (filed_with-IsUnique fb))
  ]

  insert_flashblock-IsValid : (fb : FlashBlock) → IsValid (insert_flashblock c fb).0
  insert_flashblock-IsValid fb = record {
    unique = insert_flashblock-IsUnique fb;
    unique_within = insert_flashblock-IsUnique_within fb;
    filed = λ b i g e. ground (arith, e, get-insert_flashblock c fb b i, v.filed b i g);
  }

  drain-IsValid : (n : BlockNumber) → IsValid (drain c n).0
  unfolding drain
  drain-IsValid n = record {
    unique = ground (arith, v.unique, remove-IsUnique n c.entries);
    unique_within = λ b m e. ground (arith, e, lookup-remove n b c.entries, v.unique_within b m);
    filed = λ b i g e. ground (arith, e, get-drain c n b i, v.filed b i g);
  }

  update_canonical-IsValid : (n : BlockNumber) → IsValid (update_canonical c n)
  unfolding update_canonical
  update_canonical-IsValid n = record {
    unique = retain-IsUnique _ c.entries v.unique;
    unique_within =
        λ b m e. ground (arith, e, lookup-retain (λ bn. ltb n bn) b c.entries, v.unique_within b m);
    filed = λ b i g e. ground (arith, e, get-update_canonical c n b i, v.filed b i g);
  }

-- A history of calls on the cache.
pub data Op : Type 0 where
  inserts : FlashBlock → Op
  drains updates : BlockNumber → Op

unfoldable pub step : FlashblockCache → Op → FlashblockCache
step c (inserts fb) = (insert_flashblock c fb).0
step c (drains n) = (drain c n).0
step c (updates n) = update_canonical c n

unfoldable pub run : FlashblockCache → List Op → FlashblockCache
unfolding step
run c [] = c
run c (o ∷ os) = run (step c o) os

pub step-IsValid : (c : FlashblockCache) (o : Op) → IsValid c → IsValid (step c o)
unfolding step
step-IsValid c (inserts fb) v = insert_flashblock-IsValid c v fb
step-IsValid c (drains n) v = drain-IsValid c v n
step-IsValid c (updates n) v = update_canonical-IsValid c v n

run-IsValid : (c : FlashblockCache) (os : List Op) → IsValid c → IsValid (run c os)
unfolding run
run-IsValid c [] v = v
run-IsValid c (o ∷ os) v = run-IsValid (step c o) os (step-IsValid c o v)

-- After any calls on a new cache, every flashblock is filed once, under its own block and index.
pub run-new-IsValid : (n : BlockNumber) (os : List Op) → IsValid (run (new n) os)
run-new-IsValid n os = run-IsValid (new n) os (new-IsValid n)
