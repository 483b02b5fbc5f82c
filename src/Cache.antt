-- ===== src/Cache.antt =====
-- crates/execution/flashblocks/src/cache.rs: flashblocks that wait for their canonical block.
pub mod Sorting
pub mod Invariant
pub mod Bounds
pub mod Drain
mod Tests
use ethgas_reth.Base.{
  ℕ, ◌+◌, ◌-◌, ◌≡◌, leb, ltb, if◌then◌else◌, Bool, true, false, List, [], ◌∷◌, Option, none, some,
  map, length, Map, is_some, is_empty, lookup, insert, remove, retain, values, add_u64,
}
use ethgas_reth.Types.{BlockNumber}
use ethgas_reth.Payload.{FlashBlock}
use Sorting.{sort_by_index}

abbrev pub max_cache_ahead_blocks : ℕ
max_cache_ahead_blocks = 5

pub record FlashblockCache : Type 0 where
  pub entries : Map (Map FlashBlock)
  pub latest_canonical : Option BlockNumber

unfoldable pub new : BlockNumber → FlashblockCache
new latest_canonical = record { entries = []; latest_canonical = some latest_canonical }

-- The cached flashblock with this block number and index.
unfoldable pub get : FlashblockCache → BlockNumber → ℕ → Option FlashBlock
get c block_number index = elim (lookup block_number c.entries) [
  | none ↦ none
  | some by_index ↦ lookup index by_index
]

unfoldable pub has_flashblock : FlashblockCache → BlockNumber → ℕ → Bool
unfolding get
has_flashblock c block_number index = is_some (get c block_number index)

unfoldable pub is_cacheable : FlashblockCache → BlockNumber → Bool
is_cacheable c block_number = elim c.latest_canonical [
  | none ↦ false
  | some canonical ↦ leb block_number (add_u64 (add_u64 canonical max_cache_ahead_blocks) 1)
]

-- `entry(k).or_default()`
abbrev pub or_default {ℓ} : {V : Type ℓ} → Option (Map V) → Map V
or_default none = []
or_default (some m) = m

-- `u64::saturating_sub` is the subtraction on ℕ.
abbrev pub store : FlashBlock → Map (Map FlashBlock) → Map (Map FlashBlock)
store fb entries =
    insert fb.metadata.block_number
      (insert fb.index fb (or_default (lookup fb.metadata.block_number entries))) entries

unfoldable pub insert_flashblock : FlashblockCache → FlashBlock → FlashblockCache × Bool
unfolding is_cacheable
insert_flashblock c fb =
    let block_number = fb.metadata.block_number in
    if is_cacheable c block_number
    then (
      record c {
        entries =
            store fb (retain (λ bn. ltb (block_number - max_cache_ahead_blocks) bn) c.entries);
      },
      true,
    )
    else (c, false)

unfoldable pub drain : FlashblockCache → BlockNumber → FlashblockCache × List FlashBlock
drain c block_number = elim (lookup block_number c.entries) [
  | none ↦ (c, [])
  | some by_index ↦
      (record c { entries = remove block_number c.entries }, sort_by_index (values by_index))
]

unfoldable pub update_canonical : FlashblockCache → BlockNumber → FlashblockCache
update_canonical c block_number = record {
  entries = retain (λ bn. ltb block_number bn) c.entries;
  latest_canonical = some block_number;
}

unfoldable pub len : FlashblockCache → ℕ
len c = length c.entries

unfoldable pub is_empty_cache : FlashblockCache → Bool
is_empty_cache c = is_empty c.entries

sum_lengths : Map (Map FlashBlock) → ℕ
sum_lengths [] = 0
sum_lengths ((bn, by_index) ∷ m) = length by_index + sum_lengths m

unfoldable pub total_flashblocks : FlashblockCache → ℕ
unfolding sum_lengths
total_flashblocks c = sum_lengths c.entries
