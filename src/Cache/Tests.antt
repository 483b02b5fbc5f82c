-- ===== src/Cache/Tests.antt =====
-- Runs of crates/execution/flashblocks/src/cache.rs on sample flashblocks.
use ethgas_reth.Base.{
  ℕ, ◌≡◌, ◌↔◌, ◌≤◌, ◌<◌, ◌+◌, ◌-◌, ◌&&◌, ◌==◌, ltb, refl, arith, Bool, true, false, List, [], ◌∷◌,
  Option, some, none, if◌then◌else◌, u64_mod,
}
use ethgas_reth.Cache
use ethgas_reth.Cache.Sorting.{IsAscending, find}
use ethgas_reth.Cache.Invariant.{
  Op, inserts, run, step, IsValid, get-insert_flashblock, run-new-IsValid,
}
use ethgas_reth.Cache.Drain.{drain-IsAscending, drain_congr}
use ethgas_reth.Cache.Bounds.{is_cacheable_iff, run-new-len-le}
use ethgas_reth.Samples.{first_of_11, second_of_11, first_of_12}

-- The second flashblock of block 11 comes before the first, and then one of block 12.
abbrev arrivals : List Op
arrivals = inserts second_of_11 ∷ inserts first_of_11 ∷ inserts first_of_12 ∷ []

abbrev filled : Cache.FlashblockCache
filled = run (Cache.new 10) arrivals

filled_drains : (Cache.drain filled 11).1 ≡ first_of_11 ∷ second_of_11 ∷ []
unfolding run step Cache.new Cache.insert_flashblock Cache.drain ethgas_reth.Base.lookup
    ethgas_reth.Base.insert ethgas_reth.Base.retain ethgas_reth.Cache.Sorting.sort_by_index
filled_drains = refl

get-insert_flashblock_example : Cache.get (Cache.insert_flashblock filled first_of_12).0 11 1 ≡ (
    if Cache.is_cacheable filled 12
    then (if (11 == 12) && (1 == 0)
        then some first_of_12
        else if ltb 7 11
        then Cache.get filled 11 1
        else none)
    else Cache.get filled 11 1)
get-insert_flashblock_example = get-insert_flashblock filled first_of_12 11 1

run-new-IsValid_example : IsValid filled
run-new-IsValid_example = run-new-IsValid 10 arrivals

drain-IsAscending_example :
    IsAscending (Cache.drain filled 11).1
    × ((i : ℕ) → find i (Cache.drain filled 11).1 ≡ Cache.get filled 11 i)
drain-IsAscending_example = drain-IsAscending filled (run-new-IsValid 10 arrivals) 11

-- The same flashblocks, in another order.
abbrev other_arrivals : List Op
other_arrivals = inserts first_of_11 ∷ inserts first_of_12 ∷ inserts second_of_11 ∷ []

abbrev refilled : Cache.FlashblockCache
refilled = run (Cache.new 10) other_arrivals

refilled-eq-filled : (i : ℕ) → Cache.get filled 11 i ≡ Cache.get refilled 11 i
unfolding run step Cache.new Cache.insert_flashblock Cache.get ethgas_reth.Base.lookup
    ethgas_reth.Base.insert ethgas_reth.Base.retain
refilled-eq-filled i = ground arith

drain_congr_example : (Cache.drain filled 11).1 ≡ (Cache.drain refilled 11).1
drain_congr_example =
    drain_congr filled refilled 11 (run-new-IsValid 10 arrivals) (run-new-IsValid 10 other_arrivals)
      refilled-eq-filled

is_cacheable_iff_example : (Cache.is_cacheable (Cache.new 10) 16 ≡ true) ↔ (16 ≤ 10 + 6)
unfolding Cache.new
is_cacheable_iff_example = is_cacheable_iff (Cache.new 10) 10 16 refl (omega arith)

run-new-len-le_example : Cache.len filled ≤ 6
unfolding Cache.new run step Cache.insert_flashblock
run-new-len-le_example = run-new-len-le 10 arrivals (omega arith, (omega arith, (omega arith, tt)))
