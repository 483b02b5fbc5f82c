-- ===== src/Rpc/Logs.antt =====
-- `get_logs` of crates/execution/flashblocks/src/rpc/eth.rs for a range that ends at the pending
-- block: the logs of the chain, then those of the snapshot that the chain does not have yet.
use ethgas_reth.Base.{
  ℕ, true, false, not, List, [], ◌∷◌, ◌++◌, Option, none, some, keep, opt_eq, ◌≡◌, refl, arith, ◌⊎◌,
  inl, inr, Bool-cases, ◌||◌,
}
use ethgas_reth.Fallible.{done}
use ethgas_reth.Types.{Log, BlockNumberOrTag, at_pending}
use ethgas_reth.Pending
use ethgas_reth.Pending.{PendingBlocks}
use ethgas_reth.Pending.Api.{get_pending_logs}
use ethgas_reth.Rpc.Eth.{
  EthApi, LogFilter, range, is_same_log, was_fetched, get_logs, merged_logs, historical_logs,
}

-- No two logs with one block number and one index.
abbrev pub AreDistinct : List Log → Type 0
AreDistinct [] = Unit
AreDistinct (log ∷ logs) = (was_fetched logs log ≡ false) × AreDistinct logs

abbrev pub IsAmong : Log → List Log → Type 0
IsAmong log [] = ⊥
IsAmong log (other ∷ logs) = (other ≡ log) ⊎ IsAmong log logs

-- `result` is the logs of the chain with, behind them, the pending logs that they do not have.
pub record IsMerged (historical pending result : List Log) : Type 0 where
  pub kept : List Log
  pub appended : result ≡ historical ++ kept
  pub sound :
      (log : Log) → IsAmong log kept → IsAmong log pending × (was_fetched historical log ≡ false)
  pub complete :
      (log : Log) → IsAmong log pending → IsAmong log kept ⊎ (was_fetched historical log ≡ true)
  pub distinct : AreDistinct historical → AreDistinct pending → AreDistinct result

abbrev unfetched : List Log → List Log → List Log
unfetched historical = keep (λ log. not (was_fetched historical log))

opt_eq_comm : (a b : Option ℕ) → opt_eq a b ≡ opt_eq b a
opt_eq_comm none none = refl
opt_eq_comm none (some b) = refl
opt_eq_comm (some a) none = refl
opt_eq_comm (some a) (some b) = ground arith

is_same_log_comm : (a b : Log) → is_same_log a b ≡ is_same_log b a
is_same_log_comm a b =
    ground (arith, opt_eq_comm a.block_number b.block_number, opt_eq_comm a.log_index b.log_index)

was_fetched-append :
    (xs ys : List Log) (log : Log)
    → was_fetched (xs ++ ys) log ≡ (was_fetched xs log || was_fetched ys log)
was_fetched-append [] ys log = refl
was_fetched-append (x ∷ xs) ys log = ground (arith, was_fetched-append xs ys log)

-- What is left of a list has nothing that the whole does not have.
fetched-unfetched :
    (historical pending : List Log) (log : Log)
    → was_fetched pending log ≡ false
    → was_fetched (unfetched historical pending) log ≡ false
fetched-unfetched historical [] log e = refl
fetched-unfetched historical (p ∷ pending) log e =
    ground (arith, e, fetched-unfetched historical pending log)

unfetched-AreDistinct :
    (historical pending : List Log)
    → AreDistinct pending
    → AreDistinct (unfetched historical pending)
unfetched-AreDistinct historical [] d = tt
unfetched-AreDistinct historical (p ∷ pending) d = ground (
  arith,
  d.0,
  unfetched-AreDistinct historical pending d.1,
  fetched-unfetched historical pending p,
)

-- No log of the second list is in the first.
abbrev AreApart : List Log → List Log → Type 0
AreApart xs [] = Unit
AreApart xs (y ∷ ys) = (was_fetched xs y ≡ false) × AreApart xs ys

unfetched-AreApart :
    (historical pending : List Log) → AreApart historical (unfetched historical pending)
unfetched-AreApart historical [] = tt
unfetched-AreApart historical (p ∷ pending) =
    ground (arith, unfetched-AreApart historical pending, Bool-cases (was_fetched historical p))

tail-AreApart : (x : Log) (xs ys : List Log) → AreApart (x ∷ xs) ys → AreApart xs ys
tail-AreApart x xs [] a = tt
tail-AreApart x xs (y ∷ ys) a = ground (arith, a.0, tail-AreApart x xs ys a.1)

head-AreApart : (x : Log) (xs ys : List Log) → AreApart (x ∷ xs) ys → was_fetched ys x ≡ false
head-AreApart x xs [] a = refl
head-AreApart x xs (y ∷ ys) a = ground (arith, a.0, head-AreApart x xs ys a.1, is_same_log_comm x y)

append-AreDistinct :
    (xs ys : List Log) → AreDistinct xs → AreDistinct ys → AreApart xs ys → AreDistinct (xs ++ ys)
append-AreDistinct [] ys d e a = e
append-AreDistinct (x ∷ xs) ys d e a = (
  ground (arith, d.0, head-AreApart x xs ys a, was_fetched-append xs ys x),
  append-AreDistinct xs ys d.1 e (tail-AreApart x xs ys a),
)

unfetched-IsAmong :
    (historical pending : List Log) (log : Log)
    → IsAmong log (unfetched historical pending)
    → IsAmong log pending × (was_fetched historical log ≡ false)
unfetched-IsAmong historical [] log h = absurd h
unfetched-IsAmong historical (p ∷ pending) log h = elim (Bool-cases (was_fetched historical p)) [
  | inl fetched ↦
      let (among, new) = unfetched-IsAmong historical pending log (ground (arith, fetched, h)) in
      (inr among, new)
  | inr fresh ↦ elim (rest_of fresh) [
    | inl same ↦ (inl same, ground (arith, same, fresh))
    | inr later ↦
        let (among, new) = unfetched-IsAmong historical pending log later in (inr among, new)
  ]
]
  where
    rest_of :
        was_fetched historical p ≡ false → (p ≡ log) ⊎ IsAmong log (unfetched historical pending)
    rest_of fresh = ground (arith, fresh, h)

IsAmong-unfetched :
    (historical pending : List Log) (log : Log)
    → IsAmong log pending
    → IsAmong log (unfetched historical pending) ⊎ (was_fetched historical log ≡ true)
IsAmong-unfetched historical [] log h = absurd h
IsAmong-unfetched historical (p ∷ pending) log h = elim (Bool-cases (was_fetched historical p)) [
  | inl fetched ↦ elim h [
    | inl same ↦ inr (ground (arith, same, fetched))
    | inr later ↦ rw fetched (IsAmong-unfetched historical pending log later)
  ]
  | inr fresh ↦ elim h [
    | inl same ↦ inl (rw fresh (inl same))
    | inr later ↦ elim (IsAmong-unfetched historical pending log later) [
      | inl kept ↦ inl (rw fresh (inr kept))
      | inr old ↦ inr old
    ]
  ]
]

merged_logs-IsMerged :
    {S B : Type 0} (eth : EthApi) (p : PendingBlocks S B) (filter : LogFilter)
    (historical : List Log)
    → IsMerged historical
        (Pending.get_pending_logs p filter.matches)
        (merged_logs eth (some p) filter historical)
unfolding merged_logs get_pending_logs
merged_logs-IsMerged eth p filter historical =
    let pending = Pending.get_pending_logs p filter.matches in
    record {
      kept = unfetched historical pending;
      appended = refl;
      sound = unfetched-IsAmong historical pending;
      complete = IsAmong-unfetched historical pending;
      distinct = λ d e.
          append-AreDistinct historical (unfetched historical pending) d
            (unfetched-AreDistinct historical pending e) (unfetched-AreApart historical pending);
    }

-- A range that ends at the pending block gives the logs of the chain and, behind them, exactly
-- the pending logs with a block number and index that none of those has; where neither list has
-- two logs with the same pair, the result has none. It is so for every answer to the query for
-- the chain's logs, which is empty when the range starts at the pending block.
pub get_logs-IsMerged :
    {S B : Type 0} (eth : EthApi) (p : PendingBlocks S B) (filter : LogFilter)
    (from_block : Option BlockNumberOrTag) (historical : List Log)
    → filter.block_option ≡ range from_block (some at_pending)
    → historical_logs eth (some p) from_block filter ≡ done historical
    → (result : List Log) × ((get_logs eth (some p) filter).1 ≡ done result)
      × IsMerged historical (Pending.get_pending_logs p filter.matches) result
unfolding get_logs
get_logs-IsMerged eth p filter from_block historical e h = (
  merged_logs eth (some p) filter historical,
  ground (arith, e, h),
  merged_logs-IsMerged eth p filter historical,
)
