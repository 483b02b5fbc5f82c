-- ===== src/Simulator/Submission.antt =====
-- `validate_message_against_block` and `execute_block` of
-- crates/execution/simulator/src/validation/mod.rs, with the cached reads between submissions.
pub mod Outcomes
pub mod Admission
pub mod Accepted
pub mod Caching
mod Tests
use ethgas_reth.Base.{
  ℕ, ◌⊎◌, inl, inr, ◌==◌, ◌&&◌, not, ltb, if◌then◌else◌, Bool, true, false, List, Option, none,
  some,
}
use ethgas_reth.Fallible.{Fallible}
use ethgas_reth.Types.{B256, Address}
use ethgas_reth.Simulator.Types.{
  SubmittedBlock, SealedHeader, BidTrace, Output, Chain, Result, ok, err, consensus,
  provider_failed, execution, ConsensusError, body_state_root_diff, block_too_large,
  BlockExecutionError, ◌>>=◌, ◌>>◌, map_err, check_with,
}
use ethgas_reth.Simulator.Header.{Headers, validate_message_against_header, get_parent_header}
use ethgas_reth.Simulator.Disallowed.{Disallow, check_parties, check_accounts}
use ethgas_reth.Simulator.Constraint.{
  PostBlock, ListedTransaction, validate_inclusion_list_constraint,
}
use ethgas_reth.Simulator.Payment.{ensure_payment, ensure_merged_payment}

-- `?` on what an execution gives.
abbrev pub executed {ℓ} : {A : Type ℓ} → BlockExecutionError ⊎ A → Result A
executed (inl e) = err (execution e)
executed (inr a) = ok a

-- The payment check that the kind of block calls for.
abbrev pub check_payment : Chain → SubmittedBlock → Output → BidTrace → Option ℕ → Result (Unit {0})
check_payment chain block output message none = ensure_payment chain block output message
check_payment chain block output message (some ix) =
    ensure_merged_payment chain block output message ix

abbrev pub check_state_root : SubmittedBlock → B256 → Result (Unit {0})
check_state_root block root =
    if root == block.state_root
    then ok tt
    else err (consensus (body_state_root_diff root block.state_root))

-- reth and revm: the consensus checks, the state of the parent, execution and the state root.
pub record Engine : Type 1 where
  pub StateProvider : Type 0
  pub CachedReads : Type 0
  pub State : Type 0
  pub BlockAccessList : Type 0
  pub HashedPostState : Type 0
  pub no_reads : CachedReads
  pub extend_reads : CachedReads → CachedReads → CachedReads
  pub validate_header : SubmittedBlock → Option ConsensusError
  pub validate_block_pre_execution : SubmittedBlock → Option ConsensusError
  pub validate_header_against_parent : SubmittedBlock → SealedHeader → Option ConsensusError
  pub validate_block_post_execution : SubmittedBlock → Output → Option B256 → Option ConsensusError
  pub state_by_block_hash : B256 → Fallible StateProvider
  -- The output, the rebuilt access list, the state, and the reads with those of the run.
  pub execute_one :
      StateProvider
      → CachedReads
      → SubmittedBlock
      → BlockExecutionError ⊎ (Output × Option BlockAccessList × State × CachedReads)
  pub validate_gas_limit : BlockAccessList → (gas_limit : ℕ) → Option ConsensusError
  pub compute_hash : BlockAccessList → B256
  pub accounts : State → List Address
  pub post : PostBlock
  pub evm_for_block : State → SubmittedBlock → Option (PostBlock.Evm post)
  pub hashed_post_state : StateProvider → Output → Fallible HashedPostState
  pub state_root : StateProvider → HashedPostState → Fallible B256

module _ (engine : Engine) where
  open engine use {
    StateProvider, CachedReads, State, BlockAccessList, no_reads, extend_reads, validate_header,
    validate_block_pre_execution, validate_header_against_parent, validate_block_post_execution,
    state_by_block_hash, execute_one, validate_gas_limit, compute_hash, accounts, post,
    evm_for_block, hashed_post_state, state_root,
  }

  -- The reads that are kept, with the hash of the block that they were made on.
  abbrev pub Cache : Type 0
  Cache = B256 × CachedReads

  unfoldable pub cached_reads : Cache → B256 → CachedReads
  cached_reads cache head = if cache.0 == head then cache.1 else no_reads

  unfoldable pub update_cached_reads : B256 → CachedReads → Cache → Cache
  update_cached_reads head reads cache =
      if cache.0 == head then (cache.0, extend_reads cache.1 reads) else (head, reads)

  pub record ExecutedBlock : Type 0 where
    pub output : Output
    pub request_cache : CachedReads
    pub state_provider : StateProvider
    pub block_access_list_hash : Option B256

  -- What the request says of the checks.
  pub record Request : Type 0 where
    pub apply_blacklist : Bool
    pub inclusion_list : Option (List ListedTransaction)
    pub base_payment_tx_index : Option ℕ

  abbrev check_access_list : Option BlockAccessList → ℕ → Option ConsensusError
  check_access_list none gas_limit = none
  check_access_list (some list) gas_limit = validate_gas_limit list gas_limit

  abbrev pub access_list_hash : Option BlockAccessList → Option B256
  access_list_hash none = none
  access_list_hash (some list) = some (compute_hash list)

  -- Behind the execution, the checks on what it read and on what it leaves out.
  abbrev pub check_execution :
      Disallow → SubmittedBlock → Request → Option BlockAccessList → State → Result (Unit {0})
  check_execution disallow block request bal state =
      check_with (check_access_list bal block.gas_limit) consensus
      >> (check_accounts disallow request.apply_blacklist (accounts state)
          >> validate_inclusion_list_constraint post block.transactions (evm_for_block state block)
              request.inclusion_list)

  unfoldable pub execute_block :
      Disallow → SubmittedBlock → Request → CachedReads → Result ExecutedBlock
  execute_block disallow block request reads =
      map_err (state_by_block_hash block.parent_hash) provider_failed >>= (λ state_provider.
        executed (execute_one state_provider reads block) >>= (λ (output, bal, state, reads').
          check_execution disallow block request bal state
          >> ok (record {
            output = output;
            request_cache = reads';
            state_provider = state_provider;
            block_access_list_hash = access_list_hash bal;
          })))

  -- What one validation reads of what others change: the disallow list, which is queried before and
  -- after the execution, the headers, the chain at the payment, and the cache at each lock.
  pub record Views : Type 0 where
    pub disallow : Disallow
    pub disallow_after : Disallow
    pub headers : Headers
    pub chain : Chain
    pub cache : Cache
    pub cache_after : Cache

  -- The checks before the execution, up to the parent.
  unfoldable pub check_before :
      (window : ℕ) → Views → SubmittedBlock → BidTrace → Request → Result SealedHeader
  check_before window views block message request =
      validate_message_against_header block message
      >> (check_with (validate_header block) consensus
          >> (check_with (validate_block_pre_execution block) consensus
              >> (check_parties views.disallow request.apply_blacklist block message
                  >> (get_parent_header window views.headers block.parent_hash >>= (λ parent.
                      check_with (validate_header_against_parent block parent) consensus
                      >> ok parent)))))

  -- The checks behind the execution.
  unfoldable pub check_after :
      Chain → SubmittedBlock → BidTrace → Request → ExecutedBlock → Result (Unit {0})
  check_after chain block message request done =
      check_with (validate_block_post_execution block done.output done.block_access_list_hash)
        consensus
      >> (check_payment chain block done.output message request.base_payment_tx_index
          >> (map_err (hashed_post_state done.state_provider done.output) provider_failed
              >>= (λ hashed.
                  map_err (state_root done.state_provider hashed) provider_failed
                  >>= check_state_root block)))

  -- The verdict, and the cache that is left.
  unfoldable pub validate_message_against_block :
      (window : ℕ) → Views → SubmittedBlock → BidTrace → Request → Result (Unit {0}) × Cache
  unfolding check_before cached_reads execute_block update_cached_reads check_after
  validate_message_against_block window views block message request =
      elim (check_before window views block message request) as (λ _. Result (Unit {0}) × Cache) [
        | err e ↦ (err e, views.cache_after)
        | ok parent ↦
            elim (execute_block views.disallow_after block request
                (cached_reads views.cache parent.hash))
              as (λ _. Result (Unit {0}) × Cache) [
                | err e ↦ (err e, views.cache_after)
                | ok done ↦ (
                  check_after views.chain block message request done,
                  update_cached_reads parent.hash done.request_cache views.cache_after,
                )
              ]
      ]
