-- ===== src/Simulator/Submission/Caching.antt =====
-- The reads that crates/execution/simulator/src/validation/mod.rs keeps between submissions.
use mathlib.Core.Path.{subst}
use ethgas_reth.Base.{ℕ, ◌≡◌, inl, inr, sym, ap, ◌∙◌, arith, ◌==◌, Bool-cases, Option, some}
use ethgas_reth.Fallible.{done}
use ethgas_reth.Types.{B256}
use ethgas_reth.Simulator.Types.{Output, SubmittedBlock, SealedHeader, BidTrace}
use ethgas_reth.Simulator.Header.{Headers, IsParent}
use ethgas_reth.Simulator.Submission.{
  Engine, Views, Request, Cache, cached_reads, update_cached_reads, check_before, execute_block,
  validate_message_against_block,
}
use ethgas_reth.Simulator.Submission.Outcomes.{Result-cases}
use ethgas_reth.Simulator.Submission.Admission.{check_before-IsAdmissible}
use ethgas_reth.Simulator.Submission.Accepted.{execute_block-IsExecution}

-- Which reads are of the state of a block. There are always the empty ones, two may be joined, and
-- an execution on the state adds reads of that state.
pub record ReadsOf (engine : Engine) : Type 1 where
  pub Of : B256 → Engine.CachedReads engine → Type 0
  pub of_none : (head : B256) → Of head engine.no_reads
  pub of_extend :
      (head : B256) (a b : Engine.CachedReads engine)
      → Of head a
      → Of head b
      → Of head (engine.extend_reads a b)
  pub of_execution :
      (block : SubmittedBlock) (provider : Engine.StateProvider engine)
      (reads reads' : Engine.CachedReads engine) (output : Output)
      (bal : Option (Engine.BlockAccessList engine)) (state : Engine.State engine)
      → engine.state_by_block_hash block.parent_hash ≡ done provider
      → Of block.parent_hash reads
      → engine.execute_one provider reads block ≡ inr (output, bal, state, reads')
      → Of block.parent_hash reads'

module _ (engine : Engine) (law : ReadsOf engine) where
  -- The reads that are kept are of the block that they are kept for.
  abbrev pub IsCoherent : Cache engine → Type 0
  IsCoherent cache = law.Of cache.0 cache.1

  cached_reads-Of :
      (cache : Cache engine) (head : B256)
      → IsCoherent cache
      → law.Of head (cached_reads engine cache head)
  unfolding cached_reads
  cached_reads-Of cache head c = elim (Bool-cases (cache.0 == head)) [
    | inl same ↦
        let e : cache.0 ≡ head = ground (arith, same) in
        rw (same, cached_reads) (subst (λ h. law.Of h cache.1) e c)
    | inr other ↦ rw (other, cached_reads) (law.of_none head)
  ]

  update_cached_reads-IsCoherent :
      (head : B256) (reads : Engine.CachedReads engine) (cache : Cache engine)
      → law.Of head reads
      → IsCoherent cache
      → IsCoherent (update_cached_reads engine head reads cache)
  unfolding update_cached_reads
  update_cached_reads-IsCoherent head reads cache r c = elim (Bool-cases (cache.0 == head)) [
    | inl same ↦
        let e : head ≡ cache.0 = ground (arith, same) in
        rw (same, update_cached_reads)
          (law.of_extend cache.0 cache.1 reads c (subst (λ h. law.Of h reads) e r))
    | inr other ↦ rw (other, update_cached_reads) r
  ]

  -- A provider that is asked for a header by hash gives one of that hash.
  abbrev pub GivesByHash : Headers → Type 0
  GivesByHash headers =
      (hash : B256) (header : SealedHeader)
      → headers.sealed_header_by_hash hash ≡ done (some header)
      → header.hash ≡ hash

  module _ (views : Views engine) (block : SubmittedBlock) (request : Request engine) where
    parent-hash :
        (window : ℕ) (parent : SealedHeader)
        → GivesByHash views.headers
        → IsParent window views.headers block.parent_hash parent
        → parent.hash ≡ block.parent_hash
    parent-hash window parent by_hash (latest, l, place) = elim place [
      | inl (same, here) ↦ ap (λ t. t.hash) here ∙ sym same
      | inr (other, found, near) ↦ by_hash block.parent_hash parent found
    ]

    -- Where the provider gives a header of the hash that it is asked for, a submission, accepted
    -- or not, leaves the kept reads of the block that they are kept for, if they were so when it
    -- took its reads and when it gave them back.
    pub validate_message_against_block-IsCoherent :
        (window : ℕ) (message : BidTrace)
        → GivesByHash views.headers
        → IsCoherent views.cache
        → IsCoherent views.cache_after
        → IsCoherent (validate_message_against_block engine window views block message request).1
    unfolding validate_message_against_block
    validate_message_against_block-IsCoherent window message by_hash c c' =
        elim (Result-cases (check_before engine window views block message request)) [
          | inr (e, refusal) ↦ rw (refusal, validate_message_against_block) c'
          | inl (parent, passed) ↦
              let reads = cached_reads engine views.cache parent.hash in
              let here =
                parent-hash window parent by_hash
                  (check_before-IsAdmissible engine views block request window message parent
                    passed).2 in
              elim (Result-cases (execute_block engine views.disallow_after block request reads)) [
                | inr (e, refusal) ↦ rw (passed, refusal, validate_message_against_block) c'
                | inl (result, ran) ↦
                    let (bal, state, p, e, _, _) =
                      execute_block-IsExecution engine views block request reads result ran in
                    let taken =
                      subst (λ h. law.Of h reads) here
                        (cached_reads-Of views.cache parent.hash c) in
                    let given =
                      law.of_execution block result.state_provider reads result.request_cache
                        result.output bal state p taken e in
                    rw (passed, ran, validate_message_against_block)
                      (update_cached_reads-IsCoherent parent.hash result.request_cache
                        views.cache_after
                        (subst (λ h. law.Of h result.request_cache) (sym here) given) c')
              ]
        ]
