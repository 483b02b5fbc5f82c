-- ===== src/Simulator/Submission/Accepted.antt =====
-- What a submission that `validate_message_against_block` of
-- crates/execution/simulator/src/validation/mod.rs accepts is known to fulfil.
use mathlib.Core.Path.{subst}
use ethgas_reth.Base.{ℕ, ◌≡◌, inl, inr, ap, ◌∙◌, arith, true, List, Option, some}
use ethgas_reth.Fallible.{done}
use ethgas_reth.Types.{B256}
use ethgas_reth.Simulator.Types.{
  SubmittedBlock, SealedHeader, BidTrace, Output, ok, provider_failed, map_err, bind-eq-ok,
  then-eq-ok,
}
use ethgas_reth.Simulator.Disallowed.{enforced, NoneOf, check_accounts, check_accounts-NoneOf}
use ethgas_reth.Simulator.Constraint.{ListedTransaction, validate_inclusion_list_constraint}
use ethgas_reth.Simulator.Constraint.Soundness.{
  AllSatisfied, validate_inclusion_list_constraint-AllSatisfied,
}
use ethgas_reth.Simulator.Submission.{
  Engine, Views, Request, ExecutedBlock, executed, cached_reads, execute_block, check_execution,
  check_before, access_list_hash, check_payment, check_state_root, check_after,
  validate_message_against_block,
}
use ethgas_reth.Simulator.Submission.Outcomes.{
  IsPaid, check_payment-IsPaid, map_err-eq-ok, executed-eq-ok, Result-cases, ok-injective,
  check_state_root-eq-ok,
}
use ethgas_reth.Simulator.Submission.Admission.{IsAdmissible, check_before-IsAdmissible}

module _ (engine : Engine) (views : Views engine) (block : SubmittedBlock)
    (request : Request engine) where
  open engine use {StateProvider, CachedReads, State, BlockAccessList}

  -- What is known of an execution that was let through.
  abbrev pub IsExecution : CachedReads → ExecutedBlock engine → Type 0
  IsExecution reads result =
      (bal : Option BlockAccessList) × (state : State) × (engine.state_by_block_hash
          block.parent_hash
        ≡ done result.state_provider)
      × (engine.execute_one result.state_provider reads block
          ≡ inr (result.output, bal, state, result.request_cache))
      × ((enforced views.disallow_after request.apply_blacklist ≡ true)
          → NoneOf views.disallow_after (engine.accounts state))
      × ((txs : List ListedTransaction)
          → request.inclusion_list ≡ some txs
          → AllSatisfied engine.post block.transactions txs)

  check_execution-eq-ok :
      (bal : Option BlockAccessList) (state : State)
      → check_execution engine views.disallow_after block request bal state ≡ ok tt
      → ((enforced views.disallow_after request.apply_blacklist ≡ true)
          → NoneOf views.disallow_after (engine.accounts state))
        × ((txs : List ListedTransaction)
            → request.inclusion_list ≡ some txs
            → AllSatisfied engine.post block.transactions txs)
  check_execution-eq-ok bal state h =
      let (_, h1) = then-eq-ok _ _ tt h in
      let (clean, h2) =
        then-eq-ok
          (check_accounts views.disallow_after request.apply_blacklist (engine.accounts state))
          (validate_inclusion_list_constraint engine.post block.transactions
            (engine.evm_for_block state block) request.inclusion_list)
          tt h1 in
      (
        λ on.
            check_accounts-NoneOf views.disallow_after request.apply_blacklist
              (engine.accounts state) on clean,
        λ txs given.
            validate_inclusion_list_constraint-AllSatisfied engine.post block.transactions
              (engine.evm_for_block state block) txs (rw (given) at h2),
      )

  ran-IsExecution :
      (reads reads' : CachedReads) (provider : StateProvider) (output : Output)
      (bal : Option BlockAccessList) (state : State) (hash : Option B256)
      → engine.state_by_block_hash block.parent_hash ≡ done provider
      → engine.execute_one provider reads block ≡ inr (output, bal, state, reads')
      → check_execution engine views.disallow_after block request bal state ≡ ok tt
      → IsExecution reads (record {
        output = output;
        request_cache = reads';
        state_provider = provider;
        block_access_list_hash = hash;
      })
  ran-IsExecution reads reads' provider output bal state hash p e checked =
      let (clean, listed) = check_execution-eq-ok bal state checked in
      (bal, state, p, e, clean, listed)

  pub execute_block-IsExecution :
      (reads : CachedReads) (result : ExecutedBlock engine)
      → execute_block engine views.disallow_after block request reads ≡ ok result
      → IsExecution reads result
  unfolding execute_block
  execute_block-IsExecution reads result h =
      let (provider, p, h1) =
        bind-eq-ok (map_err (engine.state_by_block_hash block.parent_hash) provider_failed) _ result
          h in
      let ((output, bal, state, reads'), e, h2) =
        bind-eq-ok (executed (engine.execute_one provider reads block)) _ result h1 in
      let (checked, same) =
        then-eq-ok (check_execution engine views.disallow_after block request bal state) _ result
          h2 in
      let ran =
        ran-IsExecution reads reads' provider output bal state (access_list_hash engine bal)
          (map_err-eq-ok (engine.state_by_block_hash block.parent_hash) provider p)
          (executed-eq-ok (engine.execute_one provider reads block) (output, bal, state, reads') e)
          checked in
      subst (λ x. IsExecution reads x) (ok-injective same) ran

  -- The state behind the execution has the root of the header.
  abbrev pub HasStateRoot : ExecutedBlock engine → Type 0
  HasStateRoot result =
      (hashed : engine.HashedPostState) × (engine.hashed_post_state result.state_provider
          result.output
        ≡ done hashed)
      × (engine.state_root result.state_provider hashed ≡ done block.state_root)

  check_after-IsPaid :
      (message : BidTrace) (result : ExecutedBlock engine)
      → check_after engine views.chain block message request result ≡ ok tt
      → IsPaid views.chain block result.output message request.base_payment_tx_index
        × HasStateRoot result
  unfolding check_after
  check_after-IsPaid message result h =
      let (_, h1) = then-eq-ok _ _ tt h in
      let (paid, h2) =
        then-eq-ok
          (check_payment views.chain block result.output message request.base_payment_tx_index) _ tt
          h1 in
      let (hashed, g, h3) =
        bind-eq-ok
          (map_err (engine.hashed_post_state result.state_provider result.output) provider_failed) _
          tt h2 in
      let (root, r, h4) =
        bind-eq-ok (map_err (engine.state_root result.state_provider hashed) provider_failed)
          (check_state_root block) tt h3 in
      (
        check_payment-IsPaid views.chain block result.output message request.base_payment_tx_index
            paid,
        (
          hashed,
          map_err-eq-ok (engine.hashed_post_state result.state_provider result.output) hashed g,
          map_err-eq-ok (engine.state_root result.state_provider hashed) root r
              ∙ ap (λ t. done t) (check_state_root-eq-ok block root h4),
        ),
      )

  -- An accepted submission is admissible, its execution was let through, it pays and has its root.
  abbrev pub IsAccepted : ℕ → BidTrace → Type 0
  IsAccepted window message =
      (parent : SealedHeader) × (result : ExecutedBlock engine) × IsAdmissible engine views block
        request window message parent
      × IsExecution (cached_reads engine views.cache parent.hash) result
      × IsPaid views.chain block result.output message request.base_payment_tx_index
      × HasStateRoot result

  -- A submission that is accepted carries the bid's hash, parent hash, gas limit and gas used;
  -- its parent is the latest header or at most the window below it; where the disallow list is
  -- enforced, no party of the block and no account that the execution read is on it when it is
  -- looked up; the execution succeeded on the parent's state; each transaction of the inclusion
  -- list is in the block or gave no outcome on some state of the EVM; the bid is paid, by the
  -- rule of its kind of block; and the state behind it has the header's root.
  pub validate_message_against_block-IsAccepted :
      (window : ℕ) (message : BidTrace)
      → (validate_message_against_block engine window views block message request).0 ≡ ok tt
      → IsAccepted window message
  unfolding validate_message_against_block
  validate_message_against_block-IsAccepted window message h =
      elim (Result-cases (check_before engine window views block message request)) [
        | inr (e, refusal) ↦ absurd (ground (arith, refusal, h))
        | inl (parent, passed) ↦
            let reads = cached_reads engine views.cache parent.hash in
            elim (Result-cases (execute_block engine views.disallow_after block request reads)) [
              | inr (e, refusal) ↦ absurd (ground (arith, passed, refusal, h))
              | inl (result, ran) ↦
                  let (paid, root) =
                    check_after-IsPaid message result
                      (rw (passed, ran, validate_message_against_block) at h) in
                  (
                    parent,
                    result,
                    check_before-IsAdmissible engine views block request window message parent
                        passed,
                    execute_block-IsExecution reads result ran,
                    paid,
                    root,
                  )
            ]
      ]
