-- ===== src/Simulator/Submission/Admission.antt =====
-- What the checks of crates/execution/simulator/src/validation/mod.rs before the execution tell.
use ethgas_reth.Base.{ℕ, ◌≡◌, ◌∙◌, true}
use ethgas_reth.Simulator.Types.{
  SubmittedBlock, SealedHeader, BidTrace, ok, consensus, check_with, bind-eq-ok, then-eq-ok,
}
use ethgas_reth.Simulator.Header.{
  Agrees, IsParent, validate_message_against_header, validate_message_against_header_iff,
  get_parent_header, get_parent_header_iff,
}
use ethgas_reth.Simulator.Disallowed.{
  enforced, PartiesAreClean, check_parties, check_parties-PartiesAreClean,
}
use ethgas_reth.Simulator.Submission.{Engine, Views, Request, check_before}

module _ (engine : Engine) (views : Views engine) (block : SubmittedBlock)
    (request : Request engine) where
  -- What is known before the execution.
  abbrev pub IsAdmissible : ℕ → BidTrace → SealedHeader → Type 0
  IsAdmissible window message parent =
      Agrees block message
      × ((enforced views.disallow request.apply_blacklist ≡ true)
          → PartiesAreClean views.disallow block message)
      × IsParent window views.headers block.parent_hash parent

  pub check_before-IsAdmissible :
      (window : ℕ) (message : BidTrace) (parent : SealedHeader)
      → check_before engine window views block message request ≡ ok parent
      → IsAdmissible window message parent
  unfolding check_before
  check_before-IsAdmissible window message parent h =
      let (agrees, h1) = then-eq-ok (validate_message_against_header block message) _ parent h in
      let (_, h2) = then-eq-ok (check_with (engine.validate_header block) consensus) _ parent h1 in
      let (_, h3) =
        then-eq-ok (check_with (engine.validate_block_pre_execution block) consensus) _ parent h2 in
      let (parties, h4) =
        then-eq-ok (check_parties views.disallow request.apply_blacklist block message) _ parent
          h3 in
      let (found, p, h5) =
        bind-eq-ok (get_parent_header window views.headers block.parent_hash) _ parent h4 in
      let (_, same) =
        then-eq-ok (check_with (engine.validate_header_against_parent block found) consensus)
          (ok found) parent h5 in
      (
        (validate_message_against_header_iff block message).0 agrees,
        λ on.
            check_parties-PartiesAreClean views.disallow request.apply_blacklist block message on
              parties,
        (get_parent_header_iff window views.headers block.parent_hash parent).0 ((p ∙ same)),
      )
