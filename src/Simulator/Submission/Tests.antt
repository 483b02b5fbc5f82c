-- ===== src/Simulator/Submission/Tests.antt =====
-- Runs of crates/execution/simulator/src/validation/mod.rs on a sample submission.
use mathlib.Core.Path.{subst}
use ethgas_reth.Base.{◌≡◌, refl, Option, none, some, lookup, contains}
use ethgas_reth.Types.{B256}
use ethgas_reth.Simulator.Header.{validate_message_against_header, get_parent_header}
use ethgas_reth.Simulator.Disallowed.{check_parties, check_accounts}
use ethgas_reth.Simulator.Constraint.{validate_inclusion_list_constraint}
use ethgas_reth.Simulator.Payment.{ensure_payment}
use ethgas_reth.Simulator.Submission.{validate_message_against_block}
use ethgas_reth.Simulator.Submission.Accepted.{
  IsAccepted, validate_message_against_block-IsAccepted,
}
use ethgas_reth.Simulator.Submission.Caching.{
  ReadsOf, IsCoherent, validate_message_against_block-IsCoherent,
}
use ethgas_reth.Simulator.Samples.{block, bid, engine, views, request}

validate_message_against_block-IsAccepted_example : IsAccepted engine views block request 3 (bid 5)
unfolding validate_message_against_block validate_message_against_header check_parties contains
    get_parent_header check_accounts validate_inclusion_list_constraint ensure_payment lookup
validate_message_against_block-IsAccepted_example =
    validate_message_against_block-IsAccepted engine views block request 3 (bid 5) refl

abbrev OfBlock : B256 → Option B256 → Type 0
OfBlock head none = Unit {0}
OfBlock head (some made_on) = made_on ≡ head

abbrev law : ReadsOf engine
law = record {
  Of = OfBlock;
  of_none = λ _. tt;
  of_extend = λ head a b _ h. h;
  of_execution = λ block provider reads reads' output bal state p _ e.
      let q : provider ≡ block.parent_hash = cc in
      let r : some provider ≡ reads' = cc in subst (λ x. OfBlock block.parent_hash x) r q;
}

validate_message_against_block-IsCoherent_example :
    IsCoherent engine law (validate_message_against_block engine 3 views block (bid 5) request).1
validate_message_against_block-IsCoherent_example =
    validate_message_against_block-IsCoherent engine law views block request 3 (bid 5)
      (λ hash header e. cc) refl refl
