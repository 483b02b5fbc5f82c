-- ===== src/Simulator/Submission/Outcomes.antt =====
-- What the results of single steps of crates/execution/simulator/src/validation/mod.rs tell.
use ethgas_reth.Base.{ℕ, suc, ◌≡◌, ◌⊎◌, inl, inr, refl, arith, Option, none, some, length}
use ethgas_reth.Fallible.{Fallible, done, failed}
use ethgas_reth.Types.{B256}
use ethgas_reth.Simulator.Types.{
  SubmittedBlock, BidTrace, Output, Chain, Result, ok, err, provider_failed, BlockExecutionError,
  ValidationApiError, map_err,
}
use ethgas_reth.Simulator.Payment.Soundness.{Grew, EndsInPayment, ensure_payment_iff}
use ethgas_reth.Simulator.Payment.Merged.{SharedBy, ensure_merged_payment-IsPaid}
use ethgas_reth.Simulator.Submission.{executed, check_payment, check_state_root}

-- The payment that the request's kind of block must make.
abbrev pub IsPaid : Chain → SubmittedBlock → Output → BidTrace → Option ℕ → Type 0
IsPaid chain block output message none =
    Grew chain block output message ⊎ EndsInPayment chain block output message
IsPaid chain block output message (some ix) =
    Grew chain block output message
    ⊎ ((last_ix : ℕ) × (length block.transactions ≡ suc last_ix)
        × SharedBy chain block output message.proposer_fee_recipient message.value last_ix ix)

pub check_payment-IsPaid :
    (chain : Chain) (block : SubmittedBlock) (output : Output) (message : BidTrace) (ix : Option ℕ)
    → check_payment chain block output message ix ≡ ok tt
    → IsPaid chain block output message ix
check_payment-IsPaid chain block output message none h =
    (ensure_payment_iff chain block output message).0 h
check_payment-IsPaid chain block output message (some ix) h =
    ensure_merged_payment-IsPaid chain block output message ix h

pub map_err-eq-ok :
    {A : Type 0} (found : Fallible A) (a : A)
    → map_err found provider_failed ≡ ok a
    → found ≡ done a
map_err-eq-ok (done b) a h = cc
map_err-eq-ok (failed reason) a h = cc

pub executed-eq-ok :
    {A : Type 0} (found : BlockExecutionError ⊎ A) (a : A) → executed found ≡ ok a → found ≡ inr a
executed-eq-ok (inl e) a h = cc
executed-eq-ok (inr b) a h = cc

pub Result-cases :
    {A : Type 0} (r : Result A) → ((a : A) × (r ≡ ok a)) ⊎ ((e : ValidationApiError) × (r ≡ err e))
Result-cases (ok a) = inl (a, refl)
Result-cases (err e) = inr (e, refl)

pub ok-injective : {A : Type 0} {a b : A} → ok a ≡ ok b → a ≡ b
ok-injective e = cc

pub check_state_root-eq-ok :
    (block : SubmittedBlock) (root : B256)
    → check_state_root block root ≡ ok tt
    → root ≡ block.state_root
check_state_root-eq-ok block root h = ground (arith, h)
