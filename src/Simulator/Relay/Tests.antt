-- ===== src/Simulator/Relay/Tests.antt =====
-- Runs of the RPC methods of crates/execution/simulator/src/validation/mod.rs on a sample request.
use ethgas_reth.Base.{ℕ, ◌≡◌, refl, true, List, [], ◌∷◌, none, some, lookup, contains, inr}
use ethgas_reth.Simulator.Header.{validate_message_against_header, get_parent_header}
use ethgas_reth.Simulator.Disallowed.{check_parties, check_accounts}
use ethgas_reth.Simulator.Constraint.{validate_inclusion_list_constraint}
use ethgas_reth.Simulator.Payment.{ensure_payment}
use ethgas_reth.Simulator.Submission.{validate_message_against_block}
use ethgas_reth.Simulator.Relay.{
  Payloads, RelayRequest, submission_v4, submission_v5, unsupported, invalid_params, internal_error,
  declined, answer, verdict_of, validate_block, validate_blobs_bundle, validate_blobs_bundle_v2,
  well_formed, check_size, payload_into_block, block_of_v4, spawn_validation, error_code,
}
use ethgas_reth.Simulator.Relay.Accepting.{Served, answer-Served}
use ethgas_reth.Simulator.Samples.{block, bid, listed, engine, views}

abbrev payloads_of : ℕ → Payloads
payloads_of limit = record {
  Sidecar = List ℕ;
  kzg_to_versioned_hash = λ c. c;
  pop_sidecar = λ bundle _. bundle.commitments;
  try_into_sidecar = λ bundle. some bundle.commitments;
  validate_sidecar = λ _ _. none;
  ensure_well_formed_payload = λ _. inr block;
  is_osaka_active_at_timestamp = λ _. true;
  max_rlp_block_size = limit;
}

abbrev payloads : Payloads
payloads = payloads_of 1000

abbrev request : List ℕ → RelayRequest
request proofs = record {
  execution_payload = 1;
  blobs_bundle = record { commitments = 4 ∷ []; proofs = proofs; blobs = 6 ∷ [] };
  execution_requests = 2;
  parent_beacon_block_root = 8;
  message = bid 5;
  apply_blacklist = true;
  inclusion_list = some listed;
}

answer-Served_example :
    (true ≡ true) × Served payloads engine 3 views (submission_v5 (request (5 ∷ [])))
unfolding answer verdict_of validate_block payload_into_block validate_blobs_bundle_v2 well_formed
    check_size spawn_validation validate_message_against_block validate_message_against_header
    check_parties contains get_parent_header check_accounts validate_inclusion_list_constraint
    ensure_payment lookup
answer-Served_example =
    answer-Served payloads engine 3 views true (submission_v5 (request (5 ∷ []))) refl

-- A version 4 bundle that lacks a proof is an invalid parameter.
lacking_proof :
    answer payloads engine 3 views true (submission_v4 (request [])) ≡ declined invalid_params
unfolding answer verdict_of validate_block block_of_v4 validate_blobs_bundle spawn_validation
    error_code
lacking_proof = refl

-- A block above the size limit is an internal error.
too_large :
    answer (payloads_of 400) engine 3 views true (submission_v5 (request []))
    ≡ declined internal_error
unfolding answer verdict_of validate_block payload_into_block validate_blobs_bundle_v2 well_formed
    check_size spawn_validation error_code
too_large = refl

unsupported_call : answer payloads engine 3 views true unsupported ≡ declined internal_error
unfolding answer verdict_of spawn_validation error_code
unsupported_call = refl
