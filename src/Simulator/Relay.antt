-- ===== src/Simulator/Relay.antt =====
-- The RPC methods of crates/execution/simulator/src/validation/mod.rs: a request's payload becomes a
-- block, which is validated against its bid, and an error gets a code (validation/error.rs).
pub mod Accepting
mod Tests
use Prim.Native.String.{String}
use ethgas_reth.Base.{
  ℕ, ltb, ◌==◌, ◌&&◌, ◌||◌, not, if◌then◌else◌, Bool, true, false, List, [], ◌∷◌, map, length,
  Option, none, some, ◌⊎◌, inl, inr,
}
use ethgas_reth.Types.{B256}
use ethgas_reth.Simulator.Types.{
  SubmittedBlock, BidTrace, Result, ok, err, ◌>>=◌, ◌>>◌, check_with, fail_if, ValidationApiError,
  NewPayloadError, gas_limit_mismatch, gas_used_mismatch, parent_hash_mismatch, block_hash_mismatch,
  get_parent, proposer_payment, invalid_blobs_bundle, inclusion_list, blacklist, blob,
  provider_failed, consensus, execution, payload, block_too_large, validation, internal, eth, other,
}
use ethgas_reth.Simulator.Constraint.{ListedTransaction}
use ethgas_reth.Simulator.Submission.{Engine, Views, Cache, Request, validate_message_against_block}

-- A blobs bundle, of either version.
pub record BlobsBundle : Type 0 where
  pub commitments : List ℕ
  pub proofs : List ℕ
  pub blobs : List ℕ

-- `ExecutionPayload::V3` and `V4`.
pub data PayloadVersion : Type 0 where
  v3 v4 : PayloadVersion

-- `ExecutionData` with its sidecar.
pub record ExecutionData : Type 0 where
  pub version : PayloadVersion
  pub execution_payload : ℕ
  pub parent_beacon_block_root : B256
  pub versioned_hashes : List B256
  pub requests : ℕ

-- The payload validator and the chain's rules of reth, and alloy's blob sidecars.
pub record Payloads : Type 1 where
  pub Sidecar : Type 0
  pub kzg_to_versioned_hash : ℕ → B256
  pub pop_sidecar : BlobsBundle → ℕ → Sidecar
  pub try_into_sidecar : BlobsBundle → Option Sidecar
  pub validate_sidecar : Sidecar → List B256 → Option String
  pub ensure_well_formed_payload : ExecutionData → NewPayloadError ⊎ SubmittedBlock
  pub is_osaka_active_at_timestamp : ℕ → Bool
  pub max_rlp_block_size : ℕ

-- What all versions of a request carry, but for the registered gas limit, which is not used.
pub record RelayRequest : Type 0 where
  pub execution_payload : ℕ
  pub blobs_bundle : BlobsBundle
  pub execution_requests : ℕ
  pub parent_beacon_block_root : B256
  pub message : BidTrace
  pub apply_blacklist : Bool
  pub inclusion_list : Option (List ListedTransaction)

-- The methods; a merged one names the position of the base block's payment.
pub data RelayCall : Type 0 where
  unsupported : RelayCall
  submission_v4 submission_v5 submission_v6 : RelayRequest → RelayCall
  merged_v5 merged_v6 : RelayRequest → (base_payment_tx_index : ℕ) → RelayCall

pub data Code : Type 0 where
  invalid_params internal_error : Code

pub data RelayAnswer : Type 0 where
  accepted : RelayAnswer
  declined : Code → RelayAnswer

unfoldable pub error_code : ValidationApiError → Code
error_code (gas_limit_mismatch got expected) = invalid_params
error_code (gas_used_mismatch got expected) = invalid_params
error_code (parent_hash_mismatch got expected) = invalid_params
error_code (block_hash_mismatch got expected) = invalid_params
error_code (blacklist address) = invalid_params
error_code proposer_payment = invalid_params
error_code invalid_blobs_bundle = invalid_params
error_code ValidationApiError.inclusion_list = invalid_params
error_code (blob reason) = invalid_params
error_code (get_parent e) = internal_error
error_code (consensus e) = internal_error
error_code (provider_failed reason) = internal_error
error_code (execution (validation reason)) = invalid_params
error_code (execution (internal reason)) = internal_error
error_code (payload (eth reason)) = invalid_params
error_code (payload (other reason)) = internal_error

-- `.map_err(|_| InvalidBlobsBundle)?`
abbrev pub converted {ℓ} : {A : Type ℓ} → Option A → Result A
converted none = err invalid_blobs_bundle
converted (some sidecar) = ok sidecar

-- `?` on the payload validator's result.
abbrev pub decoded : NewPayloadError ⊎ SubmittedBlock → Result SubmittedBlock
decoded (inl e) = err (payload e)
decoded (inr block) = ok block

module _ (payloads : Payloads) where
  open payloads use {
    kzg_to_versioned_hash, pop_sidecar, try_into_sidecar, validate_sidecar,
    ensure_well_formed_payload, is_osaka_active_at_timestamp, max_rlp_block_size,
  }

  abbrev pub versioned : BlobsBundle → List B256
  versioned bundle = map kzg_to_versioned_hash bundle.commitments

  unfoldable pub validate_blobs_bundle : BlobsBundle → Result (List B256)
  validate_blobs_bundle bundle =
      fail_if
        (not (length bundle.commitments == length bundle.proofs)
          || not (length bundle.commitments == length bundle.blobs))
        invalid_blobs_bundle
      >> (check_with
            (validate_sidecar (pop_sidecar bundle (length bundle.blobs)) (versioned bundle)) blob
          >> ok (versioned bundle))

  unfoldable pub validate_blobs_bundle_v2 : BlobsBundle → Result (List B256)
  validate_blobs_bundle_v2 bundle = converted (try_into_sidecar bundle) >>= (λ sidecar.
      check_with (validate_sidecar sidecar (versioned bundle)) blob >> ok (versioned bundle))

  unfoldable pub well_formed : PayloadVersion → RelayRequest → List B256 → Result SubmittedBlock
  well_formed version request hashes = decoded (
      ensure_well_formed_payload record {
        version = version;
        execution_payload = request.execution_payload;
        parent_beacon_block_root = request.parent_beacon_block_root;
        versioned_hashes = hashes;
        requests = request.execution_requests;
      })

  -- The size limit of EIP-7934, after Osaka.
  unfoldable pub check_size : SubmittedBlock → Result SubmittedBlock
  check_size block =
      if is_osaka_active_at_timestamp block.timestamp && ltb max_rlp_block_size block.rlp_length
      then err (consensus (block_too_large block.rlp_length max_rlp_block_size))
      else ok block

  unfoldable pub payload_into_block : PayloadVersion → RelayRequest → Result SubmittedBlock
  unfolding validate_blobs_bundle_v2 well_formed check_size
  payload_into_block version request =
      validate_blobs_bundle_v2 request.blobs_bundle
      >>= (λ hashes. well_formed version request hashes >>= check_size)

  -- The payload of a version 4 request, whose bundle is of the first version.
  unfoldable pub block_of_v4 : RelayRequest → Result SubmittedBlock
  unfolding validate_blobs_bundle well_formed
  block_of_v4 request = validate_blobs_bundle request.blobs_bundle >>= well_formed v3 request

  module _ (engine : Engine) (window : ℕ) (views : Views engine) where
    unfoldable pub validate_block :
        Result SubmittedBlock → RelayRequest → Option ℕ → Result (Unit {0}) × Cache engine
    validate_block (err e) request index = (err e, views.cache_after)
    validate_block (ok block) request index =
        validate_message_against_block engine window views block request.message record {
          apply_blacklist = request.apply_blacklist;
          inclusion_list = request.inclusion_list;
          base_payment_tx_index = index;
        }

    -- What a blocking task gives; one that ends without a result is an internal error.
    unfoldable pub spawn_validation : (is_finished : Bool) → Result (Unit {0}) → RelayAnswer
    unfolding error_code
    spawn_validation false verdict = declined internal_error
    spawn_validation true (ok _) = accepted
    spawn_validation true (err e) = declined (error_code e)

    unfoldable pub verdict_of : RelayCall → Result (Unit {0}) × Cache engine
    unfolding validate_block payload_into_block block_of_v4
    verdict_of unsupported = (err (provider_failed "unimplemented"), views.cache_after)
    verdict_of (submission_v4 request) = validate_block (block_of_v4 request) request none
    verdict_of (submission_v5 request) = validate_block (payload_into_block v3 request) request none
    verdict_of (submission_v6 request) = validate_block (payload_into_block v4 request) request none
    verdict_of (merged_v5 request index) =
        validate_block (payload_into_block v3 request) request (some index)
    verdict_of (merged_v6 request index) =
        validate_block (payload_into_block v4 request) request (some index)

    unfoldable pub answer : (is_finished : Bool) → RelayCall → RelayAnswer
    unfolding verdict_of spawn_validation
    answer is_finished call = spawn_validation is_finished (verdict_of call).0
