-- ===== src/Simulator/Relay/Accepting.antt =====
-- What a call of the RPC methods of crates/execution/simulator/src/validation/mod.rs that is
-- accepted is known to fulfil.
use mathlib.Core.Path.{subst}
use ethgas_reth.Base.{
  ℕ, ltb, ◌==◌, ◌||◌, not, ◌≡◌, refl, sym, ◌≤◌, ◌⊎◌, length, inl, inr, arith, Bool, true, false,
  List, Option, none, some, Bool-cases,
}
use ethgas_reth.Simulator.Types.{
  SubmittedBlock, Result, ok, err, NewPayloadError, ValidationApiError, invalid_blobs_bundle, blob,
  check_with, fail_if, bind-eq-ok, then-eq-ok,
}
use ethgas_reth.Simulator.Submission.{Engine, Views, Request}
use ethgas_reth.Simulator.Submission.Accepted.{
  IsAccepted, validate_message_against_block-IsAccepted,
}
use ethgas_reth.Simulator.Submission.Outcomes.{ok-injective}
use ethgas_reth.Simulator.Relay.{
  BlobsBundle, PayloadVersion, v3, v4, Payloads, RelayRequest, RelayCall, unsupported,
  submission_v4, submission_v5, submission_v6, merged_v5, merged_v6, accepted, versioned,
  validate_blobs_bundle, validate_blobs_bundle_v2, well_formed, check_size, payload_into_block,
  block_of_v4, converted, decoded, validate_block, spawn_validation, verdict_of, answer,
}

converted-eq-ok : {A : Type 0} (found : Option A) (a : A) → converted found ≡ ok a → found ≡ some a
converted-eq-ok none a h = cc
converted-eq-ok (some b) a h = cc

decoded-eq-ok :
    (found : NewPayloadError ⊎ SubmittedBlock) (block : SubmittedBlock)
    → decoded found ≡ ok block
    → found ≡ inr block
decoded-eq-ok (inl e) block h = cc
decoded-eq-ok (inr found) block h = cc

check_with-eq-ok :
    {E : Type 0} (found : Option E) (f : E → ValidationApiError)
    → check_with found f ≡ ok tt
    → found ≡ none
check_with-eq-ok none f h = cc
check_with-eq-ok (some e) f h = cc

fail_if-eq-ok : (test : Bool) (e : ValidationApiError) → fail_if test e ≡ ok tt → test ≡ false
fail_if-eq-ok true e h = cc
fail_if-eq-ok false e h = cc

lengths_agree : (a b c : ℕ) → (not (a == b) || not (a == c)) ≡ false → (a ≡ b) × (a ≡ c)
lengths_agree a b c h = ground arith

module _ (payloads : Payloads) where
  open payloads use {
    pop_sidecar, try_into_sidecar, validate_sidecar, ensure_well_formed_payload,
    is_osaka_active_at_timestamp, max_rlp_block_size,
  }

  -- The payload, with the hashes of the bundle's commitments, is a well-formed one of this block.
  abbrev pub IsWellFormed : PayloadVersion → RelayRequest → SubmittedBlock → Type 0
  IsWellFormed version request block =
      ensure_well_formed_payload record {
        version = version;
        execution_payload = request.execution_payload;
        parent_beacon_block_root = request.parent_beacon_block_root;
        versioned_hashes = versioned payloads request.blobs_bundle;
        requests = request.execution_requests;
      }
      ≡ inr block

  abbrev pub IsWithinSize : SubmittedBlock → Type 0
  IsWithinSize block =
      (is_osaka_active_at_timestamp block.timestamp ≡ true) → block.rlp_length ≤ max_rlp_block_size

  -- The bundle has as many proofs and blobs as commitments, and its sidecar is valid.
  abbrev pub IsBundle : BlobsBundle → Type 0
  IsBundle bundle =
      (length bundle.commitments ≡ length bundle.proofs)
      × (length bundle.commitments ≡ length bundle.blobs)
      × (validate_sidecar (pop_sidecar bundle (length bundle.blobs)) (versioned payloads bundle)
          ≡ none)

  abbrev pub IsBundleV2 : BlobsBundle → Type 0
  IsBundleV2 bundle =
      (sidecar : payloads.Sidecar) × (try_into_sidecar bundle ≡ some sidecar)
      × (validate_sidecar sidecar (versioned payloads bundle) ≡ none)

  check_size-IsWithinSize :
      (found block : SubmittedBlock)
      → check_size payloads found ≡ ok block
      → (found ≡ block) × IsWithinSize found
  unfolding check_size
  check_size-IsWithinSize found block h =
      elim (Bool-cases (is_osaka_active_at_timestamp found.timestamp)) [
        | inl e ↦ elim (Bool-cases (ltb max_rlp_block_size found.rlp_length)) [
          | inl f ↦ ground (arith, e, f, h)
          | inr f ↦ (ground (arith, e, f, h), λ _. ground (arith, f))
        ]
        | inr e ↦ (ground (arith, e, h), λ on. cc)
      ]

  validate_blobs_bundle-IsBundle :
      (bundle : BlobsBundle) (hashes : List ℕ)
      → validate_blobs_bundle payloads bundle ≡ ok hashes
      → (versioned payloads bundle ≡ hashes) × IsBundle bundle
  unfolding validate_blobs_bundle
  validate_blobs_bundle-IsBundle bundle hashes h =
      let (same, h1) =
        then-eq-ok
          (fail_if
            (not (length bundle.commitments == length bundle.proofs)
              || not (length bundle.commitments == length bundle.blobs))
            invalid_blobs_bundle)
          _ hashes h in
      let (valid, h2) =
        then-eq-ok
          (check_with
            (validate_sidecar (pop_sidecar bundle (length bundle.blobs))
              (versioned payloads bundle))
            blob)
          (ok (versioned payloads bundle)) hashes h1 in
      let (proofs, blobs) =
        lengths_agree (length bundle.commitments) (length bundle.proofs) (length bundle.blobs)
          (fail_if-eq-ok _ invalid_blobs_bundle same) in
      (ok-injective h2, (proofs, blobs, check_with-eq-ok _ blob valid))

  validate_blobs_bundle_v2-IsBundleV2 :
      (bundle : BlobsBundle) (hashes : List ℕ)
      → validate_blobs_bundle_v2 payloads bundle ≡ ok hashes
      → (versioned payloads bundle ≡ hashes) × IsBundleV2 bundle
  unfolding validate_blobs_bundle_v2
  validate_blobs_bundle_v2-IsBundleV2 bundle hashes h =
      let (sidecar, found, h1) = bind-eq-ok (converted (try_into_sidecar bundle)) _ hashes h in
      let (valid, h2) =
        then-eq-ok (check_with (validate_sidecar sidecar (versioned payloads bundle)) blob)
          (ok (versioned payloads bundle)) hashes h1 in
      (ok-injective h2, (sidecar, converted-eq-ok _ sidecar found, check_with-eq-ok _ blob valid))

  abbrev pub IsPayload : PayloadVersion → RelayRequest → SubmittedBlock → Type 0
  IsPayload version request block =
      IsBundleV2 request.blobs_bundle × IsWellFormed version request block × IsWithinSize block

  abbrev pub IsPayloadV4 : RelayRequest → SubmittedBlock → Type 0
  IsPayloadV4 request block = IsBundle request.blobs_bundle × IsWellFormed v3 request block

  payload_into_block-IsPayload :
      (version : PayloadVersion) (request : RelayRequest) (block : SubmittedBlock)
      → payload_into_block payloads version request ≡ ok block
      → IsPayload version request block
  unfolding payload_into_block well_formed
  payload_into_block-IsPayload version request block h =
      let (hashes, bundle, h1) =
        bind-eq-ok (validate_blobs_bundle_v2 payloads request.blobs_bundle) _ block h in
      let (same, is_bundle) =
        validate_blobs_bundle_v2-IsBundleV2 request.blobs_bundle hashes bundle in
      let (found, formed, h2) =
        bind-eq-ok (well_formed payloads version request hashes) (check_size payloads) block h1 in
      let (is_block, sized) = check_size-IsWithinSize found block h2 in
      let start =
        subst (λ hs. well_formed payloads version request hs ≡ ok found) (sym same) formed in
      subst (IsPayload version request) is_block (is_bundle, decoded-eq-ok _ found start, sized)

  block_of_v4-IsPayloadV4 :
      (request : RelayRequest) (block : SubmittedBlock)
      → block_of_v4 payloads request ≡ ok block
      → IsPayloadV4 request block
  unfolding block_of_v4 well_formed
  block_of_v4-IsPayloadV4 request block h =
      let (hashes, bundle, formed) =
        bind-eq-ok (validate_blobs_bundle payloads request.blobs_bundle)
          (well_formed payloads v3 request) block h in
      let (same, is_bundle) = validate_blobs_bundle-IsBundle request.blobs_bundle hashes bundle in
      let start = subst (λ hs. well_formed payloads v3 request hs ≡ ok block) (sym same) formed in
      (is_bundle, decoded-eq-ok _ block start)

  module _ (engine : Engine) (window : ℕ) (views : Views engine) where
    abbrev pub request_of : RelayRequest → Option ℕ → Request engine
    request_of request index = record {
      apply_blacklist = request.apply_blacklist;
      inclusion_list = request.inclusion_list;
      base_payment_tx_index = index;
    }

    -- A block with the property, accepted by the engine for the request.
    abbrev pub IsGood : (SubmittedBlock → Type 0) → RelayRequest → Option ℕ → Type 0
    IsGood P request index =
        (block : SubmittedBlock) × P block
        × IsAccepted engine views block (request_of request index) window request.message

    abbrev pub Served : RelayCall → Type 0
    Served unsupported = ⊥
    Served (submission_v4 request) = IsGood (IsPayloadV4 request) request none
    Served (submission_v5 request) = IsGood (IsPayload v3 request) request none
    Served (submission_v6 request) = IsGood (IsPayload v4 request) request none
    Served (merged_v5 request index) = IsGood (IsPayload v3 request) request (some index)
    Served (merged_v6 request index) = IsGood (IsPayload v4 request) request (some index)

    validate_block-IsGood :
        (P : SubmittedBlock → Type 0) (found : Result SubmittedBlock) (request : RelayRequest)
        (index : Option ℕ)
        → ((block : SubmittedBlock) → found ≡ ok block → P block)
        → (validate_block payloads engine window views found request index).0 ≡ ok tt
        → IsGood P request index
    unfolding validate_block
    validate_block-IsGood P (err e) request index known h = cc
    validate_block-IsGood P (ok block) request index known h = (
      block,
      known block refl,
      validate_message_against_block-IsAccepted engine views block (request_of request index) window
          request.message h,
    )

    verdict_of-Served :
        (call : RelayCall) → (verdict_of payloads engine window views call).0 ≡ ok tt → Served call
    unfolding verdict_of
    verdict_of-Served unsupported h = cc
    verdict_of-Served (submission_v4 request) h =
        validate_block-IsGood _ _ request none (block_of_v4-IsPayloadV4 request) h
    verdict_of-Served (submission_v5 request) h =
        validate_block-IsGood _ _ request none (payload_into_block-IsPayload v3 request) h
    verdict_of-Served (submission_v6 request) h =
        validate_block-IsGood _ _ request none (payload_into_block-IsPayload v4 request) h
    verdict_of-Served (merged_v5 request index) h =
        validate_block-IsGood _ _ request (some index) (payload_into_block-IsPayload v3 request) h
    verdict_of-Served (merged_v6 request index) h =
        validate_block-IsGood _ _ request (some index) (payload_into_block-IsPayload v4 request) h

    spawn_validation-eq-accepted :
        (is_finished : Bool) (verdict : Result (Unit {0}))
        → spawn_validation payloads engine window views is_finished verdict ≡ accepted
        → (is_finished ≡ true) × (verdict ≡ ok tt)
    unfolding spawn_validation
    spawn_validation-eq-accepted false verdict h = cc
    spawn_validation-eq-accepted true (ok _) h = (refl, refl)
    spawn_validation-eq-accepted true (err e) h = cc

    -- A call that is accepted is one of the supported methods, its task finished, and its payload
    -- became a well-formed block with a valid blobs bundle (for version 4 with as many proofs and
    -- blobs as commitments, else within the size limit when Osaka is active), which the checks
    -- against the request's message accept, for a merged call with the request's payment index.
    pub answer-Served :
        (is_finished : Bool) (call : RelayCall)
        → answer payloads engine window views is_finished call ≡ accepted
        → (is_finished ≡ true) × Served call
    unfolding answer
    answer-Served is_finished call h =
        let (finished, passed) = spawn_validation-eq-accepted is_finished _ h in
        (finished, verdict_of-Served call passed)
