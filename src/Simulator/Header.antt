-- ===== src/Simulator/Header.antt =====
-- The checks on the header and on the parent of a submitted block, in
-- crates/execution/simulator/src/validation/mod.rs.
use ethgas_reth.Base.{
  ℕ, ◌-◌, ◌+◌, ◌≤◌, ◌==◌, ◌≡◌, ◌↔◌, ◌⊎◌, ◌≢◌, inl, inr, ap, arith, not, ltb, if◌then◌else◌, Option,
  none, some, Bool-cases,
}
use ethgas_reth.Fallible.{Fallible, done, failed}
use ethgas_reth.Types.{B256}
use ethgas_reth.Simulator.Types.{
  SubmittedBlock, SealedHeader, BidTrace, GetParentError, missing_latest_block,
  missing_parent_block, block_too_old, provider, Result, ok, err, block_hash_mismatch,
  parent_hash_mismatch, gas_limit_mismatch, gas_used_mismatch, get_parent, ◌>>=◌, bind-eq-ok,
}

abbrev pub default_validation_window : ℕ
default_validation_window = 3

unfoldable pub validate_message_against_header : SubmittedBlock → BidTrace → Result (Unit {0})
validate_message_against_header block message =
    if not (block.hash == message.block_hash)
    then err (block_hash_mismatch message.block_hash block.hash)
    else if not (block.parent_hash == message.parent_hash)
    then err (parent_hash_mismatch message.parent_hash block.parent_hash)
    else if not (block.gas_limit == message.gas_limit)
    then err (gas_limit_mismatch message.gas_limit block.gas_limit)
    else if not (block.gas_used == message.gas_used)
    then err (gas_used_mismatch message.gas_used block.gas_used)
    else ok tt

-- The four numbers that the bid and the block share.
abbrev pub Agrees : SubmittedBlock → BidTrace → Type 0
Agrees block message =
    (block.hash ≡ message.block_hash)
    × (block.parent_hash ≡ message.parent_hash)
    × (block.gas_limit ≡ message.gas_limit)
    × (block.gas_used ≡ message.gas_used)

pub validate_message_against_header_iff :
    (block : SubmittedBlock) (message : BidTrace)
    → (validate_message_against_header block message ≡ ok tt) ↔ Agrees block message
unfolding validate_message_against_header
validate_message_against_header_iff block message = ground arith

-- What the provider answers about headers.
pub record Headers : Type 0 where
  pub latest_header : Fallible (Option SealedHeader)
  pub sealed_header_by_hash : B256 → Fallible (Option SealedHeader)

-- `Option::ok_or`
abbrev found_or : GetParentError → Fallible (Option SealedHeader) → Result SealedHeader
found_or missing (failed reason) = err (get_parent (provider reason))
found_or missing (done none) = err (get_parent missing)
found_or missing (done (some header)) = ok header

abbrev within_window : ℕ → SealedHeader → SealedHeader → Result SealedHeader
within_window validation_window latest parent =
    if ltb validation_window (latest.number - parent.number)
    then err (get_parent block_too_old)
    else ok parent

abbrev parent_after : ℕ → Headers → B256 → SealedHeader → Result SealedHeader
parent_after validation_window headers parent_hash latest =
    if parent_hash == latest.hash
    then ok latest
    else found_or missing_parent_block (headers.sealed_header_by_hash parent_hash)
      >>= within_window validation_window latest

unfoldable pub get_parent_header : (validation_window : ℕ) → Headers → B256 → Result SealedHeader
get_parent_header validation_window headers parent_hash =
    found_or missing_latest_block headers.latest_header
    >>= parent_after validation_window headers parent_hash

found_or-eq-ok :
    (missing : GetParentError) (found : Fallible (Option SealedHeader)) (header : SealedHeader)
    → (found_or missing found ≡ ok header) ↔ (found ≡ done (some header))
found_or-eq-ok missing (failed reason) header = ((λ e. cc), (λ e. cc))
found_or-eq-ok missing (done none) header = ((λ e. cc), (λ e. cc))
found_or-eq-ok missing (done (some other)) header = ((λ e. cc), (λ e. cc))

module _ (validation_window : ℕ) (headers : Headers) (parent_hash : B256)
    (parent : SealedHeader) where
  -- Where the parent stands, once the latest header is read.
  abbrev pub IsPlaced : SealedHeader → Type 0
  IsPlaced latest =
      ((parent_hash ≡ latest.hash) × (parent ≡ latest))
      ⊎ ((parent_hash ≢ latest.hash)
          × (headers.sealed_header_by_hash parent_hash ≡ done (some parent))
          × (latest.number ≤ parent.number + validation_window))

  within_window-eq-ok :
      (latest found : SealedHeader)
      → within_window validation_window latest found ≡ ok parent
      → (found ≡ parent) × (latest.number ≤ found.number + validation_window)
  within_window-eq-ok latest found h = (ground (arith, h), ground (arith, h))

  parent_after-IsPlaced :
      (latest : SealedHeader)
      → parent_after validation_window headers parent_hash latest ≡ ok parent
      → IsPlaced latest
  parent_after-IsPlaced latest h = elim (Bool-cases (parent_hash == latest.hash)) [
    | inl same ↦ inl (ground (arith, same), ground (arith, same, h))
    | inr other ↦
        let (found, f, w) =
          bind-eq-ok (found_or missing_parent_block (headers.sealed_header_by_hash parent_hash))
            (within_window validation_window latest) parent (ground (arith, other, h)) in
        let (e, near) = within_window-eq-ok latest found w in
        let f' =
          (found_or-eq-ok missing_parent_block (headers.sealed_header_by_hash parent_hash) found).0
            f in
        inr (ground (arith, other), cc, omega (arith, near, ap (λ t. t.number) e))
  ]

  -- The parent is the latest header, or one of its hash that is not further below than the window.
  abbrev pub IsParent : Type 0
  IsParent =
      (latest : SealedHeader) × (headers.latest_header ≡ done (some latest)) × IsPlaced latest

  accepted-IsParent : get_parent_header validation_window headers parent_hash ≡ ok parent → IsParent
  unfolding get_parent_header
  accepted-IsParent h =
      let (latest, l, rest) =
        bind-eq-ok (found_or missing_latest_block headers.latest_header)
          (parent_after validation_window headers parent_hash) parent h in
      (
        latest,
        (found_or-eq-ok missing_latest_block headers.latest_header latest).0 l,
        parent_after-IsPlaced latest rest,
      )

  IsParent-accepted : IsParent → get_parent_header validation_window headers parent_hash ≡ ok parent
  unfolding get_parent_header
  IsParent-accepted (latest, l, place) = elim place [
    | inl (same, here) ↦ rw (l, get_parent_header) (ground (arith, same, ap (λ t. ok t) here))
    | inr (other, found, near) ↦ rw (l, found, get_parent_header) (ground (arith, other, near))
  ]

  -- A parent is found exactly when it is the latest header, or one of its hash that is at most the
  -- window below it.
  pub get_parent_header_iff :
      (get_parent_header validation_window headers parent_hash ≡ ok parent) ↔ IsParent
  get_parent_header_iff = (accepted-IsParent, IsParent-accepted)
