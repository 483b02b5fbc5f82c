-- ===== src/Validation/Sequence.antt =====
-- `FlashblockSequenceValidator` of crates/execution/flashblocks/src/validation.rs.
use ethgas_reth.Base.{
  ℕ, suc, ◌<◌, ◌≡◌, ◌≢◌, ◌↔◌, ◌==◌, ◌&&◌, not, if◌then◌else◌, arith, add_u64, u64_mod,
}
use ethgas_reth.Types.{BlockNumber, PayloadId}

pub data SequenceValidationResult : Type 0 where
  next_in_sequence : SequenceValidationResult
  first_of_next_block : SequenceValidationResult
  new_payload_for_current_block : SequenceValidationResult
  duplicate : SequenceValidationResult
  non_sequential_gap : (expected actual : ℕ) → SequenceValidationResult
  invalid_new_block_index : (block_number : BlockNumber) (index : ℕ) → SequenceValidationResult

unfoldable pub validate :
    (latest_block_number latest_flashblock_index : ℕ) (latest_payload_id : PayloadId)
    (incoming_block_number incoming_index : ℕ) (incoming_payload_id : PayloadId)
    → SequenceValidationResult
validate latest_block latest_index latest_payload block index payload =
    if block == latest_block && (index == 0 && not (payload == latest_payload))
    then new_payload_for_current_block
    else if block == latest_block && index == add_u64 latest_index 1
    then next_in_sequence
    else if block == add_u64 latest_block 1 && index == 0
    then first_of_next_block
    else if not (block == latest_block)
    then invalid_new_block_index block index
    else if index == latest_index
    then duplicate
    else non_sequential_gap (add_u64 latest_index 1) index

-- Where an incoming flashblock stands in relation to the latest one, in words of positions alone.
abbrev pub Position :
    (b i : ℕ) (p : PayloadId) (b' i' : ℕ) (p' : PayloadId) → SequenceValidationResult → Type 0
Position b i p b' i' p' new_payload_for_current_block = (b' ≡ b) × (i' ≡ 0) × (p' ≢ p)
Position b i p b' i' p' next_in_sequence = (b' ≡ b) × (i' ≡ suc i)
Position b i p b' i' p' first_of_next_block = (b' ≡ suc b) × (i' ≡ 0)
Position b i p b' i' p' duplicate = (b' ≡ b) × (i' ≡ i) × (i' ≡ 0 → p' ≡ p)
Position b i p b' i' p' (non_sequential_gap e a) =
    (e ≡ suc i) × (a ≡ i') × (b' ≡ b) × (i' ≢ suc i) × (i' ≢ i) × (i' ≡ 0 → p' ≡ p)
Position b i p b' i' p' (invalid_new_block_index n j) =
    (n ≡ b') × (j ≡ i') × (b' ≢ b) × (b' ≡ suc b → i' ≢ 0)

module _ (b i p b' i' p' : ℕ) (hb : suc b < u64_mod) (hi : suc i < u64_mod) where
  validate_sound : Position b i p b' i' p' (validate b i p b' i' p')
  unfolding validate
  validate_sound = ground arith

  -- No other verdict fits that position.
  validate_complete :
      (r : SequenceValidationResult) → Position b i p b' i' p' r → validate b i p b' i' p' ≡ r
  unfolding validate
  validate_complete new_payload_for_current_block h = ground arith
  validate_complete next_in_sequence h = ground arith
  validate_complete first_of_next_block h = ground arith
  validate_complete duplicate h = ground arith
  validate_complete (non_sequential_gap e a) h = ground arith
  validate_complete (invalid_new_block_index n j) h = ground arith

  -- The verdict of `validate` is the one position in which the incoming flashblock stands, for
  -- numbers whose successors are in range of `u64`.
  pub validate-eq_iff_Position :
      (r : SequenceValidationResult) → (validate b i p b' i' p' ≡ r) ↔ Position b i p b' i' p' r
  validate-eq_iff_Position r = ((λ e. rw e at validate_sound), validate_complete r)
