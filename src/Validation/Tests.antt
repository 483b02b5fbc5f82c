-- ===== src/Validation/Tests.antt =====
-- Runs of crates/execution/flashblocks/src/validation.rs on concrete numbers.
use ethgas_reth.Base.{◌≡◌, ◌↔◌, refl, arith, false, List, [], ◌∷◌}
use ethgas_reth.Validation.Sequence.{
  Position, validate, validate-eq_iff_Position, next_in_sequence, non_sequential_gap,
}
use ethgas_reth.Validation.Reorg.{
  detect, requires_rebuild, requires_rebuild-detect, canonical_extends_tracked,
}
use ethgas_reth.Types.{B256}

validate_gap : validate 11 1 7 11 4 7 ≡ non_sequential_gap 2 4
unfolding validate
validate_gap = refl

validate-eq_iff_Position_example :
    (validate 11 1 7 11 2 7 ≡ next_in_sequence) ↔ Position 11 1 7 11 2 7 next_in_sequence
validate-eq_iff_Position_example =
    validate-eq_iff_Position 11 1 7 11 2 7 (omega arith) (omega arith) next_in_sequence

detect_extends : detect (31 ∷ []) (31 ∷ 32 ∷ []) ≡ canonical_extends_tracked 1 2
unfolding detect
detect_extends = refl

abbrev one_hash : List B256
one_hash = 31 ∷ []

abbrev two_hashes : List B256
two_hashes = 31 ∷ 32 ∷ []

requires_rebuild-detect_example :
    (requires_rebuild (detect one_hash two_hashes) ≡ false) ↔ (one_hash ≡ two_hashes)
requires_rebuild-detect_example = requires_rebuild-detect one_hash two_hashes
