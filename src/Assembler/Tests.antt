-- ===== src/Assembler/Tests.antt =====
-- A run of crates/execution/flashblocks/src/block_assembler.rs on two flashblocks.
use ethgas_reth.Base.{refl, List, [], ◌∷◌, none}
use ethgas_reth.Payload.{FlashBlock}
use ethgas_reth.Assembler.{
  AssembledBlock, assemble, seal, rooted, requests_hash, payload, all_transactions,
}
use ethgas_reth.Assembler.Contents.{IsAssembled, assemble-IsAssembled}
use ethgas_reth.Samples.{spec, first_of_11, second_of_11, base_of, block_of}

abbrev both : List FlashBlock
both = first_of_11 ∷ second_of_11 ∷ []

abbrev assembled : AssembledBlock
assembled = seal spec (base_of 11) none (rooted spec (base_of 11) (block_of 11 (31 ∷ 32 ∷ [])))

assemble-IsAssembled_example : IsAssembled spec both assembled
unfolding assemble requests_hash payload all_transactions
assemble-IsAssembled_example = assemble-IsAssembled spec both assembled refl
