-- ===== src/Assembler/Contents.antt =====
-- What a block that crates/execution/flashblocks/src/block_assembler.rs assembles consists of.
use ethgas_reth.Base.{
  ℕ, ◌≡◌, ◌≢◌, refl, sym, arith, true, false, if◌then◌else◌, not, ◌&&◌, ◌==◌, List, Option, some,
  first, last, is_some, ◌⊎◌, inl, inr, Option-cases, Bool-cases,
}
use ethgas_reth.Fallible.{done}
use ethgas_reth.Types.{B256, Block}
use ethgas_reth.Payload.{FlashBlock, ExecutionPayloadBaseV1}
use ethgas_reth.Error.{ok, >>=-eq-ok, map_err-eq-ok}
use ethgas_reth.World.{Spec}
use ethgas_reth.Assembler.{AssembledBlock, assemble, payload, requests_hash, rooted, seal}

-- The converted payload whose header has the base's beacon root, and this requests hash and slot,
-- and nothing else changed; the sealed header is the same one, with a zero hash.
abbrev pub finished : ExecutionPayloadBaseV1 → Block → Option B256 → Option ℕ → AssembledBlock
finished base converted hash slot =
    let header = record converted.header {
      parent_beacon_block_root = some base.parent_beacon_block_root;
      requests_hash = hash;
      slot_number = slot;
    } in
    record {
      block = record { header = header; transactions = converted.transactions };
      header = record { header = header; hash = 0 };
    }

module _ (spec : Spec) (flashblocks : List FlashBlock) where
  -- After Amsterdam the slot is the base's, which is there; before, that of the payload.
  abbrev pub HasSlot : ExecutionPayloadBaseV1 → Block → Option ℕ → Type 0
  HasSlot base converted slot =
      ((Spec.is_amsterdam_active_at_timestamp spec base.timestamp ≡ false)
        × (slot ≡ converted.header.slot_number))
      ⊎ ((Spec.is_amsterdam_active_at_timestamp spec base.timestamp ≡ true)
          × ((n : ℕ) × (base.slot_number ≡ some n) × (slot ≡ some n)))

  -- The block comes from the first flashblock's base and the latest flashblock's diff.
  pub record IsAssembled (a : AssembledBlock) : Type 0 where
    pub head : FlashBlock
    pub base : ExecutionPayloadBaseV1
    pub latest : FlashBlock
    pub converted : Block
    pub head_first : first flashblocks ≡ some head
    pub base_head : head.base ≡ some base
    pub latest_last : last flashblocks ≡ some latest
    pub not_genesis : base.block_number ≢ 0
    pub converted_payload :
        Spec.try_into_block spec (payload base flashblocks latest) ≡ done converted
    pub requests_hash_of : Option B256
    pub requests : requests_hash spec (rooted spec base converted) flashblocks ≡ ok requests_hash_of
    pub slot : Option ℕ
    pub slot_of_base : HasSlot base converted slot
    pub assembled : a ≡ finished base converted requests_hash_of slot

  abbrev slot_of : ExecutionPayloadBaseV1 → Block → Option ℕ
  slot_of base converted =
      if Spec.is_amsterdam_active_at_timestamp spec base.timestamp
      then base.slot_number
      else converted.header.slot_number

  slot_of-HasSlot :
      (base : ExecutionPayloadBaseV1) (converted : Block)
      → (Spec.is_amsterdam_active_at_timestamp spec base.timestamp
          && not (is_some base.slot_number))
        ≡ false
      → HasSlot base converted (slot_of base converted)
  slot_of-HasSlot base converted h =
      elim (Bool-cases (Spec.is_amsterdam_active_at_timestamp spec base.timestamp)) [
        | inr inactive ↦ inl (inactive, rw inactive refl)
        | inl active ↦ elim (Option-cases base.slot_number) [
          | inl missing ↦ absurd (cc (rw (active, missing) at h))
          | inr (n, known) ↦ inr (active, (n, known, rw active known))
        ]
      ]

  seal-IsAssembled :
      (head latest : FlashBlock) (base : ExecutionPayloadBaseV1) (converted : Block)
      (hash : Option B256) (a : AssembledBlock)
      → first flashblocks ≡ some head
      → head.base ≡ some base
      → last flashblocks ≡ some latest
      → (base.block_number == 0) ≡ false
      → (Spec.is_amsterdam_active_at_timestamp spec base.timestamp
          && not (is_some base.slot_number))
        ≡ false
      → Spec.try_into_block spec (payload base flashblocks latest) ≡ done converted
      → requests_hash spec (rooted spec base converted) flashblocks ≡ ok hash
      → seal spec base hash (rooted spec base converted) ≡ a
      → IsAssembled a
  seal-IsAssembled head latest base converted hash a e1 e2 e3 e4 e5 e6 e7 e8 = record {
    head = head;
    base = base;
    latest = latest;
    converted = converted;
    head_first = e1;
    base_head = e2;
    latest_last = e3;
    not_genesis = ground (arith, e4);
    converted_payload = e6;
    requests_hash_of = hash;
    requests = e7;
    slot = slot_of base converted;
    slot_of_base = slot_of-HasSlot base converted e5;
    assembled = sym e8;
  }

  -- From the conversion on.
  conversion-IsAssembled :
      (head latest : FlashBlock) (base : ExecutionPayloadBaseV1) (a : AssembledBlock)
      → first flashblocks ≡ some head
      → head.base ≡ some base
      → last flashblocks ≡ some latest
      → (base.block_number == 0) ≡ false
      → (Spec.is_amsterdam_active_at_timestamp spec base.timestamp
          && not (is_some base.slot_number))
        ≡ false
      → assemble spec flashblocks ≡ ok a
      → IsAssembled a
  unfolding assemble
  conversion-IsAssembled head latest base a e1 e2 e3 e4 e5 h =
      let (converted, e6, h6) = >>=-eq-ok _ _ (rw (e1, e2, e4, e5, e3, assemble) at h) in
      let (hash, e7, h7) =
        >>=-eq-ok (requests_hash spec (rooted spec base converted) flashblocks)
          (λ hash. ok (seal spec base hash (rooted spec base converted))) h6 in
      seal-IsAssembled head latest base converted hash a e1 e2 e3 e4 e5
        (map_err-eq-ok _ _ converted e6) e7 cc

  -- Every block that is assembled comes from the first flashblock's base, which is not of block
  -- zero, and the latest flashblock's diff: it is the converted payload with the base's beacon
  -- root, the derived requests hash and, after Amsterdam, the base's slot, which is there; all
  -- else of its header and its transactions are those of the payload, and its header is sealed
  -- with a zero hash.
  pub assemble-IsAssembled : (a : AssembledBlock) → assemble spec flashblocks ≡ ok a → IsAssembled a
  unfolding assemble
  assemble-IsAssembled a h = elim (Option-cases (first flashblocks)) [
    | inl e1 ↦ absurd (cc (rw (e1, assemble) at h))
    | inr (head, e1) ↦ elim (Option-cases head.base) [
      | inl e2 ↦ absurd (cc (rw (e1, e2, assemble) at h))
      | inr (base, e2) ↦ elim (Bool-cases (base.block_number == 0)) [
        | inl e4 ↦ absurd (cc (rw (e1, e2, e4, assemble) at h))
        | inr e4 ↦
            elim (Bool-cases (
              Spec.is_amsterdam_active_at_timestamp spec base.timestamp
              && not (is_some base.slot_number))) [
                | inl e5 ↦ absurd (cc (rw (e1, e2, e4, e5, assemble) at h))
                | inr e5 ↦ elim (Option-cases (last flashblocks)) [
                  | inl e3 ↦ absurd (cc (rw (e1, e2, e4, e5, e3, assemble) at h))
                  | inr (latest, e3) ↦ conversion-IsAssembled head latest base a e1 e2 e3 e4 e5 h
                ]
              ]
      ]
    ]
  ]
