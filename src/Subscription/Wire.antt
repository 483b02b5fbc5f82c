-- ===== src/Subscription/Wire.antt =====
-- How crates/execution/flashblocks/src/subscription.rs decodes a message, and what it reports of the
-- message's shape. A byte is a number below 256.
use Prim.Native.String.{String, compare}
use Prim.Native.Nat.{Ordering}
use ethgas_reth.Base.{
  ℕ, suc, ◌&&◌, not, leb, if◌then◌else◌, Bool, true, false, List, [], ◌∷◌, ◌++◌, Option, none, some,
  length,
}
use ethgas_reth.Fallible.{Fallible, done, failed}
use ethgas_reth.Types.{PayloadId}
use ethgas_reth.Payload.{
  FlashBlock, Metadata, ExecutionPayloadBaseV1, ExecutionPayloadFlashblockDeltaV1,
}

abbrev pub Bytes : Type 0
Bytes = List ℕ

abbrev pub max_decoded_flashblock_bytes : ℕ
max_decoded_flashblock_bytes = 5242880

abbrev pub max_warned_unknown_keys : ℕ
max_warned_unknown_keys = 64

abbrev pub envelope_keys : List String
envelope_keys = "payload_id" ∷ "index" ∷ "base" ∷ "diff" ∷ "metadata" ∷ []

abbrev pub base_keys : List String
base_keys =
    "parent_beacon_block_root" ∷ "parent_hash" ∷ "fee_recipient" ∷ "prev_randao" ∷ "block_number"
    ∷ "gas_limit" ∷ "timestamp" ∷ "extra_data" ∷ "base_fee_per_gas" ∷ "slot_number" ∷ []

abbrev pub diff_keys : List String
diff_keys =
    "state_root" ∷ "receipts_root" ∷ "logs_bloom" ∷ "gas_used" ∷ "block_hash" ∷ "transactions"
    ∷ "withdrawals" ∷ "blob_gas_used" ∷ "excess_blob_gas" ∷ "requests" ∷ []

abbrev pub metadata_keys : List String
metadata_keys = "block_number" ∷ "new_account_balances" ∷ "receipts" ∷ "inclusion_fee" ∷ []

mutual
  -- `serde_json::Value`; the last constructor stands for what has no keys.
  pub data Json : Type 0 where
    null scalar : Json
    object : Members → Json

  pub data Members : Type 0 where
    no_members : Members
    member : String → Json → Members → Members

abbrev same_key : String → String → Bool
same_key a b = elim (compare a b) [ Ordering.eq ↦ true | _ ↦ false ]

unfoldable pub is_among : List String → String → Bool
is_among [] key = false
is_among (other ∷ others) key = if same_key other key then true else is_among others key

unfoldable find_member : String → Members → Option Json
find_member key no_members = none
find_member key (member other value rest) =
    if same_key other key then some value else find_member key rest

-- `payload.get(key)`
unfoldable pub get_member : Json → String → Option Json
unfolding find_member
get_member (object members) key = find_member key members
get_member _ key = none

abbrev pub is_present : Option Json → Bool
is_present none = false
is_present (some null) = false
is_present (some _) = true

-- The keys of an object that are not known, and how it is called.
unfoldable pub unknown_members : (called : String) → List String → Members → List (String × String)
unfolding is_among
unknown_members called known no_members = []
unknown_members called known (member key value rest) =
    let others = unknown_members called known rest in
    if is_among known key then others else (called, key) ∷ others

unfoldable pub unknown_of : (called : String) → Option Json → List String → List (String × String)
unfolding unknown_members
unknown_of called (some (object members)) known = unknown_members called known members
unknown_of called _ known = []

-- An unknown key is the pair of the object and the key, which the code writes with a dot between.
pub record WireShape : Type 0 where
  pub unknown_keys : List (String × String)
  pub base_without_slot_number : Bool
  pub diff_without_requests : Bool

abbrev member_of : Option Json → String → Option Json
member_of none key = none
member_of (some value) key = get_member value key

unfoldable pub shape_of : Json → WireShape
unfolding unknown_of get_member
shape_of payload = record {
  unknown_keys =
      unknown_of "envelope" (some payload) envelope_keys
      ++ (unknown_of "base" (get_member payload "base") base_keys
          ++ (unknown_of "diff" (get_member payload "diff") diff_keys
              ++ unknown_of "metadata" (get_member payload "metadata") metadata_keys));
  base_without_slot_number =
      is_present (get_member payload "base")
      && not (is_present (member_of (get_member payload "base") "slot_number"));
  diff_without_requests = not (is_present (member_of (get_member payload "diff") "requests"));
}

pub record FlashblocksPayloadV1 : Type 0 where
  pub payload_id : PayloadId
  pub index : ℕ
  pub base : Option ExecutionPayloadBaseV1
  pub diff : ExecutionPayloadFlashblockDeltaV1
  pub metadata : Json

-- The decoders: UTF-8, the test for a brace behind white space, brotli cut off at a number of bytes,
-- and serde's.
pub record Decoders : Type 0 where
  pub from_utf8 : Bytes → Option String
  pub starts_with_brace : String → Bool
  pub byte_length : String → ℕ
  pub decompress : (limit : ℕ) → Bytes → Fallible Bytes
  pub from_str : String → Fallible Json
  pub payload_from_value : Json → Fallible FlashblocksPayloadV1
  pub metadata_from_value : Json → Fallible Metadata

abbrev pub ensure_within_size_limit {ℓ} : {A : Type ℓ} → ℕ → Fallible A → Fallible A
ensure_within_size_limit n rest =
    if leb n max_decoded_flashblock_bytes then rest else failed "flashblock payload too large"

module _ (decoders : Decoders) where
  open decoders use {
    from_utf8, starts_with_brace, byte_length, decompress, from_str, payload_from_value,
    metadata_from_value,
  }

  -- `String::from_utf8`
  abbrev pub text_of : Option String → Fallible String
  text_of none = failed "invalid utf-8"
  text_of (some text) = done text

  unfoldable pub decompressed : Bytes → Fallible String
  decompressed bytes =
      elim (decompress (suc max_decoded_flashblock_bytes) bytes) as (λ _. Fallible String) [
        | failed reason ↦ failed reason
        | done raw ↦ ensure_within_size_limit (length raw) (text_of (from_utf8 raw))
      ]

  unfoldable pub try_parse_message : Bytes → Fallible String
  unfolding decompressed
  try_parse_message bytes = elim (from_utf8 bytes) as (λ _. Fallible String) [
    | none ↦ decompressed bytes
    | some text ↦
        if starts_with_brace text
        then ensure_within_size_limit (length bytes) (done text)
        else decompressed bytes
  ]

  unfoldable pub parse_flashblock_json : String → Fallible (FlashBlock × WireShape)
  unfolding shape_of
  parse_flashblock_json text = elim (from_str text) as (λ _. Fallible (FlashBlock × WireShape)) [
    | failed reason ↦ failed reason
    | done value ↦ elim (payload_from_value value) as (λ _. Fallible (FlashBlock × WireShape)) [
      | failed reason ↦ failed reason
      | done payload ↦
          elim (metadata_from_value payload.metadata) as (λ _. Fallible (FlashBlock × WireShape)) [
            | failed reason ↦ failed reason
            | done metadata ↦ done (
              record {
                payload_id = payload.payload_id;
                index = payload.index;
                base = payload.base;
                diff = payload.diff;
                metadata = metadata;
              },
              shape_of value,
            )
          ]
    ]
  ]

  unfoldable pub try_decode_message : Bytes → Fallible (FlashBlock × WireShape)
  unfolding try_parse_message parse_flashblock_json
  try_decode_message bytes =
      elim (try_parse_message bytes) as (λ _. Fallible (FlashBlock × WireShape)) [
        | failed reason ↦ failed reason
        | done text ↦ parse_flashblock_json text
      ]

  unfoldable pub try_decode_plaintext_message : String → Fallible (FlashBlock × WireShape)
  unfolding parse_flashblock_json
  try_decode_plaintext_message text =
      ensure_within_size_limit (byte_length text) (parse_flashblock_json text)
