-- ===== src/Subscription/Limits.antt =====
-- How much crates/execution/flashblocks/src/subscription.rs decodes of a message.
use Prim.Native.String.{String}
use ethgas_reth.Base.{
  ℕ, suc, ◌≤◌, ◌≡◌, ◌⊎◌, inl, inr, refl, arith, Bool-cases, Option-cases, leb, length, Option, none,
  some,
}
use ethgas_reth.Fallible.{Fallible, done, Fallible-cases}
use ethgas_reth.Subscription.Wire.{
  Bytes, Decoders, max_decoded_flashblock_bytes, ensure_within_size_limit, decompressed,
  try_parse_message, text_of,
}

ensure_within_size_limit-eq-done :
    {A : Type 0} (n : ℕ) (rest : Fallible A) (a : A)
    → ensure_within_size_limit n rest ≡ done a
    → (n ≤ 5242880) × (rest ≡ done a)
ensure_within_size_limit-eq-done n rest a h = elim (Bool-cases (leb n 5242880)) [
  | inl fits ↦ (ground (arith, fits), ground (arith, fits, h))
  | inr large ↦ absurd (ground (arith, large, h))
]

module _ (decoders : Decoders) where
  -- The text is of few enough bytes, which are the message, or what it decompresses to.
  abbrev pub IsWithin : Bytes → String → Type 0
  IsWithin bytes text =
      (raw : Bytes) × (decoders.from_utf8 raw ≡ some text)
      × (length raw ≤ 5242880)
      × ((raw ≡ bytes) ⊎ (decoders.decompress (suc max_decoded_flashblock_bytes) bytes ≡ done raw))

  text_of-eq-done :
      (found : Option String) (text : String)
      → text_of decoders found ≡ done text
      → found ≡ some text
  text_of-eq-done none text h = cc
  text_of-eq-done (some other) text h = cc

  decompressed-IsWithin :
      (bytes : Bytes) (text : String)
      → decompressed decoders bytes ≡ done text
      → IsWithin bytes text
  unfolding decompressed
  decompressed-IsWithin bytes text h =
      elim (Fallible-cases (decoders.decompress (suc max_decoded_flashblock_bytes) bytes)) [
        | inl (reason, bad) ↦ absurd (ground (arith, bad, h))
        | inr (raw, good) ↦
            let (short, e) =
              ensure_within_size_limit-eq-done (length raw)
                (text_of decoders (decoders.from_utf8 raw)) text (rw (good, decompressed) at h) in
            (raw, text_of-eq-done (decoders.from_utf8 raw) text e, short, inr good)
      ]

  -- A binary message that parses to a text does so from at most 5 MiB of UTF-8, which are the
  -- message itself or what it decompresses to, the decompression being cut off one byte above
  -- that.
  try_parse_message-IsWithin :
      (bytes : Bytes) (text : String)
      → try_parse_message decoders bytes ≡ done text
      → IsWithin bytes text
  unfolding try_parse_message
  try_parse_message-IsWithin bytes text h = elim (Option-cases (decoders.from_utf8 bytes)) [
    | inl bare ↦ decompressed-IsWithin bytes text (rw (bare, try_parse_message) at h)
    | inr (found, utf8) ↦ elim (Bool-cases (decoders.starts_with_brace found)) [
      | inl brace ↦
          let (short, e) =
            ensure_within_size_limit-eq-done (length bytes) (done found) text
              (rw (utf8, brace, try_parse_message) at h) in
          (bytes, cc, short, inl refl)
      | inr none_found ↦
          decompressed-IsWithin bytes text (rw (utf8, none_found, try_parse_message) at h)
    ]
  ]
