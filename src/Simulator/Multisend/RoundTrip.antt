-- ===== src/Simulator/Multisend/RoundTrip.antt =====
-- What crates/execution/simulator/src/payment.rs finds in a `multiSend` payload that was packed as
-- its comment says.
use native.Mathlib.Nat.{pow-suc}
use mathlib.Core.List.{append_assoc, append-nil}
use ethgas_reth.Base.{
  ℕ, zero, suc, ◌+◌, ◌*◌, ◌/◌, ◌%◌, ◌^◌, ◌<◌, ◌≡◌, refl, ◌∙◌, arith, List, [], ◌∷◌, ◌++◌, none,
  some, length, length-append, drop-append, take-append, drop-append_add, u64_mod,
}
use ethgas_reth.Types.{Address, U256}
use ethgas_reth.Simulator.Multisend.{Bytes, from_be, slice, next_entry}

-- `n` in `k` bytes, the most significant first.
unfoldable pub to_be : ℕ → ℕ → Bytes
to_be zero n = []
to_be (suc k) n = to_be k (n / 256) ++ (n % 256) ∷ []

pub length-to_be : (k n : ℕ) → length (to_be k n) ≡ k
unfolding to_be
length-to_be zero n = refl
length-to_be (suc k) n =
    omega (arith, length-append (to_be k (n / 256)) ((n % 256) ∷ []), length-to_be k (n / 256))

from_be-snoc : (bs : Bytes) (acc b : ℕ) → from_be acc (bs ++ b ∷ []) ≡ from_be acc bs * 256 + b
unfolding from_be
from_be-snoc [] acc b = refl
from_be-snoc (c ∷ bs) acc b = from_be-snoc bs (acc * 256 + c) b

pub from_be-to_be : (k n : ℕ) → n < 256 ^ k → from_be 0 (to_be k n) ≡ n
unfolding to_be from_be
from_be-to_be zero n h = ground (arith, h)
from_be-to_be (suc k) n h =
    from_be-snoc (to_be k (n / 256)) 0 (n % 256)
    ∙ omega (arith, from_be-to_be k (n / 256) (omega (arith, h, pow-suc 256 k)))

-- One call of a `multiSend` batch.
pub record Call : Type 0 where
  pub operation : ℕ
  pub to : Address
  pub value : U256
  pub payload : Bytes

abbrev pub Fits : Call → Type 0
Fits c = (c.to < 256 ^ 20) × (c.value < 256 ^ 32) × (length c.payload < u64_mod)

abbrev pub AllFit : List Call → Type 0
AllFit [] = Unit {0}
AllFit (c ∷ cs) = Fits c × AllFit cs

-- A call as the doc comment of `multisend_entries` lays it out, before what follows it.
unfoldable pub pack_call : Call → Bytes → Bytes
pack_call c after =
    c.operation
    ∷ (to_be 20 c.to ++ (to_be 32 c.value ++ (to_be 32 (length c.payload) ++ (c.payload ++ after))))

unfoldable pub pack : List Call → Bytes → Bytes
unfolding pack_call
pack [] after = after
pack (c ∷ cs) after = pack_call c (pack cs after)

module _ (before : Bytes) (op : ℕ) (a v d payload after : Bytes) (la : length a ≡ 20)
    (lv : length v ≡ 32) (ld : length d ≡ 32) where
  unfoldable pub whole : Bytes
  whole = before ++ op ∷ (a ++ (v ++ (d ++ (payload ++ after))))

  slice_to : slice (length before + 1) 20 whole ≡ a
  unfolding whole
  slice_to =
      rw (drop-append_add before (op ∷ (a ++ (v ++ (d ++ (payload ++ after))))) 1)
        (take-append 20 a (v ++ (d ++ (payload ++ after))) la)

  slice_value : slice (length before + 21) 32 whole ≡ v
  unfolding whole
  slice_value =
      rw
        (
          drop-append_add before (op ∷ (a ++ (v ++ (d ++ (payload ++ after))))) 21,
          drop-append 20 a (v ++ (d ++ (payload ++ after))) la,
        )
        (take-append 32 v (d ++ (payload ++ after)) lv)

  slice_data_len : slice (length before + 53) 32 whole ≡ d
  unfolding whole
  slice_data_len =
      rw
        (
          drop-append_add before (op ∷ (a ++ (v ++ (d ++ (payload ++ after))))) 53,
          ← append_assoc a v (d ++ (payload ++ after)),
          drop-append 52 (a ++ v) (d ++ (payload ++ after)) (omega (arith, length-append a v)),
        )
        (take-append 32 d (payload ++ after) ld)

  pub length-whole : length whole ≡ length before + 85 + length payload + length after
  unfolding whole
  length-whole = omega (
    arith,
    length-append before (op ∷ (a ++ (v ++ (d ++ (payload ++ after))))),
    length-append a (v ++ (d ++ (payload ++ after))),
    length-append v (d ++ (payload ++ after)),
    length-append d (payload ++ after),
    length-append payload after,
  )

  pub next_entry-whole :
      from_be 0 d ≡ length payload
      → length payload < u64_mod
      → next_entry whole (length before)
        ≡ some ((from_be 0 a, from_be 0 v), length before + 85 + length payload)
  unfolding next_entry
  next_entry-whole e h =
      rw (slice_to, slice_value, slice_data_len) (ground (arith, e, h, length-whole))

-- Past the last whole entry there is none.
module _ (before : Bytes) (c : Call) (after : Bytes) where
  -- The entry behind `before` is the packed call.
  pub next_entry-pack_call :
      Fits c
      → next_entry (before ++ pack_call c after) (length before)
        ≡ some ((c.to, c.value), length before + 85 + length c.payload)
  unfolding pack_call whole
  next_entry-pack_call f =
      next_entry-whole before c.operation (to_be 20 c.to) (to_be 32 c.value)
        (to_be 32 (length c.payload)) c.payload after (length-to_be 20 c.to)
        (length-to_be 32 c.value) (length-to_be 32 (length c.payload)) payload_len f.2
      ∙ rw (from_be-to_be 20 c.to f.0, from_be-to_be 32 c.value f.1) refl
    where
      payload_len : from_be 0 (to_be 32 (length c.payload)) ≡ length c.payload
      payload_len = from_be-to_be 32 (length c.payload) (omega (arith, f.2))

pub next_entry-short :
    (before after : Bytes) → length after < 85 → next_entry (before ++ after) (length before) ≡ none
unfolding next_entry
next_entry-short before after h = ground (arith, h, length-append before after)

abbrev pub pays : Call → Address × U256
pays c = (c.to, c.value)

abbrev pub packed_len : Call → ℕ
packed_len c = 85 + length c.payload

pub length-pack_call :
    (c : Call) (after : Bytes) → length (pack_call c after) ≡ packed_len c + length after
unfolding pack_call whole
length-pack_call c after =
    length-whole [] c.operation (to_be 20 c.to) (to_be 32 c.value) (to_be 32 (length c.payload))
      c.payload after (length-to_be 20 c.to) (length-to_be 32 c.value)
      (length-to_be 32 (length c.payload))

pub pack_call-append : (c : Call) (after : Bytes) → pack_call c after ≡ pack_call c [] ++ after
unfolding pack_call
pack_call-append c after = simp (append_assoc, append-nil)
