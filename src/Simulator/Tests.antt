-- ===== src/Simulator/Tests.antt =====
-- Runs of crates/execution/simulator/src on a sample block, bid and batch.
use ethgas_reth.Base.{ℕ, suc, ◌-◌, lookup, ◌^◌, ◌≡◌, ◌↔◌, ◌⊎◌, refl, arith, true, [], ◌∷◌, some}
use ethgas_reth.Simulator.Multisend.{entries_from, multisend_entries, multisend_paid_amount}
use ethgas_reth.Simulator.Multisend.RoundTrip.{AllFit}
use ethgas_reth.Simulator.Multisend.Entries.{
  multisend_entries-enough, multisend_paid_amount-pack, owed,
}
use ethgas_reth.Simulator.Types.{Output, ok}
use ethgas_reth.Simulator.Payment.{balances, ensure_payment, ensure_merged_payment}
use ethgas_reth.Simulator.Payment.Soundness.{
  Grew, EndsInPayment, ensure_payment_iff, ensure_payment-overflow, withdrawn_to,
}
use ethgas_reth.Simulator.Payment.Merged.{SharedBy, ensure_merged_payment-IsPaid}
use ethgas_reth.Simulator.Samples.{call, batch, abi, chain, block, bid, output}
use ethgas_reth.Base.{length, lookup, contains}
use ethgas_reth.Simulator.Blacklist.{Codec, bare}
use ethgas_reth.Simulator.Blacklist.Fetching.{
  IsReported, run, new, fetched, refused, run-new-IsReported,
}

call-AllFit : AllFit (call ∷ [])
call-AllFit = ((omega arith, omega arith, omega arith), tt)

multisend_entries-enough_example : entries_from 300 (1 ∷ 2 ∷ []) 0 ≡ multisend_entries (1 ∷ 2 ∷ [])
multisend_entries-enough_example = multisend_entries-enough 300 (1 ∷ 2 ∷ []) (omega arith)

multisend_paid_amount-pack_example : multisend_paid_amount abi [] 7 ≡ 5
unfolding owed
multisend_paid_amount-pack_example =
    multisend_paid_amount-pack abi [] batch (call ∷ []) [] 7 refl refl call-AllFit (omega arith)

ensure_payment_iff_example :
    (ensure_payment chain block output (bid 5) ≡ ok tt)
    ↔ (Grew chain block output (bid 5) ⊎ EndsInPayment chain block output (bid 5))
ensure_payment_iff_example = ensure_payment_iff chain block output (bid 5)

ensure_merged_payment-IsPaid_example :
    Grew chain block output (bid 5)
    ⊎ ((last_ix : ℕ) × (1 ≡ suc last_ix) × SharedBy chain block output 7 5 last_ix 0)
unfolding ensure_merged_payment lookup
ensure_merged_payment-IsPaid_example =
    ensure_merged_payment-IsPaid chain block output (bid 5) 0 refl

-- An account that the block leaves as it was.
abbrev touched : Output
touched = record {
  receipts = true ∷ [];
  accounts = (7, record { original_balance = some 1; balance = some 1 }) ∷ [];
}

ensure_payment-overflow_example :
    (ensure_payment chain block touched (bid (2 ^ 256 - 1)) ≡ ok tt)
    × (ensure_merged_payment chain block touched (bid (2 ^ 256 - 1)) 0 ≡ ok tt)
unfolding balances lookup withdrawn_to
ensure_payment-overflow_example =
    ensure_payment-overflow chain block touched (bid (2 ^ 256 - 1)) (omega arith) (omega arith) 0

-- Every text is the address 9, and the digest is the number of addresses.
abbrev codec : Codec
codec = record { sha256 = length; parse_address = λ _. some 9 }

run-new-IsReported_example :
    IsReported codec (run codec (fetched (bare ("0x" ∷ [])) ∷ refused ∷ []) new)
run-new-IsReported_example = run-new-IsReported codec (fetched (bare ("0x" ∷ [])) ∷ refused ∷ [])

swapped-contains : (a : ℕ) → contains (1 ∷ 2 ∷ []) a ≡ contains (2 ∷ 1 ∷ []) a
unfolding contains
swapped-contains a = ground arith
