-- ===== src/Validation/Oracle.antt =====
-- `CanonicalBlockOracle` of crates/execution/flashblocks/src/validation.rs.
use ethgas_reth.Base.{
  ℕ, ◌≡◌, ◌≢◌, ◌↔◌, ◌&&◌, not, if◌then◌else◌, arith, Bool, true, List, [], ◌∷◌, ◌++◌, opt_eq,
  opt_eq_iff, suc, ◌≤◌,
}
use ethgas_reth.Types.{Header}
use ethgas_reth.Validation.Reorg.{ReorgDetectionResult, is_reorg}

pub data CanonicalMismatch : Type 0 where
  withdrawals_root requests_hash slot_number transaction_prefix : CanonicalMismatch

-- `if test { mismatches.push(mismatch) }`
abbrev pub push_if : Bool → CanonicalMismatch → List CanonicalMismatch → List CanonicalMismatch
push_if test m found = if test then found ++ (m ∷ []) else found

unfoldable pub compare : Header → Header → Bool → ReorgDetectionResult → List CanonicalMismatch
compare pending canonical requests_from_producer reorg =
    let a =
      push_if (not (opt_eq pending.withdrawals_root canonical.withdrawals_root)) withdrawals_root
        [] in
    let b =
      push_if (requests_from_producer && not (opt_eq pending.requests_hash canonical.requests_hash))
        requests_hash a in
    let c = push_if (not (opt_eq pending.slot_number canonical.slot_number)) slot_number b in
    push_if (is_reorg reorg) transaction_prefix c

abbrev pub count : CanonicalMismatch → List CanonicalMismatch → ℕ
count m [] = 0
count withdrawals_root (withdrawals_root ∷ ms) = suc (count withdrawals_root ms)
count requests_hash (requests_hash ∷ ms) = suc (count requests_hash ms)
count slot_number (slot_number ∷ ms) = suc (count slot_number ms)
count transaction_prefix (transaction_prefix ∷ ms) = suc (count transaction_prefix ms)
count m (_ ∷ ms) = count m ms

-- What it is for the two headers to fail a check.
abbrev pub Fails : Header → Header → Bool → ReorgDetectionResult → CanonicalMismatch → Type 0
Fails p c from_producer reorg withdrawals_root = p.withdrawals_root ≢ c.withdrawals_root
Fails p c from_producer reorg requests_hash =
    (from_producer ≡ true) × (p.requests_hash ≢ c.requests_hash)
Fails p c from_producer reorg slot_number = p.slot_number ≢ c.slot_number
Fails p c from_producer reorg transaction_prefix = is_reorg reorg ≡ true

-- Each failed check is reported exactly once, and no other is.
count-compare :
    (p c : Header) (from_producer : Bool) (reorg : ReorgDetectionResult) (m : CanonicalMismatch)
    → ((count m (compare p c from_producer reorg) ≡ 1) ↔ Fails p c from_producer reorg m)
      × (count m (compare p c from_producer reorg) ≤ 1)
unfolding compare
count-compare p c f r withdrawals_root =
    ground (arith, opt_eq_iff p.withdrawals_root c.withdrawals_root)
count-compare p c f r requests_hash = ground (arith, opt_eq_iff p.requests_hash c.requests_hash)
count-compare p c f r slot_number = ground (arith, opt_eq_iff p.slot_number c.slot_number)
count-compare p c f r transaction_prefix = ground arith
