-- ===== src/Simulator/Multisend/Entries.antt =====
-- What `multisend_entries` and `multisend_paid_amount` of
-- crates/execution/simulator/src/payment.rs yield.
use mathlib.Core.List.{append_assoc}
use ethgas_reth.Base.{
  ℕ, zero, suc, ◌+◌, ◌-◌, ◌%◌, ◌^◌, ◌≤◌, ◌<◌, ◌≡◌, refl, sym, ap, ◌∙◌, arith, List, [], ◌∷◌, ◌++◌,
  some, length, length-append, map, ◌==◌, if◌then◌else◌, Option-cases, Bool-cases, inl, inr,
}
use ethgas_reth.Types.{Address, U256}
use ethgas_reth.Simulator.Multisend.{
  Bytes, next_entry, entries_from, multisend_entries, sum_to, add_u256, Abi, ExecTransactionCall,
  multisend_paid_amount,
}
use ethgas_reth.Simulator.Multisend.RoundTrip.{
  Call, AllFit, pack, pack_call, pays, next_entry-pack_call, next_entry-short, length-pack_call,
  pack_call-append,
}

next_entry-advances :
    (t : Bytes) (o : ℕ) (e : Address × U256) (o' : ℕ)
    → next_entry t o ≡ some (e, o')
    → (o < o') × (o' ≤ length t)
unfolding next_entry
next_entry-advances t o e o' h = ground (arith, h)

entries_from-enough :
    (f g : ℕ) (t : Bytes) (o : ℕ)
    → length t - o < f
    → length t - o < g
    → entries_from f t o ≡ entries_from g t o
unfolding entries_from
entries_from-enough zero g t o h k = absurd (omega arith)
entries_from-enough (suc f) zero t o h k = absurd (omega arith)
entries_from-enough (suc f) (suc g) t o h k = elim (Option-cases (next_entry t o)) [
  | inl stop ↦ rw (stop, entries_from) refl
  | inr ((e, o'), more) ↦
      let (up, inside) = next_entry-advances t o e o' more in
      rw (more, entries_from)
        (ap (◌∷◌ e) (entries_from-enough f g t o' (omega arith) (omega arith)))
]

-- More rounds than the payload has bytes yield nothing more: the iterator has ended by itself.
pub multisend_entries-enough :
    (fuel : ℕ) (t : Bytes) → length t < fuel → entries_from fuel t 0 ≡ multisend_entries t
unfolding multisend_entries
multisend_entries-enough fuel t h =
    entries_from-enough fuel (suc (length t)) t 0 (omega (arith, h)) (omega arith)

module _ (before : Bytes) (c : Call) (after : Bytes) where
  regroup : (before ++ pack_call c []) ++ after ≡ before ++ pack_call c after
  regroup =
      append_assoc before (pack_call c []) after ∙ ap (◌++◌ before) (sym (pack_call-append c after))

  length-regroup : length (before ++ pack_call c []) ≡ length before + 85 + length c.payload
  length-regroup = omega (arith, length-append before (pack_call c []), length-pack_call c [])

entries_from-pack :
    (cs : List Call) (fuel : ℕ) (before after : Bytes)
    → AllFit cs
    → length after < 85
    → length (pack cs after) < fuel
    → entries_from fuel (before ++ pack cs after) (length before) ≡ map pays cs
unfolding entries_from pack
entries_from-pack cs zero before after f h k = absurd (omega arith)
entries_from-pack [] (suc fuel) before after f h k =
    rw (next_entry-short before after h, entries_from) refl
entries_from-pack (c ∷ cs) (suc fuel) before after f h k =
    let rest =
      entries_from-pack cs fuel (before ++ pack_call c []) after f.1 h
        (omega (arith, k, length-pack_call c (pack cs after))) in
    rw (next_entry-pack_call before c (pack cs after) f.0, entries_from)
      (ap (◌∷◌ (pays c))
        (rw (regroup before c (pack cs after), length-regroup before c (pack cs after)) at rest))

-- Of calls that were packed, the entries are their recipients and values in order, whatever the
-- calls carry, and fewer than 85 bytes behind them are left alone.
multisend_entries-pack :
    (cs : List Call) (after : Bytes)
    → AllFit cs
    → length after < 85
    → multisend_entries (pack cs after) ≡ map pays cs
unfolding multisend_entries
multisend_entries-pack cs after f h =
    entries_from-pack cs (suc (length (pack cs after))) [] after f h (omega arith)

-- What the calls pay the recipient, as a plain sum.
unfoldable pub owed : Address → List Call → ℕ
owed recipient [] = 0
owed recipient (c ∷ cs) =
    let rest = owed recipient cs in if c.to == recipient then c.value + rest else rest

sum_to-owed :
    (recipient : Address) (acc : U256) (cs : List Call)
    → acc < 2 ^ 256
    → sum_to recipient acc (map pays cs) ≡ (acc + owed recipient cs) % 2 ^ 256
unfolding sum_to owed
sum_to-owed recipient acc [] h = omega (arith, h)
sum_to-owed recipient acc (c ∷ cs) h = elim (Bool-cases (c.to == recipient)) [
  | inl hit ↦
      rw (hit, sum_to, owed)
        (sum_to-owed recipient (add_u256 acc c.value) cs (omega arith) ∙ omega arith)
  | inr miss ↦ rw (miss, sum_to, owed) (sum_to-owed recipient acc cs h)
]

-- A delegatecall of a packed batch is recognised as paying what its calls pay the recipient,
-- modulo 2 ^ 256; the same batch under any other operation is recognised as paying nothing.
pub multisend_paid_amount-pack :
    (abi : Abi) (input : Bytes) (exec : ExecTransactionCall) (cs : List Call) (after : Bytes)
    (recipient : Address)
    → abi.decode_exec_transaction input ≡ some exec
    → abi.decode_multi_send exec.transaction_data ≡ some (pack cs after)
    → AllFit cs
    → length after < 85
    → multisend_paid_amount abi input recipient
      ≡ (if exec.operation == 1 then owed recipient cs % 2 ^ 256 else 0)
unfolding multisend_paid_amount
multisend_paid_amount-pack abi input exec cs after recipient d e f h =
    elim (Bool-cases (exec.operation == 1)) [
      | inl call ↦
          rw (d, call, e, multisend_paid_amount, multisend_entries-pack cs after f h)
            (sum_to-owed recipient 0 cs (omega arith) ∙ omega arith)
      | inr other ↦ rw (d, other, multisend_paid_amount) refl
    ]
