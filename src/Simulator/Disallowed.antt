-- ===== src/Simulator/Disallowed.antt =====
-- The address checks of crates/execution/simulator/src/validation/mod.rs: the parties of a submitted
-- block, and the accounts that its execution read.
use ethgas_reth.Base.{
  ℕ, suc, ◌+◌, ◌≡◌, refl, arith, ◌&&◌, not, if◌then◌else◌, Bool, true, false, Bool-cases,
  Option-cases, inl, inr, List, [], ◌∷◌, Option, none, some, is_empty, contains,
}
use ethgas_reth.Types.{Address}
use ethgas_reth.Simulator.Types.{
  SubmittedTransaction, SubmittedBlock, BidTrace, Result, ok, err, blacklist,
}

-- What one check sees of the shared set, which a refresh may change between two of its queries:
-- whether it was found empty, and the answer to each query, by its place in the check.
pub record Disallow : Type 0 where
  pub is_found_empty : Bool
  pub contains_at : ℕ → Address → Bool

-- A set that does not change.
abbrev pub steady : List Address → Disallow
steady addresses = record {
  is_found_empty = is_empty addresses;
  contains_at = λ place address. contains addresses address;
}

module _ (disallow : Disallow) where
  open disallow use {is_found_empty, contains_at}

  -- The first sender or recipient that is disallowed.
  unfoldable pub disallowed_party : (place : ℕ) → List SubmittedTransaction → Option Address
  disallowed_party place [] = none
  disallowed_party place (tx ∷ txs) =
      let rest = disallowed_party (place + 2) txs in
      if contains_at place tx.sender then some tx.sender else elim tx.to as (λ _. Option Address) [
        | none ↦ rest
        | some to ↦ if contains_at (place + 1) to then some to else rest
      ]

  -- The last of the accounts that is disallowed.
  unfoldable pub accessed_blacklisted : (place : ℕ) → Option Address → List Address → Option Address
  accessed_blacklisted place accessed [] = accessed
  accessed_blacklisted place accessed (account ∷ accounts) =
      accessed_blacklisted (suc place)
        (if contains_at place account then some account else accessed) accounts

  abbrev pub refused : Option Address → Result (Unit {0})
  refused none = ok tt
  refused (some account) = err (blacklist account)

  -- The list is enforced when the request asks for it and it has entries.
  abbrev pub enforced : Bool → Bool
  enforced apply_blacklist = not is_found_empty && apply_blacklist

  unfoldable pub check_parties :
      (apply_blacklist : Bool) → SubmittedBlock → BidTrace → Result (Unit {0})
  unfolding disallowed_party
  check_parties apply_blacklist block message =
      if not (enforced apply_blacklist)
      then ok tt
      else if contains_at 0 block.beneficiary
      then err (blacklist block.beneficiary)
      else if contains_at 1 message.proposer_fee_recipient
      then err (blacklist message.proposer_fee_recipient)
      else refused (disallowed_party 2 block.transactions)

  unfoldable pub check_accounts : (apply_blacklist : Bool) → List Address → Result (Unit {0})
  unfolding accessed_blacklisted
  check_accounts apply_blacklist accounts =
      refused (if enforced apply_blacklist then accessed_blacklisted 0 none accounts else none)

  -- No sender and no recipient is disallowed when it is looked up.
  abbrev pub AreClean : (place : ℕ) → List SubmittedTransaction → Type 0
  AreClean place [] = Unit {0}
  AreClean place (tx ∷ txs) =
      (contains_at place tx.sender ≡ false)
      × ((to : Address) → tx.to ≡ some to → contains_at (place + 1) to ≡ false)
      × AreClean (place + 2) txs

  abbrev pub NoneFrom : (place : ℕ) → List Address → Type 0
  NoneFrom place [] = Unit {0}
  NoneFrom place (account ∷ accounts) =
      (contains_at place account ≡ false) × NoneFrom (suc place) accounts

  abbrev pub NoneOf : List Address → Type 0
  NoneOf accounts = NoneFrom 0 accounts

  disallowed_party-AreClean :
      (place : ℕ) (txs : List SubmittedTransaction)
      → disallowed_party place txs ≡ none
      → AreClean place txs
  unfolding disallowed_party
  disallowed_party-AreClean place [] h = tt
  disallowed_party-AreClean place (tx ∷ txs) h = elim (Option-cases tx.to) [
    | inl creates ↦ ground (arith, creates, disallowed_party-AreClean (place + 2) txs)
    | inr (to, t) ↦ (
      ground (arith, t),
      λ to' t'. ground (arith, t, t'),
      disallowed_party-AreClean (place + 2) txs (ground (arith, t)),
    )
  ]

  accessed_blacklisted-NoneFrom :
      (place : ℕ) (accessed : Option Address) (accounts : List Address)
      → accessed_blacklisted place accessed accounts ≡ none
      → (accessed ≡ none) × NoneFrom place accounts
  unfolding accessed_blacklisted
  accessed_blacklisted-NoneFrom place accessed [] h = (h, tt)
  accessed_blacklisted-NoneFrom place accessed (account ∷ accounts) h =
      elim (Bool-cases (contains_at place account)) [
        | inl hit ↦
            let rest =
              accessed_blacklisted-NoneFrom (suc place) (some account) accounts
                (rw (hit, accessed_blacklisted) at h) in
            absurd (ground (arith, rest.0))
        | inr miss ↦
            let rest =
              accessed_blacklisted-NoneFrom (suc place) accessed accounts
                (rw (miss, accessed_blacklisted) at h) in
            (rest.0, (miss, rest.1))
      ]

  -- Neither the beneficiary, nor the fee recipient, nor a sender, nor a recipient is disallowed
  -- when it is looked up.
  abbrev pub PartiesAreClean : SubmittedBlock → BidTrace → Type 0
  PartiesAreClean block message =
      (contains_at 0 block.beneficiary ≡ false)
      × (contains_at 1 message.proposer_fee_recipient ≡ false)
      × AreClean 2 block.transactions

  refused-eq-ok : (found : Option Address) → refused found ≡ ok tt → found ≡ none
  refused-eq-ok none h = refl
  refused-eq-ok (some account) h = cc

  pub check_parties-PartiesAreClean :
      (apply_blacklist : Bool) (block : SubmittedBlock) (message : BidTrace)
      → enforced apply_blacklist ≡ true
      → check_parties apply_blacklist block message ≡ ok tt
      → PartiesAreClean block message
  unfolding check_parties
  check_parties-PartiesAreClean apply_blacklist block message on h =
      let none_found =
        refused-eq-ok (disallowed_party 2 block.transactions) (ground (arith, on, h)) in
      (
        ground (arith, on, h),
        ground (arith, on, h),
        disallowed_party-AreClean 2 block.transactions none_found,
      )

  pub check_accounts-NoneOf :
      (apply_blacklist : Bool) (accounts : List Address)
      → enforced apply_blacklist ≡ true
      → check_accounts apply_blacklist accounts ≡ ok tt
      → NoneOf accounts
  unfolding check_accounts
  check_accounts-NoneOf apply_blacklist accounts on h =
      (accessed_blacklisted-NoneFrom 0 none accounts
        (refused-eq-ok (accessed_blacklisted 0 none accounts) (rw (on) at h))).1
