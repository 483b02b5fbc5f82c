-- ===== src/Simulator/Blacklist.antt =====
-- The disallow list of crates/execution/simulator/src/blacklist.rs, and the task of
-- crates/execution/simulator/src/validation/mod.rs that fetches it.
pub mod Digest
pub mod Fetching
use Prim.Native.String.{String}
use ethgas_reth.Base.{
  ℕ, ◌≡◌, leb, ◌==◌, not, if◌then◌else◌, Bool, true, false, List, [], ◌∷◌, Option, none, some,
  opt_eq, length, contains, add_to,
}
use ethgas_reth.Types.{Address}

pub data DisallowListPayload : Type 0 where
  bare wrapped : List String → DisallowListPayload

-- The digest of sorted addresses, written as hexadecimal digits, as a number; and the parser of an
-- address, behind the removal of a prefix `0x`.
pub record Codec : Type 0 where
  pub sha256 : List Address → ℕ
  pub parse_address : String → Option Address

-- `sort_unstable`
unfoldable pub insert_sorted : Address → List Address → List Address
insert_sorted a [] = a ∷ []
insert_sorted a (x ∷ xs) = if leb a x then a ∷ x ∷ xs else x ∷ insert_sorted a xs

unfoldable pub sorted : List Address → List Address
unfolding insert_sorted
sorted [] = []
sorted (x ∷ xs) = insert_sorted x (sorted xs)

module _ (codec : Codec) where
  unfoldable pub parse_disallow_list : List String → List Address
  parse_disallow_list [] = []
  parse_disallow_list (hex ∷ list) =
      let rest = parse_disallow_list list in
      elim (codec.parse_address hex) as (λ _. List Address) [ none ↦ rest | some a ↦ a ∷ rest ]

  unfoldable pub into_addresses : DisallowListPayload → List Address
  unfolding parse_disallow_list
  into_addresses (bare list) = parse_disallow_list list
  into_addresses (wrapped items) = parse_disallow_list items

  unfoldable pub hash_disallow_list : (disallow : List Address) → ℕ
  unfolding sorted
  hash_disallow_list disallow = codec.sha256 (sorted disallow)

  unfoldable pub changed_disallow_hash : (disallow : List Address) → Option ℕ → Option ℕ
  unfolding hash_disallow_list
  changed_disallow_hash disallow previous =
      let hash = hash_disallow_list disallow in
      if not (opt_eq previous (some hash)) then some hash else none
