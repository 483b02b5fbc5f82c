-- ===== src/Base/Sets.antt =====
-- Sets of numbers (`HashSet`, `DashSet`) as lists, and the lists that they are compared with.
use Prim.Native.Nat.{ℕ, suc, ◌≤◌}
use mathlib.Core.Path.{◌≡◌, refl}
use mathlib.Core.Logic.{◌≢◌, inl, inr}
use mathlib.Core.Bool.{Bool, true, false}
use mathlib.Core.List.{List, [], ◌∷◌}
use native.Mathlib.Omega.{arith}
use ethgas_reth.Base.Lists.{length}
use ethgas_reth.Base.Tests.{◌==◌, if◌then◌else◌, Bool-cases}

unfoldable pub contains : List ℕ → ℕ → Bool
contains [] a = false
contains (x ∷ xs) a = if x == a then true else contains xs a

-- `HashSet::insert`
unfoldable pub add_to : ℕ → List ℕ → List ℕ
unfolding contains
add_to a set = if contains set a then set else a ∷ set

-- No number stands twice.
abbrev pub IsDistinct : List ℕ → Type 0
IsDistinct [] = Unit {0}
IsDistinct (x ∷ xs) = (contains xs x ≡ false) × IsDistinct xs

pub add_to-IsDistinct : (a : ℕ) (xs : List ℕ) → IsDistinct xs → IsDistinct (add_to a xs)
unfolding add_to
add_to-IsDistinct a xs d = ground arith

pub contains-add_to :
    (a b : ℕ) (xs : List ℕ) → contains (add_to a xs) b ≡ (if a == b then true else contains xs b)
unfolding add_to contains
contains-add_to a b xs = elim (Bool-cases (contains xs a)) [
  | inl there ↦ rw (there, add_to) (ground (arith, there))
  | inr absent ↦ rw (absent, add_to) refl
]

unfoldable without : ℕ → List ℕ → List ℕ
without a [] = []
without a (x ∷ xs) = if x == a then xs else x ∷ without a xs

contains-without : (a b : ℕ) (xs : List ℕ) → a ≢ b → contains (without a xs) b ≡ contains xs b
unfolding contains without
contains-without a b [] h = refl
contains-without a b (x ∷ xs) h = ground (arith, contains-without a b xs h)

length-without :
    (a : ℕ) (xs : List ℕ) → contains xs a ≡ true → length xs ≡ suc (length (without a xs))
unfolding contains without
length-without a [] h = cc
length-without a (x ∷ xs) h = ground (arith, length-without a xs)

-- Distinct members of a list that is no longer than they are make up the list.
pub contains_of_length :
    (xs ys : List ℕ)
    → IsDistinct xs
    → ((a : ℕ) → contains xs a ≡ true → contains ys a ≡ true)
    → length ys ≤ length xs
    → (b : ℕ) → contains ys b ≡ true
    → contains xs b ≡ true
unfolding contains
contains_of_length [] [] d sub h b e = e
contains_of_length [] (y ∷ ys) d sub h b e = absurd (omega (arith, h))
contains_of_length (x ∷ xs) ys (new, d) sub h b e =
    let there = sub x (ground arith) in
    let rest =
      contains_of_length xs (without x ys) d
        (λ a in_xs. ground (arith, new, in_xs, sub a, contains-without x a ys))
        (omega (arith, h, length-without x ys there)) b in
    elim (Bool-cases (x == b)) [
      | inl same ↦ ground (arith, same)
      | inr other ↦ ground (arith, other, e, rest, contains-without x b ys)
    ]
