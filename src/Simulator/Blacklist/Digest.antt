-- ===== src/Simulator/Blacklist/Digest.antt =====
-- The digest of crates/execution/simulator/src/blacklist.rs, for sets that are iterated in any order.
use ethgas_reth.Base.{
  ℕ, ◌<◌, ◌≡◌, refl, ap, arith, ◌==◌, true, false, if◌then◌else◌, List, [], ◌∷◌, contains,
  IsDistinct,
}
use ethgas_reth.Types.{Address}
use ethgas_reth.Simulator.Blacklist.{Codec, insert_sorted, sorted, hash_disallow_list}

-- Every number is above the first, and they rise along the list.
abbrev Rises : ℕ → List ℕ → Type 0
Rises n [] = Unit {0}
Rises n (x ∷ xs) = (n < x) × Rises x xs

abbrev IsAscending : List ℕ → Type 0
IsAscending [] = Unit {0}
IsAscending (x ∷ xs) = Rises x xs

contains-insert_sorted :
    (a b : ℕ) (xs : List ℕ)
    → contains (insert_sorted a xs) b ≡ (if a == b then true else contains xs b)
unfolding contains insert_sorted
contains-insert_sorted a b [] = refl
contains-insert_sorted a b (x ∷ xs) = ground (arith, contains-insert_sorted a b xs)

contains-sorted : (xs : List ℕ) (b : ℕ) → contains (sorted xs) b ≡ contains xs b
unfolding contains sorted
contains-sorted [] b = refl
contains-sorted (x ∷ xs) b =
    ground (arith, contains-insert_sorted x b (sorted xs), contains-sorted xs b)

insert_sorted-Rises :
    (n a : ℕ) (xs : List ℕ)
    → n < a
    → contains xs a ≡ false
    → Rises n xs
    → Rises n (insert_sorted a xs)
unfolding contains insert_sorted
insert_sorted-Rises n a [] h new r = (h, tt)
insert_sorted-Rises n a (x ∷ xs) h new r = ground (arith, insert_sorted-Rises x a xs)

insert_sorted-IsAscending :
    (a : ℕ) (xs : List ℕ)
    → contains xs a ≡ false
    → IsAscending xs
    → IsAscending (insert_sorted a xs)
unfolding contains insert_sorted
insert_sorted-IsAscending a [] new r = tt
insert_sorted-IsAscending a (x ∷ xs) new r = ground (arith, insert_sorted-Rises x a xs)

sorted-IsAscending : (xs : List ℕ) → IsDistinct xs → IsAscending (sorted xs)
unfolding sorted
sorted-IsAscending [] d = tt
sorted-IsAscending (x ∷ xs) (new, d) =
    insert_sorted-IsAscending x (sorted xs) (ground (arith, contains-sorted xs x, new))
      (sorted-IsAscending xs d)

Rises-contains : (n b : ℕ) (xs : List ℕ) → Rises n xs → contains xs b ≡ true → n < b
unfolding contains
Rises-contains n b [] r h = cc
Rises-contains n b (x ∷ xs) r h = ground (arith, Rises-contains x b xs r.1)

Rises-IsAscending : (n : ℕ) (xs : List ℕ) → Rises n xs → IsAscending xs
Rises-IsAscending n [] r = tt
Rises-IsAscending n (x ∷ xs) r = r.1

-- A list that rises is determined by its members.
eq_of_contains :
    (xs ys : List ℕ)
    → IsAscending xs
    → IsAscending ys
    → ((b : ℕ) → contains xs b ≡ contains ys b)
    → xs ≡ ys
unfolding contains
eq_of_contains [] [] r r' same = refl
eq_of_contains [] (y ∷ ys) r r' same = absurd (ground (arith, same y))
eq_of_contains (x ∷ xs) [] r r' same = absurd (ground (arith, same x))
eq_of_contains (x ∷ xs) (y ∷ ys) r r' same =
    let e : x ≡ y =
      ground (arith, same x, same y, Rises-contains x y xs r, Rises-contains y x ys r') in
    let rest =
      eq_of_contains xs ys (Rises-IsAscending x xs r) (Rises-IsAscending y ys r')
        (λ b. ground (arith, e, same b, Rises-contains x b xs r, Rises-contains y b ys r')) in
    cc

-- Two sets without repetitions that have the same addresses have the same digest, in whatever
-- order they are iterated.
hash_disallow_list_congr :
    (codec : Codec) (xs ys : List Address)
    → IsDistinct xs
    → IsDistinct ys
    → ((a : Address) → contains xs a ≡ contains ys a)
    → hash_disallow_list codec xs ≡ hash_disallow_list codec ys
unfolding hash_disallow_list
hash_disallow_list_congr codec xs ys d d' same = ap codec.sha256 (
    eq_of_contains (sorted xs) (sorted ys) (sorted-IsAscending xs d) (sorted-IsAscending ys d')
      (λ b. ground (arith, contains-sorted xs b, contains-sorted ys b, same b)))
