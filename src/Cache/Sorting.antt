-- ===== src/Cache/Sorting.antt =====
-- `sort_by_key(|fb| fb.index)` of crates/execution/flashblocks/src/cache.rs, and the lookup of a
-- flashblock by its index in a list.
use ethgas_reth.Base.{
  ℕ, ◌<◌, ◌≤◌, ◌≡◌, leb, ◌==◌, if◌then◌else◌, refl, ◌∙◌, ap, arith, List, [], ◌∷◌, Option, none,
  some, Map, lookup, values, IsUnique,
}
use mathlib.Core.Path.{ap₂}
use ethgas_reth.Payload.{FlashBlock}

-- The place of one flashblock among those of an index in order.
unfoldable pub sift : FlashBlock → List FlashBlock → List FlashBlock
sift fb [] = fb ∷ []
sift fb (g ∷ gs) = if leb fb.index g.index then fb ∷ g ∷ gs else g ∷ sift fb gs

-- A stable sort: each flashblock goes before the later ones with its index.
unfoldable pub sort_by_index : List FlashBlock → List FlashBlock
unfolding sift
sort_by_index [] = []
sort_by_index (fb ∷ fbs) = sift fb (sort_by_index fbs)

unfoldable pub find : ℕ → List FlashBlock → Option FlashBlock
find i [] = none
find i (fb ∷ fbs) = if fb.index == i then some fb else find i fbs

-- Every index is above `n`, and they rise along the list.
abbrev pub Rises : ℕ → List FlashBlock → Type 0
Rises n [] = Unit {0}
Rises n (fb ∷ fbs) = (n < fb.index) × Rises fb.index fbs

-- The indices rise strictly along the list.
abbrev pub IsAscending : List FlashBlock → Type 0
IsAscending [] = Unit {0}
IsAscending (fb ∷ fbs) = Rises fb.index fbs

-- No two flashblocks of the list have one index.
abbrev pub IsDistinct : List FlashBlock → Type 0
IsDistinct [] = Unit {0}
IsDistinct (fb ∷ fbs) = (find fb.index fbs ≡ none) × IsDistinct fbs

sift-Rises :
    (n : ℕ) (fb : FlashBlock) (fbs : List FlashBlock)
    → n < fb.index
    → find fb.index fbs ≡ none
    → Rises n fbs
    → Rises n (sift fb fbs)
unfolding sift find
sift-Rises n fb [] h e r = (h, tt)
sift-Rises n fb (g ∷ gs) h e r = ground (arith, sift-Rises g.index fb gs)

sift-IsAscending :
    (fb : FlashBlock) (fbs : List FlashBlock)
    → find fb.index fbs ≡ none
    → IsAscending fbs
    → IsAscending (sift fb fbs)
unfolding sift find
sift-IsAscending fb [] e r = tt
sift-IsAscending fb (g ∷ gs) e r = ground (arith, sift-Rises g.index fb gs)

find-sift :
    (i : ℕ) (fb : FlashBlock) (fbs : List FlashBlock)
    → find fb.index fbs ≡ none
    → find i (sift fb fbs) ≡ (if fb.index == i then some fb else find i fbs)
unfolding sift find
find-sift i fb [] e = refl
find-sift i fb (g ∷ gs) e = ground (arith, find-sift i fb gs)

-- Sorting keeps what is found at each index.
pub find-sort_by_index :
    (i : ℕ) (fbs : List FlashBlock) → IsDistinct fbs → find i (sort_by_index fbs) ≡ find i fbs
unfolding sort_by_index find
find-sort_by_index i [] d = refl
find-sort_by_index i (fb ∷ fbs) d =
    find-sift i fb (sort_by_index fbs) (find-sort_by_index fb.index fbs d.1 ∙ d.0)
    ∙ ap (λ o. if fb.index == i then some fb else o) (find-sort_by_index i fbs d.1)

pub sort_by_index-IsAscending :
    (fbs : List FlashBlock) → IsDistinct fbs → IsAscending (sort_by_index fbs)
unfolding sort_by_index
sort_by_index-IsAscending [] d = tt
sort_by_index-IsAscending (fb ∷ fbs) d =
    sift-IsAscending fb (sort_by_index fbs) (find-sort_by_index fb.index fbs d.1 ∙ d.0)
      (sort_by_index-IsAscending fbs d.1)

find_below : (i n : ℕ) (fbs : List FlashBlock) → i ≤ n → Rises n fbs → find i fbs ≡ none
unfolding find
find_below i n [] h r = refl
find_below i n (fb ∷ fbs) h r = ground (arith, find_below i fb.index fbs)

Rises-IsAscending : (n : ℕ) (fbs : List FlashBlock) → Rises n fbs → IsAscending fbs
Rises-IsAscending n [] r = tt
Rises-IsAscending n (fb ∷ fbs) r = r.1

-- An ascending list is determined by what is found in it.
pub eq_of_find :
    (xs ys : List FlashBlock)
    → IsAscending xs
    → IsAscending ys
    → ((i : ℕ) → find i xs ≡ find i ys)
    → xs ≡ ys
unfolding find
eq_of_find [] [] a b h = refl
eq_of_find [] (y ∷ ys) a b h = absurd (ground (arith, h y.index))
eq_of_find (x ∷ xs) [] a b h = absurd (ground (arith, h x.index))
eq_of_find (x ∷ xs) (y ∷ ys) a b h =
    ap₂ (λ u us. u ∷ us) head_eq
      (eq_of_find xs ys (Rises-IsAscending x.index xs a) (Rises-IsAscending y.index ys b) tail_find)
  where
    head_eq : x ≡ y
    head_eq =
        ground (
          arith,
          h x.index,
          h y.index,
          find_below x.index y.index ys,
          find_below y.index x.index xs,
        )

    tail_find : (i : ℕ) → find i xs ≡ find i ys
    tail_find i = ground (arith, h i, head_eq, find_below i x.index xs, find_below i y.index ys)

-- The values of a map are found under its keys, where each is filed under its own index.
pub find-values :
    (i : ℕ) (m : Map FlashBlock)
    → IsUnique m
    → ((j : ℕ) (fb : FlashBlock) → lookup j m ≡ some fb → fb.index ≡ j)
    → (find i (values m) ≡ lookup i m) × IsDistinct (values m)
unfolding find lookup
find-values i [] u filed = (refl, tt)
find-values i ((j, fb) ∷ m) u filed = ground (
  arith,
  filed j fb,
  (find-values i m u.1 later).0,
  (find-values fb.index m u.1 later).0,
  (find-values i m u.1 later).1,
)
  where
    later : (k : ℕ) (g : FlashBlock) → lookup k m ≡ some g → g.index ≡ k
    later k g e = ground (arith, filed k g, u.0)
