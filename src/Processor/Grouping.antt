-- ===== src/Processor/Grouping.antt =====
-- How crates/execution/flashblocks/src/processor.rs groups flashblocks by block number.
use mathlib.Core.List.{append-nil, append_assoc}
use ethgas_reth.Base.{
  ℕ, suc, ◌≤◌, ◌<◌, ◌≡◌, refl, sym, arith, List, [], ◌∷◌, ◌++◌, none, some, inl, inr, Bool-cases,
  Map, lookup, keep, ◌==◌, ltb, if◌then◌else◌,
}
use ethgas_reth.Types.{BlockNumber}
use ethgas_reth.Payload.{FlashBlock}
use ethgas_reth.Processor.Build.{push_group, group_from}

abbrev pub group_at : BlockNumber → Map (List FlashBlock) → List FlashBlock
group_at n groups = elim (lookup n groups) [ none ↦ [] | some fbs ↦ fbs ]

-- The keys rise strictly, from `lo`.
abbrev pub Climbs : ℕ → Map (List FlashBlock) → Type 0
Climbs lo [] = Unit
Climbs lo ((k, fbs) ∷ groups) = (lo ≤ k) × Climbs (suc k) groups

abbrev pub of_number : BlockNumber → List FlashBlock → List FlashBlock
of_number n fbs = keep (λ fb. fb.metadata.block_number == n) fbs

push_group-Climbs :
    (lo k : ℕ) (fb : FlashBlock) (groups : Map (List FlashBlock))
    → lo ≤ k
    → Climbs lo groups
    → Climbs lo (push_group k fb groups)
unfolding push_group
push_group-Climbs lo k fb [] h c = (h, tt)
push_group-Climbs lo k fb ((k', fbs) ∷ groups) h c =
    let rest = push_group-Climbs (suc k') k fb groups in ground arith

lookup-below :
    (lo n : ℕ) (groups : Map (List FlashBlock)) → n < lo → Climbs lo groups → lookup n groups ≡ none
unfolding lookup
lookup-below lo n [] h c = refl
lookup-below lo n ((k, fbs) ∷ groups) h c = let rest = lookup-below (suc k) n groups in ground arith

group_at-push_group :
    (lo n k : ℕ) (fb : FlashBlock) (groups : Map (List FlashBlock))
    → Climbs lo groups
    → group_at n (push_group k fb groups) ≡ group_at n groups ++ (if k == n then fb ∷ [] else [])
unfolding push_group lookup
group_at-push_group lo n k fb [] c = ground arith
group_at-push_group lo n k fb ((k', fbs) ∷ groups) c =
    let rest = group_at-push_group (suc k') n k fb groups c.1 in
    let below = lookup-below (suc k') n groups in
    let nil = append-nil fbs in
    elim (Bool-cases (k == k')) [
      | inl same ↦ elim (Bool-cases (n == k')) [
        | inl at ↦ ground (arith, same, at)
        | inr off ↦ ground (arith, same, off, append-nil (group_at n groups))
      ]
      | inr other ↦ elim (Bool-cases (ltb k k')) [
        | inl before ↦ elim (Bool-cases (n == k')) [
          | inl at ↦ ground (arith, other, before, at, nil)
          | inr off ↦ elim (Bool-cases (k == n)) [
            | inl here ↦ ground (arith, other, before, off, here, below (ground arith) c.1)
            | inr off' ↦ ground (arith, other, before, off, off', append-nil (group_at n groups))
          ]
        ]
        | inr after ↦ elim (Bool-cases (n == k')) [
          | inl at ↦ ground (arith, other, after, at, nil)
          | inr off ↦ ground (arith, other, after, off, rest)
        ]
      ]
    ]

group_from-of_number :
    (n : ℕ) (groups : Map (List FlashBlock)) (fbs : List FlashBlock)
    → Climbs 0 groups
    → Climbs 0 (group_from groups fbs)
      × (group_at n (group_from groups fbs) ≡ group_at n groups ++ of_number n fbs)
unfolding group_from
group_from-of_number n groups [] c = (c, sym (append-nil _))
group_from-of_number n groups (fb ∷ fbs) c =
    let k = fb.metadata.block_number in
    let (c', e) =
      group_from-of_number n (push_group k fb groups) fbs
        (push_group-Climbs 0 k fb groups (omega arith) c) in
    (
      c',
      elim (Bool-cases (k == n)) [
        | inl here ↦ ground (
          arith,
          here,
          e,
          group_at-push_group 0 n k fb groups c,
          append_assoc (group_at n groups) (fb ∷ []) (of_number n fbs),
        )
        | inr off ↦
            ground
              (arith, off, e, group_at-push_group 0 n k fb groups c, append-nil (group_at n groups))
      ],
    )

-- The blocks come in ascending order without repetition, and the group of each number is the
-- flashblocks of that number in the order they came.
group_from-Groups :
    (fbs : List FlashBlock)
    → Climbs 0 (group_from [] fbs)
      × ((n : BlockNumber) → group_at n (group_from [] fbs) ≡ of_number n fbs)
unfolding lookup
group_from-Groups fbs =
    ((group_from-of_number 0 [] fbs tt).0, λ n. (group_from-of_number n [] fbs tt).1)
