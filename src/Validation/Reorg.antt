-- ===== src/Validation/Reorg.antt =====
-- `ReorgDetector` of crates/execution/flashblocks/src/validation.rs. `usize` counts are lengths of
-- slices in memory.
use ethgas_reth.Base.{
  ℕ, ◌≡◌, ◌≢◌, ◌↔◌, inl, inr, ◌&&◌, not, if◌then◌else◌, refl, arith, Bool, true, false, List, [],
  ◌∷◌, ◌++◌, length, slice_eq, starts_with, is_empty, slice_eq_iff, starts_with_iff, Bool-cases,
  eq-false_of_ne, sym, ◌∙◌,
}
use mathlib.Core.List.{append-nil}
use ethgas_reth.Types.{B256}

pub data ReorgDetectionResult : Type 0 where
  no_reorg : ReorgDetectionResult
  untracked : (canonical_count : ℕ) → ReorgDetectionResult
  canonical_extends_tracked : (tracked_count canonical_count : ℕ) → ReorgDetectionResult
  reorg_detected : (tracked_count canonical_count : ℕ) → ReorgDetectionResult

abbrev pub is_reorg : ReorgDetectionResult → Bool
is_reorg (reorg_detected t c) = true
is_reorg _ = false

abbrev pub is_no_reorg : ReorgDetectionResult → Bool
is_no_reorg no_reorg = true
is_no_reorg _ = false

abbrev pub requires_rebuild : ReorgDetectionResult → Bool
requires_rebuild no_reorg = false
requires_rebuild _ = true

unfoldable pub detect : List B256 → List B256 → ReorgDetectionResult
detect tracked canonical =
    if is_empty tracked && not (is_empty canonical)
    then untracked (length canonical)
    else if slice_eq tracked canonical
    then no_reorg
    else if starts_with canonical tracked
    then canonical_extends_tracked (length tracked) (length canonical)
    else reorg_detected (length tracked) (length canonical)

-- What the canonical block's transactions are to the tracked ones.
abbrev pub Verdict : List B256 → List B256 → ReorgDetectionResult → Type 0
Verdict t c no_reorg = t ≡ c
Verdict t c (untracked n) = (t ≡ []) × (c ≢ []) × (n ≡ length c)
Verdict t c (canonical_extends_tracked m n) =
    (t ≢ [])
    × (t ≢ c)
    × ((suffix : List B256) × (c ≡ t ++ suffix))
    × (m ≡ length t)
    × (n ≡ length c)
Verdict t c (reorg_detected m n) =
    ¬ ((suffix : List B256) × (c ≡ t ++ suffix)) × (m ≡ length t) × (n ≡ length c)

detect_sound : (t c : List B256) → Verdict t c (detect t c)
unfolding detect
detect_sound [] [] = refl
detect_sound [] (y ∷ ys) = (refl, (λ e. cc), refl)
detect_sound (x ∷ xs) c = elim (Bool-cases (slice_eq (x ∷ xs) c)) [
  | inl same ↦ rw same ((slice_eq_iff (x ∷ xs) c).0 same)
  | inr other ↦ elim (Bool-cases (starts_with c (x ∷ xs))) [
    | inl pre ↦
        rw (other, pre)
          (
            (λ e. cc),
            (λ e. cc ((slice_eq_iff (x ∷ xs) c).1 e)),
            (starts_with_iff c (x ∷ xs)).0 pre,
            refl,
            refl,
          )
    | inr apart ↦ rw (other, apart) ((λ p. cc ((starts_with_iff c (x ∷ xs)).1 p)), refl, refl)
  ]
]

detect_complete : (t c : List B256) (r : ReorgDetectionResult) → Verdict t c r → detect t c ≡ r
unfolding detect
detect_complete [] [] no_reorg h = refl
detect_complete [] (y ∷ ys) no_reorg h = cc
detect_complete (x ∷ xs) c no_reorg h = rw ((slice_eq_iff (x ∷ xs) c).1 h)
detect_complete t [] (untracked n) h = absurd (h.1 refl)
detect_complete [] (y ∷ ys) (untracked n) h = cc
detect_complete (x ∷ xs) (y ∷ ys) (untracked n) h = cc
detect_complete [] c (canonical_extends_tracked m n) h = absurd (h.0 refl)
detect_complete (x ∷ xs) c (canonical_extends_tracked m n) h =
    ground (arith, slice_eq_iff (x ∷ xs) c, starts_with_iff c (x ∷ xs))
detect_complete [] c (reorg_detected m n) h = absurd (h.0 (c, refl))
detect_complete (x ∷ xs) c (reorg_detected m n) h = rw (differs, apart) (cc)
  where
    apart : starts_with c (x ∷ xs) ≡ false
    apart = eq-false_of_ne _ (λ e. h.0 ((starts_with_iff c (x ∷ xs)).0 e))

    differs : slice_eq (x ∷ xs) c ≡ false
    differs =
        eq-false_of_ne _
          (λ e. h.0 ([], sym ((slice_eq_iff (x ∷ xs) c).0 e) ∙ sym (append-nil (x ∷ xs))))

-- The verdict of `detect` is the one that says how the two lists of hashes differ.
detect-eq_iff_Verdict :
    (t c : List B256) (r : ReorgDetectionResult) → (detect t c ≡ r) ↔ Verdict t c r
detect-eq_iff_Verdict t c r = ((λ e. rw e at (detect_sound t c)), detect_complete t c r)

-- Pending is rebuilt exactly when its transactions for the block are not the canonical ones.
pub requires_rebuild-detect : (t c : List B256) → (requires_rebuild (detect t c) ≡ false) ↔ (t ≡ c)
requires_rebuild-detect t c = (go (detect t c) refl, λ e. rw (detect_complete t c no_reorg e))
  where
    go : (r : ReorgDetectionResult) → detect t c ≡ r → requires_rebuild r ≡ false → t ≡ c
    go no_reorg e h = rw e at (detect_sound t c)
    go (untracked n) e h = cc
    go (canonical_extends_tracked m n) e h = cc
    go (reorg_detected m n) e h = cc
