-- ===== src/Base/Compare.antt =====
-- Equality and prefix tests on options and slices of numbers, with what they decide, and the
-- arithmetic of `u64`.
use Prim.Native.Nat.{ℕ, ◌+◌, ◌%◌, ◌^◌}
use mathlib.Core.Path.{◌≡◌, refl}
use mathlib.Core.Logic.{◌↔◌}
use mathlib.Core.Bool.{Bool, true, false, ◌&&◌}
use mathlib.Core.Option.{Option, none, some}
use mathlib.Core.List.{List, [], ◌∷◌, ◌++◌}
use native.Mathlib.Omega.{arith}
use ethgas_reth.Base.Tests.{◌==◌}

abbrev pub u64_mod : ℕ
u64_mod = 2 ^ 64

-- `a + b` on `u64` where overflow checks are off, as in every release profile.
abbrev pub add_u64 : ℕ → ℕ → ℕ
add_u64 a b = (a + b) % u64_mod

abbrev pub opt_eq : Option ℕ → Option ℕ → Bool
opt_eq none none = true
opt_eq (some a) (some b) = a == b
opt_eq _ _ = false

abbrev pub slice_eq : List ℕ → List ℕ → Bool
slice_eq [] [] = true
slice_eq (x ∷ xs) (y ∷ ys) = x == y && slice_eq xs ys
slice_eq _ _ = false

-- `starts_with whole part`.
abbrev pub starts_with : List ℕ → List ℕ → Bool
starts_with _ [] = true
starts_with [] (y ∷ ys) = false
starts_with (x ∷ xs) (y ∷ ys) = x == y && starts_with xs ys

abbrev pub is_empty {ℓ} : {A : Type ℓ} → List A → Bool
is_empty [] = true
is_empty (x ∷ xs) = false

pub opt_eq_iff : (a b : Option ℕ) → (opt_eq a b ≡ true) ↔ (a ≡ b)
opt_eq_iff none none = ((λ _. refl), (λ _. refl))
opt_eq_iff (some a) (some b) = ground arith
opt_eq_iff _ _ = ((λ e. cc), (λ e. cc))

slice_eq_sound : (xs ys : List ℕ) → slice_eq xs ys ≡ true → xs ≡ ys
slice_eq_sound [] [] h = refl
slice_eq_sound (x ∷ xs) (y ∷ ys) h = ground (arith, slice_eq_sound xs ys)
slice_eq_sound [] (y ∷ ys) h = cc
slice_eq_sound (x ∷ xs) [] h = cc

slice_eq_refl : (xs : List ℕ) → slice_eq xs xs ≡ true
slice_eq_refl [] = refl
slice_eq_refl (x ∷ xs) = ground (arith, slice_eq_refl xs)

pub slice_eq_iff : (xs ys : List ℕ) → (slice_eq xs ys ≡ true) ↔ (xs ≡ ys)
slice_eq_iff xs ys = (slice_eq_sound xs ys, λ e. rw (← e) (slice_eq_refl xs))

pub starts_with-append : (xs zs : List ℕ) → starts_with (xs ++ zs) xs ≡ true
starts_with-append [] zs = refl
starts_with-append (x ∷ xs) zs = ground (arith, starts_with-append xs zs)

pub starts_with-split :
    (ys xs : List ℕ) → starts_with ys xs ≡ true → (zs : List ℕ) × (ys ≡ xs ++ zs)
starts_with-split ys [] h = (ys, refl)
starts_with-split [] (x ∷ xs) h = absurd (ground arith)
starts_with-split (y ∷ ys) (x ∷ xs) h =
    let (zs, e) = starts_with-split ys xs (ground arith) in (zs, ground arith)

pub starts_with_iff :
    (ys xs : List ℕ) → (starts_with ys xs ≡ true) ↔ ((zs : List ℕ) × (ys ≡ xs ++ zs))
starts_with_iff ys xs = (starts_with-split ys xs, λ h. rw h.1 (starts_with-append xs h.0))
