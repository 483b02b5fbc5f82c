-- ===== src/Base/Maps.antt =====
-- `HashMap` with numbers for keys, as an association list: the order of the entries stands for the
-- order of iteration, which the language leaves open.
use Prim.Native.Nat.{ℕ, zero, suc, ◌+◌, ◌≤◌, ◌<◌}
use mathlib.Core.Path.{◌≡◌, refl, ap}
use mathlib.Core.Bool.{Bool, true, false}
use mathlib.Core.Option.{Option, none, some}
use mathlib.Core.List.{List, [], ◌∷◌, map}
use native.Mathlib.Omega.{arith}
use ethgas_reth.Base.Lists.{length}
use ethgas_reth.Base.Tests.{◌==◌, if◌then◌else◌}

abbrev pub Map {ℓ} : Type ℓ → Type ℓ
Map V = List (ℕ × V)

abbrev pub is_some {ℓ} : {A : Type ℓ} → Option A → Bool
is_some none = false
is_some (some a) = true

module _ {ℓ} {V : Type ℓ} where
  unfoldable pub lookup : ℕ → Map V → Option V
  lookup key [] = none
  lookup key ((other, value) ∷ rest) = if other == key then some value else lookup key rest

  -- A key that is there keeps its place.
  unfoldable pub insert : ℕ → V → Map V → Map V
  insert key new [] = (key, new) ∷ []
  insert key new ((other, old) ∷ rest) =
      if other == key then (key, new) ∷ rest else (other, old) ∷ insert key new rest

  unfoldable pub remove : ℕ → Map V → Map V
  remove k [] = []
  remove k ((j, w) ∷ m) = if j == k then remove k m else (j, w) ∷ remove k m

  unfoldable pub retain : (ℕ → Bool) → Map V → Map V
  retain p [] = []
  retain p ((j, w) ∷ m) = if p j then (j, w) ∷ retain p m else retain p m

  -- `m.extend(other)`
  unfoldable pub extend : Map V → Map V → Map V
  extend m [] = m
  extend m ((k, v) ∷ other) = extend (insert k v m) other

  abbrev pub values : Map V → List V
  values = map (λ e. e.1)

  -- No key stands twice.
  abbrev pub IsUnique : Map V → Type ℓ
  IsUnique [] = Unit
  IsUnique ((k, v) ∷ m) = (lookup k m ≡ none) × IsUnique m

  pub lookup-insert :
      (key sought : ℕ) (new : V) (m : Map V)
      → lookup sought (insert key new m) ≡ (if key == sought then some new else lookup sought m)
  unfolding insert lookup
  lookup-insert key sought new [] = refl
  lookup-insert key sought new ((_, _) ∷ rest) = ground (arith, lookup-insert key sought new rest)

  pub lookup-remove :
      (k j : ℕ) (m : Map V) → lookup j (remove k m) ≡ (if k == j then none else lookup j m)
  unfolding lookup remove
  lookup-remove k j [] = ground arith
  lookup-remove k j ((i, w) ∷ m) = ground (arith, lookup-remove k j m)

  pub lookup-retain :
      (p : ℕ → Bool) (j : ℕ) (m : Map V)
      → lookup j (retain p m) ≡ (if p j then lookup j m else none)
  unfolding lookup retain
  lookup-retain p j [] = ground arith
  lookup-retain p j ((i, w) ∷ m) = ground (arith, lookup-retain p j m)

  pub insert-IsUnique : (k : ℕ) (v : V) (m : Map V) → IsUnique m → IsUnique (insert k v m)
  unfolding insert lookup
  insert-IsUnique k v [] u = (refl, tt)
  insert-IsUnique k v ((i, w) ∷ m) u =
      ground (arith, insert-IsUnique k v m u.1, lookup-insert k i v m)

  pub remove-IsUnique : (k : ℕ) (m : Map V) → IsUnique m → IsUnique (remove k m)
  unfolding remove
  remove-IsUnique k [] u = tt
  remove-IsUnique k ((i, w) ∷ m) u = ground (arith, remove-IsUnique k m u.1, lookup-remove k i m)

  pub retain-IsUnique : (p : ℕ → Bool) (m : Map V) → IsUnique m → IsUnique (retain p m)
  unfolding retain
  retain-IsUnique p [] u = tt
  retain-IsUnique p ((i, w) ∷ m) u = ground (arith, retain-IsUnique p m u.1, lookup-retain p i m)

  remove_absent : (k : ℕ) (m : Map V) → lookup k m ≡ none → remove k m ≡ m
  unfolding lookup remove
  remove_absent k [] e = refl
  remove_absent k ((j, w) ∷ m) e = ground (arith, remove_absent k m)

  length-le-remove : (k : ℕ) (m : Map V) → IsUnique m → length m ≤ suc (length (remove k m))
  unfolding lookup remove
  length-le-remove k [] u = omega arith
  length-le-remove k ((j, w) ∷ m) u =
      ground
        (arith, length-le-remove k m u.1, remove_absent k m, ap length {x = remove k m} {y = m})

  -- Keys in a window of `n` numbers are at most `n`.
  pub length_le_of_window :
      (lo n : ℕ) (m : Map V)
      → IsUnique m
      → ((k : ℕ) (v : V) → lookup k m ≡ some v → (lo < k) × (k ≤ lo + n))
      → length m ≤ n
  unfolding lookup
  length_le_of_window lo zero [] u h = omega arith
  length_le_of_window lo zero ((j, w) ∷ m) u h = absurd (ground (arith, h j w))
  length_le_of_window lo (suc n) m u h = omega (
    arith,
    length-le-remove (lo + suc n) m u,
    length_le_of_window lo n (remove (lo + suc n) m) (remove-IsUnique (lo + suc n) m u)
        (λ k v e. ground (arith, e, lookup-remove (lo + suc n) k m, h k v)),
  )
