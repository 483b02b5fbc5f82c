-- ===== src/Fallible.antt =====
-- The result of a call outside the repository, its error as text.
use Prim.Native.String.{String}
use ethgas_reth.Base.{◌≡◌, refl, ◌⊎◌, inl, inr}

pub data Fallible {ℓ} (A : Type ℓ) : Type ℓ where
  done : A → Fallible A
  failed : String → Fallible A

pub Fallible-cases {ℓ} :
    {A : Type ℓ} (m : Fallible A) → ((x : String) × (m ≡ failed x)) ⊎ ((a : A) × (m ≡ done a))
Fallible-cases (done a) = inr (a, refl)
Fallible-cases (failed x) = inl (x, refl)

-- The operator `?` on such a result.
module _ {ℓ κ} {A : Type ℓ} {B : Type κ} where
  infixl 6 ◌>>=◌
  abbrev pub ◌>>=◌ : Fallible A → (A → Fallible B) → Fallible B
  done a >>= rest = rest a
  failed x >>= rest = failed x
