-- ===== src/Rpc/PubSub/Latest/Since.antt =====
-- What is known of the buffer of a connection in crates/execution/flashblocks/src/rpc/pubsub.rs while
-- its tasks count, queue and write messages.
use ethgas_reth.Base.{
  ℕ, suc, Bool, ◌+◌, ◌≤◌, ◌<◌, false, List, [], ◌∷◌, ◌++◌, Option, none, some, length, ◌≡◌, ◌∙◌,
  arith, ◌⊎◌, inl, inr,
}
use ethgas_reth.Rpc.PubSub.Latest
use ethgas_reth.Rpc.PubSub.Latest.{previous_queued, has_left}
use ethgas_reth.Rpc.PubSub.Latest.Racing.{
  own, HasBehind, HasBehind-append, HasBehind-less, HasBehind-tail, HasBehind-length, own-append,
  own-tail,
}

-- After `r` races: the connection has no own message, or each has `b` messages behind it, and `u`
-- of the races account for what else was counted since the previous message. `E` is known of `b`.
abbrev pub Since : (E : ℕ → Type 0) → Option ℕ → ℕ → List Bool → ℕ → Type 0
Since E none total buffer r = own buffer ≡ 0
Since E (some n) total buffer r =
    (own buffer ≡ 0)
    ⊎ ((b : ℕ) × (u : ℕ) × HasBehind b buffer
        × (total ≤ n + b + u)
        × (own buffer + u ≤ suc r)
        × E b)

abbrev pub Any : ℕ → Type 0
Any b = Unit

module _ (E : ℕ → Type 0) where
  pub Since-le :
      (previous : Option ℕ) (total : ℕ) (buffer : List Bool) (r : ℕ)
      → Since E previous total buffer r
      → own buffer ≤ suc r
  Since-le none total buffer r free = omega (arith, free)
  Since-le (some n) total buffer r (inl free) = omega (arith, free)
  Since-le (some n) total buffer r (inr (b, u, _, _, few, _)) = omega (arith, few)

  pub Since-counted :
      (previous : Option ℕ) (total : ℕ) (buffer : List Bool) (r : ℕ)
      → Since E previous total buffer r
      → Since E previous (suc total) buffer (suc r)
  Since-counted none total buffer r free = free
  Since-counted (some n) total buffer r (inl free) = inl free
  Since-counted (some n) total buffer r (inr (b, u, h, near, few, e)) =
      inr (b, suc u, h, omega (arith, near), omega (arith, few), e)

  pub Since-queued :
      (previous : Option ℕ) (total : ℕ) (buffer : List Bool) (r : ℕ)
      → Since E previous total buffer r
      → Since E previous total (buffer ++ false ∷ []) r
  Since-queued none total buffer r free = own-append buffer false ∙ free
  Since-queued (some n) total buffer r (inl free) = inl (own-append buffer false ∙ free)
  Since-queued (some n) total buffer r (inr (b, u, h, near, few, e)) = inr (
    b,
    u,
    HasBehind-less b _ (HasBehind-append b buffer h),
    near,
    omega (arith, few, own-append buffer false),
    e,
  )

  pub Since-written :
      (previous : Option ℕ) (total : ℕ) (buffer : List Bool) (r : ℕ)
      → Since E previous total buffer r
      → Since E previous total (Latest.tail buffer) r
  Since-written none total buffer r free = omega (arith, free, own-tail buffer)
  Since-written (some n) total buffer r (inl free) = inl (omega (arith, free, own-tail buffer))
  Since-written (some n) total buffer r (inr (b, u, h, near, few, e)) =
      inr (b, u, HasBehind-tail b buffer h, near, omega (arith, few, own-tail buffer), e)

  pub Since-Any :
      (previous : Option ℕ) (total : ℕ) (buffer : List Bool) (r : ℕ)
      → Since E previous total buffer r
      → Since Any previous total buffer r
  Since-Any none total buffer r free = free
  Since-Any (some n) total buffer r (inl free) = inl free
  Since-Any (some n) total buffer r (inr (b, u, h, near, few, _)) = inr (b, u, h, near, few, tt)

-- A message of another subscription with nothing in between is behind every own one.
pub Since-other :
    (previous : Option ℕ) (total : ℕ) (buffer : List Bool) (r : ℕ)
    → Since Any previous total buffer r
    → Since Any previous (suc total) (buffer ++ false ∷ []) r
Since-other none total buffer r free = own-append buffer false ∙ free
Since-other (some n) total buffer r (inl free) = inl (own-append buffer false ∙ free)
Since-other (some n) total buffer r (inr (b, u, h, near, few, _)) = inr (
  suc b,
  u,
  HasBehind-append b buffer h,
  omega (arith, near),
  omega (arith, few, own-append buffer false),
  tt,
)

pub Since-read :
    (previous : Option ℕ) (total : ℕ) (buffer : List Bool) (r : ℕ)
    → Since Any previous total buffer r
    → Since (λ b. b < length buffer) previous total buffer r
Since-read none total buffer r free = free
Since-read (some n) total buffer r (inl free) = inl free
Since-read (some n) total buffer r (inr (b, u, h, near, few, _)) =
    elim (HasBehind-length b buffer h) [
      | inl free ↦ inl free
      | inr long ↦ inr (b, u, h, near, few, long)
    ]

-- When the previous message looks written, the connection has one less than the races allow.
pub Since-left :
    (previous : Option ℕ) (held total : ℕ) (buffer : List Bool) (r : ℕ)
    → previous_queued previous held total ≡ false
    → Since (λ b. b < held) previous total buffer r
    → own buffer ≤ r
unfolding previous_queued has_left
Since-left none held total buffer r e free = omega (arith, free)
Since-left (some n) held total buffer r e (inl free) = omega (arith, free)
Since-left (some n) held total buffer r e (inr (b, u, h, near, few, long)) =
    ground (arith, e, near, few, long)
