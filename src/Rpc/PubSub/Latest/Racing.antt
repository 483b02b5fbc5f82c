-- ===== src/Rpc/PubSub/Latest/Racing.antt =====
-- The messages that the tasks of a connection count in crates/execution/flashblocks/src/rpc/pubsub.rs
-- while another of them is between two of its accesses.
use ethgas_reth.Base.{
  ℕ, suc, ◌+◌, ◌≤◌, ◌<◌, if◌then◌else◌, Bool, true, false, List, [], ◌∷◌, ◌++◌, length, ◌≡◌, refl,
  ap, arith, ◌⊎◌, inl, inr,
}
use ethgas_reth.Rpc.PubSub.Latest.{
  SlowSubscriberLimits, Phase, waiting, reading, sending, queueing, over, Pipe, Event, access,
  other_counted, other_queued, other, written, step, tail,
}

-- The messages of the subscription.
abbrev pub own : List Bool → ℕ
own [] = 0
own (is_own ∷ buffer) = if is_own then suc (own buffer) else own buffer

-- Whether the task is between two of its accesses.
abbrev pub is_busy : Phase → Bool
is_busy waiting = false
is_busy (reading held) = true
is_busy sending = true
is_busy (queueing total) = true
is_busy over = false

-- One more for a message of another subscription that is counted while this one's task is busy, or that is not
-- queued as it is counted.
abbrev pub raced : Event → Phase → ℕ → ℕ
raced (access now succeeds) phase r = r
raced other_counted phase r = suc r
raced other_queued phase r = r
raced other phase r = if is_busy phase then suc r else r
raced written phase r = r

abbrev pub races : SlowSubscriberLimits → List Event → Pipe → ℕ
races limits [] s = 0
races limits (event ∷ events) s = raced event s.phase (races limits events (step limits event s))

pub raced_add :
    (event : Event) (phase : Phase) (n r : ℕ) → n + raced event phase r ≡ raced event phase n + r
raced_add (access now succeeds) phase n r = refl
raced_add other_counted phase n r = omega arith
raced_add other_queued phase n r = refl
raced_add other phase n r = ground arith
raced_add written phase n r = refl

-- Each own message has at least so many messages behind it.
abbrev pub HasBehind : ℕ → List Bool → Type 0
HasBehind b [] = Unit
HasBehind b (is_own ∷ buffer) = (is_own ≡ true → b ≤ length buffer) × HasBehind b buffer

pub HasBehind-zero : (buffer : List Bool) → HasBehind 0 buffer
HasBehind-zero [] = tt
HasBehind-zero (is_own ∷ buffer) = (λ _. omega arith, HasBehind-zero buffer)

length-append-one :
    (buffer : List Bool) (x : Bool) → length (buffer ++ x ∷ []) ≡ suc (length buffer)
length-append-one [] x = refl
length-append-one (y ∷ buffer) x = ap suc (length-append-one buffer x)

pub HasBehind-append :
    (b : ℕ) (buffer : List Bool) → HasBehind b buffer → HasBehind (suc b) (buffer ++ false ∷ [])
HasBehind-append b [] h = (λ e. absurd (ground (arith, e)), tt)
HasBehind-append b (is_own ∷ buffer) (first, h) = (
  λ e. let long = first e in ground (arith, long, length-append-one buffer false),
  HasBehind-append b buffer h,
)

pub HasBehind-less : (b : ℕ) (buffer : List Bool) → HasBehind (suc b) buffer → HasBehind b buffer
HasBehind-less b [] h = tt
HasBehind-less b (is_own ∷ buffer) (first, h) =
    (λ e. let long = first e in omega (arith, long), HasBehind-less b buffer h)

pub HasBehind-tail : (b : ℕ) (buffer : List Bool) → HasBehind b buffer → HasBehind b (tail buffer)
HasBehind-tail b [] h = tt
HasBehind-tail b (is_own ∷ buffer) (_, h) = h

pub HasBehind-length :
    (b : ℕ) (buffer : List Bool) → HasBehind b buffer → (own buffer ≡ 0) ⊎ (b < length buffer)
HasBehind-length b [] h = inl refl
HasBehind-length b (true ∷ buffer) (first, h) = inr (let long = first refl in omega (arith, long))
HasBehind-length b (false ∷ buffer) (_, h) = elim (HasBehind-length b buffer h) [
  | inl free ↦ inl free
  | inr long ↦ inr (omega (arith, long))
]

pub own-append :
    (buffer : List Bool) (is_own : Bool)
    → own (buffer ++ is_own ∷ []) ≡ (if is_own then suc (own buffer) else own buffer)
own-append [] is_own = refl
own-append (first ∷ buffer) is_own = ground (arith, own-append buffer is_own)

pub own-tail : (buffer : List Bool) → own (tail buffer) ≤ own buffer
own-tail [] = omega arith
own-tail (is_own ∷ buffer) = ground arith
