-- ===== src/Rpc/PubSub/Latest/Buffered.antt =====
-- `pipe_latest` of crates/execution/flashblocks/src/rpc/pubsub.rs: what a client that does not read
-- makes the node hold.
use mathlib.Core.Option
use ethgas_reth.Rpc.PubSub.Latest
use ethgas_reth.Base.{
  ℕ, suc, ◌+◌, ◌-◌, ◌≤◌, ◌<◌, leb, Bool, true, false, List, [], ◌∷◌, ◌++◌, Option, length, u64_mod,
  ◌≡◌, refl, arith, Bool-cases, inl, inr,
}
use ethgas_reth.Rpc.PubSub.Latest.{
  SlowSubscriberLimits, has_left, Phase, waiting, reading, sending, queueing, over, Pipe, Event,
  access, other_counted, other_queued, other, written, previous_queued, counted, skip, decide,
  count_message, queue_message, advance, step, run, new,
}
use ethgas_reth.Rpc.PubSub.Latest.Since.{
  Since, Any, Since-le, Since-counted, Since-queued, Since-written, Since-Any, Since-other,
  Since-read, Since-left,
}
use ethgas_reth.Rpc.PubSub.Latest.Racing.{
  own, raced, raced_add, races, HasBehind-zero, own-append, own-tail,
}

-- What is known in each phase, after `r` races.
abbrev Kept : Phase → Option ℕ → ℕ → List Bool → ℕ → Type 0
Kept waiting previous total buffer r = Since Any previous total buffer r
Kept (reading held) previous total buffer r = Since (λ b. b < held) previous total buffer r
Kept sending previous total buffer r = own buffer ≤ r
Kept (queueing n) previous total buffer r = (u : ℕ) × (total ≤ n + u) × (own buffer + u ≤ r)
Kept over previous total buffer r = own buffer ≤ suc r

abbrev IsKept : Pipe → ℕ → Type 0
IsKept s r = Kept s.phase s.previous_at s.queued_total s.buffer r

counted-Kept :
    (phase : Phase) (previous : Option ℕ) (total : ℕ) (buffer : List Bool) (r : ℕ)
    → Kept phase previous total buffer r
    → Kept phase previous (suc total) buffer (suc r)
counted-Kept waiting previous total buffer r h = Since-counted Any previous total buffer r h
counted-Kept (reading held) previous total buffer r h =
    Since-counted (λ b. b < held) previous total buffer r h
counted-Kept sending previous total buffer r h = omega (arith, h)
counted-Kept (queueing n) previous total buffer r (u, near, few) =
    (suc u, omega (arith, near), omega (arith, few))
counted-Kept over previous total buffer r h = omega (arith, h)

queued-Kept :
    (phase : Phase) (previous : Option ℕ) (total : ℕ) (buffer : List Bool) (r : ℕ)
    → Kept phase previous total buffer r
    → Kept phase previous total (buffer ++ false ∷ []) r
queued-Kept waiting previous total buffer r h = Since-queued Any previous total buffer r h
queued-Kept (reading held) previous total buffer r h =
    Since-queued (λ b. b < held) previous total buffer r h
queued-Kept sending previous total buffer r h = omega (arith, h, own-append buffer false)
queued-Kept (queueing n) previous total buffer r (u, near, few) =
    (u, near, omega (arith, few, own-append buffer false))
queued-Kept over previous total buffer r h = omega (arith, h, own-append buffer false)

written-Kept :
    (phase : Phase) (previous : Option ℕ) (total : ℕ) (buffer : List Bool) (r : ℕ)
    → Kept phase previous total buffer r
    → Kept phase previous total (Latest.tail buffer) r
written-Kept waiting previous total buffer r h = Since-written Any previous total buffer r h
written-Kept (reading held) previous total buffer r h =
    Since-written (λ b. b < held) previous total buffer r h
written-Kept sending previous total buffer r h = omega (arith, h, own-tail buffer)
written-Kept (queueing n) previous total buffer r (u, near, few) =
    (u, near, omega (arith, few, own-tail buffer))
written-Kept over previous total buffer r h = omega (arith, h, own-tail buffer)

-- Only in a busy phase is the message a race.
other-Kept :
    (phase : Phase) (previous : Option ℕ) (total : ℕ) (buffer : List Bool) (r : ℕ)
    → Kept phase previous total buffer r
    → Kept phase previous (suc total) (buffer ++ false ∷ []) (raced other phase r)
other-Kept waiting previous total buffer r h = Since-other previous total buffer r h
other-Kept over previous total buffer r h = omega (arith, h, own-append buffer false)
other-Kept (reading held) previous total buffer r h =
    queued-Kept (reading held) previous (suc total) buffer (suc r)
      (counted-Kept (reading held) previous total buffer r h)
other-Kept sending previous total buffer r h =
    queued-Kept sending previous (suc total) buffer (suc r)
      (counted-Kept sending previous total buffer r h)
other-Kept (queueing n) previous total buffer r h =
    queued-Kept (queueing n) previous (suc total) buffer (suc r)
      (counted-Kept (queueing n) previous total buffer r h)

-- The total is not at the end of its range.
abbrev HasRoom : Pipe → ℕ → Type 0
HasRoom s n = s.queued_total + n < u64_mod

counted_lem : (s : Pipe) (n : ℕ) → HasRoom s (suc n) → counted s ≡ suc s.queued_total
counted_lem s n h = omega (arith, h)

decide-IsKept :
    (limits : SlowSubscriberLimits) (held now : ℕ) (s : Pipe) (r : ℕ)
    → Kept (reading held) s.previous_at s.queued_total s.buffer r
    → IsKept (decide limits held now s) r
unfolding decide skip
decide-IsKept limits held now s r h =
    elim (Bool-cases (previous_queued s.previous_at held s.queued_total)) [
      | inr left ↦ rw left (Since-left s.previous_at held s.queued_total s.buffer r left h)
      | inl waits ↦
          elim (Bool-cases (leb limits.timeout (now - Option.get_or s.skipping_since now))) [
            | inl long ↦
                rw (waits, long)
                  (Since-le (λ b. b < held) s.previous_at s.queued_total s.buffer r h)
            | inr brief ↦
                rw (waits, brief)
                  (Since-Any (λ b. b < held) s.previous_at s.queued_total s.buffer r h)
          ]
    ]

advance-IsKept :
    (limits : SlowSubscriberLimits) (now : ℕ) (succeeds : Bool) (phase : Phase) (s : Pipe) (n r : ℕ)
    → HasRoom s (suc n)
    → s.phase ≡ phase
    → Kept phase s.previous_at s.queued_total s.buffer r
    → IsKept (advance limits now succeeds phase s) r
unfolding advance count_message queue_message
advance-IsKept limits now true waiting s n r room e h =
    Since-read s.previous_at s.queued_total s.buffer r h
advance-IsKept limits now false waiting s n r room e h =
    Since-le Any s.previous_at s.queued_total s.buffer r h
advance-IsKept limits now succeeds (reading held) s n r room e h =
    decide-IsKept limits held now s r h
advance-IsKept limits now true sending s n r room e h = (0, omega arith, omega (arith, h))
advance-IsKept limits now false sending s n r room e h = omega (arith, h)
advance-IsKept limits now true (queueing total) s n r room e (u, near, few) =
    inr (
      0,
      u,
      HasBehind-zero _,
      omega (arith, near),
      omega (arith, few, own-append s.buffer true),
      tt,
    )
advance-IsKept limits now false (queueing total) s n r room e (u, near, few) = omega (arith, few)
advance-IsKept limits now succeeds over s n r room e h = rw e h

step-IsKept :
    (limits : SlowSubscriberLimits) (event : Event) (s : Pipe) (n r : ℕ)
    → HasRoom s (suc n)
    → IsKept s r
    → IsKept (step limits event s) (raced event s.phase r)
unfolding step
step-IsKept limits (access now succeeds) s n r room h =
    advance-IsKept limits now succeeds s.phase s n r room refl h
step-IsKept limits other_counted s n r room h =
    rw (counted_lem s n room) (counted-Kept s.phase s.previous_at s.queued_total s.buffer r h)
step-IsKept limits other_queued s n r room h =
    queued-Kept s.phase s.previous_at s.queued_total s.buffer r h
step-IsKept limits other s n r room h =
    rw (counted_lem s n room) (other-Kept s.phase s.previous_at s.queued_total s.buffer r h)
step-IsKept limits written s n r room h =
    written-Kept s.phase s.previous_at s.queued_total s.buffer r h

-- A step counts one message at most.
advance-HasRoom :
    (limits : SlowSubscriberLimits) (now : ℕ) (succeeds : Bool) (phase : Phase) (s : Pipe) (n : ℕ)
    → HasRoom s (suc n)
    → HasRoom (advance limits now succeeds phase s) n
unfolding advance count_message queue_message decide skip
advance-HasRoom limits now true waiting s n room = omega (arith, room)
advance-HasRoom limits now false waiting s n room = omega (arith, room)
advance-HasRoom limits now succeeds (reading held) s n room = ground (
  arith,
  room,
  Bool-cases (previous_queued s.previous_at held s.queued_total),
  Bool-cases (leb limits.timeout (now - Option.get_or s.skipping_since now)),
)
advance-HasRoom limits now true sending s n room = omega (arith, room, counted_lem s n room)
advance-HasRoom limits now false sending s n room = omega (arith, room)
advance-HasRoom limits now true (queueing total) s n room = omega (arith, room)
advance-HasRoom limits now false (queueing total) s n room = omega (arith, room)
advance-HasRoom limits now succeeds over s n room = omega (arith, room)

step-HasRoom :
    (limits : SlowSubscriberLimits) (event : Event) (s : Pipe) (n : ℕ)
    → HasRoom s (suc n)
    → HasRoom (step limits event s) n
unfolding step
step-HasRoom limits (access now succeeds) s n room =
    advance-HasRoom limits now succeeds s.phase s n room
step-HasRoom limits other_counted s n room = omega (arith, room, counted_lem s n room)
step-HasRoom limits other_queued s n room = omega (arith, room)
step-HasRoom limits other s n room = omega (arith, room, counted_lem s n room)
step-HasRoom limits written s n room = omega (arith, room)

IsKept-le :
    (s : Pipe) (phase : Phase) (r : ℕ)
    → Kept phase s.previous_at s.queued_total s.buffer r
    → own s.buffer ≤ suc r
IsKept-le s waiting r h = Since-le Any s.previous_at s.queued_total s.buffer r h
IsKept-le s (reading held) r h = Since-le (λ b. b < held) s.previous_at s.queued_total s.buffer r h
IsKept-le s sending r h = omega (arith, h)
IsKept-le s (queueing n) r (u, _, few) = omega (arith, few)
IsKept-le s over r h = h

run-own-le :
    (limits : SlowSubscriberLimits) (events : List Event) (s : Pipe) (r : ℕ)
    → HasRoom s (length events)
    → IsKept s r
    → own (run limits events s).buffer ≤ suc (races limits events s + r)
unfolding run
run-own-le limits [] s r room h = omega (arith, IsKept-le s s.phase r h)
run-own-le limits (event ∷ events) s r room h =
    let few =
      run-own-le limits events (step limits event s) (raced event s.phase r)
        (step-HasRoom limits event s (length events) room)
        (step-IsKept limits event s (length events) r room h) in
    omega (arith, few, raced_add event s.phase (races limits events (step limits event s)) r)

-- A subscription to whole blocks, new on a connection that has nothing buffered, never has more
-- messages in the buffer than one and the races before: the messages of other subscriptions that
-- were counted while its task was between two accesses, from reading the buffer's length to
-- queueing its own message, or that were not queued as they were counted. The accesses of all
-- tasks come in any order; the total stays in the range of `u64`.
pub run-new-own-le :
    (limits : SlowSubscriberLimits) (total : ℕ) (events : List Event)
    → total + length events < u64_mod
    → own (run limits events (new total)).buffer ≤ suc (races limits events (new total))
unfolding new
run-new-own-le limits total events room =
    let few = run-own-le limits events (new total) 0 room refl in omega (arith, few)
